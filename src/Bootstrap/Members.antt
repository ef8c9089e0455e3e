-- ===== src/Bootstrap/Members.antt =====
-- The set of includers that `GetMembers` makes of a network.
use mathlib.Core.List.{Perm}
use mathlib.Core.List.Perm
use unison.Base.{
  suc, ◌*◌, ◌≡◌, ◌⊎◌, ◌<◌, ◌↔◌, ◌∙◌, refl, sym, ap, Bool, List, [], ◌∷◌, ◌++◌, map, All, arith,
  length, inl, inr,
}
use unison.Messages.{public_key_size}
use unison.Crypto.Signing.{bytes_to_pub_key-exact}
use unison.Quorum.{Includer, Includers}
use unison.Quorum.Stake.{stake_sum}
use unison.Quorum.Total.{IsValidSet, HasStake}
use unison.Quorum.IncluderSet.{new_includer, new_includers_set, IsSort}
use unison.Quorum.IncluderSet.Canonical.{new_includers_set-canonical, new_includers_set-IsValidSet}
use unison.Bootstrap.{
  Service, StoredKey, MembersError, no_key, unreadable, raw, Gathered, gathered, failed, panicked,
  default_stake, collect, get_members,
}

-- The peer has a key of 32 bytes.
abbrev pub HasKey : StoredKey → Type 0
HasKey no_key = ⊥
HasKey unreadable = ⊥
HasKey (raw key_bytes) = length key_bytes ≡ public_key_size

-- The includer of a peer that has a key.
abbrev member : StoredKey → Includer
member no_key = record { pub_key = []; stake = default_stake }
member unreadable = record { pub_key = []; stake = default_stake }
member (raw key_bytes) = record { pub_key = key_bytes; stake = default_stake }

append_assoc : {A : Type 0} (xs ys zs : List A) → (xs ++ ys) ++ zs ≡ xs ++ (ys ++ zs)
append_assoc [] ys zs = refl
append_assoc (x ∷ xs) ys zs = ap (◌∷◌ x) (append_assoc xs ys zs)

append_nil : {A : Type 0} (xs : List A) → xs ++ [] ≡ xs
append_nil [] = refl
append_nil (x ∷ xs) = ap (◌∷◌ x) (append_nil xs)

-- The loop appends the includers of peers that all have keys.
collect-HasKey :
    (incls : List Includer) (peers : List StoredKey)
    → All HasKey peers
    → collect incls peers ≡ gathered (incls ++ map member peers)
unfolding collect new_includer
collect-HasKey incls [] h = ap gathered (sym (append_nil incls))
collect-HasKey incls (no_key ∷ peers) h = absurd h.0
collect-HasKey incls (unreadable ∷ peers) h = absurd h.0
collect-HasKey incls (raw bs ∷ peers) h = elim (bytes_to_pub_key-exact bs) [
  | inr (n, _) ↦ absurd (n h.0)
  | inl (_, e) ↦
      rw (e, collect)
        (collect-HasKey (incls ++ member (raw bs) ∷ []) peers h.1
          ∙ ap gathered (append_assoc incls (member (raw bs) ∷ []) (map member peers)))
]

gathered_cases :
    {A : Type 0} (g : Gathered A)
    → ((a : A) × (g ≡ gathered a)) ⊎ ((e : MembersError) × (g ≡ failed e)) ⊎ (g ≡ panicked)
gathered_cases (gathered a) = inl (a, refl)
gathered_cases (failed e) = inr (inl (e, refl))
gathered_cases panicked = inr (inr refl)

-- Only peers that all have keys are gathered.
gathered-HasKey :
    (incls : List Includer) (peers : List StoredKey) (all : List Includer)
    → collect incls peers ≡ gathered all
    → All HasKey peers
unfolding collect
gathered-HasKey incls [] all h = tt
gathered-HasKey incls (no_key ∷ peers) all h = cc
gathered-HasKey incls (unreadable ∷ peers) all h = cc
gathered-HasKey incls (raw bs ∷ peers) all h = elim (bytes_to_pub_key-exact bs) [
  | inr (_, e) ↦ absurd (ground (arith, e))
  | inl (size, e) ↦
      let rest : collect (incls ++ new_includer bs default_stake ∷ []) peers ≡ gathered all =
        ground (arith, e) in
      (size, gathered-HasKey (incls ++ new_includer bs default_stake ∷ []) peers all rest)
]

members-stake : (peers : List StoredKey) → stake_sum (map member peers) ≡ 1000 * length peers
members-stake [] = refl
members-stake (no_key ∷ peers) = omega (arith, members-stake peers)
members-stake (unreadable ∷ peers) = omega (arith, members-stake peers)
members-stake (raw bs ∷ peers) = omega (arith, members-stake peers)

members-HasStake : (peers : List StoredKey) → All HasStake (map member peers)
members-HasStake [] = tt
members-HasStake (no_key ∷ peers) = (ground arith, members-HasStake peers)
members-HasStake (unreadable ∷ peers) = (ground arith, members-HasStake peers)
members-HasStake (raw bs ∷ peers) = (ground arith, members-HasStake peers)

module _ (sort : (Includer → Includer → Bool) → List Includer → List Includer) where
  gathered-keys :
      (serv : Service) (peers : List StoredKey) (incl : Includers)
      → get_members sort serv peers ≡ gathered incl
      → All HasKey peers
  unfolding get_members
  gathered-keys serv peers incl h =
      elim (gathered_cases (collect (new_includer serv.self_public_key default_stake ∷ []) peers)) [
        | inl (all, e) ↦
            gathered-HasKey (new_includer serv.self_public_key default_stake ∷ []) peers all e
        | inr (inl (x, e)) ↦ absurd (ground (arith, e))
        | inr (inr e) ↦ absurd (ground (arith, e))
      ]

  get_members-HasKey :
      (serv : Service) (peers : List StoredKey)
      → All HasKey peers
      → get_members sort serv peers
        ≡ gathered (new_includers_set sort (map member (raw serv.self_public_key ∷ peers)))
  unfolding get_members new_includer
  get_members-HasKey serv peers h =
      rw
        (get_members, collect-HasKey (new_includer serv.self_public_key default_stake ∷ []) peers h)
        refl

  -- `GetMembers` returns a set exactly when the peer store holds a key of 32 bytes for every connected
  -- peer; for any other network it returns an error or panics.
  pub get_members-gathered_iff :
      (serv : Service) (peers : List StoredKey)
      → ((incl : Includers) × (get_members sort serv peers ≡ gathered incl)) ↔ All HasKey peers
  get_members-gathered_iff serv peers =
      (λ h. gathered-keys serv peers h.0 h.1, λ h. (_, get_members-HasKey serv peers h))

  module _ (doc : IsSort sort) where
    -- Two nodes that see the same network, each the others as its peers and itself, in whatever order,
    -- make the very same set of includers.
    pub get_members_agree :
        (serv serv' : Service) (peers peers' : List StoredKey) (incl incl' : Includers)
        → get_members sort serv peers ≡ gathered incl
        → get_members sort serv' peers' ≡ gathered incl'
        → Perm (raw serv.self_public_key ∷ peers) (raw serv'.self_public_key ∷ peers')
        → incl ≡ incl'
    get_members_agree serv serv' peers peers' incl incl' h h' p =
        let made = get_members-HasKey serv peers (gathered-keys serv peers incl h) in
        let made' = get_members-HasKey serv' peers' (gathered-keys serv' peers' incl' h') in
        let same_set =
          new_includers_set-canonical sort doc (map member (raw serv.self_public_key ∷ peers))
            (map member (raw serv'.self_public_key ∷ peers')) (Perm.map member p) in
        cc

    -- The set that `GetMembers` makes of fewer than 1,152,921,504,606,846 peers is valid: no quorum over
    -- it panics or clips a stake, and its total stake is 1000 for the node and for each of its peers.
    pub get_members-IsValidSet :
        (serv : Service) (peers : List StoredKey) (incl : Includers)
        → length peers < 1152921504606846
        → get_members sort serv peers ≡ gathered incl
        → IsValidSet incl × (stake_sum incl.includers ≡ 1000 * suc (length peers))
    get_members-IsValidSet serv peers incl bound h =
        let everyone = raw serv.self_public_key ∷ peers in
        let total = members-stake everyone in
        let made = get_members-HasKey serv peers (gathered-keys serv peers incl h) in
        let same_set : new_includers_set sort (map member everyone) ≡ incl = cc in
        let (valid, sum) =
          new_includers_set-IsValidSet sort doc (map member everyone) (members-HasStake everyone)
            (omega (arith, total)) in
        rw (← same_set) (valid, sum ∙ total)
