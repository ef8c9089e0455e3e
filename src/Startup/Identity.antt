-- ===== src/Startup/Identity.antt =====
-- How the identity of a node outlives its runs.
use unison.Base.{
  ◌≡◌, ◌≢◌, ◌⊎◌, refl, sym, ◌∙◌, ap, true, none, some, [], arith, if◌then◌else◌, Bool-cases, inl,
  inr,
}
use unison.Base.Key.{Bytes}
use unison.Base.Result.{Result, ok, err}
use unison.Startup.{
  Home, no_home, mkdir_failed, generate_failed, unmarshal_failed, read_failed, Disk, KeyFormat,
  create_key, load_key, decode_key, decoded, identity_in, get_identity,
}

-- Bytes that are loaded are in the key file.
load_key-key_file :
    (d : Disk) (home : Home) (bytes : Bytes)
    → (load_key d home).0 ≡ ok bytes
    → (load_key d home).1.key_file ≡ some bytes
unfolding load_key create_key
load_key-key_file d home bytes h = ground arith

load_key-has_dir : (d : Disk) (home : Home) → (load_key d home).1.has_dir ≡ home.has_dir
unfolding load_key create_key
load_key-has_dir d home = ground arith

-- A key file that can be opened stays as it is.
load_key-opens :
    (d : Disk) (home : Home) (bytes : Bytes)
    → home.key_file ≡ some bytes
    → d.opens ≡ true
    → load_key d home ≡ (if d.reads then ok bytes else err read_failed, home)
unfolding load_key
load_key-opens d home bytes h o = ground arith

Result-cases : {E A : Type 0} (r : Result E A) → ((a : A) × (r ≡ ok a)) ⊎ ((e : E) × (r ≡ err e))
Result-cases (ok a) = inl (a, refl)
Result-cases (err e) = inr (e, refl)

module _ {K : Type 0} (f : KeyFormat K) where
  -- What the key file holds is decoded by the runs that can open and read it.
  get_identity-opens :
      (d : Disk) (bytes : Bytes)
      → d.has_home ≡ true
      → d.opens ≡ true
      → get_identity f d (record { has_dir = true; key_file = some bytes }) ≡ (
        if d.reads then decode_key f bytes else err read_failed,
        record { has_dir = true; key_file = some bytes },
      )
  unfolding get_identity
  get_identity-opens d bytes h o =
      let loaded =
        load_key-opens d (record { has_dir = true; key_file = some bytes }) bytes refl o in
      elim (Bool-cases d.reads) [
        | inl r ↦ ground (arith, loaded, r)
        | inr r ↦ ground (arith, loaded, r)
      ]

  IsKept : Home → K × Bytes → Type 0
  IsKept home identity =
      (bytes : Bytes) × (home ≡ record { has_dir = true; key_file = some bytes })
      × (decode_key f bytes ≡ ok identity)

  identity_in-IsKept :
      (d : Disk) (home : Home) (identity : K × Bytes)
      → home.has_dir ≡ true
      → decoded f (load_key d home).0 ≡ ok identity
      → IsKept (load_key d home).1 identity
  unfolding IsKept
  identity_in-IsKept d home identity dir h = elim (Result-cases (load_key d home).0) [
    | inr (e, failed) ↦ absurd (ground (arith, failed))
    | inl (bytes, loaded) ↦ (
      bytes,
      ground (arith, load_key-key_file d home bytes loaded, load_key-has_dir d home),
      ground (arith, loaded),
    )
  ]

  -- A run that did not fail over the directories has the node's directory.
  get_identity-identity_in :
      (d : Disk) (home : Home)
      → (get_identity f d home).0 ≢ err no_home
      → (get_identity f d home).0 ≢ err mkdir_failed
      → (start : Home) × (start.has_dir ≡ true) × (get_identity f d home ≡ identity_in f d start)
  unfolding get_identity
  get_identity-identity_in d home h m = elim (Bool-cases d.has_home) [
    | inr n ↦ absurd (h (ground (arith, n)))
    | inl y ↦ elim (Bool-cases home.has_dir) [
      | inl dir ↦ (home, dir, ground (arith, y, dir))
      | inr dir ↦ elim (Bool-cases d.makes_dir) [
        | inl made ↦ (record home { has_dir = true }, refl, ground (arith, y, dir, made))
        | inr made ↦ absurd (m (ground (arith, y, dir, made)))
      ]
    ]
  ]

  get_identity-IsKept :
      (d : Disk) (home : Home) (identity : K × Bytes)
      → (get_identity f d home).0 ≡ ok identity
      → IsKept (get_identity f d home).1 identity
  get_identity-IsKept d home identity h =
      let (start, dir, whole) = get_identity-identity_in d home (λ e. cc) (λ e. cc) in
      rw whole (identity_in-IsKept d start identity dir (ap (λ t. t.0) (sym whole) ∙ h))

  -- A node keeps its identity: once a run has one, made or read, every later run that finds the home
  -- directory and can open and read the key file has the same, and leaves the file as it is.
  pub get_identity_stable :
      (d later : Disk) (home : Home) (identity : K × Bytes)
      → (get_identity f d home).0 ≡ ok identity
      → later.has_home ≡ true
      → later.opens ≡ true
      → later.reads ≡ true
      → get_identity f later (get_identity f d home).1 ≡ (ok identity, (get_identity f d home).1)
  unfolding IsKept
  get_identity_stable d later home identity h has_home opens reads =
      let (bytes, left, same) = get_identity-IsKept d home identity h in
      rw (left, get_identity-opens later bytes has_home opens, reads, same) refl

  -- The home that a failed generation leaves.
  abbrev empty_home : Home
  empty_home = record { has_dir = true; key_file = some [] }

  identity_in-empty :
      (d : Disk) (home : Home)
      → home.has_dir ≡ true
      → decoded f (load_key d home).0 ≡ err generate_failed
      → (load_key d home).1 ≡ empty_home
  unfolding load_key create_key decode_key
  identity_in-empty d home dir h = ground arith

  -- A node whose first run could not generate a key has no identity ever after: that run leaves an
  -- empty key file, and no later run that can open it returns a key, nor does it write a new one, since
  -- libp2p refuses to decode no bytes.
  pub get_identity_lost :
      (d later : Disk) (home : Home)
      → f.unmarshal [] ≡ none
      → (get_identity f d home).0 ≡ err generate_failed
      → later.has_home ≡ true
      → later.opens ≡ true
      → get_identity f later (get_identity f d home).1
        ≡ (if later.reads then err unmarshal_failed else err read_failed, (get_identity f d home).1)
  unfolding decode_key
  get_identity_lost d later home no_bytes h has_home opens =
      let (start, dir, whole) = get_identity-identity_in d home (λ e. cc) (λ e. cc) in
      let emptied = identity_in-empty d start dir (ap (λ t. t.0) (sym whole) ∙ h) in
      rw (whole, emptied, get_identity-opens later [] has_home opens)
        (ap (λ r. (if later.reads then r else err read_failed, empty_home)) nothing_decodes)
    where
      nothing_decodes : decode_key f [] ≡ err unmarshal_failed
      nothing_decodes = ground (arith, no_bytes)
