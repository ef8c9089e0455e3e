-- ===== src/Quorum/IncluderSet/Canonical.antt =====
-- A set of includers does not depend on the order in which its members are named.
use mathlib.Core.Logic.Or
use mathlib.Core.Logic.{∥∥₁_elim}
use mathlib.Core.Path.{ap₂}
use mathlib.Core.List.{Mem, Perm, mem-cons, mem-cons_self, rel_of_Pairwise-cons}
use mathlib.Core.List.Pairwise
use mathlib.Core.List.Perm
use mathlib.Core.List.Permᴰ
use mathlib.Core.List.{Permᴰ}
use unison.Base.{
  ℕ, ◌+◌, ◌≤◌, ◌∙◌, subst, ◌≡◌, refl, ap, Bool, false, List, [], ◌∷◌, inl, inr, arith, All,
  Bool-cases,
}
use native.Mathlib.Nat.{ℕ_set}
use native.Mathlib.Bridge.{le_prop}
use unison.Base.Int.{pos_part}
use unison.Quorum.{Includer}
use unison.Quorum.Stake.{stake_sum}
use unison.Quorum.Total.{IsValidSet, HasStake, stake_limit}
use unison.Quorum.IncluderSet.{less, IsStrictOrder, IsAscending, IsSort, new_includers_set}
use unison.Quorum.IncluderSet.Order.{less-irreflexive, less_trans, less_total}

less_negatively_transitive :
    (a b c : Includer) → less a b ≡ false → less b c ≡ false → less a c ≡ false
less_negatively_transitive a b c h k = elim (Bool-cases (less a c)) [
  | inr n ↦ n
  | inl lt ↦ elim (Bool-cases (less b a)) [
    | inl lt' ↦ cc (less_trans b a c lt' lt)
    | inr n ↦ let e : a ≡ b = less_total a b h n in cc
  ]
]

-- `Less` is an order that `sort.Sort` sorts by.
pub less-IsStrictOrder : IsStrictOrder less
less-IsStrictOrder = record {
  irreflexive = less-irreflexive;
  transitive = less_trans;
  negatively_transitive = less_negatively_transitive;
}

head_first :
    {a b : Includer} {r : List Includer}
    → IsAscending less (b ∷ r)
    → Mem a (b ∷ r)
    → less a b ≡ false
head_first {a} {b} s m =
    Or.elim (hlevel) (mem-cons.0 m) (λ e. rw e (less-irreflexive b)) (λ k. rel_of_Pairwise-cons s k)

-- Two ascending lists of the same includers are one list.
ascending_unique :
    (l r : List Includer) → IsAscending less l → IsAscending less r → Perm l r → l ≡ r
ascending_unique [] r s t p = Perm.nil-eq p
ascending_unique (a ∷ l) [] s t p = Perm.eq-nil p
ascending_unique (a ∷ l) (b ∷ r) s t p =
    let heads : a ≡ b =
      less_total a b (head_first t ((Perm.mem_iff p).0 mem-cons_self))
        (head_first s ((Perm.mem_iff (Perm.symm p)).0 mem-cons_self)) in
    let tails = Perm.cons_inv (Perm.trans p (Perm.symm (Perm.cons' heads Perm.rfl))) in
    ap₂ ◌∷◌ heads (ascending_unique l r (Pairwise.of_cons s) (Pairwise.of_cons t) tails)

-- `NewIncludersSet` makes the same set of the same includers, whatever the order they come in.
pub new_includers_set-canonical :
    (sort : (Includer → Includer → Bool) → List Includer → List Includer)
    → IsSort sort
    → (v w : List Includer) → Perm v w
    → new_includers_set sort v ≡ new_includers_set sort w
unfolding new_includers_set
new_includers_set-canonical sort doc v w p =
    let same_list : sort less v ≡ sort less w =
      ascending_unique (sort less v) (sort less w) (doc.ascends less v less-IsStrictOrder)
        (doc.ascends less w less-IsStrictOrder)
        (Perm.trans (doc.permutes less v) (Perm.trans p (Perm.symm (doc.permutes less w)))) in
    ap (λ (l : List Includer). new_includers_set (λ _ _. l) v) same_list

Permᴰ-stake_sum : {v w : List Includer} → Permᴰ v w → stake_sum v ≡ stake_sum w
Permᴰ-stake_sum Permᴰ.nil = refl
Permᴰ-stake_sum (Permᴰ.cons e p) =
    ap₂ ◌+◌ (ap (λ (i : Includer). pos_part i.stake) e) (Permᴰ-stake_sum p)
Permᴰ-stake_sum (Permᴰ.swap {l = l} e f) =
    let first = ap (λ (i : Includer). pos_part i.stake) e in
    let second = ap (λ (i : Includer). pos_part i.stake) f in omega (arith, first, second)
Permᴰ-stake_sum (Permᴰ.trans p q) = Permᴰ-stake_sum p ∙ Permᴰ-stake_sum q

Permᴰ-All : {v w : List Includer} → Permᴰ v w → All HasStake v → All HasStake w
Permᴰ-All Permᴰ.nil h = h
Permᴰ-All (Permᴰ.cons e p) h = (subst HasStake e h.0, Permᴰ-All p h.1)
Permᴰ-All (Permᴰ.swap e f) h = (subst HasStake f h.1.0, (subst HasStake e h.0, h.1.1))
Permᴰ-All (Permᴰ.trans p q) h = Permᴰ-All q (Permᴰ-All p h)

HasStake-prop : (v : List Includer) → IsProp (All HasStake v)
HasStake-prop [] = hlevel
HasStake-prop (i ∷ v) =
    let rest = HasStake-prop v in
    let order : (m n : ℕ) → IsProp (m ≤ n) = λ m n. le_prop in hlevel (order, rest)

-- A set of includers with valid stakes that sum to `MaxStake` at most is valid, and keeps the sum.
pub new_includers_set-IsValidSet :
    (sort : (Includer → Includer → Bool) → List Includer → List Includer)
    → IsSort sort
    → (v : List Includer) → All HasStake v
    → stake_sum v ≤ stake_limit
    → IsValidSet (new_includers_set sort v)
      × (stake_sum (new_includers_set sort v).includers ≡ stake_sum v)
unfolding new_includers_set
new_includers_set-IsValidSet sort doc v h bound =
    let same_sum : stake_sum (sort less v) ≡ stake_sum v =
      ∥∥₁_elim (doc.permutes less v) (ℕ_set _ _) Permᴰ-stake_sum in
    let stakes : All HasStake (sort less v) =
      ∥∥₁_elim (doc.permutes less v) (HasStake-prop (sort less v))
        (λ p. Permᴰ-All (Permᴰ.symm p) h) in
    (record { stakes = stakes; bounded = omega (arith, same_sum); cached = inl refl }, same_sum)
