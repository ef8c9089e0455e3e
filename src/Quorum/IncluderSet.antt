-- ===== src/Quorum/IncluderSet.antt =====
-- dag/quorum/includer.go: how a set of includers is made, ordered and validated. `sort.Sort` is an
-- argument with its documented behaviour.
pub mod Order
pub mod Canonical
pub mod Validation
pub mod Examples
use mathlib.Core.List.{Perm, Pairwise}
use unison.Base.{
  ℕ, ◌≡◌, ◌≢◌, ◌⊎◌, Bool, true, false, Option, none, some, List, [], ◌∷◌, ◌&&◌, ltb, if◌then◌else◌,
}
use unison.Base.Int.{ℤ, pos, ltb_ℤ, leb_ℤ}
use unison.Base.Key.{Bytes}
use unison.Messages.{PublicKey}
use unison.Quorum.{Includer, Includers}

-- `NewIncluder`
unfoldable pub new_includer : PublicKey → ℤ → Includer
new_includer pub_key stake = record { pub_key = pub_key; stake = stake }

-- `bytes.Compare(a, b) == -1`: the first difference decides, and a proper prefix is less.
pub bytes_less : Bytes → Bytes → Bool
bytes_less [] [] = false
bytes_less [] (y ∷ ys) = true
bytes_less (x ∷ xs) [] = false
bytes_less (x ∷ xs) (y ∷ ys) =
    let rest = bytes_less xs ys in if ltb x y then true else if ltb y x then false else rest

-- `Includers.Less` of the two includers at its indices.
pub less : Includer → Includer → Bool
unfolding bytes_less
less a b =
    if leb_ℤ a.stake b.stake && leb_ℤ b.stake a.stake
    then bytes_less a.pub_key b.pub_key
    else ltb_ℤ b.stake a.stake

-- An order that `sort.Sort` sorts by: a strict weak order.
pub record IsStrictOrder {A : Type 0} (lt : A → A → Bool) : Type 0 where
  pub irreflexive : (a : A) → lt a a ≡ false
  pub transitive : (a b c : A) → lt a b ≡ true → lt b c ≡ true → lt a c ≡ true
  pub negatively_transitive : (a b c : A) → lt a b ≡ false → lt b c ≡ false → lt a c ≡ false

-- In ascending order: no later element is less than an earlier one.
abbrev pub IsAscending : {A : Type 0} → (A → A → Bool) → List A → Type 0
IsAscending lt = Pairwise (λ a b. lt b a ≡ false)

-- What `sort.Sort` documents: it permutes the elements, into ascending order.
pub record IsSort (sort : (Includer → Includer → Bool) → List Includer → List Includer)
    : Type 0 where
  pub permutes : (lt : Includer → Includer → Bool) (v : List Includer) → Perm (sort lt v) v
  pub ascends :
      (lt : Includer → Includer → Bool) (v : List Includer)
      → IsStrictOrder lt
      → IsAscending lt (sort lt v)

-- `NewIncludersSet`
pub new_includers_set :
    ((Includer → Includer → Bool) → List Includer → List Includer) → List Includer → Includers
unfolding less
new_includers_set sort v = record { includers = sort less v; total_stake = pos 0 }

-- An includer as `Validate` may find it: a nil key is `none`.
pub record RawIncluder : Type 0 where
  pub pub_key : Option PublicKey
  pub stake : ℤ

pub data ValidateError : Type 0 where
  nil_includer no_public_key negative_stake no_includers : ValidateError

-- `Includer.Validate`, of a nil pointer too; `none` is nil.
pub validate_includer : Option RawIncluder → Option ValidateError
validate_includer none = some nil_includer
validate_includer (some i) = elim i.pub_key [
  | none ↦ some no_public_key
  | some _ ↦ if ltb_ℤ i.stake (pos 0) then some negative_stake else none
]

-- The loop of `Includers.Validate`.
pub validate_all : List (Option RawIncluder) → Option ValidateError
unfolding validate_includer
validate_all [] = none
validate_all (i ∷ is) =
    let rest = validate_all is in elim (validate_includer i) [ none ↦ rest | some e ↦ some e ]

-- `Includers.Validate`; a nil set is `none`.
pub validate : Option (List (Option RawIncluder)) → Option ValidateError
unfolding validate_all
validate none = some no_includers
validate (some []) = some no_includers
validate (some (i ∷ is)) = validate_all (i ∷ is)
