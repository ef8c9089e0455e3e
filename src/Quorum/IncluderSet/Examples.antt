-- ===== src/Quorum/IncluderSet/Examples.antt =====
-- An insertion sort that keeps what `sort.Sort` documents, and sets of includers made with it.
use mathlib.Core.Logic.Or
use mathlib.Core.List.{Perm, Pairwise, mem-cons, rel_of_Pairwise-cons, not-mem-nil}
use mathlib.Core.List.Pairwise
use mathlib.Core.List.Perm
use unison.Base.{
  ◌≡◌, refl, Bool, true, false, none, some, List, [], ◌∷◌, Bool-cases, inl, inr, if◌then◌else◌,
}
use unison.Base.Int.{pos, negsuc}
use unison.Quorum.{Includer}
use unison.Quorum.IncluderSet.{
  new_includer, bytes_less, less, IsStrictOrder, IsAscending, IsSort, new_includers_set,
  negative_stake, no_includers, validate_includer, validate_all, validate,
}
use unison.Quorum.IncluderSet.Canonical.{new_includers_set-canonical}

-- `rest` is the list with `x` put in behind its head.
abbrev place : {A : Type 0} → (A → A → Bool) → A → List A → List A
place lt x [] = x ∷ []
place lt x (y ∷ ys) = let rest = place lt x ys in if lt y x then y ∷ rest else x ∷ y ∷ ys

abbrev pub insertion_sort : {A : Type 0} → (A → A → Bool) → List A → List A
insertion_sort lt [] = []
insertion_sort lt (x ∷ xs) = place lt x (insertion_sort lt xs)

module _ {A : Type 0} (lt : A → A → Bool) where
  place-perm : (x : A) (ys : List A) → Perm (place lt x ys) (x ∷ ys)
  place-perm x [] = Perm.refl (x ∷ [])
  place-perm x (y ∷ ys) = elim (Bool-cases (lt y x)) [
    | inl e ↦ rw e (Perm.trans (Perm.cons y (place-perm x ys)) (Perm.swap x y ys))
    | inr e ↦ rw e (Perm.refl (x ∷ y ∷ ys))
  ]

  insertion_sort-perm : (xs : List A) → Perm (insertion_sort lt xs) xs
  insertion_sort-perm [] = Perm.refl []
  insertion_sort-perm (x ∷ xs) =
      Perm.trans (place-perm x (insertion_sort lt xs)) (Perm.cons x (insertion_sort-perm xs))

  module _ (order : IsStrictOrder lt) where
    not_less : (x y : A) → lt y x ≡ true → lt x y ≡ false
    not_less x y h = elim (Bool-cases (lt x y)) [
      | inr n ↦ n
      | inl k ↦ cc (order.transitive x y x k h, order.irreflexive x)
    ]

    place-IsAscending : (x : A) (ys : List A) → IsAscending lt ys → IsAscending lt (place lt x ys)
    place-IsAscending x [] s = Pairwise.cons (λ a m. absurd (not-mem-nil m)) Pairwise.nil
    place-IsAscending x (y ∷ ys) s = elim (Bool-cases (lt y x)) [
      | inl e ↦ rw e (
          Pairwise.cons
            (λ a m.
              Or.elim (hlevel) (mem-cons.0 ((Perm.mem_iff (place-perm x ys)).0 m))
                (λ p. rw p (not_less x y e)) (λ k. rel_of_Pairwise-cons s k))
            (place-IsAscending x ys (Pairwise.of_cons s)))
      | inr e ↦ rw e (
          Pairwise.cons
            (λ a m.
              Or.elim (hlevel) (mem-cons.0 m) (λ p. rw p e)
                (λ k. order.negatively_transitive a y x (rel_of_Pairwise-cons s k) e))
            s)
    ]

    insertion_sort-IsAscending : (xs : List A) → IsAscending lt (insertion_sort lt xs)
    insertion_sort-IsAscending [] = Pairwise.nil
    insertion_sort-IsAscending (x ∷ xs) =
        place-IsAscending x (insertion_sort lt xs) (insertion_sort-IsAscending xs)

pub insertion_sort-IsSort : IsSort insertion_sort
insertion_sort-IsSort = record {
  permutes = insertion_sort-perm;
  ascends = λ lt v order. insertion_sort-IsAscending lt order v;
}

abbrev small : Includer
small = record { pub_key = 9 ∷ []; stake = pos 5 }

abbrev first : Includer
first = record { pub_key = 1 ∷ 2 ∷ []; stake = pos 10 }

abbrev second : Includer
second = record { pub_key = 1 ∷ 3 ∷ []; stake = pos 10 }

-- The largest stakes come first, and the smallest key among equal stakes.
sorted :
    (new_includers_set insertion_sort (small ∷ second ∷ first ∷ [])).includers
    ≡ first ∷ second ∷ small ∷ []
unfolding new_includers_set less bytes_less
sorted = refl

made : new_includer (9 ∷ []) (pos 5) ≡ small
unfolding new_includer
made = refl

rejects_debt :
    validate (some (some (record { pub_key = some (1 ∷ []); stake = negsuc 0 }) ∷ []))
    ≡ some negative_stake
unfolding validate validate_all validate_includer
rejects_debt = refl

rejects_nothing : validate none ≡ some no_includers
unfolding validate
rejects_nothing = refl

-- The witnesses.
new_includers_set-canonical_example :
    new_includers_set insertion_sort (small ∷ first ∷ [])
    ≡ new_includers_set insertion_sort (first ∷ small ∷ [])
new_includers_set-canonical_example =
    new_includers_set-canonical insertion_sort insertion_sort-IsSort (small ∷ first ∷ [])
      (first ∷ small ∷ []) (Perm.swap first small [])
