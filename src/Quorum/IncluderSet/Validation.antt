-- ===== src/Quorum/IncluderSet/Validation.antt =====
-- Which sets of includers `Validate` accepts.
use unison.Base.{
  ◌≡◌, ◌≢◌, ◌↔◌, refl, Option, none, some, List, [], ◌∷◌, All, arith, Option-cases, inl, inr,
}
use unison.Base.Int.{pos, ◌≤ℤ◌}
use unison.Quorum.IncluderSet.{RawIncluder, validate_includer, validate_all, validate}

-- An includer that is there, has a key, and has a stake that is not negative.
abbrev pub IsSound : Option RawIncluder → Type 0
IsSound none = ⊥
IsSound (some i) = (i.pub_key ≢ none) × (pos 0 ≤ℤ i.stake)

validate_includer-IsSound : (i : Option RawIncluder) → (validate_includer i ≡ none) ↔ IsSound i
unfolding validate_includer
validate_includer-IsSound none = (λ h. cc, λ h. absurd h)
validate_includer-IsSound (some i) = (λ h. ground arith, λ h. ground arith)

validate_all-IsSound : (is : List (Option RawIncluder)) → (validate_all is ≡ none) ↔ All IsSound is
unfolding validate_all
validate_all-IsSound [] = (λ _. tt, λ _. refl)
validate_all-IsSound (i ∷ is) = elim (Option-cases (validate_includer i)) [
  | inl e ↦
      rw (e, validate_all)
        (
          λ h. ((validate_includer-IsSound i).0 e, (validate_all-IsSound is).0 h),
          λ h. (validate_all-IsSound is).1 h.1,
        )
  | inr (x, e) ↦ (
    λ h. absurd (ground (arith, e)),
    λ h. absurd (ground (arith, e, (validate_includer-IsSound i).1 h.0)),
  )
]

-- `Validate` accepts a set exactly when it is not nil, has includers, and each of them is there, with
-- a key and a stake that is not negative.
pub validate-none_iff :
    (is : List (Option RawIncluder)) → (validate (some is) ≡ none) ↔ ((is ≢ []) × All IsSound is)
unfolding validate
validate-none_iff [] = (λ h. cc, λ h. absurd (h.0 refl))
validate-none_iff (i ∷ is) = (
  λ h. (λ e. cc, (validate_all-IsSound (i ∷ is)).0 h),
  λ h. (validate_all-IsSound (i ∷ is)).1 h.1,
)
