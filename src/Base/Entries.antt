-- ===== src/Base/Entries.antt =====
-- Predicates on all entries of a map, keys that stand once, and sums over the entries.
use mathlib.Core.Path.{◌≡◌, refl, subst₂}
use mathlib.Core.Logic.{if_pos, if_neg}
use unison.Base.{
  ℕ, ◌+◌, ◌≤◌, ◌≡◌, refl, sym, Option, none, some, [], ◌∷◌, All, arith, Option-cases, inl, inr,
}
use unison.Base.Key.{Key, ◌≟◌}
use unison.Base.Map.{Map, lookup, insert, delete, lookup-insert, lookup-delete}

-- What the value of a key, if there is one, counts for.
abbrev pub count_at {ℓ} : {V : Type ℓ} → (V → ℕ) → Option V → ℕ
count_at f none = 0
count_at f (some v) = f v

module _ {ℓ} {K V : Type ℓ} ⦃key : Key K⦄ where
  pub All-lookup {κ} :
      (P : K × V → Type κ) (k : K) (v : V) (m : Map K V) → All P m → lookup k m ≡ some v → P (k, v)
  unfolding lookup
  All-lookup P k v [] h e = cc
  All-lookup P k v ((j, w) ∷ m) h e = elim (j ≟ k) [
    | yes p ↦ subst₂ (λ a b. P (a, b)) p (ground arith) h.0
    | no n ↦ All-lookup P k v m h.1 (ground arith)
  ]

  pub All-insert {κ} :
      (P : K × V → Type κ) (k : K) (v : V) (m : Map K V) → All P m → P (k, v) → All P (insert k v m)
  unfolding insert
  All-insert P k v [] h p = (p, tt)
  All-insert P k v ((j, w) ∷ m) h p = elim (j ≟ k) [
    | yes e ↦ rw (if_pos _ e) (p, h.1)
    | no n ↦ rw (if_neg _ n) (h.0, All-insert P k v m h.1 p)
  ]

  pub All-delete {κ} : (P : K × V → Type κ) (k : K) (m : Map K V) → All P m → All P (delete k m)
  unfolding delete
  All-delete P k [] h = tt
  All-delete P k ((j, w) ∷ m) h = elim (j ≟ k) [
    | yes e ↦ rw (if_pos _ e) (All-delete P k m h.1)
    | no n ↦ rw (if_neg _ n) (h.0, All-delete P k m h.1)
  ]

  -- No key stands twice.
  abbrev pub Unique : Map K V → Type ℓ
  Unique [] = Unit
  Unique ((k, v) ∷ m) = (lookup k m ≡ none) × Unique m

  pub insert-Unique : (k : K) (v : V) (m : Map K V) → Unique m → Unique (insert k v m)
  unfolding insert lookup
  insert-Unique k v [] h = (refl, tt)
  insert-Unique k v ((j, w) ∷ m) h = elim (j ≟ k) [
    | yes e ↦ rw (if_pos _ e) (rw (← e) h.0, h.1)
    | no n ↦ rw (if_neg _ n) (ground (arith, lookup-insert k j v m), insert-Unique k v m h.1)
  ]

  pub delete-Unique : (k : K) (m : Map K V) → Unique m → Unique (delete k m)
  unfolding delete
  delete-Unique k [] h = tt
  delete-Unique k ((j, w) ∷ m) h = elim (j ≟ k) [
    | yes e ↦ rw (if_pos _ e) (delete-Unique k m h.1)
    | no n ↦ rw (if_neg _ n) (ground (arith, lookup-delete k j m), delete-Unique k m h.1)
  ]

  -- A number summed over the values.
  abbrev pub sum_by : (V → ℕ) → Map K V → ℕ
  sum_by f [] = 0
  sum_by f ((k, v) ∷ m) = f v + sum_by f m

  pub sum_by-insert :
      (f : V → ℕ) (k : K) (v old : V) (m : Map K V)
      → lookup k m ≡ some old
      → sum_by f (insert k v m) + f old ≡ sum_by f m + f v
  unfolding lookup insert
  sum_by-insert f k v old [] e = cc
  sum_by-insert f k v old ((j, w) ∷ m) e = ground (arith, sum_by-insert f k v old m)

  pub sum_by-insert_new :
      (f : V → ℕ) (k : K) (v : V) (m : Map K V)
      → lookup k m ≡ none
      → sum_by f (insert k v m) ≡ sum_by f m + f v
  unfolding lookup insert
  sum_by-insert_new f k v [] e = omega arith
  sum_by-insert_new f k v ((j, w) ∷ m) e = ground (arith, sum_by-insert_new f k v m)

  pub delete_absent : (k : K) (m : Map K V) → lookup k m ≡ none → delete k m ≡ m
  unfolding lookup delete
  delete_absent k [] e = refl
  delete_absent k ((j, w) ∷ m) e = ground (arith, delete_absent k m)

  pub sum_by-delete :
      (f : V → ℕ) (k : K) (old : V) (m : Map K V)
      → Unique m
      → lookup k m ≡ some old
      → sum_by f (delete k m) + f old ≡ sum_by f m
  unfolding lookup delete
  sum_by-delete f k old [] u e = cc
  sum_by-delete f k old ((j, w) ∷ m) u e = elim (j ≟ k) [
    | yes p ↦
        let absent : lookup k m ≡ none = rw (← p) u.0 in
        rw (if_pos _ p, delete_absent k m absent) (ground arith)
    | no n ↦ ground (arith, sum_by-delete f k old m u.1)
  ]

  pub le-sum_by : (f : V → ℕ) (k : K) (v : V) (m : Map K V) → lookup k m ≡ some v → f v ≤ sum_by f m
  unfolding lookup
  le-sum_by f k v [] e = cc
  le-sum_by f k v ((j, w) ∷ m) e = ground (arith, le-sum_by f k v m)

  sum_by-none :
      (f : V → ℕ) (m : Map K V)
      → Unique m
      → ((k : K) → count_at f (lookup k m) ≡ 0)
      → sum_by f m ≡ 0
  unfolding lookup
  sum_by-none f [] u h = refl
  sum_by-none f ((k, v) ∷ m) u h =
      let rest : (j : K) → count_at f (lookup j m) ≡ 0 =
        λ j. elim (k ≟ j) [ yes e ↦ rw (← e, u.0) refl | no n ↦ ground (arith, h j) ] in
      ground (arith, h k, sum_by-none f m u.1 rest)

  -- Two maps whose values count alike under every key have the same sum, in whatever order the
  -- entries stand.
  pub sum_by-agree :
      (f g : V → ℕ) (m m' : Map K V)
      → Unique m
      → Unique m'
      → ((k : K) → count_at f (lookup k m) ≡ count_at g (lookup k m'))
      → sum_by f m ≡ sum_by g m'
  unfolding lookup
  sum_by-agree f g [] m' u u' h = sym (sum_by-none g m' u' (λ k. sym (h k)))
  sum_by-agree f g ((k, v) ∷ m) m' u u' h =
      let rest : (j : K) → count_at f (lookup j m) ≡ count_at g (lookup j (delete k m')) = λ j.
        elim (k ≟ j) [
          | yes e ↦ ground (arith, u.0, lookup-delete k j m')
          | no n ↦ ground (arith, h j, lookup-delete k j m')
        ] in
      let others = sum_by-agree f g m (delete k m') u.1 (delete-Unique k m' u') rest in
      elim (Option-cases (lookup k m')) [
        | inl e ↦ rw (← delete_absent k m' e) (ground (arith, h k, e, others))
        | inr (w, e) ↦ ground (arith, h k, e, others, sum_by-delete g k w m' u' e)
      ]
