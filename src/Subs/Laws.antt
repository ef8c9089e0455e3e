-- ===== src/Subs/Laws.antt =====
-- Who waits after each operation of the registry, and the invariant that keeps the inner maps of
-- different keys apart.
use unison.Base.{
  ℕ, ◌<◌, ◌≡◌, refl, some, List, [], ◌∷◌, ite, ℕ_discrete, arith, Option-cases, inl, inr,
}
use unison.Base.Key.{Key, ◌≟◌}
use unison.Base.Map.{lookup, delete, lookup-insert, lookup-delete}
use unison.Subs.{Subs, update, remove_sub, no_subs, waiting, subscribe, release, cancel}

module _ {K : Type 0} ⦃key : Key K⦄ where
  -- The references of the outer map exist, and two keys share no inner map.
  pub record IsWellFormed (s : Subs K) : Type 0 where
    pub allocated : (k : K) (ref : ℕ) → lookup k s.index ≡ some ref → ref < s.next_set
    pub apart :
        (j k : K) (ref : ℕ) → lookup j s.index ≡ some ref → lookup k s.index ≡ some ref → j ≡ k

  pub no_subs-IsWellFormed : IsWellFormed no_subs
  unfolding no_subs lookup
  no_subs-IsWellFormed = record { allocated = λ k ref e. cc; apart = λ j k ref e f. cc }

  pub waiting-no_subs : (k : K) → waiting k no_subs ≡ []
  unfolding no_subs lookup
  waiting-no_subs k = refl

  -- `release` gives those who wait.
  pub release-waiting : (k : K) (s : Subs K) → (release k s).0 ≡ waiting k s
  unfolding release
  release-waiting k s = refl

  pub subscribe-IsWellFormed :
      (k : K) (s : Subs K) → IsWellFormed s → IsWellFormed (subscribe k s).1
  unfolding subscribe
  subscribe-IsWellFormed k s w = elim (Option-cases (lookup k s.index)) [
    | inr (ref, e) ↦ rw (e, subscribe) (record { allocated = w.allocated; apart = w.apart })
    | inl e ↦
        rw (e, subscribe)
          (record {
            allocated =
                λ j ref f. ground (arith, w.allocated j ref, lookup-insert k j s.next_set s.index);
            apart = λ i j ref f g. ground (
              arith,
              w.apart i j ref,
              w.allocated i ref,
              w.allocated j ref,
              lookup-insert k i s.next_set s.index,
              lookup-insert k j s.next_set s.index,
            );
          })
  ]

  pub release-IsWellFormed : (k : K) (s : Subs K) → IsWellFormed s → IsWellFormed (release k s).1
  unfolding release
  release-IsWellFormed k s w = record {
    allocated = λ j ref f. ground (arith, w.allocated j ref, lookup-delete k j s.index);
    apart = λ i j ref f g.
        ground (arith, w.apart i j ref, lookup-delete k i s.index, lookup-delete k j s.index);
  }

  -- The new channel waits under its key; elsewhere nothing changes.
  pub waiting-subscribe :
      (k j : K) (s : Subs K)
      → IsWellFormed s
      → waiting j (subscribe k s).1 ≡ ite (k ≟ j) ((subscribe k s).0.1 ∷ waiting k s) (waiting j s)
  unfolding subscribe
  waiting-subscribe k j s w = elim (Option-cases (lookup k s.index)) [
    | inl e ↦ elim (Option-cases (lookup j s.index)) [
      | inl f ↦ ground (arith, e, f, lookup-insert k j s.next_set s.index)
      | inr (r, f) ↦ ground (arith, e, f, w.allocated j r, lookup-insert k j s.next_set s.index)
    ]
    | inr (ref, e) ↦ elim (Option-cases (lookup j s.index)) [
      | inl f ↦ ground (arith, e, f)
      | inr (r, f) ↦ ground (arith, e, f, w.apart k j ref)
    ]
  ]

  -- Nobody is left under a released key; elsewhere nothing changes.
  pub waiting-release :
      (k j : K) (s : Subs K) → waiting j (release k s).1 ≡ ite (k ≟ j) [] (waiting j s)
  unfolding release
  waiting-release k j s = ground (arith, lookup-delete k j s.index)

  -- The set of one key changes, and its entry is deleted when the set is empty.
  waiting-shrink :
      (k j : K) (ref : ℕ) (left : List ℕ) (s : Subs K)
      → IsWellFormed s
      → lookup k s.index ≡ some ref
      → waiting j (record s {
        sets = update s.sets ref left;
        index = elim left [ [] ↦ delete k s.index | _ ∷ _ ↦ s.index ];
      })
        ≡ ite (k ≟ j) left (waiting j s)
  waiting-shrink k j ref [] s w held = elim (Option-cases (lookup j s.index)) [
    | inl f ↦ ground (arith, held, f, lookup-delete k j s.index)
    | inr (r, f) ↦ ground (arith, held, f, w.apart k j ref, lookup-delete k j s.index)
  ]
  waiting-shrink k j ref (x ∷ xs) s w held = elim (Option-cases (lookup j s.index)) [
    | inl f ↦ ground (arith, held, f)
    | inr (r, f) ↦ ground (arith, held, f, w.apart k j ref)
  ]

  -- A caller that cancels in the inner map which the outer map still holds takes out its own
  -- channel; elsewhere nothing changes.
  pub waiting-cancel :
      (k j : K) (ref sub : ℕ) (s : Subs K)
      → IsWellFormed s
      → lookup k s.index ≡ some ref
      → waiting j (cancel k ref sub s) ≡ ite (k ≟ j) (remove_sub sub (s.sets ref)) (waiting j s)
  unfolding cancel
  waiting-cancel k j ref sub s w held =
      waiting-shrink k j ref (remove_sub sub (s.sets ref)) s w held

  -- A caller that cancels in an inner map which the outer map no longer holds, and in which it is
  -- alone, deletes the entry that others have made since: whoever waits under the key is forgotten.
  pub cancel_stale :
      (k : K) (ref sub : ℕ) (s : Subs K)
      → remove_sub sub (s.sets ref) ≡ []
      → waiting k (cancel k ref sub s) ≡ []
  unfolding cancel
  cancel_stale k ref sub s alone = rw (alone, cancel) (ground (arith, lookup-delete k k s.index))

  pub cancel-IsWellFormed :
      (k : K) (ref sub : ℕ) (s : Subs K) → IsWellFormed s → IsWellFormed (cancel k ref sub s)
  unfolding cancel
  cancel-IsWellFormed k ref sub s w = shrink (remove_sub sub (s.sets ref))
    where
      shrink :
          (left : List ℕ)
          → IsWellFormed (record s {
            sets = update s.sets ref left;
            index = elim left [ [] ↦ delete k s.index | _ ∷ _ ↦ s.index ];
          })
      shrink [] = record {
        allocated = λ j r f. ground (arith, w.allocated j r, lookup-delete k j s.index);
        apart = λ i j r f g.
            ground (arith, w.apart i j r, lookup-delete k i s.index, lookup-delete k j s.index);
      }
      shrink (x ∷ xs) = record { allocated = w.allocated; apart = w.apart }

  shrink_nil :
      (k j : K) (ref sub : ℕ) (left : List ℕ) (s : Subs K)
      → remove_sub sub (s.sets ref) ≡ left
      → waiting j s ≡ []
      → waiting j (record s {
        sets = update s.sets ref left;
        index = elim left [ [] ↦ delete k s.index | _ ∷ _ ↦ s.index ];
      })
        ≡ []
  unfolding remove_sub
  shrink_nil k j ref sub [] s e h = ground (arith, lookup-delete k j s.index)
  shrink_nil k j ref sub (x ∷ xs) s e h = elim (Option-cases (lookup j s.index)) [
    | inl f ↦ ground (arith, f)
    | inr (r, f) ↦ elim (ℕ_discrete ref r) [
      | no n ↦ ground (arith, f, h)
      | yes p ↦
          let none_there : s.sets ref ≡ [] = ground (arith, f, h, p) in
          absurd (ground (arith, rw none_there at e))
    ]
  ]

  -- Where nobody waits, nobody waits after a cancellation, whatever inner map it was in.
  pub waiting-cancel_nil :
      (k j : K) (ref sub : ℕ) (s : Subs K) → waiting j s ≡ [] → waiting j (cancel k ref sub s) ≡ []
  unfolding cancel
  waiting-cancel_nil k j ref sub s h = shrink_nil k j ref sub (remove_sub sub (s.sets ref)) s refl h
