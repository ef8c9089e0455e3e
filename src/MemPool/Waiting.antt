-- ===== src/MemPool/Waiting.antt =====
-- A caller of `Pull` that waits in bapl/mem.go, until the batch is pushed.
use unison.Base.{
  ℕ, ◌≡◌, ◌≢◌, refl, ◌∙◌, sym, ap, subst, Bool-cases, none, some, List, [], ◌∷◌, ite, arith, ◌⊎◌,
  inl, inr, Option-cases, ℕ_discrete,
}
use unison.Base.Key.{Bytes, bytes_key, ◌≟◌}
use unison.Base.Map.{Map, lookup}
use unison.Messages.{Batch}
use unison.Subs.{waiting, remove_sub, subscribe, release}
use unison.Subs.Laws.{waiting-subscribe, waiting-release, waiting-cancel}
use unison.MemPool.{
  BatchEntry, MemPool, Pulled, found, waits, push_at, pull, cancel_pull, delete_batch, send_all,
  expired, gc_loop, gc,
}
use unison.MemPool.Laws.{IsOrderly, pull-IsOrderly}
use unison.MemPool.Steps.{Call, pushes, pulls, deletes, cancels, ticks, step, step-IsOrderly}

-- The pool after a sequence of calls.
pub steps : List Call → MemPool → MemPool
steps [] p = p
steps (call ∷ calls) p = steps calls (step call p)

-- The channel is in the list.
abbrev pub Holds : ℕ → List ℕ → Type 0
Holds sub [] = ⊥
Holds sub (x ∷ xs) = (x ≡ sub) ⊎ Holds sub xs

-- The batch is sent on the channel.
abbrev pub Sent : ℕ → Batch → List (ℕ × Batch) → Type 0
Sent sub batch [] = ⊥
Sent sub batch ((x, b) ∷ rest) = ((x ≡ sub) × (b ≡ batch)) ⊎ Sent sub batch rest

-- The call is not a push or a deletion of the key, and it is no cancellation by that waiter, nor one by
-- a caller whose inner map is not the registered one any more.
abbrev pub Spares : Bytes → ℕ → Call → MemPool → Type 0
Spares key sub (pushes now k batch) p = k ≢ key
Spares key sub (pulls k) p = Unit
Spares key sub (deletes k) p = k ≢ key
Spares key sub (cancels k ref other) p =
    (lookup k p.batches_subs.index ≡ some ref) × (k ≡ key → other ≢ sub)
Spares key sub (ticks now) p = Unit

-- Every call of the sequence is such a call, at the pool that it finds.
abbrev pub AllSpare : Bytes → ℕ → List Call → MemPool → Type 0
AllSpare key sub [] p = Unit
AllSpare key sub (call ∷ calls) p = Spares key sub call p × AllSpare key sub calls (step call p)

-- A waiter in the list that a decision chooses.
Holds-ite :
    {P : Type 0} (d : Dec P) (sub : ℕ) (xs ys : List ℕ)
    → (P → Holds sub xs)
    → (¬ P → Holds sub ys)
    → Holds sub (ite d xs ys)
Holds-ite (yes e) sub xs ys f g = f e
Holds-ite (no n) sub xs ys f g = g n

Holds-remove_sub :
    (sub other : ℕ) (xs : List ℕ) → other ≢ sub → Holds sub xs → Holds sub (remove_sub other xs)
unfolding remove_sub
Holds-remove_sub sub other [] apart h = absurd h
Holds-remove_sub sub other (x ∷ xs) apart (inl e) =
    Holds-ite (ℕ_discrete x other) sub _ _ (λ f. absurd (apart (sym f ∙ e))) (λ _. inl e)
Holds-remove_sub sub other (x ∷ xs) apart (inr h) =
    let rest = Holds-remove_sub sub other xs apart h in
    Holds-ite (ℕ_discrete x other) sub _ _ (λ _. rest) (λ _. inr rest)

Holds-Sent :
    (sub : ℕ) (batch : Batch) (xs : List ℕ) → Holds sub xs → Sent sub batch (send_all batch xs)
Holds-Sent sub batch [] h = absurd h
Holds-Sent sub batch (x ∷ xs) (inl e) = inl (e, refl)
Holds-Sent sub batch (x ∷ xs) (inr h) = inr (Holds-Sent sub batch xs h)

delete_batch-Holds :
    (k key : Bytes) (sub : ℕ) (p : MemPool)
    → k ≢ key
    → Holds sub (waiting key p.batches_subs)
    → Holds sub (waiting key (delete_batch k p).1.batches_subs)
unfolding delete_batch
delete_batch-Holds k key sub p apart h =
    subst (Holds sub) (sym (waiting-release k key p.batches_subs))
      (Holds-ite (k ≟ key) sub [] _ (λ e. absurd (apart e)) (λ _. h))

gc_loop-Holds :
    (now : ℕ) (key : Bytes) (sub : ℕ) (m : Map Bytes BatchEntry) (p : MemPool)
    → lookup key m ≡ none
    → Holds sub (waiting key p.batches_subs)
    → Holds sub (waiting key (gc_loop now m p).1.batches_subs)
unfolding gc_loop lookup
gc_loop-Holds now key sub [] p absent h = h
gc_loop-Holds now key sub ((j, b) ∷ m) p absent h =
    let apart : j ≢ key = λ e. absurd (ground (arith, absent, e)) in
    let later : lookup key m ≡ none = ground (arith, absent, apart) in
    elim (Bool-cases (expired now b)) [
      | inl e ↦
          rw (e, gc_loop)
            (gc_loop-Holds now key sub m (delete_batch j p).1 later
              (delete_batch-Holds j key sub p apart h))
      | inr e ↦ rw (e, gc_loop) (gc_loop-Holds now key sub m p later h)
    ]

pull-Holds :
    (k key : Bytes) (sub : ℕ) (p : MemPool)
    → IsOrderly p
    → Holds sub (waiting key p.batches_subs)
    → Holds sub (waiting key (pull k p).1.batches_subs)
unfolding pull
pull-Holds k key sub p o h = elim (Option-cases (lookup k p.batches)) [
  | inr (b, e) ↦ rw (e, pull) h
  | inl e ↦
      let more = waiting-subscribe k key p.batches_subs o.well_formed in
      rw (e, pull)
        (subst (Holds sub) (sym more) (
          Holds-ite (k ≟ key) sub _ _
            (λ f. inr (subst (λ j. Holds sub (waiting j p.batches_subs)) (sym f) h)) (λ _. h)))
]

-- The batch that somebody waits for is not in the pool.
awaited-absent :
    (key : Bytes) (sub : ℕ) (p : MemPool)
    → IsOrderly p
    → Holds sub (waiting key p.batches_subs)
    → lookup key p.batches ≡ none
awaited-absent key sub p o h = elim (Option-cases (lookup key p.batches)) [
  | inl e ↦ e
  | inr (b, e) ↦ absurd (subst (Holds sub) (o.quiet key b e) h)
]

step-Holds :
    (key : Bytes) (sub : ℕ) (call : Call) (p : MemPool)
    → IsOrderly p
    → Spares key sub call p
    → Holds sub (waiting key p.batches_subs)
    → Holds sub (waiting key (step call p).batches_subs)
unfolding step push_at cancel_pull gc
step-Holds key sub (pushes now k batch) p o apart h =
    subst (Holds sub) (sym (waiting-release k key p.batches_subs))
      (Holds-ite (k ≟ key) sub [] _ (λ e. absurd (apart e)) (λ _. h))
step-Holds key sub (pulls k) p o spared h = pull-Holds k key sub p o h
step-Holds key sub (deletes k) p o apart h = delete_batch-Holds k key sub p apart h
step-Holds key sub (cancels k ref other) p o (held, apart) h =
    let same : k ≡ key → waiting key p.batches_subs ≡ p.batches_subs.sets ref = λ e.
      subst (λ j. waiting j p.batches_subs ≡ p.batches_subs.sets ref) e (rw (held, waiting) refl) in
    subst (Holds sub) (sym (waiting-cancel k key ref other p.batches_subs o.well_formed held)) (
      Holds-ite (k ≟ key) sub _ _
        (λ e. Holds-remove_sub sub other _ (apart e) (subst (Holds sub) (same e) h)) (λ _. h))
step-Holds key sub (ticks now) p o spared h =
    gc_loop-Holds now key sub p.batches p (awaited-absent key sub p o h) h

steps-Holds :
    (key : Bytes) (sub : ℕ) (calls : List Call) (p : MemPool)
    → IsOrderly p
    → AllSpare key sub calls p
    → Holds sub (waiting key p.batches_subs)
    → Holds sub (waiting key (steps calls p).batches_subs)
unfolding steps
steps-Holds key sub [] p o spared h = h
steps-Holds key sub (call ∷ calls) p o (now, later) h =
    steps-Holds key sub calls (step call p) (step-IsOrderly call p o) later
      (step-Holds key sub call p o now h)

-- A `Pull` that waits does so on the channel that it subscribes.
fresh_pull :
    (key : Bytes) (p : MemPool)
    → lookup key p.batches ≡ none
    → ((pull key p).0 ≡ waits (subscribe key p.batches_subs).0.0 (subscribe key p.batches_subs).0.1)
      × ((pull key p).1.batches_subs ≡ (subscribe key p.batches_subs).1)
unfolding pull
fresh_pull key p e = rw (e, pull) (refl, refl)

found_pull :
    (key : Bytes) (b : BatchEntry) (p : MemPool)
    → lookup key p.batches ≡ some b
    → (pull key p).0 ≡ found b.batch
unfolding pull
found_pull key b p e = rw (e, pull) refl

pulled-Holds :
    (key : Bytes) (ref sub : ℕ) (p : MemPool)
    → IsOrderly p
    → (pull key p).0 ≡ waits ref sub
    → Holds sub (waiting key (pull key p).1.batches_subs)
pulled-Holds key ref sub p o e = elim (Option-cases (lookup key p.batches)) [
  | inr (b, f) ↦ let clash = sym (found_pull key b p f) ∙ e in absurd (cc)
  | inl f ↦
      let (waits_there, registry) = fresh_pull key p f in
      let same = sym waits_there ∙ e in
      let mine : (subscribe key p.batches_subs).0.1 ≡ sub = cc in
      subst (λ s. Holds sub (waiting key s)) (sym registry)
        (subst (Holds sub) (sym (waiting-subscribe key key p.batches_subs o.well_formed))
          (Holds-ite (key ≟ key) sub _ _ (λ _. inl mine) (λ n. absurd (n refl))))
]

-- A caller whose `Pull` waits, in an orderly pool, is served by the next push of its batch, whatever
-- other callers and the collection of old batches do to the pool before, if no call deletes that
-- batch, the caller itself does not give up, and nobody who gives up holds an inner map that is not
-- the registered one of its key any more.
pub pull-served :
    (key : Bytes) (ref sub : ℕ) (p p₁ : MemPool) (calls : List Call) (now : ℕ) (batch : Batch)
    → IsOrderly p
    → pull key p ≡ (waits ref sub, p₁)
    → AllSpare key sub calls p₁
    → Sent sub batch (push_at now key batch (steps calls p₁)).0
unfolding push_at release
pull-served key ref sub p p₁ calls now batch o e spared =
    let there = ap (λ (x : Pulled × MemPool). x.1) e in
    let h = pulled-Holds key ref sub p o (ap (λ (x : Pulled × MemPool). x.0) e) in
    Holds-Sent sub batch _ (
      steps-Holds key sub calls p₁ (subst IsOrderly there (pull-IsOrderly key p o)) spared
        (subst (λ (q : MemPool). Holds sub (waiting key q.batches_subs)) there h))
