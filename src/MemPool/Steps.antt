-- ===== src/MemPool/Steps.antt =====
-- A pool under any sequence of calls, a search by signer, and a race that loses a waiter.
use unison.Base.{
  ℕ, suc, ◌≡◌, ◌≢◌, refl, ap, Option, none, some, List, [], ◌∷◌, All, arith, ◌⊎◌, subst,
}
use unison.Base.Key.{Bytes, bytes_key}
use unison.Base.Map.{Map, lookup, insert, delete, lookup-insert_self, lookup-delete_self}
use unison.Messages.{Batch}
use unison.Subs.{update, waiting, subscribe, release, remove_sub}
use unison.MemPool.{
  BatchEntry, MemPool, waits, push_at, pull, cancel_pull, delete_batch, batches_of, list_by_signer,
  gc, send_all,
}
use unison.MemPool.Laws.{
  IsOrderly, push_at-IsOrderly, pull-IsOrderly, cancel_pull-IsOrderly, delete_batch-IsOrderly,
}
use unison.Subs.Laws.{cancel_stale}
use unison.MemPool.Expiry.{gc-IsOrderly}

-- The critical sections of the pool, with their arguments.
pub data Call : Type 0 where
  pushes : (now : ℕ) (key : Bytes) (batch : Batch) → Call
  pulls deletes : (key : Bytes) → Call
  cancels : (key : Bytes) (ref sub : ℕ) → Call
  ticks : (now : ℕ) → Call

unfoldable pub step : Call → MemPool → MemPool
step (pushes now key batch) p = (push_at now key batch p).1
step (pulls key) p = (pull key p).1
step (deletes key) p = (delete_batch key p).1
step (cancels key ref sub) p = cancel_pull key ref sub p
step (ticks now) p = (gc now p).1

-- Every critical section of the pool, with any arguments, keeps it orderly: no subscription is
-- registered under the key of a batch that is in the pool, the registered inner maps are apart, and no
-- key stands twice. A caller whose entry was taken away is not among the registered ones.
pub step-IsOrderly : (call : Call) (p : MemPool) → IsOrderly p → IsOrderly (step call p)
unfolding step
step-IsOrderly (pushes now key batch) p o = push_at-IsOrderly now key batch p o
step-IsOrderly (pulls key) p o = pull-IsOrderly key p o
step-IsOrderly (deletes key) p o = delete_batch-IsOrderly key p o
step-IsOrderly (cancels key ref sub) p o = cancel_pull-IsOrderly key ref sub p o
step-IsOrderly (ticks now) p o = gc-IsOrderly now p o

-- A batch stands in a list.
abbrev pub Listed : Batch → List Batch → Type 0
Listed b [] = ⊥
Listed b (x ∷ xs) = (x ≡ b) ⊎ Listed b xs

batches_of-All :
    (k : Bytes) (m : Map Bytes BatchEntry)
    → All (λ (b : Batch). b.signature.signer ≡ k) (batches_of k m)
unfolding batches_of
batches_of-All k [] = tt
batches_of-All k ((j, b) ∷ m) = ground (arith, batches_of-All k m)

batches_of-Listed :
    (k j : Bytes) (b : BatchEntry) (m : Map Bytes BatchEntry)
    → lookup j m ≡ some b
    → b.batch.signature.signer ≡ k
    → Listed b.batch (batches_of k m)
unfolding batches_of lookup
batches_of-Listed k j b [] e h = cc
batches_of-Listed k j b ((i, x) ∷ m) e h = ground (arith, batches_of-Listed k j b m)

-- What a round of `ListBySigner` may answer: the batches of the signer, all of them and no others,
-- or to wait when there is none.
abbrev pub Lists : Bytes → MemPool → Option (List Batch) → Type 0
Lists k p none =
    (j : Bytes) (b : BatchEntry) → lookup j p.batches ≡ some b → b.batch.signature.signer ≢ k
Lists k p (some bs) =
    (bs ≢ [])
    × All (λ (b : Batch). b.signature.signer ≡ k) bs
    × ((j : Bytes) (b : BatchEntry)
        → lookup j p.batches ≡ some b
        → b.batch.signature.signer ≡ k
        → Listed b.batch bs)

found-Lists :
    (k : Bytes) (p : MemPool) (bs : List Batch)
    → batches_of k p.batches ≡ bs
    → Lists k p (list_by_signer k p)
unfolding list_by_signer
found-Lists k p [] e =
    rw (e, list_by_signer)
      (λ j b f h. subst (Listed b.batch) e (batches_of-Listed k j b p.batches f h))
found-Lists k p (x ∷ xs) e =
    rw (e, list_by_signer)
      (
        λ n. cc,
        subst (All (λ (b : Batch). b.signature.signer ≡ k)) e (batches_of-All k p.batches),
        λ j b f h. subst (Listed b.batch) e (batches_of-Listed k j b p.batches f h),
      )

-- `ListBySigner` answers with all the batches of the signer and no others, and waits only when the
-- pool has none of them.
pub list_by_signer-Lists : (k : Bytes) (p : MemPool) → Lists k p (list_by_signer k p)
list_by_signer-Lists k p = found-Lists k p _ refl

-- The pool after a pull of a key that is neither stored nor waited for.
abbrev pulled : Bytes → MemPool → MemPool
pulled key p =
    let subs = p.batches_subs in
    record p {
      batches_subs = record subs {
        index = insert key subs.next_set subs.index;
        sets = update subs.sets subs.next_set (subs.next_sub ∷ []);
        next_set = suc subs.next_set;
        next_sub = suc subs.next_sub;
      };
    }

first_pull :
    (key : Bytes) (p : MemPool)
    → lookup key p.batches ≡ none
    → lookup key p.batches_subs.index ≡ none
    → pull key p ≡ (waits p.batches_subs.next_set p.batches_subs.next_sub, pulled key p)
unfolding pull subscribe
first_pull key p absent nobody = rw (absent, nobody, pull, subscribe) refl

-- A race that loses a waiter: a first `Pull` waits, its batch is pushed and deleted, a second `Pull`
-- waits, and the first one, whose context is done as well, takes its `ctx.Done` branch. Then nobody
-- waits under the key any more, and a later push sends nothing, though the second caller still
-- waits on its channel.
pub stale_cancel_loses_waiter :
    (key : Bytes) (batch later : Batch) (now then_ : ℕ) (p : MemPool)
    → lookup key p.batches ≡ none
    → lookup key p.batches_subs.index ≡ none
    → let first = p.batches_subs in
      let p₁ = (pull key p).1 in
      let p₂ = (push_at now key batch p₁).1 in
      let p₃ = (delete_batch key p₂).1 in
      let p₄ = (pull key p₃).1 in
      let p₅ = cancel_pull key first.next_set first.next_sub p₄ in
      ((pull key p).0 ≡ waits first.next_set first.next_sub)
      × ((pull key p₃).0 ≡ waits (suc first.next_set) (suc first.next_sub))
      × (waiting key p₄.batches_subs ≡ suc first.next_sub ∷ [])
      × (waiting key p₅.batches_subs ≡ [])
      × ((push_at then_ key later p₅).0 ≡ [])
unfolding push_at delete_batch cancel_pull release remove_sub
stale_cancel_loses_waiter key batch later now then_ p absent nobody =
    let again =
      first_pull key (delete_batch key (push_at now key batch (pulled key p)).1).1
        (lookup-delete_self key _) (lookup-delete_self key _) in
    let lost =
      cancel_stale key p.batches_subs.next_set p.batches_subs.next_sub
        (pulled key (delete_batch key (push_at now key batch (pulled key p)).1).1).batches_subs
        (ground arith) in
    rw (first_pull key p absent nobody, again)
      (
        refl,
        refl,
        ground (
          arith,
          lookup-insert_self key (suc p.batches_subs.next_set)
              (delete key (delete key (insert key p.batches_subs.next_set p.batches_subs.index))),
        ),
        lost,
        ap (send_all later) lost,
      )
