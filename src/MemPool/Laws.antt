-- ===== src/MemPool/Laws.antt =====
-- What a pool keeps true, and what its operations do for those who wait.
use unison.Base.{none, ℕ, ◌≡◌, refl, ap, some, [], ite, arith, Option-cases, inl, inr}
use unison.Base.Key.{Bytes, ◌≟◌, bytes_key}
use unison.Base.Map.{lookup, lookup-insert, lookup-insert_self, lookup-delete}
use unison.Base.Entries.{Unique, insert-Unique, delete-Unique}
use unison.Messages.{Batch}
use unison.Subs.{waiting}
use unison.Subs.Laws.{
  IsWellFormed, no_subs-IsWellFormed, release-waiting, subscribe-IsWellFormed, release-IsWellFormed,
  cancel-IsWellFormed, waiting-subscribe, waiting-release, waiting-cancel_nil,
}
use unison.MemPool.{
  BatchEntry, MemPool, found, new_mem_pool, send_all, push_at, pull, cancel_pull, delete_batch,
}

-- No subscription is registered under the key of a batch that is in the pool, the inner maps are
-- apart, and no key stands twice.
pub record IsOrderly (p : MemPool) : Type 0 where
  pub well_formed : IsWellFormed p.batches_subs
  pub quiet :
      (key : Bytes) (b : BatchEntry)
      → lookup key p.batches ≡ some b
      → waiting key p.batches_subs ≡ []
  pub unique : Unique p.batches

-- A new pool is orderly.
pub new_mem_pool-IsOrderly : IsOrderly new_mem_pool
unfolding new_mem_pool lookup
new_mem_pool-IsOrderly = record {
  well_formed = no_subs-IsWellFormed;
  quiet = λ key b e. cc;
  unique = tt;
}

pub push_at-IsOrderly :
    (now : ℕ) (key : Bytes) (batch : Batch) (p : MemPool)
    → IsOrderly p
    → IsOrderly (push_at now key batch p).1
unfolding push_at
push_at-IsOrderly now key batch p o = record {
  well_formed = release-IsWellFormed key p.batches_subs o.well_formed;
  quiet = λ j b e. ground (
    arith,
    o.quiet j b,
    waiting-release key j p.batches_subs,
    lookup-insert key j (record { batch = batch; time = now }) p.batches,
  );
  unique = insert-Unique key (record { batch = batch; time = now }) p.batches o.unique;
}

pub pull-IsOrderly : (key : Bytes) (p : MemPool) → IsOrderly p → IsOrderly (pull key p).1
unfolding pull
pull-IsOrderly key p o = elim (Option-cases (lookup key p.batches)) [
  | inr (b, e) ↦ rw (e, pull) o
  | inl e ↦
      rw (e, pull)
        (record {
          well_formed = subscribe-IsWellFormed key p.batches_subs o.well_formed;
          quiet = λ j b f.
              ground (arith, e, o.quiet j b, waiting-subscribe key j p.batches_subs o.well_formed);
          unique = o.unique;
        })
]

pub delete_batch-IsOrderly :
    (key : Bytes) (p : MemPool) → IsOrderly p → IsOrderly (delete_batch key p).1
unfolding delete_batch
delete_batch-IsOrderly key p o = record {
  well_formed = release-IsWellFormed key p.batches_subs o.well_formed;
  quiet = λ j b e.
      ground
        (arith, o.quiet j b, waiting-release key j p.batches_subs, lookup-delete key j p.batches);
  unique = delete-Unique key p.batches o.unique;
}

pub cancel_pull-IsOrderly :
    (key : Bytes) (ref sub : ℕ) (p : MemPool) → IsOrderly p → IsOrderly (cancel_pull key ref sub p)
unfolding cancel_pull
cancel_pull-IsOrderly key ref sub p o = record {
  well_formed = cancel-IsWellFormed key ref sub p.batches_subs o.well_formed;
  quiet = λ j b e. waiting-cancel_nil key j ref sub p.batches_subs (o.quiet j b e);
  unique = o.unique;
}

-- A push serves everybody who waits for the batch, with the batch; afterwards nobody waits for it and
-- a pull finds it at once; what was stored or waited for under other keys is as before.
pub push_at-serves :
    (now : ℕ) (key : Bytes) (batch : Batch) (p : MemPool)
    → let (sent, p') = push_at now key batch p in
      let entry = let b : BatchEntry = record { batch = batch; time = now } in b in
      (sent ≡ send_all batch (waiting key p.batches_subs))
      × (pull key p' ≡ (found batch, p'))
      × ((j : Bytes) → lookup j p'.batches ≡ ite (key ≟ j) (some entry) (lookup j p.batches))
      × ((j : Bytes) → waiting j p'.batches_subs ≡ ite (key ≟ j) [] (waiting j p.batches_subs))
unfolding push_at pull
push_at-serves now key batch p =
    let entry : BatchEntry = record { batch = batch; time = now } in
    (
      ap (send_all batch) (release-waiting key p.batches_subs),
      rw (lookup-insert_self key entry p.batches, pull) refl,
      λ j. lookup-insert key j entry p.batches,
      λ j. waiting-release key j p.batches_subs,
    )

-- A deletion takes the batch of its key away and no other.
pub delete_batch-lookup :
    (key j : Bytes) (p : MemPool)
    → lookup j (delete_batch key p).1.batches ≡ ite (key ≟ j) none (lookup j p.batches)
unfolding delete_batch
delete_batch-lookup key j p = lookup-delete key j p.batches
