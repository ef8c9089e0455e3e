-- ===== src/MemPool.antt =====
-- bapl/mem.go: the in-memory batch pool. Each function is one critical section under `batchesMu`,
-- or the part of a method up to the point where it waits. Times are in nanoseconds; sha256 is an
-- argument.
pub mod Laws
pub mod Expiry
pub mod Steps
pub mod Waiting
mod Examples
use unison.Base.{
  ℕ, suc, ◌+◌, Bool, true, false, Option, none, some, List, [], ◌∷◌, ◌++◌, if◌then◌else◌, ltb,
  length,
}
use unison.Base.Key.{Bytes, same, bytes_key}
use unison.Base.Map.{Map, lookup, insert, delete}
use unison.Messages.{Signature, Batch}
use unison.Subs.{Subs, no_subs, waiting, subscribe, release, cancel}

pub record BatchEntry : Type 0 where
  pub batch : Batch
  pub time : ℕ

pub record MemPool : Type 0 where
  pub batches : Map Bytes BatchEntry
  pub batches_subs : Subs Bytes

pub new_mem_pool : MemPool
new_mem_pool = record { batches = []; batches_subs = no_subs }

-- What a `Pull` finds: the batch, or a channel to wait on in an inner map.
pub data Pulled : Type 0 where
  found : Batch → Pulled
  waits : (ref sub : ℕ) → Pulled

-- `Size`
pub size : MemPool → ℕ
size p = length p.batches

-- The batch for each channel.
abbrev pub send_all : Batch → List ℕ → List (ℕ × Batch)
send_all batch [] = []
send_all batch (sub ∷ subs) = (sub, batch) ∷ send_all batch subs

-- `Push` of a batch with the key `key`: the pool after it and what is sent on the channels.
pub push_at : ℕ → Bytes → Batch → MemPool → List (ℕ × Batch) × MemPool
unfolding insert
push_at now key batch p =
    let (subs, registry) = release key p.batches_subs in
    (
      send_all batch subs,
      record p {
        batches = insert key (record { batch = batch; time = now }) p.batches;
        batches_subs = registry;
      },
    )

-- `Pull` up to its `select`.
pub pull : Bytes → MemPool → Pulled × MemPool
unfolding lookup
pull key p = elim (lookup key p.batches) [
  | some r ↦ (found r.batch, p)
  | none ↦
      let ((ref, sub), registry) = subscribe key p.batches_subs in
      (waits ref sub, record p { batches_subs = registry })
]

-- The end of a `Pull` whose context is done.
pub cancel_pull : Bytes → ℕ → ℕ → MemPool → MemPool
cancel_pull key ref sub p = record p { batches_subs = cancel key ref sub p.batches_subs }

-- `Delete`: the pool after it and the channels that are closed.
unfoldable pub delete_batch : Bytes → MemPool → List ℕ × MemPool
unfolding delete
delete_batch key p =
    let (subs, registry) = release key p.batches_subs in
    (subs, record { batches = delete key p.batches; batches_subs = registry })

-- The loop of `ListBySigner`.
unfoldable pub batches_of : Bytes → Map Bytes BatchEntry → List Batch
batches_of key [] = []
batches_of key ((_, b) ∷ m) =
    let rest = batches_of key m in
    if same b.batch.signature.signer key then b.batch ∷ rest else rest

-- One round of `ListBySigner`; `none` when it waits for a push.
unfoldable pub list_by_signer : Bytes → MemPool → Option (List Batch)
unfolding batches_of
list_by_signer key p = elim (batches_of key p.batches) [ [] ↦ none | b ∷ bs ↦ some (b ∷ bs) ]

-- `time.Minute`
abbrev pub minute : ℕ
minute = 60000000000

-- `b.time.Add(time.Minute).Before(now)`
abbrev pub expired : ℕ → BatchEntry → Bool
expired now b = ltb (b.time + minute) now

-- The loop of `gc` over the entries that the map had when it began.
pub gc_loop : ℕ → Map Bytes BatchEntry → MemPool → List ℕ × MemPool
unfolding delete_batch
gc_loop now [] p = ([], p)
gc_loop now ((key, b) ∷ m) p =
    let (closed, p') = (if expired now b then delete_batch key p else ([], p)) in
    let (later, p'') = gc_loop now m p' in (closed ++ later, p'')

-- One tick of `gc`.
pub gc : ℕ → MemPool → List ℕ × MemPool
unfolding gc_loop
gc now p = gc_loop now p.batches p

-- `Batch.Hash` and `Push`, with the digest as the key.
module _ (sha256 : Bytes → Bytes) where
  unfoldable pub hash : Batch → Bytes
  hash batch = sha256 batch.contents

  pub push : ℕ → Batch → MemPool → List (ℕ × Batch) × MemPool
  unfolding hash push_at
  push now batch p = push_at now (hash batch) batch p
