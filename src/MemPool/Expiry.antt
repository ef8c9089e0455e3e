-- ===== src/MemPool/Expiry.antt =====
-- One tick of `gc`: which batches it takes away, and that it keeps the pool orderly.
use unison.Base.{
  ℕ, ◌+◌, ◌*◌, ◌≤◌, ◌<◌, ◌≡◌, refl, Option, none, some, [], ◌∷◌, if◌then◌else◌, arith, Bool-cases,
  inl, inr,
}
use unison.Base.Key.{Bytes, bytes_key}
use unison.Base.Map.{Map, lookup, lookup-delete}
use unison.Base.Entries.{Unique}
use unison.MemPool.{BatchEntry, MemPool, delete_batch, expired, gc_loop, gc}
use unison.MemPool.Laws.{IsOrderly, delete_batch-IsOrderly}

-- An entry after a tick: none if a minute and more has passed since it was pushed.
abbrev pub kept : ℕ → BatchEntry → Option BatchEntry → Option BatchEntry
kept now b stored = if expired now b then none else stored

gc_loop-lookup :
    (now : ℕ) (k : Bytes) (m : Map Bytes BatchEntry) (p : MemPool)
    → Unique m
    → lookup k (gc_loop now m p).1.batches
      ≡ elim (lookup k m) [ none ↦ lookup k p.batches | some b ↦ kept now b (lookup k p.batches) ]
unfolding gc_loop delete_batch lookup
gc_loop-lookup now k [] p u = refl
gc_loop-lookup now k ((j, b) ∷ m) p u = ground (
  arith,
  gc_loop-lookup now k m p u.1,
  gc_loop-lookup now k m (delete_batch j p).1 u.1,
  lookup-delete j k p.batches,
)

-- A tick of `gc` takes away exactly the batches that were pushed more than a minute ago, in
-- nanoseconds, and leaves every other entry as it was.
pub gc-lookup :
    (now : ℕ) (k : Bytes) (p : MemPool)
    → Unique p.batches
    → (lookup k p.batches ≡ none → lookup k (gc now p).1.batches ≡ none)
      × ((b : BatchEntry)
          → lookup k p.batches ≡ some b
          → (b.time + 60 * 1000000000 < now → lookup k (gc now p).1.batches ≡ none)
            × (now ≤ b.time + 60 * 1000000000 → lookup k (gc now p).1.batches ≡ some b))
unfolding gc
gc-lookup now k p u =
    let after = gc_loop-lookup now k p.batches p u in
    (λ e. ground (arith, after), λ b e. (λ h. ground (arith, after), λ h. ground (arith, after)))

gc_loop-IsOrderly :
    (now : ℕ) (m : Map Bytes BatchEntry) (p : MemPool) → IsOrderly p → IsOrderly (gc_loop now m p).1
unfolding gc_loop
gc_loop-IsOrderly now [] p o = o
gc_loop-IsOrderly now ((j, b) ∷ m) p o = elim (Bool-cases (expired now b)) [
  | inl e ↦
      rw (e, gc_loop) (gc_loop-IsOrderly now m (delete_batch j p).1 (delete_batch-IsOrderly j p o))
  | inr e ↦ rw (e, gc_loop) (gc_loop-IsOrderly now m p o)
]

pub gc-IsOrderly : (now : ℕ) (p : MemPool) → IsOrderly p → IsOrderly (gc now p).1
unfolding gc
gc-IsOrderly now p o = gc_loop-IsOrderly now p.batches p o
