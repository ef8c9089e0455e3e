-- ===== src/MemPool/Examples.antt =====
-- Batches pushed, pulled and listed, and the pool's theorems at these inputs.
use unison.Base.{◌+◌, ◌*◌, ◌<◌, ◌≤◌, ◌≡◌, refl, some, none, List, [], ◌∷◌, ite, ℕ_discrete}
use unison.Base.Key.{Bytes, bytes_key, bytes_discrete, ◌≟◌}
use unison.Base.Map.{lookup, insert, delete}
use unison.Messages.{Batch}
use unison.Subs.{update, no_subs, waiting, subscribe, release, cancel, remove_sub}
use unison.MemPool.{
  BatchEntry, MemPool, new_mem_pool, found, waits, size, send_all, push_at, pull, cancel_pull,
  delete_batch, batches_of, list_by_signer, gc_loop, gc, hash, push,
}
use unison.MemPool.Laws.{IsOrderly, new_mem_pool-IsOrderly, push_at-serves}
use unison.MemPool.Expiry.{gc-lookup}
use unison.MemPool.Waiting.{steps, Sent, AllSpare, pull-served}
use unison.MemPool.Steps.{
  Call, pushes, pulls, cancels, ticks, step, step-IsOrderly, stale_cancel_loses_waiter,
}

abbrev batch : Batch
batch = record { contents = 5 ∷ []; signature = record { body = []; signer = 1 ∷ [] } }

abbrev stored : MemPool
stored = record {
  batches = (5 ∷ [], record { batch = batch; time = 7 }) ∷ [];
  batches_subs = no_subs;
}

abbrev key : Bytes
key = 5 ∷ []

-- One caller waits for the batch.
abbrev awaited : MemPool
awaited = record { batches = []; batches_subs = (subscribe (5 ∷ []) no_subs).1 }

starts_empty : size new_mem_pool ≡ 0
unfolding size new_mem_pool
starts_empty = refl

pulls_wait : pull (5 ∷ []) new_mem_pool ≡ (waits 0 0, awaited)
unfolding pull new_mem_pool subscribe no_subs
pulls_wait = refl

push_sends : (push (λ b. b) 7 batch awaited).0 ≡ (0, batch) ∷ []
unfolding push push_at hash release subscribe no_subs lookup insert bytes_discrete ℕ_discrete
push_sends = refl

push_stores : (push (λ b. b) 7 batch new_mem_pool).1.batches ≡ stored.batches
unfolding push push_at hash new_mem_pool release
push_stores = refl

cancelled : waiting (5 ∷ []) (cancel_pull (5 ∷ []) 0 0 awaited).batches_subs ≡ []
unfolding cancel_pull cancel subscribe no_subs remove_sub lookup insert delete bytes_discrete
    ℕ_discrete
cancelled = refl

deleted : delete_batch (5 ∷ []) stored ≡ ([], record stored { batches = [] })
unfolding delete_batch release delete bytes_discrete no_subs lookup
deleted = refl

listed : list_by_signer (1 ∷ []) stored ≡ some (batch ∷ [])
unfolding list_by_signer batches_of bytes_discrete
listed = refl

ages : (gc 60000000008 stored).1.batches ≡ []
unfolding gc gc_loop delete_batch delete bytes_discrete
ages = refl

stays : (gc 60000000007 stored).1.batches ≡ stored.batches
unfolding gc gc_loop
stays = refl

-- The witnesses.
step-IsOrderly_example : IsOrderly (step (pushes 7 (5 ∷ []) batch) new_mem_pool)
step-IsOrderly_example =
    step-IsOrderly (pushes 7 (5 ∷ []) batch) new_mem_pool new_mem_pool-IsOrderly

push_at-serves_example :
    let (sent, p') = push_at 7 key batch awaited in
    let entry = let b : BatchEntry = record { batch = batch; time = 7 } in b in
    (sent ≡ send_all batch (waiting key awaited.batches_subs))
    × (pull key p' ≡ (found batch, p'))
    × ((j : Bytes) → lookup j p'.batches ≡ ite (key ≟ j) (some entry) (lookup j awaited.batches))
    × ((j : Bytes) → waiting j p'.batches_subs ≡ ite (key ≟ j) [] (waiting j awaited.batches_subs))
push_at-serves_example = push_at-serves 7 key batch awaited

gc-lookup_example :
    (lookup key stored.batches ≡ none → lookup key (gc 60000000008 stored).1.batches ≡ none)
    × ((b : BatchEntry)
        → lookup key stored.batches ≡ some b
        → (b.time + 60 * 1000000000 < 60000000008
            → lookup key (gc 60000000008 stored).1.batches ≡ none)
          × (60000000008 ≤ b.time + 60 * 1000000000
              → lookup key (gc 60000000008 stored).1.batches ≡ some b))
unfolding lookup
gc-lookup_example = gc-lookup 60000000008 key stored (refl, tt)

stale_cancel_loses_waiter_example :
    let p₁ = (pull key new_mem_pool).1 in
    let p₂ = (push_at 7 key batch p₁).1 in
    let p₃ = (delete_batch key p₂).1 in
    let p₄ = (pull key p₃).1 in
    let p₅ = cancel_pull key 0 0 p₄ in
    ((pull key new_mem_pool).0 ≡ waits 0 0)
    × ((pull key p₃).0 ≡ waits 1 1)
    × (waiting key p₄.batches_subs ≡ 1 ∷ [])
    × (waiting key p₅.batches_subs ≡ [])
    × ((push_at 9 key batch p₅).0 ≡ [])
unfolding new_mem_pool no_subs lookup
stale_cancel_loses_waiter_example =
    stale_cancel_loses_waiter key batch batch 7 9 new_mem_pool refl refl

-- The pool in which one caller waits.
abbrev awaiting : MemPool
awaiting = record {
  batches = [];
  batches_subs = record {
    index = (key, 0) ∷ [];
    sets = update (λ _. []) 0 (0 ∷ []);
    next_set = 1;
    next_sub = 1;
  };
}

first_waits : pull key new_mem_pool ≡ (waits 0 0, awaiting)
unfolding pull new_mem_pool no_subs lookup subscribe insert
first_waits = refl

-- A second caller waits for the same batch and gives up; another batch is pushed; time passes.
abbrev meanwhile : List Call
meanwhile = pulls key ∷ cancels key 0 1 ∷ pushes 5 (6 ∷ []) batch ∷ ticks 6 ∷ []

spared : AllSpare key 0 meanwhile awaiting
unfolding step pull lookup subscribe bytes_discrete
spared = (tt, ((refl, λ _. cc), (λ e. cc, (tt, tt))))

pull-served_example : Sent 0 batch (push_at 8 key batch (steps meanwhile awaiting)).0
pull-served_example =
    pull-served key 0 0 new_mem_pool awaiting meanwhile 8 batch new_mem_pool-IsOrderly first_waits
      spared
