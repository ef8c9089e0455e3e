-- ===== src/Startup/Examples.antt =====
-- The first runs of a node, and a run that fails half-way.
use unison.Base.{◌≡◌, refl, true, false, Option, none, some, [], ◌∷◌, if◌then◌else◌}
use unison.Base.Int.{pos}
use unison.Base.Key.{Bytes}
use unison.Base.Result.{ok, err}
use unison.Crypto.{fit}
use unison.Startup.{
  Home, Disk, KeyFormat, create_key, load_key, decode_key, generate_failed, unmarshal_failed,
  read_failed, get_identity, host, pool, mcast_pool, starts, stops, sets_up, flood_sub,
  stream_handler, topic, left_joined, broadcasting, Outcomes, broadcaster_failed, produce, run,
  main, verify_batch, ticks, done, random_batches,
}
use unison.Startup.Identity.{get_identity_stable, get_identity_lost}

-- A key is marshalled with a byte before it.
abbrev tail : Bytes → Option Bytes
tail [] = none
tail (b ∷ bs) = some bs

abbrev format : KeyFormat Bytes
format = record { unmarshal = tail; raw = λ k. some k }

abbrev working : Disk
working = record {
  has_home = true;
  makes_dir = true;
  opens = true;
  creates = true;
  generated = some (some (8 ∷ 4 ∷ 2 ∷ []));
  write_stops = none;
  syncs = true;
  reads = true;
}

-- No entropy for a key.
abbrev starved : Disk
starved = record working { generated = none }

abbrev fresh : Home
fresh = record { has_dir = false; key_file = none }

first_run :
    get_identity format working fresh
    ≡ (ok (4 ∷ 2 ∷ [], 4 ∷ 2 ∷ []), record { has_dir = true; key_file = some (8 ∷ 4 ∷ 2 ∷ []) })
unfolding get_identity load_key create_key decode_key
first_run = refl

starved_run :
    get_identity format starved fresh
    ≡ (err generate_failed, record { has_dir = true; key_file = some [] })
unfolding get_identity load_key create_key decode_key
starved_run = refl

-- A key file that cannot be opened but created is replaced, and the identity with it.
replaced :
    get_identity format
      (record working { opens = false })
      (record { has_dir = true; key_file = some (8 ∷ 1 ∷ []) })
    ≡ (ok (4 ∷ 2 ∷ [], 4 ∷ 2 ∷ []), record { has_dir = true; key_file = some (8 ∷ 4 ∷ 2 ∷ []) })
unfolding get_identity load_key create_key decode_key
replaced = refl

abbrev all_well : Outcomes
all_well = record {
  identity = true;
  signer = true;
  addresses = true;
  host = true;
  host_addresses = true;
  pubsub = true;
  is_bootstrapper = true;
  bootstrap = true;
  broadcaster = broadcasting;
  kicks_off = true;
  members = true;
  batch_size = pos 0;
}

-- A broadcaster that cannot register its validator stays in the topic that it has joined.
left_in_topic : run (record all_well { broadcaster = left_joined }) ≡ (
  starts host
      ∷ sets_up flood_sub
      ∷ sets_up stream_handler
      ∷ starts pool
      ∷ starts mcast_pool
      ∷ sets_up topic
      ∷ stops mcast_pool
      ∷ stops pool
      ∷ stops host
      ∷ [],
  some broadcaster_failed,
)
unfolding run
left_in_topic = refl

-- A node without batches ends with an error even when it is stopped as it should be.
idle_status : main all_well ≡ 1
unfolding main run produce
idle_status = refl

busy_status : main (record all_well { batch_size = pos 250 }) ≡ 0
unfolding main run produce
busy_status = refl

pushed_batches :
    random_batches 2 (ticks (7 ∷ 8 ∷ []) ∷ done ∷ ticks (9 ∷ []) ∷ [])
    ≡ record { contents = 7 ∷ 8 ∷ []; signature = record { body = []; signer = [] } } ∷ []
unfolding random_batches fit
pushed_batches = refl

accepted :
    verify_batch (record { contents = []; signature = record { body = []; signer = [] } })
    ≡ some true
unfolding verify_batch
accepted = refl

-- The witnesses.
first_ok : (get_identity format working fresh).0 ≡ ok (4 ∷ 2 ∷ [], 4 ∷ 2 ∷ [])
unfolding get_identity load_key create_key decode_key
first_ok = refl

get_identity_stable_example :
    get_identity format starved (get_identity format working fresh).1
    ≡ (ok (4 ∷ 2 ∷ [], 4 ∷ 2 ∷ []), (get_identity format working fresh).1)
get_identity_stable_example =
    get_identity_stable format working starved fresh (4 ∷ 2 ∷ [], 4 ∷ 2 ∷ []) first_ok refl refl
      refl

starved_err : (get_identity format starved fresh).0 ≡ err generate_failed
unfolding get_identity load_key create_key decode_key
starved_err = refl

get_identity_lost_example : get_identity format working (get_identity format starved fresh).1 ≡ (
  if working.reads then err unmarshal_failed else err read_failed,
  (get_identity format starved fresh).1,
)
get_identity_lost_example =
    get_identity_lost format starved working fresh refl starved_err refl refl
