-- ===== src/Gossip/Lifecycle.antt =====
-- `Start` and `Stop` of a broadcaster (rebro/gossip/broadcaster.go), with the registry of rounds that
-- it stops. pubsub is an argument.
mod Examples
use unison.Base.{
  ℕ, ◌≡◌, ◌≢◌, ◌⊎◌, refl, not, Bool, true, false, Option, none, some, List, [], ◌∷◌, ◌++◌, arith,
  if◌then◌else◌, Option-cases, inl, inr,
}
use unison.Base.Map.{Map}
use unison.Manager.{Manager, ManagerError, round_error, new_manager, stop}
use unison.Manager.Lock.{stop-deadlock}

-- Which of the calls of pubsub succeed.
pub record PubSub : Type 0 where
  pub joins : Bool
  pub subscribes : Bool
  pub registers : Bool
  pub closes : Bool
  pub unregisters : Bool

pub data LifecycleError (E : Type 0) : Type 0 where
  join_failed subscribe_failed register_failed close_failed unregister_failed : LifecycleError E
  rounds_failed : ManagerError E → LifecycleError E

-- A broadcaster: whether it holds the topic, its subscription (which is nil before), and the
-- validator of the topic, and the registry of its rounds.
pub record Broadcaster (R : Type 0) : Type 0 where
  pub topic : Bool
  pub sub : Bool
  pub validator : Bool
  pub rounds : Manager R

-- `NewBroadcaster`
pub new_broadcaster : {R : Type 0} → Broadcaster R
new_broadcaster = record { topic = false; sub = false; validator = false; rounds = new_manager }

-- `Start`: its error, where `none` is nil, and the broadcaster.
pub start : {R E : Type 0} → PubSub → Broadcaster R → Option (LifecycleError E) × Broadcaster R
start ps bro =
    if ps.joins
    then if ps.subscribes
      then if ps.registers
        then (none, record bro { topic = true; sub = true; validator = true })
        else (some register_failed, record bro { topic = true; sub = true })
      else (some subscribe_failed, record bro { topic = true })
    else (some join_failed, bro)

-- `NewBroadcaster` of an `Orchestrator` (rebro/gossip/orchestrator.go): a broadcaster over its pubsub
-- that has been started, and is returned beside the error of its `Start`.
pub new_started : {R E : Type 0} → PubSub → Option (LifecycleError E) × Broadcaster R
unfolding start new_broadcaster
new_started ps = start ps new_broadcaster

-- `errors.Join` of an error to those before.
pub join : {E : Type 0} → List E → Option E → List E
join errs none = errs
join errs (some e) = errs ++ e ∷ []

-- The error of `rounds.Stop`.
abbrev of_rounds : {E : Type 0} → Option (ManagerError E) → Option (LifecycleError E)
of_rounds none = none
of_rounds (some e) = some (rounds_failed e)

-- The errors of `topic.Close` and `UnregisterTopicValidator`, joined.
pubsub_errors : {E : Type 0} → PubSub → List (LifecycleError E)
unfolding join
pubsub_errors ps =
    join (join [] (if ps.closes then none else some close_failed))
      (if ps.unregisters then none else some unregister_failed)

-- The broadcaster after `Stop`, with the registry as its `Stop` leaves it.
abbrev released : {R : Type 0} → PubSub → Manager R → Broadcaster R
released ps rounds = record {
  topic = not ps.closes;
  sub = false;
  validator = not ps.unregisters;
  rounds = rounds;
}

append-nonempty : {A : Type 0} (xs : List A) (x : A) → xs ++ x ∷ [] ≢ []
append-nonempty [] x h = cc
append-nonempty (y ∷ xs) x h = cc

module _ {R E : Type 0} (finalize_round : R → Option E) (stop_round_of : R → Option E) where
  -- `Stop`: its errors, and the broadcaster; `none` is the panic of a nil subscription, or a wait that
  -- never ends.
  pub stop_all : PubSub → Broadcaster R → Option (List (LifecycleError E) × Broadcaster R)
  unfolding join pubsub_errors
  stop_all ps bro =
      if bro.sub
      then elim (stop finalize_round stop_round_of bro.rounds) [
        | none ↦ none
        | some (e, rounds) ↦ some (join (pubsub_errors ps) (of_rounds e), released ps rounds)
      ]
      else none

  -- A broadcaster that started and has a round registered is never stopped without an error: either
  -- its `Stop` waits for itself for ever, or it reports the error of waiting for the first round and
  -- leaves every round registered.
  pub start-stop_all :
      (ps : PubSub) (bro : Broadcaster R) (n : ℕ) (r : R) (rs : Map ℕ R)
      → bro.rounds.locked ≡ false
      → bro.rounds.rounds ≡ (n, r) ∷ rs
      → (start {E = E} ps bro).0 ≡ none
      → (stop_all ps (start {E = E} ps bro).1 ≡ none)
        ⊎ ((errs : List (LifecycleError E)) × (left : Broadcaster R) × (stop_all ps
                (start {E = E} ps bro).1
              ≡ some (errs, left))
            × (errs ≢ [])
            × (left.rounds ≡ bro.rounds))
  unfolding start stop_all join
  start-stop_all ps bro n r rs free registered started =
      let held : (start {E = E} ps bro).1
          ≡ record bro { topic = true; sub = true; validator = true } =
        ground (arith, started) in
      let stopped = stop-deadlock finalize_round stop_round_of n r rs bro.rounds free registered in
      elim (Option-cases (finalize_round r)) [
        | inl final ↦ inl (rw (held, stopped, final, stop_all) refl)
        | inr (e, waits) ↦ inr (
          pubsub_errors ps ++ rounds_failed (round_error e) ∷ [],
          released ps bro.rounds,
          rw (held, stopped, waits, stop_all) refl,
          append-nonempty (pubsub_errors ps) (rounds_failed (round_error e)),
          refl,
        )
      ]
