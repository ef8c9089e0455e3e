-- ===== src/Manager.antt =====
-- rebro/gossip/internal/round/manager.go: the registry of rounds. Each function is one critical
-- section under `roundsMu`, or a method made of several; `none` means that the goroutine waits for
-- the mutex while it holds it, so it never goes on. A round is any `R`.
pub mod Lifecycle
pub mod Lock
mod Examples
use unison.Base.{ℕ, Bool, true, false, Option, none, some, List, [], ◌∷◌, if◌then◌else◌, leb, ltb}
use unison.Base.Key.{nat_key}
use unison.Base.Map.{Map, lookup, insert, delete}
use unison.Subs.{Subs, no_subs, waiting, subscribe, release, cancel}

pub record Manager (R : Type 0) : Type 0 where
  pub locked : Bool
  pub rounds : Map ℕ R
  pub round_subs : Subs ℕ
  pub latest_round : ℕ

unfoldable pub new_manager : {R : Type 0} → Manager R
new_manager = record { locked = false; rounds = []; round_subs = no_subs; latest_round = 0 }

-- `ErrElapsedRound`, or an error of a round's `Finalize` or `Stop`.
pub data ManagerError (E : Type 0) : Type 0 where
  elapsed : ManagerError E
  round_error : E → ManagerError E

-- What `GetRound` answers at once, or the channel that it waits on, in an inner map.
pub data Got (R : Type 0) : Type 0 where
  got : R → Got R
  got_elapsed : Got R
  got_waits : (ref sub : ℕ) → Got R

-- `roundsMu.Lock()` by a goroutine of its own, and `Unlock`.
pub lock : {R : Type 0} → Manager R → Option (Manager R)
lock rm = if rm.locked then none else some (record rm { locked = true })

abbrev pub unlock : {R : Type 0} → Manager R → Manager R
unlock rm = record rm { locked = false }

module _ {R : Type 0} where
  -- The round for each channel.
  abbrev pub send_round : R → List ℕ → List (ℕ × R)
  send_round r [] = []
  send_round r (sub ∷ subs) = (sub, r) ∷ send_round r subs

  -- `StartRound` under the mutex, with `r` the round that `NewRound` made: whether it was started,
  -- what is sent on the channels, and the manager.
  unfoldable pub start_round : ℕ → R → Manager R → Bool × List (ℕ × R) × Manager R
  unfolding insert
  start_round n r rm =
      let (subs, registry) = release n rm.round_subs in
      if leb n rm.latest_round then (false, [], rm) else (
        true,
        send_round r subs,
        record rm { rounds = insert n r rm.rounds; round_subs = registry; latest_round = n },
      )

  -- `GetRound` up to its `select`.
  pub get_round : ℕ → Manager R → Got R × Manager R
  unfolding lookup
  get_round n rm =
      let ((ref, sub), registry) = subscribe n rm.round_subs in
      if ltb n rm.latest_round then (got_elapsed, rm) else elim (lookup n rm.rounds) [
        | some r ↦ (got r, rm)
        | none ↦ (got_waits ref sub, record rm { round_subs = registry })
      ]

  -- The end of a `GetRound` whose context is done.
  pub cancel_get : ℕ → ℕ → ℕ → Manager R → Manager R
  cancel_get n ref sub rm = record rm { round_subs = cancel n ref sub rm.round_subs }

  -- The second critical section of `StopRound`: the channels that are closed and the manager.
  pub remove_round : ℕ → Manager R → List ℕ × Manager R
  unfolding delete
  remove_round n rm =
      let (subs, registry) = release n rm.round_subs in
      (subs, record rm { rounds = delete n rm.rounds; round_subs = registry })

  module _ {E : Type 0} (finalize_round stop_round_of : R → Option E) where
    -- `StopRound`; `stop_round_of` is what the round's `Stop` returns, `none` being nil. The mutex is
    -- taken for the look-up, released, and taken again for the removal.
    pub stop_round : ℕ → Manager R → Option (Option (ManagerError E) × List ℕ × Manager R)
    unfolding lock lookup remove_round
    stop_round n rm = elim (lock rm) [
      | none ↦ none
      | some held ↦ elim (lookup n held.rounds) [
        | none ↦ some (some elapsed, [], unlock held)
        | some r ↦ elim (stop_round_of r) [
          | some e ↦ some (some (round_error e), [], unlock held)
          | none ↦ elim (lock (unlock held)) [
            | none ↦ none
            | some again ↦
                let (closed, done) = remove_round n again in some (none, closed, unlock done)
          ]
        ]
      ]
    ]

    -- The loop of `Stop` over the rounds, with the mutex held.
    pub stop_loop : Map ℕ R → Manager R → Option (Option (ManagerError E) × Manager R)
    unfolding stop_round
    stop_loop [] rm = some (none, rm)
    stop_loop ((n, r) ∷ rs) rm = elim (finalize_round r) [
      | some e ↦ some (some (round_error e), rm)
      | none ↦ elim (stop_round n rm) [
        | none ↦ none
        | some (some e, _, rm') ↦ some (some e, rm')
        | some (none, _, rm') ↦ stop_loop rs rm'
      ]
    ]

    -- `Stop`
    pub stop : Manager R → Option (Option (ManagerError E) × Manager R)
    unfolding lock stop_loop
    stop rm = elim (lock rm) [
      | none ↦ none
      | some held ↦ elim (stop_loop held.rounds held) [
        | none ↦ none
        | some (e, rm') ↦ some (e, unlock rm')
      ]
    ]
