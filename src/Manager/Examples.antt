-- ===== src/Manager/Examples.antt =====
-- Rounds started, waited for and stopped, and the manager's theorems at these inputs. A round is a
-- number here.
use unison.Base.{ℕ, ◌≡◌, refl, true, false, Option, some, none, [], ◌∷◌, ite, arith, ℕ_discrete}
use unison.Base.Key.{nat_key, ◌≟◌}
use unison.Base.Map.{lookup, insert, delete}
use unison.Subs.{no_subs, waiting, subscribe, release, cancel, remove_sub}
use unison.Manager.{
  Manager, elapsed, round_error, got, got_elapsed, got_waits, new_manager, lock, send_round,
  start_round, get_round, cancel_get, remove_round, stop_round, stop_loop, stop,
}
use unison.Manager.Lifecycle.{
  starts, gets, removes, NoneOf, run, stopped_round_starves, start_round-serves, started_once,
}
use unison.Manager.Lock.{stop-deadlock}

-- Round 3 runs, and one caller waits for round 4.
abbrev running : Manager ℕ
running = record {
  locked = false;
  rounds = (3, 30) ∷ [];
  round_subs = (subscribe 4 no_subs).1;
  latest_round = 3;
}

-- Round 3 was stopped.
abbrev ended : Manager ℕ
ended = record running { rounds = [] }

-- `Finalize` and `Stop` of a round that end well.
abbrev succeeds : ℕ → Option ℕ
succeeds _ = none

first_start : (start_round {R = ℕ} 1 10 new_manager).1 ≡ []
unfolding start_round new_manager release no_subs
first_start = refl

serves : (start_round 4 40 running).1 ≡ (0, 40) ∷ []
unfolding start_round release subscribe no_subs lookup insert ℕ_discrete
serves = refl

refuses : start_round 3 31 running ≡ (false, [], running)
unfolding start_round
refuses = refl

finds : get_round 3 running ≡ (got 30, running)
unfolding get_round lookup ℕ_discrete
finds = refl

too_old : get_round 2 running ≡ (got_elapsed, running)
unfolding get_round
too_old = refl

cancelled : waiting 4 (cancel_get 4 0 0 running).round_subs ≡ []
unfolding cancel_get cancel subscribe no_subs remove_sub lookup insert delete ℕ_discrete
cancelled = refl

stops : stop_round succeeds succeeds 3 running ≡ some (none, [], ended)
unfolding stop_round lock remove_round release subscribe no_subs lookup insert delete ℕ_discrete
stops = refl

missing : stop_round succeeds succeeds 5 running ≡ some (some elapsed, [], running)
unfolding stop_round lock lookup ℕ_discrete
missing = refl

stops_nothing : stop succeeds succeeds ended ≡ some (none, ended)
unfolding stop stop_loop lock
stops_nothing = refl

waits_for_itself : stop succeeds succeeds running ≡ none
unfolding stop stop_loop stop_round lock
waits_for_itself = refl

is_there : lookup 3 running.rounds ≡ some 30
unfolding lookup ℕ_discrete
is_there = refl

is_gone : lookup 3 ended.rounds ≡ none
unfolding lookup
is_gone = refl

starts_four : (start_round 4 40 running).0 ≡ true
unfolding start_round
starts_four = refl

-- The witnesses.
start_round-serves_example :
    let (started, sent, rm') = start_round 4 40 running in
    (started ≡ true)
    × (sent ≡ send_round 40 (waiting 4 running.round_subs))
    × (rm'.latest_round ≡ 4)
    × ((get_round 4 rm').0 ≡ got 40)
    × ((m : ℕ) → lookup m rm'.rounds ≡ ite (4 ≟ m) (some 40) (lookup m running.rounds))
    × ((m : ℕ) → waiting m rm'.round_subs ≡ ite (4 ≟ m) [] (waiting m running.round_subs))
start_round-serves_example = start_round-serves 4 40 running (omega arith)

started_once_example :
    (start_round 4 41 (run (gets 5 ∷ removes 4 ∷ []) (start_round 4 40 running).2).1).0 ≡ false
started_once_example =
    started_once 4 4 40 41 (gets 5 ∷ removes 4 ∷ []) running starts_four (omega arith)

stopped_round_starves_example :
    let (answer, rm') = get_round 3 ended in
    ((ref : ℕ) × (sub : ℕ) × (answer ≡ got_waits ref sub))
    × NoneOf 3 (run (starts 4 40 ∷ removes 4 ∷ []) rm').0
stopped_round_starves_example =
    stopped_round_starves 3 (starts 4 40 ∷ removes 4 ∷ []) ended refl is_gone

stop-deadlock_example :
    stop succeeds succeeds running
    ≡ elim (succeeds 30) [ none ↦ none | some e ↦ some (some (round_error e), running) ]
stop-deadlock_example = stop-deadlock succeeds succeeds 3 30 [] running refl refl
