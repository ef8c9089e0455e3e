-- ===== src/Manager/Lock.antt =====
-- `StopRound` and `Stop`, and the mutex between them.
use unison.Base.{ℕ, ◌≡◌, refl, false, Option, none, some, [], ◌∷◌, arith, ite}
use unison.Base.Key.{nat_key, ◌≟◌}
use unison.Base.Map.{Map, lookup, lookup-delete}
use unison.Subs.{waiting}
use unison.Subs.Laws.{release-waiting, waiting-release}
use unison.Manager.{Manager, round_error, lock, unlock, remove_round, stop_round, stop_loop, stop}

module _ {R E : Type 0} (finalize_round stop_round_of : R → Option E) where
  -- `StopRound` of a registered round that stops without an error: it returns nil and releases the
  -- mutex, everybody who waited for the round is told by a closed channel and nobody waits for it
  -- any more, and of the registered rounds exactly this one is gone.
  pub stop_round-stops :
      (n : ℕ) (r : R) (rm : Manager R)
      → rm.locked ≡ false
      → lookup n rm.rounds ≡ some r
      → stop_round_of r ≡ none
      → (rm' : Manager R) × (stop_round finalize_round stop_round_of n rm
          ≡ some (none, waiting n rm.round_subs, rm'))
        × (rm'.locked ≡ false)
        × (waiting n rm'.round_subs ≡ [])
        × ((m : ℕ) → lookup m rm'.rounds ≡ ite (n ≟ m) none (lookup m rm.rounds))
  unfolding stop_round lock remove_round
  stop_round-stops n r rm free registered stops = (
    unlock (remove_round n rm).1,
    ground (arith, release-waiting n rm.round_subs),
    refl,
    ground (arith, waiting-release n n rm.round_subs),
    λ m. lookup-delete n m rm.rounds,
  )

  -- `Stop` takes the mutex and then calls `StopRound`, which takes it again: with a registered round
  -- it never returns nil. If the first round is final it waits for itself for ever; if waiting for
  -- that round fails, it returns that error and stops nothing.
  pub stop-deadlock :
      (n : ℕ) (r : R) (rs : Map ℕ R) (rm : Manager R)
      → rm.locked ≡ false
      → rm.rounds ≡ (n, r) ∷ rs
      → stop finalize_round stop_round_of rm
        ≡ elim (finalize_round r) [ none ↦ none | some e ↦ some (some (round_error e), rm) ]
  unfolding stop stop_loop stop_round lock
  stop-deadlock n r rs rm free registered = ground (arith, registered)
