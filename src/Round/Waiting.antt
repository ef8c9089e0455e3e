-- ===== src/Round/Waiting.antt =====
-- `Stop` and `Finalize` of a round: a caller that waits for a channel to be closed, or for its context.
use unison.Base.{
  if◌then◌else◌, arith, ap, sym, refl, Bool-cases, inl, inr, ◌+◌, ◌≡◌, ◌≢◌, Bool, true, false,
  Option, none, some, ℕ, ◌≤◌,
}
use unison.Certificates.{QuorumCertificate, Contract}
use unison.Round.{Round}
use unison.Round.Order.{IsOrderly, pending}
use unison.Round.Run.{requested}
use unison.Round.Loop.{
  Loop, Mode, looping, draining, stopped, stop, started, Reach, next, started-IsServed_always,
}
use unison.Round.Termination.{closing_ends}

-- Which case a `select` of a channel and the context takes, by which of them are closed; `none` is to
-- wait, and `first` decides when both are.
pub data Case : Type 0 where
  channel_case context_case : Case

pub select : (channel context : Bool) (first : Case) → Option Case
select true true first = some first
select true false first = some channel_case
select false true first = some context_case
select false false first = none

-- `ErrClosedRound`, and the error of the context.
pub data WaitError : Type 0 where
  closed_round context_over : WaitError

-- How a call that waits returns: `some none` is nil, and `none` is that it still waits.
abbrev waited : Option Case → Option (Option WaitError)
waited none = none
waited (some channel_case) = some none
waited (some context_case) = some (some context_over)

-- `Finalize`
unfoldable pub finalize_call :
    {Q : Type 0} → Round Q → (context : Bool) (first : Case) → Option (Option WaitError)
unfolding select
finalize_call r context first = waited (select r.finalized context first)

-- Is `closedCh` closed?
abbrev is_closed : Mode → Bool
is_closed looping = false
is_closed draining = false
is_closed stopped = true

-- The first `select` of `Stop`: its error, or `none` to go on.
unfoldable pub stop_check : {Q C E : Type 0} → Loop Q C E → Option WaitError
stop_check s = if s.closing then some closed_round else none

-- `close(r.closeCh)`, and the loop after it; `none` is the panic of closing a channel again. Between
-- `stop_check` and this, other callers and the loop can take steps.
unfoldable pub stop_close : {Q C E : Type 0} → Loop Q C E → Option (Loop Q C E)
stop_close s = if s.closing then none else some (record s { closing = true })

-- The second `select` of `Stop`.
unfoldable pub stop_wait :
    {Q C E : Type 0} → Loop Q C E → (context : Bool) (first : Case) → Option (Option WaitError)
unfolding select
stop_wait s context first = waited (select (is_closed s.mode) context first)

module _ {Q C E : Type 0} where
  closes : (s : Loop Q C E) → s.closing ≡ false → stop_close s ≡ some (record s { closing = true })
  unfolding stop_close
  closes s e = ground arith

  -- Once `closeCh` is closed, a `Stop` that begins is refused, and one that is past its check panics.
  stopped_twice :
      (s t : Loop Q C E)
      → stop_close s ≡ some t
      → (stop_check t ≡ some closed_round) × (stop_close t ≡ none)
  unfolding stop_check stop_close
  stopped_twice s t e = elim (Bool-cases s.closing) [
    | inl c ↦ ground (arith, e, c)
    | inr c ↦
        let same : record s { closing = true } ≡ t = ground (arith, e, c) in
        let closed = sym (ap (λ (x : Loop Q C E). x.closing) same) in
        (ground (arith, closed), ground (arith, closed))
  ]

  -- Two `Stop`s that race: when both make their check before one of them closes `closeCh`, both go on,
  -- and the close of the second panics.
  racing_stops_panic :
      (s : Loop Q C E)
      → s.closing ≡ false
      → (stop_check s ≡ none) × ((t : Loop Q C E) × (stop_close s ≡ some t) × (stop_close t ≡ none))
  unfolding stop_check
  racing_stops_panic s e =
      let t : Loop Q C E = record s { closing = true } in
      (ground (arith, e), (t, closes s e, (stopped_twice s t (closes s e)).1))

module _ {Q C E : Type 0} (i : QuorumCertificate Q C E) (c : Contract i) where
  -- A `Stop` that closes `closeCh`, at whatever state callers and the loop of a new round have
  -- brought it to, in which no other did: its check passes there and the close does not panic; then
  -- the loop can go on, without a panic, to a state in which that call returns nil while its context
  -- still runs, with every operation that was accepted handled, if the quorum keeps its contract and
  -- no operation was submitted twice.
  pub stop_returns :
      (r : Round Q) (s : Loop Q C E)
      → IsOrderly i c r
      → Reach i (started r) s
      → s.closing ≡ false
      → ((a : ℕ) → pending a r + requested a s.accepted ≤ 1)
      → (stop_check s ≡ none)
        × ((u : Loop Q C E) × (stop_close s ≡ some u)
            × ((t : Loop Q C E) × Reach i u t
                × (stop_wait t false channel_case ≡ some none)
                × (t.handled ≡ s.accepted)))
  unfolding stop_check stop_wait select
  stop_returns r s o p still once =
      let u : Loop Q C E = record s { closing = true } in
      let v = started-IsServed_always i r s p in
      let not_stopped : s.mode ≢ stopped = λ e. absurd (ground (arith, v.asked (λ n. cc))) in
      let (t, path, over, kept, handled) =
        closing_ends i c r u o (next p (stop u still refl)) refl not_stopped once in
      (ground (arith, still), (u, closes s still, (t, path, ground (arith, over), handled)))
