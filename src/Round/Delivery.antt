-- ===== src/Round/Delivery.antt =====
-- How answers reach their callers: `doneCh` of an operation holds one value, and `SetCertificate` and
-- `SetError` send to it on the goroutine of the loop. `execOp` and `GetCertificate` are the callers.
mod Examples
use unison.Base.{
  ℕ, zero, suc, ◌+◌, ◌≤◌, ◌<◌, ◌≡◌, ◌≢◌, refl, ap, ◌∙◌, Bool, true, false, Option, none, some, List,
  [], ◌∷◌, ◌++◌, arith, ltb, if◌then◌else◌, ite, ℕ_discrete, inl, inr,
}
use unison.Base.Key.{nat_key}
use unison.Base.Map.{Map, lookup, insert}
use unison.Messages.{MessageId}
use unison.Certificates.{QuorumCertificate, Contract}
use unison.Round.{
  Round, StateOp, get_op, OpError, Answer, Answers, set_certificate, set_error, state_get, dispatch,
  do_op, run,
}
use unison.Round.Order.{unit, pending, answered, IsOrderly}
use unison.Round.Run.{requested, unit_self, run-Runs}

-- The capacity of `doneCh`.
abbrev pub done_capacity : ℕ
done_capacity = 1

-- How many values of each operation's `doneCh` are unread.
abbrev pub Unread : Type 0
Unread = ℕ → ℕ

-- The sends of `SetCertificate` and `SetError` one after the other, when no caller reads meanwhile;
-- `none` is a send that waits for a reader.
pub deliver : {C E : Type 0} → Answers C E → Unread → Option Unread
deliver [] unread = some unread
deliver ((op, _) ∷ ans) unread =
    let rest = deliver ans (λ a. unread a + ite (ℕ_discrete op a) 1 0) in
    if ltb (unread op) done_capacity then rest else none

-- How a `select` of `execOp` ends: in the channel, with `closedCh`, or with the context.
pub data Selected : Type 0 where
  channel_ready closed_ready context_ready : Selected

pub data ExecEnd (E : Type 0) : Type 0 where
  answered_with : Option (OpError E) → ExecEnd E
  closed_round context_done : ExecEnd E

-- `execOp`: whether the operation was submitted, and the result, where `error` is the operation's.
pub exec_op : {E : Type 0} → Selected → Selected → Option (OpError E) → Bool × ExecEnd E
exec_op closed_ready second error = (false, closed_round)
exec_op context_ready second error = (false, context_done)
exec_op channel_ready channel_ready error = (true, answered_with error)
exec_op channel_ready closed_ready error = (true, closed_round)
exec_op channel_ready context_ready error = (true, context_done)

-- An error of a caller; `none` is nil.
pub data CallerError (E : Type 0) : Type 0 where
  operation_failed : OpError E → CallerError E
  closed_error context_error : CallerError E

pub error_of : {E : Type 0} → ExecEnd E → Option (CallerError E)
error_of (answered_with none) = none
error_of (answered_with (some e)) = some (operation_failed e)
error_of closed_round = some closed_error
error_of context_done = some context_error

-- `errors.Join`: the errors that are not nil.
pub join : {E : Type 0} → Option (CallerError E) → Option (CallerError E) → List (CallerError E)
join none none = []
join none (some e) = e ∷ []
join (some e) none = e ∷ []
join (some e) (some f) = e ∷ f ∷ []

-- How the `select`s of a `GetCertificate` end: of its first `execOp`, and of the second, which cancels
-- the subscription when the context is `cancelled`.
pub record GetCall (C E : Type 0) : Type 0 where
  pub first_submit : Selected
  pub first_wait : Selected
  pub cancelled : Bool
  pub second_submit : Selected
  pub second_wait : Selected
  -- `op.err` and `op.comm` when they are read
  pub error : Option (OpError E)
  pub comm : Option C

module _ {C E : Type 0} where
  -- `GetCertificate`: the operations that it submits, its result and its errors.
  pub get_certificate : ℕ → MessageId → GetCall C E → List StateOp × Option C × List (CallerError E)
  unfolding exec_op error_of join
  get_certificate op id g =
      let (submitted, end) = exec_op g.first_submit g.first_wait g.error in
      let (submitted', end') = exec_op g.second_submit g.second_wait g.error in
      let op_value : StateOp = record { pointer = op; kind = get_op id } in
      let copies : Bool → List StateOp = λ b. (if b then op_value ∷ [] else []) in
      elim (error_of end) [
        | none ↦ (copies submitted, g.comm, [])
        | some e ↦
            if g.cancelled
            then (copies submitted ++ copies submitted', none, join (some e) (error_of end'))
            else (copies submitted, g.comm, e ∷ [])
      ]

module _ {Q C E : Type 0} (i : QuorumCertificate Q C E) where
  delivers :
      (ans : Answers C E) (unread : Unread)
      → ((a : ℕ) → unread a + answered a ans ≤ done_capacity)
      → (left : Unread) × (deliver ans unread ≡ some left)
  unfolding deliver
  delivers [] unread h = (unread, refl)
  delivers ((op, x) ∷ ans) unread h =
      let (left, e) =
        delivers ans (λ a. unread a + ite (ℕ_discrete op a) 1 0) (λ a. omega (arith, h a)) in
      (left, ground (arith, e, h op, unit_self op))

  -- A caller that goes away never holds up the loop, if no operation is executed twice: from an
  -- orderly round, operations that are each requested once and not already waiting are all carried
  -- out without a panic, and every answer fits into its operation's channel although nobody reads.
  pub run-delivers :
      (c : Contract i) (ops : List StateOp) (r : Round Q)
      → IsOrderly i c r
      → ((a : ℕ) → pending a r + requested a ops ≤ 1)
      → (r' : Round Q) × (ans : Answers C E) × (left : Unread) × (run i ops r ≡ some (r', ans))
        × (deliver ans (λ _. 0) ≡ some left)
  run-delivers c ops r o once =
      let (r', ans, e, o', h) = run-Runs i c ops r o once in
      let (left, f) = delivers ans (λ _. 0) (λ a. omega (arith, h a, once a)) in
      (r', ans, left, e, f)

  -- A `GetCertificate` can hold up the loop for ever: when its context ends and the second time limit
  -- passes while both copies of its operation are in the channel, and the certificate is there when
  -- the loop takes them, the loop waits for a reader of the second answer, and the caller has left.
  pub get_certificate_blocks :
      (op : ℕ) (id : MessageId) (g : GetCall C E) (r : Round Q) (comm : C)
      → i.get id r.quorum ≡ some comm
      → g.first_submit ≡ channel_ready
      → g.first_wait ≡ context_ready
      → g.cancelled ≡ true
      → g.second_submit ≡ channel_ready
      → g.second_wait ≡ context_ready
      → (ans : Answers C E) × (run i (get_certificate op id g).0 r ≡ some (r, ans))
        × (deliver ans (λ _. 0) ≡ none)
  unfolding get_certificate deliver run do_op dispatch state_get
  get_certificate_blocks op id g r comm there s w x s' w' = (
    (op, set_certificate comm) ∷ (op, set_certificate comm) ∷ [],
    ground (arith, there, s, w, x, s', w'),
    ground (arith, unit_self op),
  )
