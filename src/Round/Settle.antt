-- ===== src/Round/Settle.antt =====
-- `doOp` and the loop of a round: every operation settles, and a whole run answers each operation
-- at most once.
use unison.Base.{ℕ, ◌≡◌, refl, Bool, true, false, some, arith, Option-cases, inl, inr}
use unison.Base.Key.{bytes_key}
use unison.Base.Result.{Result, ok, err}
use unison.Messages.{Signature, MessageId, Message}
use unison.Certificates.{QuorumCertificate, Contract, holds}
use unison.Round.{
  Round, StateOp, StateOpKind, add_op, get_op, delete_op, add_sign_op, state_add, try_finalize,
  state_add_sign, dispatch, do_op,
}
use unison.Round.Order.{
  pending, IsOrderly, Settles, finish-Settles, quorum-IsOrderly, state_delete-Settles,
  state_get-Settles, notify_added-Settles,
}

module _ {Q C E : Type 0} (i : QuorumCertificate Q C E) (c : Contract i) where
  state_add-Settles :
      (op : ℕ) (msg : Message) (r : Round Q) (res : Result E (Unit {0}))
      → IsOrderly i c r
      → (i.add msg r.quorum).0 ≡ res
      → Settles i c op r (state_add i op msg r)
  unfolding state_add
  state_add-Settles op msg r (err e) o same_res =
      rw (same_res, state_add)
        (finish-Settles i c op _ r _
          (quorum-IsOrderly i c r (i.add msg r.quorum).1 o (c.add_valid msg r.quorum o.valid)
            (λ k h. o.quiet k (ground (arith, c.add_holds msg k r.quorum))))
          refl)
  state_add-Settles op msg r (ok u) o same_res =
      rw (same_res, state_add)
        (notify_added-Settles i c op msg.id (record r { quorum = (i.add msg r.quorum).1 })
          (c.add_valid msg r.quorum o.valid)
          (λ k h n. o.quiet k (ground (arith, c.add_holds msg k r.quorum))) o.nonempty o.unique
          (ground (arith, c.add_holds msg msg.id r.quorum)))

  -- The presence of certificates is as before, so the round is as orderly.
  kept-IsOrderly :
      (r : Round Q) (q : Q)
      → IsOrderly i c r
      → c.Valid q
      → ((id : MessageId) → holds i id q ≡ holds i id r.quorum)
      → IsOrderly i c (record r { quorum = q })
  kept-IsOrderly r q o v h = quorum-IsOrderly i c r q o v (λ k e. o.quiet k (ground (arith, h k)))

  final-IsOrderly : (r : Round Q) → IsOrderly i c r → IsOrderly i c (record r { finalized = true })
  final-IsOrderly r o = record {
    valid = o.valid;
    quiet = o.quiet;
    nonempty = o.nonempty;
    unique = o.unique;
  }

  finalized-Settles :
      (op : ℕ) (r : Round Q) (res : Result E Bool) (q : Q)
      → IsOrderly i c r
      → IsOrderly i c (record r { quorum = q })
      → i.finalize r.quorum ≡ some (res, q)
      → Settles i c op r (try_finalize i op r)
  unfolding try_finalize
  finalized-Settles op r (err e) q o o' f =
      rw (f, try_finalize) (finish-Settles i c op _ r _ o' refl)
  finalized-Settles op r (ok false) q o o' f =
      rw (f, try_finalize) (finish-Settles i c op _ r _ o' refl)
  finalized-Settles op r (ok true) q o o' f =
      rw (f, try_finalize) (finish-Settles i c op _ r _ (final-IsOrderly _ o') refl)

  try_finalize-Settles :
      (op : ℕ) (r : Round Q) → IsOrderly i c r → Settles i c op r (try_finalize i op r)
  try_finalize-Settles op r o =
      let (res, q, f, v, h) = c.finalize_keeps r.quorum o.valid in
      finalized-Settles op r res q o (kept-IsOrderly r q o v h) f

  signed-Settles :
      (op : ℕ) (id : MessageId) (sig : Signature) (r : Round Q) (comm : C) (res : Result E Bool)
      (q : Q)
      → IsOrderly i c (record r { quorum = q })
      → i.get id r.quorum ≡ some comm
      → i.add_signature id sig comm r.quorum ≡ some (res, q)
      → Settles i c op r (state_add_sign i op id sig r)
  unfolding state_add_sign
  signed-Settles op id sig r comm (err e) q o' g f =
      rw (g, f, state_add_sign) (finish-Settles i c op _ r _ o' refl)
  signed-Settles op id sig r comm (ok false) q o' g f =
      rw (g, f, state_add_sign) (finish-Settles i c op _ r _ o' refl)
  signed-Settles op id sig r comm (ok true) q o' g f =
      rw (g, f, state_add_sign) (try_finalize-Settles op (record r { quorum = q }) o')

  state_add_sign-Settles :
      (op : ℕ) (id : MessageId) (sig : Signature) (r : Round Q)
      → IsOrderly i c r
      → Settles i c op r (state_add_sign i op id sig r)
  unfolding state_add_sign
  state_add_sign-Settles op id sig r o = elim (Option-cases (i.get id r.quorum)) [
    | inl e ↦ rw (e, state_add_sign) (finish-Settles i c op _ r r o refl)
    | inr (comm, e) ↦
        let (res, q, f, v, h) = c.sign_keeps id sig comm r.quorum o.valid e in
        signed-Settles op id sig r comm res q (kept-IsOrderly r q o v h) e f
  ]

  dispatch-Settles :
      (op : ℕ) (kind : StateOpKind) (r : Round Q)
      → IsOrderly i c r
      → pending op r ≡ 0
      → Settles i c op r (dispatch i op kind r)
  unfolding dispatch
  dispatch-Settles op (add_op msg) r o fresh = state_add-Settles op msg r _ o refl
  dispatch-Settles op (get_op id) r o fresh = state_get-Settles i c op id r o fresh
  dispatch-Settles op (delete_op id) r o fresh = state_delete-Settles i c op id r o
  dispatch-Settles op (add_sign_op id sig) r o fresh = state_add_sign-Settles op id sig r o

  -- The loop carries out any operation that is not already waiting, without a panic and keeping the
  -- round orderly: nobody waits for a certificate that is there. The operation and those that
  -- waited before it are each either answered, once, or left waiting.
  pub do_op-Settles :
      (op : StateOp) (r : Round Q)
      → IsOrderly i c r
      → pending op.pointer r ≡ 0
      → Settles i c op.pointer r (do_op i op r)
  unfolding do_op
  do_op-Settles op r o fresh = dispatch-Settles op.pointer op.kind r o fresh
