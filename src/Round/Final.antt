-- ===== src/Round/Final.antt =====
-- When `finalCh` is closed: `stateAddSign` alone closes it, and only on the quorum's word.
use unison.Base.{
  ℕ, ◌≡◌, refl, Bool, true, false, Option, none, some, List, [], ◌⊎◌, inl, inr, Option-cases, arith,
  subst,
}
use unison.Base.Map.{lookup}
use unison.Base.Key.{bytes_key}
use unison.Base.Result.{Result, ok, err}
use unison.Messages.{Signature, MessageId, Message}
use unison.Certificates.{QuorumCertificate}
use unison.Round.{
  Round, StateOp, StateOpKind, add_op, get_op, delete_op, add_sign_op, Answers, Outcome, state_add,
  notify_added, subscribe, state_get, state_delete, try_finalize, state_add_sign, dispatch, do_op,
}

module _ {Q C E : Type 0} (i : QuorumCertificate Q C E) where
  -- The round is final as before, or the quorum has just said that it is final.
  abbrev pub FinalStep : Round Q → Round Q → Type 0
  FinalStep r r' =
      (r'.finalized ≡ r.finalized)
      ⊎ ((r'.finalized ≡ true) × ((q : Q) × (i.finalize q ≡ some (ok true, r'.quorum))))

  abbrev Finals : Round Q → Outcome i → Type 0
  Finals r none = Unit
  Finals r (some (r', _)) = FinalStep r r'

  notify_added-Finals :
      (op : ℕ) (id : MessageId) (r r₀ : Round Q)
      → r.finalized ≡ r₀.finalized
      → Finals r₀ (notify_added i op id r)
  unfolding notify_added
  notify_added-Finals op id r r₀ e = ground arith

  subscribe-Finals :
      (op : ℕ) (id : MessageId) (ws : List ℕ) (r : Round Q) → Finals r (subscribe i op id ws r)
  unfolding subscribe
  subscribe-Finals op id ws r = ground arith

  state_get-Finals : (op : ℕ) (id : MessageId) (r : Round Q) → Finals r (state_get i op id r)
  unfolding state_get
  state_get-Finals op id r = elim (Option-cases (i.get id r.quorum)) [
    | inr (comm, e) ↦ rw (e, state_get) (inl refl)
    | inl e ↦ elim (Option-cases (lookup id.string r.get_op_subs)) [
      | inl f ↦ rw (e, f, state_get) (subscribe-Finals op id [] r)
      | inr (inner, f) ↦ rw (e, f, state_get) (subscribe-Finals op id inner r)
    ]
  ]

  state_add-Finals :
      (op : ℕ) (msg : Message) (r : Round Q) (res : Result E (Unit {0}))
      → (i.add msg r.quorum).0 ≡ res
      → Finals r (state_add i op msg r)
  unfolding state_add
  state_add-Finals op msg r (err e) f = rw (f, state_add) (inl refl)
  state_add-Finals op msg r (ok u) f = rw (f, state_add) (notify_added-Finals op msg.id _ r refl)

  state_delete-Finals : (op : ℕ) (id : MessageId) (r : Round Q) → Finals r (state_delete i op id r)
  unfolding state_delete
  state_delete-Finals op id r = ground arith

  try_finalize-Finals :
      (op : ℕ) (r r₀ : Round Q) (out : Option (Result E Bool × Q))
      → r.finalized ≡ r₀.finalized
      → i.finalize r.quorum ≡ out
      → Finals r₀ (try_finalize i op r)
  unfolding try_finalize
  try_finalize-Finals op r r₀ none e f = rw (f, try_finalize) tt
  try_finalize-Finals op r r₀ (some (err x, q)) e f = rw (f, try_finalize) (inl e)
  try_finalize-Finals op r r₀ (some (ok false, q)) e f = rw (f, try_finalize) (inl e)
  try_finalize-Finals op r r₀ (some (ok true, q)) e f =
      rw (f, try_finalize) (inr (refl, (r.quorum, f)))

  state_add_sign-Finals :
      (op : ℕ) (id : MessageId) (sig : Signature) (r : Round Q) (comm : C)
      (out : Option (Result E Bool × Q))
      → i.get id r.quorum ≡ some comm
      → i.add_signature id sig comm r.quorum ≡ out
      → Finals r (state_add_sign i op id sig r)
  unfolding state_add_sign
  state_add_sign-Finals op id sig r comm none g f = rw (g, f, state_add_sign) tt
  state_add_sign-Finals op id sig r comm (some (err x, q)) g f =
      rw (g, f, state_add_sign) (inl refl)
  state_add_sign-Finals op id sig r comm (some (ok false, q)) g f =
      rw (g, f, state_add_sign) (inl refl)
  state_add_sign-Finals op id sig r comm (some (ok true, q)) g f =
      rw (g, f, state_add_sign) (try_finalize-Finals op _ r _ refl refl)

  dispatch-Finals : (op : ℕ) (kind : StateOpKind) (r : Round Q) → Finals r (dispatch i op kind r)
  unfolding dispatch
  dispatch-Finals op (add_op msg) r = state_add-Finals op msg r _ refl
  dispatch-Finals op (get_op id) r = state_get-Finals op id r
  dispatch-Finals op (delete_op id) r = state_delete-Finals op id r
  dispatch-Finals op (add_sign_op id sig) r = elim (Option-cases (i.get id r.quorum)) [
    | inl e ↦ unfold state_add_sign in rw (e, state_add_sign) (inl refl)
    | inr (comm, e) ↦ state_add_sign-Finals op id sig r comm _ e refl
  ]

  -- Listeners of `Finalize` are released by an operation only when the quorum's `Finalize` has just
  -- answered that it is final, at the quorum that the round then holds; once released they stay so.
  pub do_op-FinalStep :
      (op : StateOp) (r r' : Round Q) (ans : Answers C E)
      → do_op i op r ≡ some (r', ans)
      → FinalStep r r'
  unfolding do_op
  do_op-FinalStep op r r' ans e = subst (Finals r) e (dispatch-Finals op.pointer op.kind r)
