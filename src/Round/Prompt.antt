-- ===== src/Round/Prompt.antt =====
-- When `finalCh` is closed, for a quorum whose `Finalize` never errs: exactly when the quorum is
-- ready, since `stateAddSign` asks again whenever a signature may have made it so.
use unison.Base.{
  ℕ, ◌≡◌, refl, sym, ◌∙◌, Bool, true, false, Option, none, some, List, [], ◌∷◌, ◌⊎◌, inl, inr,
  Option-cases, Bool-cases, arith, subst,
}
use unison.Base.Map.{lookup}
use unison.Base.Key.{bytes_key}
use unison.Base.Result.{Result, ok, err}
use unison.Messages.{Signature, MessageId, Message}
use unison.Certificates.{QuorumCertificate}
use unison.Round.{
  Round, StateOp, StateOpKind, add_op, get_op, delete_op, add_sign_op, Answers, Outcome, state_add,
  notify_added, subscribe, state_get, state_delete, try_finalize, state_add_sign, dispatch, do_op,
  run,
}
use unison.Round.Preserve.{run-nil, run-cons, do_op-keeps, Keeps, KeepsFinal}

module _ {Q C E : Type 0} (i : QuorumCertificate Q C E) (P : Q → Type 0) (ready : Q → Bool) where
  -- The quorum becomes ready only by a signature that is answered with true, and stays so;
  -- `Finalize` says whether it is.
  pub record Decides : Type 0 where
    pub keeps : (kind : StateOpKind) → Keeps i P kind
    pub keeps_final : KeepsFinal i P
    pub add_ready : (msg : Message) (q : Q) → ready (i.add msg q).1 ≡ ready q
    pub delete_ready : (id : MessageId) (q : Q) → ready (i.delete id q).1 ≡ ready q
    pub sign_ready :
        (id : MessageId) (s : Signature) (comm : C) (q q' : Q) (res : Result E Bool)
        → P q
        → i.get id q ≡ some comm
        → i.add_signature id s comm q ≡ some (res, q')
        → (ready q' ≡ ready q) ⊎ ((res ≡ ok true) × (ready q ≡ true → ready q' ≡ true))
    pub finalize_ready :
        (q q' : Q) (res : Result E Bool)
        → P q
        → i.finalize q ≡ some (res, q')
        → (res ≡ ok (ready q)) × (ready q' ≡ ready q)

  -- The round is final exactly when its quorum is ready.
  abbrev pub IsPrompt : Round Q → Type 0
  IsPrompt r = r.finalized ≡ ready r.quorum

  abbrev Prompts : Outcome i → Type 0
  Prompts none = Unit
  Prompts (some (r, _)) = IsPrompt r

  module _ (d : Decides) where
    notify_added-Prompts :
        (op : ℕ) (id : MessageId) (r : Round Q) → IsPrompt r → Prompts (notify_added i op id r)
    unfolding notify_added
    notify_added-Prompts op id r p = ground arith

    subscribe-Prompts :
        (op : ℕ) (id : MessageId) (ws : List ℕ) (r : Round Q)
        → IsPrompt r
        → Prompts (subscribe i op id ws r)
    unfolding subscribe
    subscribe-Prompts op id ws r p = ground arith

    state_get-Prompts :
        (op : ℕ) (id : MessageId) (r : Round Q) → IsPrompt r → Prompts (state_get i op id r)
    unfolding state_get
    state_get-Prompts op id r p = elim (Option-cases (i.get id r.quorum)) [
      | inr (comm, e) ↦ rw (e, state_get) p
      | inl e ↦ elim (Option-cases (lookup id.string r.get_op_subs)) [
        | inl f ↦ rw (e, f, state_get) (subscribe-Prompts op id [] r p)
        | inr (inner, f) ↦ rw (e, f, state_get) (subscribe-Prompts op id inner r p)
      ]
    ]

    state_add-Prompts :
        (op : ℕ) (msg : Message) (r : Round Q) (res : Result E (Unit {0}))
        → IsPrompt r
        → (i.add msg r.quorum).0 ≡ res
        → Prompts (state_add i op msg r)
    unfolding state_add
    state_add-Prompts op msg r (err e) p f = rw (f, state_add) (p ∙ sym (d.add_ready msg r.quorum))
    state_add-Prompts op msg r (ok u) p f =
        rw (f, state_add) (notify_added-Prompts op msg.id _ (p ∙ sym (d.add_ready msg r.quorum)))

    state_delete-Prompts :
        (op : ℕ) (id : MessageId) (r : Round Q) → IsPrompt r → Prompts (state_delete i op id r)
    unfolding state_delete
    state_delete-Prompts op id r p = ground (arith, d.delete_ready id r.quorum)

    -- A round that is final has a quorum that is ready.
    try_finalize-Prompts :
        (op : ℕ) (r : Round Q) (out : Option (Result E Bool × Q))
        → P r.quorum
        → (r.finalized ≡ true → ready r.quorum ≡ true)
        → i.finalize r.quorum ≡ out
        → Prompts (try_finalize i op r)
    unfolding try_finalize
    try_finalize-Prompts op r none v p f = rw (f, try_finalize) tt
    try_finalize-Prompts op r (some (err x, q)) v p f =
        absurd (let h = d.finalize_ready r.quorum q (err x) v f in cc)
    try_finalize-Prompts op r (some (ok false, q)) v p f =
        let h = d.finalize_ready r.quorum q (ok false) v f in
        rw (f, try_finalize)
          (elim (Bool-cases r.finalized) [
            | inl e ↦ absurd (ground (arith, h.0, p e))
            | inr e ↦ ground (arith, e, h.0, h.1)
          ])
    try_finalize-Prompts op r (some (ok true, q)) v p f =
        let h = d.finalize_ready r.quorum q (ok true) v f in
        rw (f, try_finalize) (ground (arith, h.0, h.1))

    signed-Prompts :
        (op : ℕ) (id : MessageId) (sig : Signature) (r : Round Q) (comm : C)
        (out : Option (Result E Bool × Q))
        → P r.quorum
        → IsPrompt r
        → i.get id r.quorum ≡ some comm
        → i.add_signature id sig comm r.quorum ≡ out
        → Prompts (state_add_sign i op id sig r)
    unfolding state_add_sign
    signed-Prompts op id sig r comm none v p g f = rw (g, f, state_add_sign) tt
    signed-Prompts op id sig r comm (some (err x, q)) v p g f =
        let h = d.sign_ready id sig comm r.quorum q (err x) v g f in
        rw (g, f, state_add_sign) (elim h [ inl e ↦ p ∙ sym e | inr (n, k) ↦ absurd (cc) ])
    signed-Prompts op id sig r comm (some (ok false, q)) v p g f =
        let h = d.sign_ready id sig comm r.quorum q (ok false) v g f in
        rw (g, f, state_add_sign)
          (elim h [ inl e ↦ p ∙ sym e | inr (n, k) ↦ absurd (ground (arith, n)) ])
    signed-Prompts op id sig r comm (some (ok true, q)) v p g f =
        let h = d.sign_ready id sig comm r.quorum q (ok true) v g f in
        let valid_now = d.keeps (add_sign_op id sig) r.quorum q comm (ok true) v g f in
        rw (g, f, state_add_sign)
          (try_finalize-Prompts op (record r { quorum = q }) _ valid_now
            (λ final. elim h [ inl e ↦ e ∙ sym p ∙ final | inr (n, k) ↦ k (sym p ∙ final) ]) refl)

    dispatch-Prompts :
        (op : ℕ) (kind : StateOpKind) (r : Round Q)
        → P r.quorum
        → IsPrompt r
        → Prompts (dispatch i op kind r)
    unfolding dispatch
    dispatch-Prompts op (add_op msg) r v p = state_add-Prompts op msg r _ p refl
    dispatch-Prompts op (get_op id) r v p = state_get-Prompts op id r p
    dispatch-Prompts op (delete_op id) r v p = state_delete-Prompts op id r p
    dispatch-Prompts op (add_sign_op id sig) r v p = elim (Option-cases (i.get id r.quorum)) [
      | inl e ↦ unfold state_add_sign in rw (e, state_add_sign) p
      | inr (comm, e) ↦ signed-Prompts op id sig r comm _ v p e refl
    ]

    do_op-IsPrompt :
        (op : StateOp) (r r' : Round Q) (ans : Answers C E)
        → P r.quorum
        → IsPrompt r
        → do_op i op r ≡ some (r', ans)
        → IsPrompt r'
    unfolding do_op
    do_op-IsPrompt op r r' ans v p e = subst Prompts e (dispatch-Prompts op.pointer op.kind r v p)

    -- A run of a round whose quorum decides ends final exactly if its quorum is then ready.
    pub run-IsPrompt :
        (ops : List StateOp) (r r' : Round Q) (ans : Answers C E)
        → P r.quorum
        → IsPrompt r
        → run i ops r ≡ some (r', ans)
        → IsPrompt r'
    run-IsPrompt [] r r' ans v p e = subst IsPrompt (run-nil i r r' ans e) p
    run-IsPrompt (op ∷ ops) r r' ans v p e =
        let (r₁, now, later, f, g) = run-cons i op ops r r' ans e in
        run-IsPrompt ops r₁ r' later
          (do_op-keeps i P op r r₁ now d.keeps_final (d.keeps op.kind) v f)
          (do_op-IsPrompt op r r₁ now v p f) g
