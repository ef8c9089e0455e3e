-- ===== src/Round/Preserve.antt =====
-- What a round's operations do to its quorum: a property that the calls of the quorum keep is kept by
-- every operation.
use unison.Base.{
  ℕ, ◌≡◌, refl, subst, Bool, true, false, Option, none, some, List, [], ◌∷◌, arith, Option-cases,
  inl, inr, All,
}
use unison.Base.Map.{lookup}
use unison.Base.Key.{bytes_key}
use unison.Base.Result.{Result, ok, err}
use unison.Messages.{Signature, MessageId, Message}
use unison.Certificates.{QuorumCertificate}
use unison.Round.{
  Round, StateOp, StateOpKind, add_op, get_op, delete_op, add_sign_op, Answers, Outcome, state_add,
  notify_added, subscribe, state_get, state_delete, try_finalize, state_add_sign, dispatch, do_op,
  run,
}

module _ {Q C E : Type 0} (i : QuorumCertificate Q C E) where
  pub run-nil : (r r' : Round Q) (ans : Answers C E) → run i [] r ≡ some (r', ans) → r ≡ r'
  unfolding run
  run-nil r r' ans e = cc

  -- A run that ends carried out its first operation, and then the others.
  pub run-cons :
      (op : StateOp) (ops : List StateOp) (r r' : Round Q) (ans : Answers C E)
      → run i (op ∷ ops) r ≡ some (r', ans)
      → (r₁ : Round Q) × (now : Answers C E) × (later : Answers C E) × (do_op i op r
          ≡ some (r₁, now))
        × (run i ops r₁ ≡ some (r', later))
  unfolding run
  run-cons op ops r r' ans e = elim (Option-cases (do_op i op r)) [
    | inl n ↦ absurd (ground (arith, n))
    | inr ((r₁, now), f) ↦ elim (Option-cases (run i ops r₁)) [
      | inl n ↦ absurd (ground (arith, n, f))
      | inr ((r₂, later), g) ↦
          let same_round : r₂ ≡ r' = ground (arith, f, g) in
          (r₁, now, later, f, rw (← same_round) g)
    ]
  ]

module _ {Q C E : Type 0} (i : QuorumCertificate Q C E) (P : Q → Type 0) where
  -- The calls of the quorum that an operation makes keep the property.
  abbrev pub Keeps : StateOpKind → Type 0
  Keeps (add_op msg) = (q : Q) → P q → P (i.add msg q).1
  Keeps (get_op id) = Unit
  Keeps (delete_op id) = (q : Q) → P q → P (i.delete id q).1
  Keeps (add_sign_op id sig) =
      (q q' : Q) (comm : C) (res : Result E Bool)
      → P q
      → i.get id q ≡ some comm
      → i.add_signature id sig comm q ≡ some (res, q')
      → P q'

  -- `Finalize` keeps the property.
  abbrev pub KeepsFinal : Type 0
  KeepsFinal = (q q' : Q) (res : Result E Bool) → P q → i.finalize q ≡ some (res, q') → P q'

  abbrev After : Outcome i → Type 0
  After none = Unit
  After (some (r, _)) = P r.quorum

  notify_added-After :
      (op : ℕ) (id : MessageId) (r : Round Q) → P r.quorum → After (notify_added i op id r)
  unfolding notify_added
  notify_added-After op id r p = elim (Option-cases (lookup id.string r.get_op_subs)) [
    | inl e ↦ rw (e, notify_added) p
    | inr ([], e) ↦ rw (e, notify_added) p
    | inr (w ∷ ws, e) ↦ elim (Option-cases (i.get id r.quorum)) [
      | inl f ↦ rw (e, f, notify_added) tt
      | inr (comm, f) ↦ rw (e, f, notify_added) p
    ]
  ]

  subscribe-After :
      (op : ℕ) (id : MessageId) (ws : List ℕ) (r : Round Q)
      → P r.quorum
      → After (subscribe i op id ws r)
  unfolding subscribe
  subscribe-After op id ws r p = ground arith

  state_get-After :
      (op : ℕ) (id : MessageId) (r : Round Q) → P r.quorum → After (state_get i op id r)
  unfolding state_get
  state_get-After op id r p = elim (Option-cases (i.get id r.quorum)) [
    | inr (comm, e) ↦ rw (e, state_get) p
    | inl e ↦ elim (Option-cases (lookup id.string r.get_op_subs)) [
      | inl f ↦ rw (e, f, state_get) (subscribe-After op id [] r p)
      | inr (inner, f) ↦ rw (e, f, state_get) (subscribe-After op id inner r p)
    ]
  ]

  state_add-After :
      (op : ℕ) (msg : Message) (r : Round Q) (res : Result E (Unit {0}))
      → P (i.add msg r.quorum).1
      → (i.add msg r.quorum).0 ≡ res
      → After (state_add i op msg r)
  unfolding state_add
  state_add-After op msg r (err e) p f = rw (f, state_add) p
  state_add-After op msg r (ok u) p f = rw (f, state_add) (notify_added-After op msg.id _ p)

  state_delete-After :
      (op : ℕ) (id : MessageId) (r : Round Q)
      → P (i.delete id r.quorum).1
      → After (state_delete i op id r)
  unfolding state_delete
  state_delete-After op id r p = ground arith

  try_finalize-After :
      (op : ℕ) (r : Round Q) (out : Option (Result E Bool × Q))
      → KeepsFinal
      → P r.quorum
      → i.finalize r.quorum ≡ out
      → After (try_finalize i op r)
  unfolding try_finalize
  try_finalize-After op r none k p f = rw (f, try_finalize) tt
  try_finalize-After op r (some (err x, q)) k p f = rw (f, try_finalize) (k r.quorum q (err x) p f)
  try_finalize-After op r (some (ok false, q)) k p f =
      rw (f, try_finalize) (k r.quorum q (ok false) p f)
  try_finalize-After op r (some (ok true, q)) k p f =
      rw (f, try_finalize) (k r.quorum q (ok true) p f)

  signed-After :
      (op : ℕ) (id : MessageId) (sig : Signature) (r : Round Q) (comm : C)
      (out : Option (Result E Bool × Q))
      → KeepsFinal
      → ((res : Result E Bool) (q' : Q) → out ≡ some (res, q') → P q')
      → i.get id r.quorum ≡ some comm
      → i.add_signature id sig comm r.quorum ≡ out
      → After (state_add_sign i op id sig r)
  unfolding state_add_sign
  signed-After op id sig r comm none k p g f = rw (g, f, state_add_sign) tt
  signed-After op id sig r comm (some (err x, q)) k p g f =
      rw (g, f, state_add_sign) (p (err x) q refl)
  signed-After op id sig r comm (some (ok false, q)) k p g f =
      rw (g, f, state_add_sign) (p (ok false) q refl)
  signed-After op id sig r comm (some (ok true, q)) k p g f =
      rw (g, f, state_add_sign) (try_finalize-After op _ _ k (p (ok true) q refl) refl)

  -- The calls of the quorum that an operation makes at one state end with the property.
  abbrev pub Gives : StateOpKind → Q → Type 0
  Gives (add_op msg) q = P (i.add msg q).1
  Gives (get_op id) q = P q
  Gives (delete_op id) q = P (i.delete id q).1
  Gives (add_sign_op id sig) q =
      (i.get id q ≡ none → P q)
      × ((q' : Q) (comm : C) (res : Result E Bool)
          → i.get id q ≡ some comm
          → i.add_signature id sig comm q ≡ some (res, q')
          → P q')

  dispatch-After :
      (op : ℕ) (kind : StateOpKind) (r : Round Q)
      → KeepsFinal
      → Gives kind r.quorum
      → After (dispatch i op kind r)
  unfolding dispatch
  dispatch-After op (add_op msg) r k p = state_add-After op msg r _ p refl
  dispatch-After op (get_op id) r k p = state_get-After op id r p
  dispatch-After op (delete_op id) r k p = state_delete-After op id r p
  dispatch-After op (add_sign_op id sig) r k p = elim (Option-cases (i.get id r.quorum)) [
    | inl e ↦ unfold state_add_sign in rw (e, state_add_sign) (p.0 e)
    | inr (comm, e) ↦ signed-After op id sig r comm _ k (λ res q' f. p.1 q' comm res e f) e refl
  ]

  Keeps-Gives : (kind : StateOpKind) (q : Q) → Keeps kind → P q → Gives kind q
  Keeps-Gives (add_op msg) q keeps p = keeps q p
  Keeps-Gives (get_op id) q keeps p = p
  Keeps-Gives (delete_op id) q keeps p = keeps q p
  Keeps-Gives (add_sign_op id sig) q keeps p =
      (λ _. p, λ q' comm res e f. keeps q q' comm res p e f)

  -- An operation that ends without a panic ends with the property, when its calls do.
  pub do_op-gives :
      (op : StateOp) (r r' : Round Q) (ans : Answers C E)
      → KeepsFinal
      → Gives op.kind r.quorum
      → do_op i op r ≡ some (r', ans)
      → P r'.quorum
  unfolding do_op
  do_op-gives op r r' ans k gives e = subst After e (dispatch-After op.pointer op.kind r k gives)

  -- An operation that ends without a panic keeps the property.
  pub do_op-keeps :
      (op : StateOp) (r r' : Round Q) (ans : Answers C E)
      → KeepsFinal
      → Keeps op.kind
      → P r.quorum
      → do_op i op r ≡ some (r', ans)
      → P r'.quorum
  do_op-keeps op r r' ans k keeps p e =
      do_op-gives op r r' ans k (Keeps-Gives op.kind r.quorum keeps p) e

  -- A run of operations that all keep the property keeps it.
  pub run-keeps :
      (ops : List StateOp) (r r' : Round Q) (ans : Answers C E)
      → KeepsFinal
      → All (λ op. Keeps op.kind) ops
      → P r.quorum
      → run i ops r ≡ some (r', ans)
      → P r'.quorum
  run-keeps [] r r' ans k keeps p e = subst (λ (x : Round Q). P x.quorum) (run-nil i r r' ans e) p
  run-keeps (op ∷ ops) r r' ans k keeps p e =
      let (r₁, now, later, f, g) = run-cons i op ops r r' ans e in
      run-keeps ops r₁ r' later k keeps.1 (do_op-keeps op r r₁ now k keeps.0 p f) g
