-- ===== src/Round.antt =====
-- rebro/gossip/internal/round/round.go and state_op.go: the state machine of one round. Its loop
-- alone touches the quorum, one operation at a time; an operation is answered on its `doneCh`, or
-- waits as a subscription. A waiting operation is named by a number, its pointer.
pub mod Order
pub mod Settle
pub mod Run
pub mod Loop
pub mod Termination
pub mod Waiting
pub mod Delivery
pub mod Final
pub mod Preserve
pub mod Prompt
pub mod Examples
pub mod OrderExamples
use unison.Base.{
  ℕ, Bool, true, false, Option, none, some, List, [], ◌∷◌, ◌++◌, map, if◌then◌else◌, ite,
  ℕ_discrete,
}
use unison.Base.Key.{Bytes, bytes_key}
use unison.Base.Map.{Map, lookup, insert, delete}
use unison.Base.Result.{Result, ok, err}
use unison.Messages.{Signature, MessageId, Message}
use unison.Certificates.{QuorumCertificate}

-- `stateOpKind` with the request data of each kind.
pub data StateOpKind : Type 0 where
  add_op : Message → StateOpKind
  get_op : MessageId → StateOpKind
  delete_op : MessageId → StateOpKind
  add_sign_op : MessageId → Signature → StateOpKind

pub record StateOp : Type 0 where
  pub pointer : ℕ
  pub kind : StateOpKind

-- The errors that an operation is answered with.
pub data OpError (E : Type 0) : Type 0 where
  quorum_error : E → OpError E
  finalizing : E → OpError E
  not_deleted not_found : OpError E

-- `SetCertificate` and `SetError`, where `none` is Go's nil error.
pub data Answer (C E : Type 0) : Type 0 where
  set_certificate : C → Answer C E
  set_error : Option (OpError E) → Answer C E

-- `finalized` says that `finalCh` is closed.
pub record Round (Q : Type 0) : Type 0 where
  pub round_num : ℕ
  pub quorum : Q
  pub get_op_subs : Map Bytes (List ℕ)
  pub finalized : Bool

unfoldable pub new_round : {Q : Type 0} → ℕ → Q → Round Q
new_round n q = record { round_num = n; quorum = q; get_op_subs = []; finalized = false }

-- The set of waiting operations of one id: membership, and removal.
pub contains : ℕ → List ℕ → Bool
contains op [] = false
contains op (x ∷ xs) = ite (ℕ_discrete x op) true (contains op xs)

pub remove : ℕ → List ℕ → List ℕ
remove op [] = []
remove op (x ∷ xs) = ite (ℕ_discrete x op) xs (x ∷ remove op xs)

-- An answered operation, by its pointer.
abbrev pub Answers : Type 0 → Type 0 → Type 0
Answers C E = List (ℕ × Answer C E)

-- The certificate for every operation that waited for it.
abbrev pub notify : {C E : Type 0} → C → List ℕ → Answers C E
notify comm [] = []
notify comm (op ∷ ops) = (op, set_certificate comm) ∷ notify comm ops

module _ {Q C E : Type 0} (i : QuorumCertificate Q C E) where
  -- The outcome of an operation: the round after it and the answers given, or a panic.
  abbrev pub Outcome : Type 0
  Outcome = Option (Round Q × Answers C E)

  abbrev finish : ℕ → Option (OpError E) → Round Q → Outcome
  finish op e r = some (r, (op, set_error e) ∷ [])

  -- `stateAdd` after the certificate was added: whoever waits for it is notified.
  pub notify_added : ℕ → MessageId → Round Q → Outcome
  unfolding lookup delete
  notify_added op id r = elim (lookup id.string r.get_op_subs) [
    | none ↦ finish op none r
    | some subs ↦ elim subs [
      | [] ↦ finish op none r
      | w ∷ ws ↦ elim (i.get id r.quorum) [
        | none ↦ none
        | some comm ↦ some (
          record r { get_op_subs = delete id.string r.get_op_subs },
          notify comm (w ∷ ws) ++ (op, set_error none) ∷ [],
        )
      ]
    ]
  ]

  pub state_add : ℕ → Message → Round Q → Outcome
  unfolding notify_added
  state_add op msg r =
      let (res, q) = i.add msg r.quorum in
      elim res [
        | err e ↦ finish op (some (quorum_error e)) (record r { quorum = q })
        | ok _ ↦ notify_added op msg.id (record r { quorum = q })
      ]

  -- `stateGet` when there is no certificate: subscribe, or cancel the subscription when the same
  -- operation comes again. The inner set is nil or missing before the first subscriber.
  pub subscribe : ℕ → MessageId → List ℕ → Round Q → Outcome
  unfolding contains remove insert delete
  subscribe op id inner r =
      if contains op inner
      then finish op none (record r {
        get_op_subs = elim (remove op inner) [
          | [] ↦ delete id.string r.get_op_subs
          | x ∷ xs ↦ insert id.string (x ∷ xs) r.get_op_subs
        ];
      })
      else some (record r { get_op_subs = insert id.string (op ∷ inner) r.get_op_subs }, [])

  pub state_get : ℕ → MessageId → Round Q → Outcome
  unfolding subscribe lookup
  state_get op id r = elim (i.get id r.quorum) [
    | some comm ↦ some (r, (op, set_certificate comm) ∷ [])
    | none ↦ elim (lookup id.string r.get_op_subs) [
      | none ↦ subscribe op id [] r
      | some inner ↦ subscribe op id inner r
    ]
  ]

  pub state_delete : ℕ → MessageId → Round Q → Outcome
  state_delete op id r =
      let (found, q) = i.delete id r.quorum in
      if found
      then finish op none (record r { quorum = q })
      else finish op (some not_deleted) (record r { quorum = q })

  -- The end of `stateAddSign`: the certificate is complete, so the quorum may be final.
  try_finalize : ℕ → Round Q → Outcome
  try_finalize op r = elim (i.finalize r.quorum) [
    | none ↦ none
    | some (err e, q) ↦ finish op (some (finalizing e)) (record r { quorum = q })
    | some (ok false, q) ↦ finish op none (record r { quorum = q })
    | some (ok true, q) ↦ finish op none (record r { quorum = q; finalized = true })
  ]

  pub state_add_sign : ℕ → MessageId → Signature → Round Q → Outcome
  unfolding try_finalize
  state_add_sign op id sig r = elim (i.get id r.quorum) [
    | none ↦ finish op (some not_found) r
    | some comm ↦ elim (i.add_signature id sig comm r.quorum) [
      | none ↦ none
      | some (err e, q) ↦ finish op (some (quorum_error e)) (record r { quorum = q })
      | some (ok false, q) ↦ finish op none (record r { quorum = q })
      | some (ok true, q) ↦ try_finalize op (record r { quorum = q })
    ]
  ]

  -- `doOp` of `stateLoop`.
  dispatch : ℕ → StateOpKind → Round Q → Outcome
  unfolding state_add state_get state_delete state_add_sign
  dispatch op (add_op msg) r = state_add op msg r
  dispatch op (get_op id) r = state_get op id r
  dispatch op (delete_op id) r = state_delete op id r
  dispatch op (add_sign_op id sig) r = state_add_sign op id sig r

  pub do_op : StateOp → Round Q → Outcome
  unfolding dispatch
  do_op op r = dispatch op.pointer op.kind r

  -- The loop over a sequence of operations, with all that it answered.
  unfoldable pub run : List StateOp → Round Q → Outcome
  unfolding do_op
  run [] r = some (r, [])
  run (op ∷ ops) r = elim (do_op op r) [
    | none ↦ none
    | some (r', now) ↦ elim (run ops r') [
      | none ↦ none
      | some (r'', later) ↦ some (r'', now ++ later)
    ]
  ]
