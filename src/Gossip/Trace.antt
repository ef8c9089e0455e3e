-- ===== src/Gossip/Trace.antt =====
-- What a node does for a gossip, and under which conditions.
use unison.Base.{
  ◌≡◌, ◌≢◌, refl, true, false, none, some, List, [], ◌∷◌, ◌⊎◌, inl, inr, arith, Option-cases,
  Bool-cases,
}
use unison.Base.Key.{Bytes, bytes_key}
use unison.Base.Result.{ok, err}
use unison.Messages.{Signature, MessageId, Message}
use unison.Gossip.{
  Gossip, Env, Event, adds_certificate, certifies, deletes_certificate, signs, publishes_signature,
  round_got, OpReply, op_done, op_closed, op_failed, certify_failed, Flow, flow, prepend,
  check_data, certify_data, process_data, trace_of,
}

-- The event stands in the trace.
abbrev pub Has : Event → List Event → Type 0
Has e [] = ⊥
Has e (x ∷ xs) = (x ≡ e) ⊎ Has e xs

-- What is known of a message when the node adds it to a round: it is the gossip's, its id decodes
-- and is valid, its hash is the one that the id names, and its round is there.
pub record IsChecked (env : Env) (gsp : Gossip) (canonical_id : Bytes) (msg : Message)
    : Type 0 where
  pub sent_id : gsp.id ≡ some canonical_id
  pub sent_payload : gsp.payload ≡ some msg.payload
  pub decoded : env.decode canonical_id ≡ some msg.id
  pub valid : env.is_valid msg.id ≡ true
  pub hashed : env.hash msg ≡ some msg.id.hash
  pub live : env.get_round msg.id.round ≡ round_got

pub prepend_nil : {A : Type 0} (m : Flow A) → prepend [] m ≡ m
prepend_nil (flow trace r) = refl

-- How `check_data` ends.
abbrev Checks : Env → Gossip → Flow (Bytes × Message) → Type 0
Checks env gsp (flow trace (ok (cid, msg))) = (trace ≡ []) × IsChecked env gsp cid msg
Checks env gsp (flow trace (err _)) = trace ≡ []

module _ (env : Env) (gsp : Gossip) where
  check_hashed :
      (cid : Bytes) (msg : Message) (digest : Bytes)
      → gsp.id ≡ some cid
      → gsp.payload ≡ some msg.payload
      → env.decode cid ≡ some msg.id
      → env.is_valid msg.id ≡ true
      → env.hash msg ≡ some digest
      → Checks env gsp (check_data env gsp)
  unfolding check_data
  check_hashed cid msg digest e f d v h = ground arith

  check_decoded :
      (cid payload : Bytes) (id : MessageId)
      → gsp.id ≡ some cid
      → gsp.payload ≡ some payload
      → env.decode cid ≡ some id
      → Checks env gsp (check_data env gsp)
  unfolding check_data
  check_decoded cid payload id e f d = elim (Bool-cases (env.is_valid id)) [
    | inr v ↦ ground (arith, v)
    | inl v ↦ elim (Option-cases (env.hash (record { id = id; payload = payload }))) [
      | inl h ↦ ground (arith, h, v)
      | inr (digest, h) ↦ check_hashed cid (record { id = id; payload = payload }) digest e f d v h
    ]
  ]

  -- `check_data` changes nothing, and what it lets pass is checked.
  check_data-Checks : Checks env gsp (check_data env gsp)
  unfolding check_data
  check_data-Checks = elim (Option-cases gsp.id) [
    | inl e ↦ ground (arith, e)
    | inr (cid, e) ↦ elim (Option-cases gsp.payload) [
      | inl f ↦ ground (arith, e, f)
      | inr (payload, f) ↦ elim (Option-cases (env.decode cid)) [
        | inl d ↦ ground (arith, e, f, d)
        | inr (id, d) ↦ check_decoded cid payload id e f d
      ]
    ]
  ]

  -- What `certify_data` does for a message: the four ways it can go on after adding it.
  abbrev pub CertifyTrace : Bytes → Message → Flow (Unit {0}) → Type 0
  CertifyTrace cid msg (flow trace r) =
      ((env.add_certificate msg ≢ op_done) × (trace ≡ adds_certificate msg ∷ []))
      ⊎ ((env.add_certificate msg ≡ op_done)
          × (env.certify msg ≡ false)
          × (trace ≡ adds_certificate msg ∷ certifies msg ∷ deletes_certificate msg.id ∷ [])
          × (r ≡ err (some (certify_failed (env.delete_certificate msg.id)))))
      ⊎ ((env.add_certificate msg ≡ op_done)
          × (env.certify msg ≡ true)
          × (env.sign cid ≡ none)
          × (trace ≡ adds_certificate msg ∷ certifies msg ∷ signs cid ∷ []))
      ⊎ ((sig : Signature) × (env.add_certificate msg ≡ op_done)
          × (env.certify msg ≡ true)
          × (env.sign cid ≡ some sig)
          × (trace
              ≡ adds_certificate msg
                ∷ certifies msg
                ∷ signs cid
                ∷ publishes_signature cid sig
                ∷ []))

  added-CertifyTrace :
      (cid : Bytes) (msg : Message)
      → env.add_certificate msg ≡ op_done
      → CertifyTrace cid msg (certify_data env cid msg)
  unfolding certify_data
  added-CertifyTrace cid msg a = elim (Bool-cases (env.certify msg)) [
    | inr c ↦ rw (a, c, certify_data) (inr (inl (a, c, refl, refl)))
    | inl c ↦ elim (Option-cases (env.sign cid)) [
      | inl s ↦ rw (a, c, s, certify_data) (inr (inr (inl (a, c, s, refl))))
      | inr (sig, s) ↦ elim (Bool-cases (env.publish cid sig)) [
        | inl p ↦ rw (a, c, s, p, certify_data) (inr (inr (inr (sig, a, c, s, refl))))
        | inr p ↦ rw (a, c, s, p, certify_data) (inr (inr (inr (sig, a, c, s, refl))))
      ]
    ]
  ]

  certify_data-CertifyTrace :
      (cid : Bytes) (msg : Message) (reply : OpReply)
      → env.add_certificate msg ≡ reply
      → CertifyTrace cid msg (certify_data env cid msg)
  unfolding certify_data
  certify_data-CertifyTrace cid msg op_done a = added-CertifyTrace cid msg a
  certify_data-CertifyTrace cid msg op_closed a = rw (a, certify_data) (inl (λ e. cc, refl))
  certify_data-CertifyTrace cid msg op_failed a = rw (a, certify_data) (inl (λ e. cc, refl))

  -- How `process_data` goes on after its checks.
  abbrev pub DataTrace : Flow (Unit {0}) → Type 0
  DataTrace run =
      (trace_of run ≡ [])
      ⊎ ((cid : Bytes) × (msg : Message) × IsChecked env gsp cid msg × CertifyTrace cid msg run)

  bind-DataTrace :
      (checked : Flow (Bytes × Message))
      → check_data env gsp ≡ checked
      → Checks env gsp checked
      → DataTrace (process_data env gsp)
  unfolding process_data
  bind-DataTrace (flow trace (err e)) same_flow c = rw (same_flow, process_data) (inl c)
  bind-DataTrace (flow trace (ok (cid, msg))) same_flow c =
      rw (same_flow, c.0, process_data)
        (rw (prepend_nil (certify_data env cid msg))
          (inr (cid, msg, c.1, certify_data-CertifyTrace cid msg _ refl)))

  -- The handling of a data gossip does nothing outside, or it adds the checked message to its round
  -- and then stops if the round does not take it; deletes it again and rejects the gossip if it
  -- fails certification; and signs the id, and publishes that signature, only after certification.
  pub process_data-DataTrace : DataTrace (process_data env gsp)
  process_data-DataTrace = bind-DataTrace _ refl check_data-Checks

  -- A gossip that passes every check, and whose message the round takes and the certifier accepts, is
  -- signed and answered.
  pub process_data-serves :
      (cid : Bytes) (msg : Message) (sig : Signature)
      → IsChecked env gsp cid msg
      → env.add_certificate msg ≡ op_done
      → env.certify msg ≡ true
      → env.sign cid ≡ some sig
      → trace_of (process_data env gsp)
        ≡ adds_certificate msg ∷ certifies msg ∷ signs cid ∷ publishes_signature cid sig ∷ []
  unfolding process_data check_data certify_data
  process_data-serves cid msg sig v a c s = elim (Bool-cases (env.publish cid sig)) [
    | inl e ↦ ground (arith, v.sent_id, v.sent_payload, v.decoded, v.valid, v.hashed, v.live)
    | inr e ↦ ground (arith, v.sent_id, v.sent_payload, v.decoded, v.valid, v.hashed, v.live)
  ]
