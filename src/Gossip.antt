-- ===== src/Gossip.antt =====
-- rebro/gossip/process.go and broadcaster.go: how a node handles a gossip and broadcasts its own
-- message. The parts that it calls (the rounds, the certifier, the signer, the hasher, the decoder,
-- pubsub and capnp) are the answers of an `Env`; the trace lists the calls that change something
-- outside, in order.
pub mod Trace
pub mod Vouching
pub mod Broadcast
pub mod Sending
mod Lifecycle
mod Examples
use unison.Base.{ℕ, Bool, true, false, Option, none, some, List, [], ◌∷◌, ◌++◌, if◌then◌else◌}
use unison.Base.Key.{Bytes, same, bytes_key}
use unison.Base.Result.{Result, ok, err}
use unison.Messages.{Signature, MessageId, Message}

-- `gossipmsg.Gossip_Which`; a value of neither kind is `unknown`.
pub data Which : Type 0 where
  which_data which_signature which_unknown : Which

-- A decoded gossip: what its accessors return, `none` being an error.
pub record Gossip : Type 0 where
  pub which : Which
  pub id : Option Bytes
  pub payload : Option Bytes
  pub signature : Option Bytes
  pub signer : Option Bytes

-- How `GetRound` returns: with a round, with `ErrElapsedRound`, or with another error.
pub data RoundReply : Type 0 where
  round_got round_elapsed round_failed : RoundReply

-- How a call on a round returns: nil, `ErrClosedRound`, or another error.
pub data OpReply : Type 0 where
  op_done op_closed op_failed : OpReply

-- The errors of `processGossip`. `certify_failed` says whether the deletion succeeded too.
pub data ProcessError : Type 0 where
  unknown_type bad_gossip decode_failed id_invalid hash_failed hash_mismatch : ProcessError
  round_error add_failed : ProcessError
  certify_failed : OpReply → ProcessError
  sign_failed broadcast_failed get_failed verify_failed add_signature_failed : ProcessError

-- The calls with an effect outside of the handler, with what they are given.
pub data Event : Type 0 where
  adds_certificate : Message → Event
  certifies : Message → Event
  deletes_certificate : MessageId → Event
  signs : Bytes → Event
  publishes_signature : (canonical_id : Bytes) → Signature → Event
  adds_signature : MessageId → Signature → Event

pub record Env : Type 0 where
  -- `bro.decoder`, `MessageID.Validate` and `bro.hasher`
  pub decode : Bytes → Option MessageId
  pub is_valid : MessageId → Bool
  pub hash : Message → Option Bytes
  -- `bro.rounds.GetRound` and the calls on the round
  pub get_round : ℕ → RoundReply
  pub add_certificate : Message → OpReply
  pub delete_certificate : MessageId → OpReply
  pub get_certificate : MessageId → OpReply
  pub add_signature : MessageId → Signature → OpReply
  -- `bro.certifier.Certify`, `bro.signer` and the topic's `Publish`; a panic of `Verify`, which
  -- `deliverGossip` recovers from and rejects the gossip for, is `false` like its error
  pub certify : Message → Bool
  pub sign : Bytes → Option Signature
  pub verify : Bytes → Signature → Bool
  pub publish : Bytes → Signature → Bool

-- A handler's run: its trace, and its value, or the error that it returns early (`none` is nil).
pub data Flow (A : Type 0) : Type 0 where
  flow : List Event → Result (Option ProcessError) A → Flow A

abbrev pub prepend : {A : Type 0} → List Event → Flow A → Flow A
prepend before (flow trace r) = flow (before ++ trace) r

infixl 5 ◌>>=◌ ◌>>◌
abbrev pub ◌>>=◌ : {A B : Type 0} → Flow A → (A → Flow B) → Flow B
flow trace (ok a) >>= f = prepend trace (f a)
flow trace (err e) >>= f = flow trace (err e)

abbrev pub ◌>>◌ : {A B : Type 0} → Flow A → Flow B → Flow B
m >> k = m >>= λ _. k

abbrev pub emit : Event → Flow (Unit {0})
emit e = flow (e ∷ []) (ok tt)

abbrev pub guard : Bool → ProcessError → Flow (Unit {0})
guard true e = flow [] (ok tt)
guard false e = flow [] (err (some e))

abbrev pub or_fail : {A : Type 0} → Option A → ProcessError → Flow A
or_fail none e = flow [] (err (some e))
or_fail (some a) e = flow [] (ok a)

-- `if errors.Is(err, round.ErrElapsedRound) { return nil }`, and the same for a closed round.
abbrev pub unless_elapsed : RoundReply → Flow (Unit {0})
unless_elapsed round_got = flow [] (ok tt)
unless_elapsed round_elapsed = flow [] (err none)
unless_elapsed round_failed = flow [] (err (some round_error))

abbrev pub unless_closed : OpReply → ProcessError → Flow (Unit {0})
unless_closed op_done e = flow [] (ok tt)
unless_closed op_closed e = flow [] (err none)
unless_closed op_failed e = flow [] (err (some e))

module _ (env : Env) where
  -- The certification in `processData`: a message that fails it is deleted again.
  certify_or_delete : Message → Flow (Unit {0})
  certify_or_delete msg =
      if env.certify msg
      then flow (certifies msg ∷ []) (ok tt)
      else flow (certifies msg ∷ deletes_certificate msg.id ∷ [])
          (err (some (certify_failed (env.delete_certificate msg.id))))

  -- `processData` up to the round: the canonical id and the message, whose hash is that of its id.
  pub check_data : Gossip → Flow (Bytes × Message)
  check_data gsp = do
    canonical_id ← or_fail gsp.id bad_gossip
    payload ← or_fail gsp.payload bad_gossip
    id ← or_fail (env.decode canonical_id) decode_failed
    guard (env.is_valid id) id_invalid
    let msg = let m : Message = record { id = id; payload = payload } in m
    digest ← or_fail (env.hash msg) hash_failed
    guard (same digest id.hash) hash_mismatch
    unless_elapsed (env.get_round id.round)
    flow [] (ok (canonical_id, msg))

  -- The rest of `processData`: add to the round, certify, sign and publish.
  pub certify_data : Bytes → Message → Flow (Unit {0})
  unfolding certify_or_delete
  certify_data canonical_id msg = do
    emit (adds_certificate msg)
    unless_closed (env.add_certificate msg) add_failed
    certify_or_delete msg
    emit (signs canonical_id)
    signature ← or_fail (env.sign canonical_id) sign_failed
    emit (publishes_signature canonical_id signature)
    guard (env.publish canonical_id signature) broadcast_failed

  pub process_data : Gossip → Flow (Unit {0})
  process_data gsp = do checked ← check_data gsp; certify_data checked.0 checked.1

  pub process_signature : Gossip → Flow (Unit {0})
  process_signature gsp = do
    canonical_id ← or_fail gsp.id bad_gossip
    id ← or_fail (env.decode canonical_id) decode_failed
    unless_elapsed (env.get_round id.round)
    unless_closed (env.get_certificate id) get_failed
    body ← or_fail gsp.signature bad_gossip
    signer ← or_fail gsp.signer bad_gossip
    let signature = let s : Signature = record { body = body; signer = signer } in s
    guard (env.verify canonical_id signature) verify_failed
    emit (adds_signature id signature)
    unless_closed (env.add_signature id signature) add_signature_failed

  unfoldable pub process : Which → Gossip → Flow (Unit {0})
  unfolding process_data process_signature
  process which_data gsp = process_data gsp
  process which_signature gsp = process_signature gsp
  process which_unknown gsp = flow [] (err (some unknown_type))

  unfoldable pub process_gossip : Gossip → Flow (Unit {0})
  unfolding process
  process_gossip gsp = process gsp.which gsp

-- `pubsub.ValidationResult`
pub data ValidationResult : Type 0 where
  validation_accept validation_reject : ValidationResult

abbrev pub verdict : {A : Type 0} → Flow A → ValidationResult
verdict (flow _ (ok _)) = validation_accept
verdict (flow _ (err none)) = validation_accept
verdict (flow _ (err (some _))) = validation_reject

abbrev pub trace_of : {A : Type 0} → Flow A → List Event
trace_of (flow trace _) = trace

-- `deliverGossip`: `unmarshal` is capnp's, `none` an error.
pub deliver_gossip : Env → (Bytes → Option Gossip) → Bytes → ValidationResult × List Event
unfolding process_gossip
deliver_gossip env unmarshal bytes = elim (unmarshal bytes) [
  | none ↦ (validation_reject, [])
  | some msg ↦ let run = process_gossip env msg in (verdict run, trace_of run)
]
