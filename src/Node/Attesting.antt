-- ===== src/Node/Attesting.antt =====
-- A proposal and the signatures that answer it, from node to node: the gossips that one node writes
-- are the operations that another executes.
use unison.Base.{◌≡◌, refl, ap, ◌∙◌, Bool, true, Option, some, List, [], ◌∷◌}
use unison.Base.Key.{Bytes, bytes_key}
use unison.Messages.{Signature, MessageId, Message}
use unison.Gossip.{
  Env, Event, process, adds_certificate, certifies, signs, publishes_signature, adds_signature,
  round_got, op_done, process_gossip, deliver_gossip, ValidationResult,
}
use unison.Gossip.Trace.{IsChecked, process_data-serves}
use unison.Gossip.Vouching.{IsVouched, reply_verdict, process_signature-serves}
use unison.Gossip.Sending.{
  Capnp, Documented, read, signature_setter, data_setter, broadcast_gossip, read-signature,
  read-data, deliver_gossip_lem,
}
use unison.Node.{Protocol}
use unison.Node.Handlers.{Follows}

module _ {S : Type 0} (c : Capnp S) (docs : Documented c) (p : Protocol) where
  -- The signature that one node publishes is added by another whose round is there and holds the
  -- certificate.
  signature_arrives :
      (env : Env) (publish : Bytes → Bool) (cid bytes : Bytes) (sig : Signature) (id : MessageId)
      → Follows p env
      → (broadcast_gossip c publish (signature_setter c cid sig)).0 ≡ some bytes
      → p.decode cid ≡ some id
      → p.verify cid sig ≡ true
      → env.get_round id.round ≡ round_got
      → env.get_certificate id ≡ op_done
      → deliver_gossip env (read c) bytes
        ≡ (reply_verdict (env.add_signature id sig), adds_signature id sig ∷ [])
  unfolding process_gossip process
  signature_arrives env publish cid bytes sig id f sent d v g h =
      let (gsp, e, kind, sent_id, body, signer) =
        read-signature c docs publish cid bytes sig sent in
      let vouched : IsVouched env gsp id sig = record {
        over = (cid, sent_id, f.decode cid ∙ d, f.verify cid sig ∙ v);
        sent_body = body;
        sent_signer = signer;
        round_live = g;
        held = h;
      } in
      let (trace, answer) = process_signature-serves env gsp id sig vouched in
      deliver_gossip_lem env (read c) bytes gsp e ∙ rw (kind, trace, answer) refl

  -- The proposal that one node publishes is added, certified, signed and answered by another.
  proposal_arrives :
      (env : Env) (publish : Bytes → Bool) (marshal_id : MessageId → Option Bytes) (msg : Message)
      (cid bytes : Bytes) (sig : Signature)
      → Follows p env
      → (broadcast_gossip c publish (data_setter c marshal_id msg)).0 ≡ some bytes
      → marshal_id msg.id ≡ some cid
      → p.decode cid ≡ some msg.id
      → p.is_valid msg.id ≡ true
      → p.hash msg ≡ some msg.id.hash
      → env.get_round msg.id.round ≡ round_got
      → env.add_certificate msg ≡ op_done
      → env.certify msg ≡ true
      → env.sign cid ≡ some sig
      → (deliver_gossip env (read c) bytes).1
        ≡ adds_certificate msg ∷ certifies msg ∷ signs cid ∷ publishes_signature cid sig ∷ []
  unfolding process_gossip process
  proposal_arrives env publish marshal_id msg cid bytes sig f sent m d v h g a cert s =
      let (gsp, cid', e, m', kind, sent_id, payload) =
        read-data c docs publish marshal_id msg bytes sent in
      let same_id : cid' ≡ cid = cc in
      let checked : IsChecked env gsp cid msg = record {
        sent_id = rw (← same_id) sent_id;
        sent_payload = payload;
        decoded = f.decode cid ∙ d;
        valid = f.is_valid msg.id ∙ v;
        hashed = f.hash msg ∙ h;
        live = g;
      } in
      let trace = process_data-serves env gsp cid msg sig checked a cert s in
      ap (λ (x : ValidationResult × List Event). x.1) (deliver_gossip_lem env (read c) bytes gsp e)
      ∙ rw (kind, trace) refl

  -- The round trip of a proposal. One node broadcasts a message whose id decodes, is valid and names
  -- its hash; another, whose round is there, takes the message and certifies it, and signs its id
  -- with a signature that verifies; a third holds the certificate in its round. Then the second adds
  -- the very message, certifies it, signs the bytes of its id and publishes that signature, and the
  -- third adds the very signature to that message's certificate.
  pub proposal_returns_signed :
      (receiver other : Env) (publish publish' : Bytes → Bool)
      (marshal_id : MessageId → Option Bytes) (msg : Message) (cid bytes answer : Bytes)
      (sig : Signature)
      → Follows p receiver
      → Follows p other
      → (broadcast_gossip c publish (data_setter c marshal_id msg)).0 ≡ some bytes
      → (broadcast_gossip c publish' (signature_setter c cid sig)).0 ≡ some answer
      → marshal_id msg.id ≡ some cid
      → p.decode cid ≡ some msg.id
      → p.is_valid msg.id ≡ true
      → p.hash msg ≡ some msg.id.hash
      → receiver.get_round msg.id.round ≡ round_got
      → receiver.add_certificate msg ≡ op_done
      → receiver.certify msg ≡ true
      → receiver.sign cid ≡ some sig
      → p.verify cid sig ≡ true
      → other.get_round msg.id.round ≡ round_got
      → other.get_certificate msg.id ≡ op_done
      → ((deliver_gossip receiver (read c) bytes).1
          ≡ adds_certificate msg ∷ certifies msg ∷ signs cid ∷ publishes_signature cid sig ∷ [])
        × (deliver_gossip other (read c) answer
            ≡ (reply_verdict (other.add_signature msg.id sig), adds_signature msg.id sig ∷ []))
  proposal_returns_signed receiver other publish publish' marshal_id msg cid bytes answer sig f f'
        sent sent' m d v h g a cert s verified g' held =
      (
        proposal_arrives receiver publish marshal_id msg cid bytes sig f sent m d v h g a cert s,
        signature_arrives other publish' cid answer sig msg.id f' sent' d verified g' held,
      )
