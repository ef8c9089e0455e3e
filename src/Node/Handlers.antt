-- ===== src/Node/Handlers.antt =====
-- The operations that the gossip handlers execute: which they are, and that they are permitted.
use unison.Base.{ℕ, List, [], ◌∷◌, ◌⊎◌, false, ◌≡◌, All}
use unison.Base.Key.{Bytes}
use unison.Messages.{Signature, MessageId, Message}
use unison.Round.{StateOpKind, add_op, delete_op, add_sign_op}
use unison.Gossip.{Which, which_data, which_signature, which_unknown, Gossip, Env}
use unison.Gossip.Trace.{IsChecked}
use unison.Gossip.Vouching.{IsVouched}
use unison.Node.{Protocol, IsPermitted}

module _ (p : Protocol) (env : Env) where
  -- The node decodes, validates, hashes and verifies as the protocol says.
  pub record Follows : Type 0 where
    pub decode : (bytes : Bytes) → env.decode bytes ≡ p.decode bytes
    pub is_valid : (id : MessageId) → env.is_valid id ≡ p.is_valid id
    pub hash : (msg : Message) → env.hash msg ≡ p.hash msg
    pub verify : (bytes : Bytes) (sig : Signature) → env.verify bytes sig ≡ p.verify bytes sig

module _ (env : Env) where
  -- The operations of a node that handles a data gossip: none, or it adds the message, which was
  -- checked, to the round of its id, and may delete it there again when it was refused.
  abbrev pub DataOperations : Gossip → List (ℕ × StateOpKind) → Type 0
  DataOperations gsp ops =
      (ops ≡ [])
      ⊎ ((canonical_id : Bytes) × (msg : Message) × IsChecked env gsp canonical_id msg
          × ((ops ≡ (msg.id.round, add_op msg) ∷ [])
              ⊎ ((env.certify msg ≡ false)
                  × (ops ≡ (msg.id.round, add_op msg) ∷ (msg.id.round, delete_op msg.id) ∷ []))))

  -- The operations of a node that handles a signature gossip: none, or it adds the signature, which
  -- was checked, to the certificate of the id in the id's round.
  abbrev pub SignatureOperations : Gossip → List (ℕ × StateOpKind) → Type 0
  SignatureOperations gsp ops =
      (ops ≡ [])
      ⊎ ((id : MessageId) × (sig : Signature) × IsVouched env gsp id sig
          × (ops ≡ (id.round, add_sign_op id sig) ∷ []))

  -- The operations of a node that handles a gossip, by the member that the gossip says it holds.
  abbrev pub GossipOperations : Which → Gossip → List (ℕ × StateOpKind) → Type 0
  GossipOperations which_data gsp ops = DataOperations gsp ops
  GossipOperations which_signature gsp ops = SignatureOperations gsp ops
  GossipOperations which_unknown gsp ops = ops ≡ []

-- Every operation is permitted on its round.
abbrev pub AllPermitted : Protocol → List (ℕ × StateOpKind) → Type 0
AllPermitted p = All (λ (o : ℕ × StateOpKind). IsPermitted p o.0 o.1)
