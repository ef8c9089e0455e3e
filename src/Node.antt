-- ===== src/Node.antt =====
-- A node: the rounds that it has started, each over its quorum, and the operations that its gossip
-- handlers execute on them (rebro/gossip with dag/quorum). Rounds stay in the store when the
-- registry drops them, since a handler may still hold one.
pub mod Safety
pub mod Handlers
pub mod Projection
pub mod Attesting
mod Examples
mod AttestExamples
use unison.Base.{ℕ, ◌≡◌, Bool, true, Option, none, some, List, [], ◌∷◌, if◌then◌else◌}
use unison.Base.Key.{Bytes, bytes_key, nat_key}
use unison.Base.Map.{Map, lookup, insert}
use unison.Messages.{Signature, MessageId, Message}
use unison.Quorum.{Includers, Certificate, Quorum, Error, new_quorum}
use unison.Quorum.Contract.{quorum_certificate}
use unison.Round.{
  Round, StateOp, StateOpKind, add_op, get_op, delete_op, add_sign_op, Answers, new_round, do_op,
}
use unison.Manager.{Manager, new_manager, start_round}
use unison.Gossip.{
  Env, Event, adds_certificate, certifies, deletes_certificate, signs, publishes_signature,
  adds_signature,
}

-- What all nodes have in common: how ids are decoded and validated, messages hashed, signatures
-- checked, and who the includers of a round are.
pub record Protocol : Type 0 where
  pub decode : Bytes → Option MessageId
  pub is_valid : MessageId → Bool
  pub hash : Message → Option Bytes
  pub verify : Bytes → Signature → Bool
  pub includers : ℕ → Includers

-- The registry holds a round by its number, which names it: a number is started once.
pub record Node : Type 0 where
  pub registry : Manager ℕ
  pub rounds : Map ℕ (Round Quorum)

pub new_node : Node
new_node = record { registry = new_manager; rounds = [] }

-- `StartRound` of a quorum that the chain made for the round.
pub start : Protocol → ℕ → Node → Node
unfolding insert
start p n s =
    let (started, _, registry) = start_round n n s.registry in
    if started
    then record {
      registry = registry;
      rounds = insert n (new_round n (new_quorum (p.includers n))) s.rounds;
    }
    else s

-- An operation that the loop of a round takes; `none` is a round that was never started, or a panic.
pub exec : ℕ → StateOp → Node → Option (Answers Certificate Error × Node)
unfolding lookup insert
exec n op s = elim (lookup n s.rounds) [
  | none ↦ none
  | some r ↦ elim (do_op quorum_certificate op r) [
    | none ↦ none
    | some (r', ans) ↦ some (ans, record s { rounds = insert n r' s.rounds })
  ]
]

-- The operation that a handler's call executes, and on which round: `AddCertificate`,
-- `DeleteCertificate` and `AddSignature`.
abbrev pub op_of : Event → Option (ℕ × StateOpKind)
op_of (adds_certificate msg) = some (msg.id.round, add_op msg)
op_of (certifies msg) = none
op_of (deletes_certificate id) = some (id.round, delete_op id)
op_of (signs cid) = none
op_of (publishes_signature cid sig) = none
op_of (adds_signature id sig) = some (id.round, add_sign_op id sig)

-- The operations that a handler's calls execute, in their order, each with its round.
abbrev pub operations : List Event → List (ℕ × StateOpKind)
operations [] = []
operations (e ∷ es) = elim (op_of e) [ none ↦ operations es | some o ↦ o ∷ operations es ]

module _ (p : Protocol) where
  -- A message of the round whose id came as bytes, is valid, and names the message's hash.
  abbrev pub IsGood : ℕ → Message → Type 0
  IsGood n msg =
      (msg.id.round ≡ n)
      × ((cid : Bytes) × (p.decode cid ≡ some msg.id))
      × (p.is_valid msg.id ≡ true)
      × (p.hash msg ≡ some msg.id.hash)

  -- A signature that was checked over the bytes of an id of the round that prints as the message's.
  abbrev pub Vouches : ℕ → Message → Signature → Type 0
  Vouches n msg sig =
      (id : MessageId) × (cid : Bytes) × (p.decode cid ≡ some id)
      × (id.round ≡ n)
      × (id.string ≡ msg.id.string)
      × (p.verify cid sig ≡ true)

  -- What the handlers check before they execute an operation.
  abbrev pub IsPermitted : ℕ → StateOpKind → Type 0
  IsPermitted n (add_op msg) = IsGood n msg
  IsPermitted n (get_op id) = Unit
  IsPermitted n (delete_op id) = Unit
  IsPermitted n (add_sign_op id sig) =
      (id.round ≡ n) × ((cid : Bytes) × (p.decode cid ≡ some id) × (p.verify cid sig ≡ true))

  -- A step of a node: it starts a round, executes a permitted operation, or does anything else to its
  -- registry.
  pub data Step (s : Node) : Node → Type 0 where
    starts : (n : ℕ) (t : Node) → t ≡ start p n s → Step s t
    executes :
        (n : ℕ) (op : StateOp) (ans : Answers Certificate Error) (t : Node)
        → IsPermitted n op.kind
        → exec n op s ≡ some (ans, t)
        → Step s t
    registers : (m : Manager ℕ) (t : Node) → t ≡ record s { registry = m } → Step s t

  pub data Reach (s : Node) : Node → Type 0 where
    here : Reach s s
    next : {t u : Node} → Reach s t → Step t u → Reach s u
