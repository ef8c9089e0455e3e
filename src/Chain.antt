-- ===== src/Chain.antt =====
-- dag/chain.go, certifier.go and hasher.go: how a node assembles and broadcasts its block of a
-- height, and what it asks of the blocks of others. The broadcaster is an argument: Gossip models it.
pub mod Certify
pub mod Assembly
pub mod Heights
pub mod Running
pub mod Broadcasting
pub mod Progress
pub mod Examples
mod ProgressExamples
use unison.Base.{
  ℕ, ◌+◌, ◌^◌, ◌%◌, Bool, true, false, Option, none, some, List, [], ◌∷◌, if◌then◌else◌, map,
}
use unison.Base.Key.{Bytes}
use unison.Messages.{MessageId, Message, Batch}
use unison.MemPool.{MemPool, delete_batch, list_by_signer}
use unison.Quorum.{Includers, Quorum, Certificate, new_quorum, list}
use unison.Block.{
  BlockId, Block, Capnp, is_valid_id, message_id, bytes_of, marshal, unmarshal, new_block,
  hash_block,
}

-- `hasher.Hash`
pub hash_message : (sha256 : Bytes → Bytes) → Message → Bytes
hash_message sha256 msg = sha256 msg.payload

-- How a `Pull` ends: with the batch, with `ErrBatchDeleted`, or with another error.
pub data PullReply : Type 0 where
  pull_got pull_deleted pull_failed : PullReply

pub data CertifyError : Type 0 where
  empty_data id_invalid block_malformed batch_missing : CertifyError

-- The loop of `Certify`.
pub pull_all : (Bytes → PullReply) → List Bytes → Option CertifyError
pull_all pull [] = none
pull_all pull (digest ∷ hashes) =
    let rest = pull_all pull hashes in
    elim (pull digest) [ pull_failed ↦ some batch_missing | pull_got ↦ rest | pull_deleted ↦ rest ]

-- `Certify`; `none` is nil, and so is a nil payload. `Block.Validate` accepts every block.
pub certify : Capnp → (Bytes → PullReply) → BlockId → (payload : Option Bytes) → Option CertifyError
unfolding pull_all is_valid_id
certify capnp pull id none = some empty_data
certify capnp pull id (some payload) =
    if is_valid_id id
    then elim (unmarshal capnp payload) [
      | none ↦ some block_malformed
      | some blk ↦ pull_all pull blk.batches
    ]
    else some id_invalid

-- `Chain`: what its rounds change.
pub record Chain : Type 0 where
  pub height : ℕ
  pub last_certs : List Certificate

pub new_chain : Chain
new_chain = record { height = 1; last_certs = [] }

pub data ChainError : Type 0 where
  marshal_failed includers_failed broadcast_failed : ChainError

-- How a call of `startRound` ends: in a panic, waiting for a batch, or with a result.
pub data RoundEnd : Type 0 where
  panics : RoundEnd
  waits : MemPool → RoundEnd
  fails : ChainError → Chain → MemPool → RoundEnd
  finishes : Message → Chain → MemPool → RoundEnd

-- The inner loop over the batches of a block.
pub delete_all : List Bytes → MemPool → MemPool
delete_all [] p = p
delete_all (h ∷ hs) p = delete_all hs (delete_batch h p).1

-- The loop over the last certificates: the parents' hashes, and the pool without their batches.
-- `none` is the panic.
pub clean : Capnp → List Certificate → MemPool → Option (List Bytes × MemPool)
unfolding delete_all
clean capnp [] p = some ([], p)
clean capnp (cert ∷ certs) p = elim (unmarshal capnp cert.msg.payload) [
  | none ↦ none
  | some blk ↦ elim (clean capnp certs (delete_all blk.batches p)) [
    | none ↦ none
    | some (parents, p') ↦ some (cert.msg.id.hash ∷ parents, p')
  ]
]

module _ (capnp : Capnp) (sha256 : Bytes → Bytes) where
  -- The block of a height with its hash, and its bytes: the middle of `startRound`. `none` is the
  -- panic of `Hash`, and `some none` an error of `MarshalBinary`.
  pub assemble : ℕ → Bytes → List Batch → List Bytes → Option (Option Message)
  unfolding hash_block marshal new_block
  assemble height signer batches parents =
      elim (hash_block capnp sha256 (new_block capnp sha256 height signer batches parents)) [
        | none ↦ none
        | some (_, blk) ↦ elim (marshal capnp blk) [
          | none ↦ some none
          | some payload ↦ some (some (record { id = message_id blk.block_id; payload = payload }))
        ]
      ]

  module _ (includers : ℕ → Option Includers) (broadcast : Message → Quorum → Bool × Quorum)
      (signer : Bytes) where
    -- The end of `startRound`, from the call of `c.includers` on. `broadcast` gives the quorum after
    -- `Broadcast` and whether that returned nil.
    propose : Message → Chain → MemPool → RoundEnd
    propose msg c p = elim (includers c.height) [
      | none ↦ fails includers_failed c p
      | some incl ↦
          let (sent, qrm) = broadcast msg (new_quorum incl) in
          if sent
          then finishes msg (record { height = (c.height + 1) % 2 ^ 64; last_certs = list qrm }) p
          else fails broadcast_failed c p
    ]

    -- `startRound` after its loop over the last certificates, from `ListBySigner` on.
    pub list_and_propose : List Bytes → Chain → MemPool → RoundEnd
    unfolding assemble propose
    list_and_propose parents c p = elim (list_by_signer signer p) [
      | none ↦ waits p
      | some batches ↦ elim (assemble c.height signer batches parents) [
        | none ↦ panics
        | some none ↦ fails marshal_failed c p
        | some (some msg) ↦ propose msg c p
      ]
    ]

    -- `startRound`
    pub start_round : Chain → MemPool → RoundEnd
    unfolding clean list_and_propose
    start_round c p = elim (clean capnp c.last_certs p) [
      | none ↦ panics
      | some (parents, p') ↦ list_and_propose parents c p'
    ]
