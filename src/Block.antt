-- ===== src/Block.antt =====
-- dag/block/block.go and id.go: blocks, their ids, and how both are hashed, printed and serialized.
-- capnp and sha256 are arguments.
pub mod Hex
pub mod Codec
pub mod Examples
use unison.Base.{
  ℕ, ◌+◌, ◌*◌, ◌<◌, ◌≡◌, Bool, Option, none, some, List, [], ◌∷◌, length, ltb, ◌==◌, ◌/◌, ◌%◌, map,
  if◌then◌else◌,
}
use unison.Base.Key.{Bytes}
use unison.Messages.{MessageId, Batch}
use unison.MemPool.{hash}

-- `blockID`; `hash` is `none` while it is nil.
pub record BlockId : Type 0 where
  pub round : ℕ
  pub signer : Bytes
  pub hash : Option Bytes

-- `Block`
pub record Block : Type 0 where
  pub block_id : BlockId
  pub batches : List Bytes
  pub parents : List Bytes

-- One digit of `%X`, and the digits of a byte string.
digit : ℕ → ℕ
digit n = if ltb n 10 then 48 + n else 55 + n

unfoldable pub hex : Bytes → Bytes
unfolding digit
hex [] = []
hex (b ∷ bs) = digit (b / 16) ∷ digit (b % 16) ∷ hex bs

-- A nil hash is empty.
abbrev pub bytes_of : Option Bytes → Bytes
bytes_of none = []
bytes_of (some bs) = bs

-- `blockID.Validate`, where `sha256.Size` is 32.
unfoldable pub is_valid_id : BlockId → Bool
is_valid_id id = length (bytes_of id.hash) == 32

-- An id as a `rebro.MessageID`: what `Round`, `Signer`, `Hash` and `String` return.
unfoldable pub message_id : BlockId → MessageId
unfolding hex
message_id id = record {
  round = id.round;
  signer = id.signer;
  hash = bytes_of id.hash;
  string = hex (bytes_of id.hash);
}

-- The accessors of a decoded `blockmsg.Block` and of a `blockmsg.BlockID`; `none` is an error.
pub record BlockMessage : Type 0 where
  pub round : ℕ
  pub signer : Option Bytes
  pub batches : Option (List (Option Bytes))
  pub parents : Option (List (Option Bytes))

pub record IdMessage : Type 0 where
  pub round : ℕ
  pub signer : Option Bytes
  pub hash : Option Bytes

-- capnp: a message with the given contents as bytes, and bytes as a message.
pub record Capnp : Type 0 where
  pub marshal_block : (round : ℕ) (signer : Bytes) (batches parents : List Bytes) → Option Bytes
  pub unmarshal_block : Bytes → Option BlockMessage
  pub marshal_id : (round : ℕ) (signer hash : Bytes) → Option Bytes
  pub unmarshal_id : Bytes → Option IdMessage

infixl 5 ◌>>=◌
abbrev pub ◌>>=◌ : {A B : Type 0} → Option A → (A → Option B) → Option B
none >>= f = none
some a >>= f = f a

-- The loops of `UnmarshalBinary` over the entries of a list.
pub entries : List (Option Bytes) → Option (List Bytes)
entries [] = some []
entries (none ∷ es) = none
entries (some e ∷ es) = do rest ← entries es; some (e ∷ rest)

module _ (capnp : Capnp) where
  -- `blockID.MarshalBinary`
  pub marshal_id : BlockId → Option Bytes
  marshal_id id = capnp.marshal_id id.round id.signer (bytes_of id.hash)

  -- `UnmarshalBlockID`
  pub unmarshal_id : Bytes → Option BlockId
  unmarshal_id bytes = do
    msg ← capnp.unmarshal_id bytes
    digest ← msg.hash
    signer ← msg.signer
    some (record { round = msg.round; signer = signer; hash = some digest })

  -- `Block.MarshalBinary`; the hash is not part of it.
  unfoldable pub marshal : Block → Option Bytes
  marshal b = capnp.marshal_block b.block_id.round b.block_id.signer b.batches b.parents

  -- `Block.UnmarshalBinary` on a new block.
  unfoldable pub unmarshal : Bytes → Option Block
  unfolding entries
  unmarshal bytes = do
    msg ← capnp.unmarshal_block bytes
    signer ← msg.signer
    batch_list ← msg.batches
    batches ← entries batch_list
    parents_list ← msg.parents
    parents ← entries parents_list
    some (record {
      block_id = record { round = msg.round; signer = signer; hash = none };
      batches = batches;
      parents = parents;
    })

  module _ (sha256 : Bytes → Bytes) where
    -- `NewBlock`
    unfoldable pub new_block :
        (round : ℕ) (signer : Bytes) (batches : List Batch) (parents : List Bytes) → Block
    new_block round signer batches parents = record {
      block_id = record { round = round; signer = signer; hash = none };
      batches = map (hash sha256) batches;
      parents = parents;
    }

    -- `Block.Hash`: the hash, and the block, which keeps it; `none` is the panic.
    unfoldable pub hash_block : Block → Option (Bytes × Block)
    unfolding marshal
    hash_block b = elim b.block_id.hash [
      | some digest ↦ some (digest, b)
      | none ↦ elim (marshal b) [
        | none ↦ none
        | some bin ↦
            some
              (sha256 bin, record b { block_id = record b.block_id { hash = some (sha256 bin) } })
      ]
    ]
