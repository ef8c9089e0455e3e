-- ===== src/Block/Codec.antt =====
-- Blocks and ids come back from their bytes, and what a block's hash is.
use unison.Base.{ℕ, ◌≡◌, refl, none, some, List, [], ◌∷◌, map}
use unison.Base.Key.{Bytes}
use unison.Block.{
  BlockId, Block, Capnp, bytes_of, entries, marshal_id, unmarshal_id, marshal, unmarshal,
  hash_block,
}

-- What capnp documents: what was set in a message is what is read from its bytes.
pub record IsDocumented (capnp : Capnp) : Type 0 where
  pub reads_block :
      (round : ℕ) (signer : Bytes) (batches parents : List Bytes) (bytes : Bytes)
      → capnp.marshal_block round signer batches parents ≡ some bytes
      → capnp.unmarshal_block bytes
        ≡ some (record {
          round = round;
          signer = some signer;
          batches = some (map some batches);
          parents = some (map some parents);
        })
  pub reads_id :
      (round : ℕ) (signer digest bytes : Bytes)
      → capnp.marshal_id round signer digest ≡ some bytes
      → capnp.unmarshal_id bytes
        ≡ some (record { round = round; signer = some signer; hash = some digest })

entries-map : (es : List Bytes) → entries (map some es) ≡ some es
unfolding entries
entries-map [] = refl
entries-map (e ∷ es) = rw (entries-map es) refl

module _ (capnp : Capnp) (doc : IsDocumented capnp) where
  -- The bytes of a block decode to that block, without the hash that it may have kept.
  pub unmarshal-marshal :
      (b : Block) (bytes : Bytes)
      → marshal capnp b ≡ some bytes
      → unmarshal capnp bytes ≡ some (record b { block_id = record b.block_id { hash = none } })
  unfolding marshal unmarshal
  unmarshal-marshal b bytes h =
      rw
        (
          doc.reads_block b.block_id.round b.block_id.signer b.batches b.parents bytes h,
          unmarshal,
          entries-map b.batches,
          entries-map b.parents,
        )
        refl

  -- The bytes of an id decode to that id, whose hash is not nil any more.
  pub unmarshal_id-marshal_id :
      (id : BlockId) (bytes : Bytes)
      → marshal_id capnp id ≡ some bytes
      → unmarshal_id capnp bytes ≡ some (record id { hash = some (bytes_of id.hash) })
  unfolding marshal_id unmarshal_id
  unmarshal_id-marshal_id id bytes h =
      rw (doc.reads_id id.round id.signer (bytes_of id.hash) bytes h, unmarshal_id) refl

module _ (capnp : Capnp) where
  -- A block that was just made and serializes has the hash of its bytes, and it keeps it: hashing it
  -- again gives the same, and its bytes are still those.
  pub hash_block-keeps :
      (sha256 : Bytes → Bytes) (b : Block) (bytes : Bytes)
      → b.block_id.hash ≡ none
      → marshal capnp b ≡ some bytes
      → (b' : Block) × (hash_block capnp sha256 b ≡ some (sha256 bytes, b'))
        × (hash_block capnp sha256 b' ≡ some (sha256 bytes, b'))
        × (marshal capnp b' ≡ some bytes)
  unfolding hash_block marshal
  hash_block-keeps sha256 b bytes new h = (
    record b { block_id = record b.block_id { hash = some (sha256 bytes) } },
    rw (new, h, hash_block) refl,
    refl,
    h,
  )
