-- ===== src/Block/Examples.antt =====
-- A toy capnp that serializes blocks with one batch and no parents, and blocks and ids with it.
use unison.Base.{ℕ, ◌≡◌, refl, Option, none, some, List, [], ◌∷◌, false, map}
use unison.Base.Key.{Bytes}
use unison.Messages.{Batch}
use unison.MemPool.{hash}
use unison.Block.{
  BlockId, Block, BlockMessage, IdMessage, Capnp, digit, hex, is_valid_id, message_id, entries,
  marshal_id, unmarshal_id, marshal, unmarshal, new_block,
}
use unison.Block.Codec.{IsDocumented}

abbrev toy_block : ℕ → Bytes → List Bytes → List Bytes → Option Bytes
toy_block r s [] ps = none
toy_block r s ([] ∷ bs) ps = none
toy_block r s ((b ∷ []) ∷ []) [] = some (r ∷ b ∷ s)
toy_block r s ((b ∷ []) ∷ []) (p ∷ ps) = none
toy_block r s ((b ∷ []) ∷ (c ∷ bs)) ps = none
toy_block r s ((b ∷ d ∷ ds) ∷ bs) ps = none

abbrev toy_unblock : Bytes → Option BlockMessage
toy_unblock [] = none
toy_unblock (r ∷ []) = none
toy_unblock (r ∷ b ∷ s) =
    some (record {
      round = r;
      signer = some s;
      batches = some (some (b ∷ []) ∷ []);
      parents = some [];
    })

abbrev toy_id : ℕ → Bytes → Bytes → Option Bytes
toy_id r s [] = none
toy_id r s (h ∷ []) = some (r ∷ h ∷ s)
toy_id r s (h ∷ i ∷ hs) = none

abbrev toy_unid : Bytes → Option IdMessage
toy_unid [] = none
toy_unid (r ∷ []) = none
toy_unid (r ∷ h ∷ s) = some (record { round = r; signer = some s; hash = some (h ∷ []) })

abbrev pub toy : Capnp
toy = record {
  marshal_block = toy_block;
  unmarshal_block = toy_unblock;
  marshal_id = toy_id;
  unmarshal_id = toy_unid;
}

toy-reads_block :
    (round : ℕ) (signer : Bytes) (batches parents : List Bytes) (bytes : Bytes)
    → toy_block round signer batches parents ≡ some bytes
    → toy_unblock bytes
      ≡ some (record {
        round = round;
        signer = some signer;
        batches = some (map some batches);
        parents = some (map some parents);
      })
toy-reads_block r s [] ps bytes h = cc
toy-reads_block r s ([] ∷ bs) ps bytes h = cc
toy-reads_block r s ((b ∷ []) ∷ []) [] bytes h = let e : r ∷ b ∷ s ≡ bytes = cc in rw (← e) refl
toy-reads_block r s ((b ∷ []) ∷ []) (p ∷ ps) bytes h = cc
toy-reads_block r s ((b ∷ []) ∷ (c ∷ bs)) ps bytes h = cc
toy-reads_block r s ((b ∷ d ∷ ds) ∷ bs) ps bytes h = cc

toy-reads_id :
    (round : ℕ) (signer digest bytes : Bytes)
    → toy_id round signer digest ≡ some bytes
    → toy_unid bytes ≡ some (record { round = round; signer = some signer; hash = some digest })
toy-reads_id r s [] bytes h = cc
toy-reads_id r s (d ∷ []) bytes h = let e : r ∷ d ∷ s ≡ bytes = cc in rw (← e) refl
toy-reads_id r s (d ∷ i ∷ ds) bytes h = cc

pub toy-IsDocumented : IsDocumented toy
toy-IsDocumented = record { reads_block = toy-reads_block; reads_id = toy-reads_id }

-- A digest of one byte.
abbrev pub digest : Bytes → Bytes
digest _ = 171 ∷ []

abbrev pub batch : Batch
batch = record { contents = 5 ∷ []; signature = record { body = []; signer = 1 ∷ [] } }

abbrev fresh : Block
fresh = record {
  block_id = record { round = 3; signer = 1 ∷ []; hash = none };
  batches = (171 ∷ []) ∷ [];
  parents = [];
}

made : new_block toy digest 3 (1 ∷ []) (batch ∷ []) [] ≡ fresh
unfolding new_block hash
made = refl

prints : hex (171 ∷ 9 ∷ []) ≡ 65 ∷ 66 ∷ 48 ∷ 57 ∷ []
unfolding hex digit
prints = refl

too_short : is_valid_id (record { round = 3; signer = 1 ∷ []; hash = some (171 ∷ []) }) ≡ false
unfolding is_valid_id
too_short = refl

garbled : unmarshal toy [] ≡ none
unfolding unmarshal entries
garbled = refl

serializes : marshal toy fresh ≡ some (3 ∷ 171 ∷ 1 ∷ [])
unfolding marshal
serializes = refl

abbrev named_id : BlockId
named_id = record { round = 3; signer = 1 ∷ []; hash = some (171 ∷ []) }

id_serializes : marshal_id toy named_id ≡ some (3 ∷ 171 ∷ 1 ∷ [])
unfolding marshal_id
id_serializes = refl

id_returns : unmarshal_id toy (3 ∷ 171 ∷ 1 ∷ []) ≡ some named_id
unfolding unmarshal_id
id_returns = refl

abbrev other_id : BlockId
other_id = record { round = 4; signer = 2 ∷ []; hash = some (171 ∷ []) }

same_string : (message_id named_id).string ≡ (message_id other_id).string
unfolding message_id
same_string = refl
