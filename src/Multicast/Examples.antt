-- ===== src/Multicast/Examples.antt =====
-- A batch from the network, and one that brings the node down.
use unison.Base.{◌≡◌, refl, true, some, none, [], ◌∷◌, ◌++◌, arith, length}
use unison.Base.Key.{Bytes, bytes_key, bytes_discrete}
use unison.Messages.{Batch}
use unison.Crypto.{fit, signature_size, verify, sign}
use unison.Crypto.Examples.{toy, toy-ChecksKeys, short_signer}
use unison.MemPool.{new_mem_pool, push}
use unison.Multicast.{
  Wire, rcv_ok, rcv_err, rcv_panic, decode_batch, check_batch, rcv_batch, push_batch, read_failed,
}
use unison.Multicast.Receiving.{rcv_batch-panics}

abbrev identity : Bytes → Bytes
identity b = b

abbrev public_key : Bytes
public_key = fit 32 (8 ∷ [])

-- A batch with the toy signature over its data.
abbrev good : Batch
good = record {
  contents = 5 ∷ [];
  signature = record { body = public_key ++ fit 32 (5 ∷ []); signer = public_key };
}

abbrev bad : Batch
bad = record { contents = 5 ∷ []; signature = short_signer }

-- A stream that holds the batch.
abbrev wire : Batch → Wire
wire b = record {
  read_all = some [];
  closes = true;
  unmarshal = λ _. some (record {
    contents = some b.contents;
    signature = some b.signature.body;
    signer = some b.signature.signer;
  });
  verify_batch = λ _. some true;
}

received :
    rcv_batch toy identity (wire good) 3 new_mem_pool ≡ rcv_ok (push identity 3 good new_mem_pool)
unfolding rcv_batch decode_batch check_batch verify fit bytes_discrete
received = refl

unread :
    rcv_batch toy identity (record (wire good) { read_all = none }) 3 new_mem_pool
    ≡ rcv_err read_failed
unfolding rcv_batch decode_batch
unread = refl

pushed :
    push_batch toy identity
      (record { priv_key = 1 ∷ []; pub_key = 2 ∷ [] })
      true
      3
      good
      new_mem_pool
    ≡ some (
      record good {
        signature = record { body = fit 32 (1 ∷ []) ++ fit 32 (5 ∷ []); signer = 2 ∷ [] };
      },
      (push identity 3
          (record good {
            signature = record { body = fit 32 (1 ∷ []) ++ fit 32 (5 ∷ []); signer = 2 ∷ [] };
          })
          new_mem_pool).0,
      (push identity 3
          (record good {
            signature = record { body = fit 32 (1 ∷ []) ++ fit 32 (5 ∷ []); signer = 2 ∷ [] };
          })
          new_mem_pool).1,
    )
unfolding push_batch sign fit
pushed = refl

bad_decodes : decode_batch toy identity (wire bad) ≡ rcv_ok bad
unfolding decode_batch
bad_decodes = refl

full_length : length bad.signature.body ≡ signature_size
unfolding fit
full_length = refl

rcv_batch-panics_example : rcv_batch toy identity (wire bad) 3 new_mem_pool ≡ rcv_panic
rcv_batch-panics_example =
    rcv_batch-panics toy identity (wire bad) toy-ChecksKeys 3 new_mem_pool bad bad_decodes
      full_length (omega arith)
