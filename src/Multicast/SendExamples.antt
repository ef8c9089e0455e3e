-- ===== src/Multicast/SendExamples.antt =====
-- A toy capnp that puts lengths before the contents, and a batch that goes from one node to another.
use unison.Base.{
  ℕ, zero, suc, ◌≡◌, refl, true, false, Option, some, none, [], ◌∷◌, ◌++◌, length, ℕ_discrete,
}
use unison.Base.Key.{Bytes, nat_key, bytes_key, bytes_discrete}
use unison.Base.Map.{lookup}
use unison.Messages.{Batch}
use unison.Crypto.{Signer, pub_key_of, new_signer, fit, sign}
use unison.Messages.{equals}
use unison.Crypto.Examples.{toy, toy-SignsFor, IsMade, private_key, length-fit}
use unison.MemPool.{new_mem_pool, push}
use unison.Multicast.{BatchMessage, rcv_ok, rcv_batch, push_batch}
use unison.Multicast.Sending.{
  BatchCapnp, Reads, Peer, open_failed, ack_failed, send_batch, multicast_batch, push_multicast,
  carries, push_multicast-rcv_batch,
}

-- The first bytes and the others.
abbrev split : ℕ → Bytes → Bytes × Bytes
split zero bs = ([], bs)
split (suc n) [] = ([], [])
split (suc n) (b ∷ bs) = let (front, back) = split n bs in (b ∷ front, back)

split-append : (xs ys : Bytes) → split (length xs) (xs ++ ys) ≡ (xs, ys)
split-append [] ys = refl
split-append (x ∷ xs) ys = rw (split-append xs ys) refl

abbrev pack : Bytes → Bytes → Bytes → Option Bytes
pack c s g = some (length c ∷ length s ∷ (c ++ (s ++ g)))

abbrev unpack : Bytes → Option BatchMessage
unpack [] = none
unpack (n ∷ []) = none
unpack (n ∷ m ∷ bs) =
    let (c, rest) = split n bs in
    let (s, g) = split m rest in
    some (record { contents = some c; signature = some s; signer = some g })

abbrev packing : BatchCapnp
packing = record { marshal = pack; unmarshal = unpack }

packing-Reads : Reads packing
packing-Reads = record { reads = λ c s g bytes h. reads_pack c s g bytes h }
  where
    reads_pack :
        (c s g bytes : Bytes)
        → pack c s g ≡ some bytes
        → unpack bytes ≡ some (record { contents = some c; signature = some s; signer = some g })
    reads_pack c s g bytes h =
        let e : length c ∷ length s ∷ (c ++ (s ++ g)) ≡ bytes = cc in
        rw (← e) (rw (split-append c (s ++ g)) (rw (split-append s g) refl))

abbrev identity : Bytes → Bytes
identity b = b

abbrev signer : Signer
signer = record { priv_key = private_key; pub_key = fit 32 (3 ∷ 1 ∷ 4 ∷ []) }

made : new_signer toy private_key ≡ some signer
unfolding new_signer pub_key_of equals fit bytes_discrete
made = refl

abbrev unsigned_batch : Batch
unsigned_batch = record { contents = 5 ∷ 6 ∷ []; signature = record { body = []; signer = [] } }

-- The batch after the node has signed it.
abbrev signed_batch : Batch
signed_batch = record {
  contents = 5 ∷ 6 ∷ [];
  signature = record {
    body = fit 32 private_key ++ fit 32 (5 ∷ 6 ∷ []);
    signer = fit 32 (3 ∷ 1 ∷ 4 ∷ []);
  };
}

abbrev packed : Bytes
packed =
    2
    ∷ 64
    ∷ ((5 ∷ 6 ∷ []) ++ ((fit 32 private_key ++ fit 32 (5 ∷ 6 ∷ [])) ++ fit 32 (3 ∷ 1 ∷ 4 ∷ [])))

-- A recipient that takes everything, and one that never answers the last read.
abbrev friend : Peer
friend = record {
  number = 7;
  opens = true;
  writes = true;
  closes_write = true;
  acknowledges = true;
}

abbrev silent : Peer
silent = record friend { number = 8; acknowledges = false }

abbrev gone : Peer
gone = record friend { number = 9; opens = false }

not_acknowledged : send_batch packing signed_batch silent ≡ (some packed, some ack_failed)
unfolding send_batch fit
not_acknowledged = refl

not_opened : send_batch packing signed_batch gone ≡ (none, some open_failed)
unfolding send_batch
not_opened = refl

pushed :
    push_multicast packing toy identity signer true 3 unsigned_batch
      (gone ∷ friend ∷ silent ∷ [])
      new_mem_pool
    ≡ some (
      signed_batch,
      (push identity 3 signed_batch new_mem_pool).0,
      (push identity 3 signed_batch new_mem_pool).1,
      (9, none) ∷ (7, some packed) ∷ (8, some packed) ∷ [],
    )
unfolding push_multicast push_batch multicast_batch send_batch sign fit
pushed = refl

-- The witness.
delivered :
    lookup {K = ℕ} {V = Option Bytes} 7 ((9, none) ∷ (7, some packed) ∷ (8, some packed) ∷ [])
    ≡ some (some packed)
unfolding lookup ℕ_discrete
delivered = refl

push_multicast-rcv_batch_example :
    (signed_batch.contents ≡ unsigned_batch.contents)
    × (rcv_batch toy identity (carries packing packed) 4 new_mem_pool
        ≡ rcv_ok (push identity 4 signed_batch new_mem_pool))
push_multicast-rcv_batch_example =
    push_multicast-rcv_batch packing toy identity IsMade private_key signer 3 unsigned_batch
      signed_batch (push identity 3 signed_batch new_mem_pool).0 (gone ∷ friend ∷ silent ∷ [])
      new_mem_pool (push identity 3 signed_batch new_mem_pool).1
      ((9, none) ∷ (7, some packed) ∷ (8, some packed) ∷ []) 7 packed 4 new_mem_pool toy-SignsFor
      packing-Reads (length-fit 64 _) made pushed delivered
