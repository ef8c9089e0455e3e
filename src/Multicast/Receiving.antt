-- ===== src/Multicast/Receiving.antt =====
-- What gets into the pool from the network, and how a stream brings the node down.
use unison.Base.{ℕ, ◌≡◌, ◌≢◌, refl, true, some, List, length, arith}
use unison.Base.Key.{Bytes}
use unison.Messages.{Batch, public_key_size}
use unison.Crypto.{Ed25519, ChecksKeys, signature_size, verify}
use unison.Crypto.Signing.{verify_panics}
use unison.MemPool.{MemPool, push}
use unison.Multicast.{Wire, rcv_ok, rcv_panic, decode_batch, check_batch, rcv_batch, >>=-eq-rcv_ok}

module _ (e : Ed25519) (sha256 : Bytes → Bytes) (w : Wire) where
  check_batch-ok :
      (batch : Batch)
      → check_batch e sha256 w batch ≡ rcv_ok tt
      → (verify e batch.contents batch.signature ≡ some true) × (w.verify_batch batch ≡ some true)
  unfolding check_batch
  check_batch-ok batch h = ground arith

  -- What `rcvBatch` stores is the batch of the stream, with a signature that verifies over its data,
  -- and with the batch verifier's consent; the pool is then as after a push of it.
  pub rcv_batch-stores :
      (now : ℕ) (p p' : MemPool) (sent : List (ℕ × Batch))
      → rcv_batch e sha256 w now p ≡ rcv_ok (sent, p')
      → (batch : Batch) × (decode_batch e sha256 w ≡ rcv_ok batch)
        × (verify e batch.contents batch.signature ≡ some true)
        × (w.verify_batch batch ≡ some true)
        × (push sha256 now batch p ≡ (sent, p'))
  unfolding rcv_batch
  rcv_batch-stores now p p' sent h =
      let (batch, decoded, rest) = >>=-eq-rcv_ok (decode_batch e sha256 w) _ h in
      let (u, checked, pushed) = >>=-eq-rcv_ok (check_batch e sha256 w batch) _ rest in
      let (verified, accepted) = check_batch-ok batch checked in
      (batch, decoded, verified, accepted, ground arith)

  -- With ed25519's documented checks of a public key's length, and nothing else of it, assumed, a
  -- stream that decodes to a batch whose signature has the length of one and whose signer has not
  -- the length of a public key brings `rcvBatch` to a panic, before anything is stored.
  pub rcv_batch-panics :
      (doc : ChecksKeys e) (now : ℕ) (p : MemPool) (batch : Batch)
      → decode_batch e sha256 w ≡ rcv_ok batch
      → length batch.signature.body ≡ signature_size
      → length batch.signature.signer ≢ public_key_size
      → rcv_batch e sha256 w now p ≡ rcv_panic
  unfolding rcv_batch check_batch
  rcv_batch-panics doc now p batch decoded full wrong =
      rw (decoded, rcv_batch)
        (rw ((verify_panics e doc batch.contents batch.signature).0 full wrong, check_batch) refl)
