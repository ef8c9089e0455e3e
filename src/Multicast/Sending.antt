-- ===== src/Multicast/Sending.antt =====
-- `Push` with the sending of the batch (bapl/multicast.go: `multicastBatch`, `sendBatch`), and what a
-- receiver makes of it. The streams and capnp are arguments.
use unison.Base.{
  ℕ, ◌≡◌, refl, Bool, true, Option, none, some, List, [], ◌∷◌, arith, if◌then◌else◌, Option-cases,
  inl, inr,
}
use unison.Base.Key.{Bytes, nat_key}
use unison.Base.Map.{Map, lookup}
use unison.Messages.{Batch}
use unison.Crypto.{Ed25519, SignsFor, Signer, new_signer, sign, verify}
use unison.Crypto.Signing.{sign-verify}
use unison.MemPool.{MemPool, push}
use unison.Multicast.{BatchMessage, rcv_ok, Wire, decode_batch, check_batch, rcv_batch, push_batch}

-- capnp for `batchmsg.Batch`: a message with the given contents as bytes, and bytes as a message.
pub record BatchCapnp : Type 0 where
  pub marshal : (contents signature signer : Bytes) → Option Bytes
  pub unmarshal : Bytes → Option BatchMessage

-- What capnp documents: what was set in a message is what is read from its bytes.
pub record Reads (capnp : BatchCapnp) : Type 0 where
  pub reads :
      (contents signature signer bytes : Bytes)
      → capnp.marshal contents signature signer ≡ some bytes
      → capnp.unmarshal bytes
        ≡ some
            (record { contents = some contents; signature = some signature; signer = some signer })

pub data SendError : Type 0 where
  open_failed build_failed write_failed close_write_failed ack_failed : SendError

-- A recipient, and which of the calls of its stream succeed.
pub record Peer : Type 0 where
  pub number : ℕ
  pub opens : Bool
  pub writes : Bool
  pub closes_write : Bool
  pub acknowledges : Bool

module _ (capnp : BatchCapnp) where
  -- `sendBatch`: the message, if all of it was written to the stream, and the error.
  unfoldable pub send_batch : Batch → Peer → Option Bytes × Option SendError
  send_batch batch to =
      if to.opens
      then elim (capnp.marshal batch.contents batch.signature.body batch.signature.signer) [
        | none ↦ (none, some build_failed)
        | some bytes ↦
            if to.writes
            then if to.closes_write
              then (some bytes, if to.acknowledges then none else some ack_failed)
              else (some bytes, some close_write_failed)
            else (none, some write_failed)
      ]
      else (none, some open_failed)

  -- `multicastBatch`: what each recipient is sent; errors are logged, and the result is nil.
  unfoldable pub multicast_batch : Batch → List Peer → Map ℕ (Option Bytes)
  unfolding send_batch
  multicast_batch batch [] = []
  multicast_batch batch (to ∷ peers) =
      (to.number, (send_batch batch to).0) ∷ multicast_batch batch peers

  -- What a recipient was sent is the batch.
  sent-marshal :
      (batch : Batch) (peers : List Peer) (n : ℕ) (bytes : Bytes)
      → lookup n (multicast_batch batch peers) ≡ some (some bytes)
      → capnp.marshal batch.contents batch.signature.body batch.signature.signer ≡ some bytes
  unfolding multicast_batch lookup
  sent-marshal batch [] n bytes h = cc
  sent-marshal batch (to ∷ peers) n bytes h =
      elim (Option-cases
        (capnp.marshal batch.contents batch.signature.body batch.signature.signer)) [
          | inl e ↦ ground (arith, e, sent-marshal batch peers n bytes)
          | inr (out, e) ↦ ground (arith, e, sent-marshal batch peers n bytes)
        ]

  -- A stream that carries the bytes to a receiver whose verifier accepts the batch.
  abbrev pub carries : Bytes → Wire
  carries bytes = record {
    read_all = some bytes;
    closes = true;
    unmarshal = capnp.unmarshal;
    verify_batch = λ _. some true;
  }

  module _ (e : Ed25519) (sha256 : Bytes → Bytes) where
    -- `MulticastPool.Push`, with what every recipient is sent. `none` is the signer's error.
    unfoldable pub push_multicast :
        Signer
        → (unsigned : Bool) → ℕ
        → Batch
        → List Peer
        → MemPool
        → Option (Batch × List (ℕ × Batch) × MemPool × Map ℕ (Option Bytes))
    unfolding push_batch multicast_batch
    push_multicast s unsigned now batch peers p =
        elim (push_batch e sha256 s unsigned now batch p) [
          | none ↦ none
          | some (signed, sent, p') ↦ some (signed, sent, p', multicast_batch signed peers)
        ]

    carried-stores :
        (batch : Batch) (bytes : Bytes) (now : ℕ) (q : MemPool)
        → Reads capnp
        → capnp.marshal batch.contents batch.signature.body batch.signature.signer ≡ some bytes
        → verify e batch.contents batch.signature ≡ some true
        → rcv_batch e sha256 (carries bytes) now q ≡ rcv_ok (push sha256 now batch q)
    unfolding rcv_batch decode_batch check_batch
    carried-stores batch bytes now q doc m v =
        rw
          (
            doc.reads batch.contents batch.signature.body batch.signature.signer bytes m,
            rcv_batch,
            decode_batch,
            v,
            check_batch,
          )
          refl

    signed-verifies :
        (Made : Bytes → Type 0) (k : Bytes) (s : Signer) (now : ℕ) (batch signed : Batch)
        (sent : List (ℕ × Batch)) (p p' : MemPool)
        → SignsFor e Made
        → Made k
        → new_signer e k ≡ some s
        → push_batch e sha256 s true now batch p ≡ some (signed, sent, p')
        → (signed.contents ≡ batch.contents)
          × (verify e signed.contents signed.signature ≡ some true)
    unfolding push_batch
    signed-verifies Made k s now batch signed sent p p' doc h made pushed =
        let (s', sig, made', signs, _, good) = sign-verify e Made doc k batch.contents h in
        let same_signer : s' ≡ s = ground (arith, made') in
        let signs' : sign e s batch.contents ≡ some sig = rw (← same_signer) signs in
        let whole : record batch { signature = sig } ≡ signed = ground (arith, signs') in
        rw (← whole) (refl, good)

    -- A batch that a node pushes unsigned reaches its recipients as it is: a receiver that reads what
    -- it was sent, with capnp as documented, a key that ed25519 made and that signs as documented, and
    -- a verifier that accepts the batch, stores the very batch that the sender signed and stored, with the contents that were pushed.
    pub push_multicast-rcv_batch :
        (Made : Bytes → Type 0) (k : Bytes) (s : Signer) (now : ℕ) (batch signed : Batch)
        (sent : List (ℕ × Batch)) (peers : List Peer) (p p' : MemPool)
        (deliveries : Map ℕ (Option Bytes)) (n : ℕ) (bytes : Bytes) (later : ℕ) (q : MemPool)
        → SignsFor e Made
        → Reads capnp
        → Made k
        → new_signer e k ≡ some s
        → push_multicast s true now batch peers p ≡ some (signed, sent, p', deliveries)
        → lookup n deliveries ≡ some (some bytes)
        → (signed.contents ≡ batch.contents)
          × (rcv_batch e sha256 (carries bytes) later q ≡ rcv_ok (push sha256 later signed q))
    unfolding push_multicast
    push_multicast-rcv_batch Made k s now batch signed sent peers p p' deliveries n bytes later q
          doc reads h made pushed delivered =
        elim (Option-cases (push_batch e sha256 s true now batch p)) [
          | inl none_pushed ↦ absurd (ground (arith, none_pushed))
          | inr ((signed', sent', p₂), f) ↦
              let same_batch : signed' ≡ signed = ground (arith, f) in
              let same_sent : multicast_batch signed' peers ≡ deliveries = ground (arith, f) in
              let (same_contents, good) =
                signed-verifies Made k s now batch signed' sent' p p₂ doc h made f in
              let marshalled = sent-marshal signed' peers n bytes (rw same_sent delivered) in
              rw (← same_batch)
                (same_contents, carried-stores signed' bytes later q reads marshalled good)
        ]
