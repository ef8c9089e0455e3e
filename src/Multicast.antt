-- ===== src/Multicast.antt =====
-- bapl/multicast.go: the pool that signs its own batches, sends them to the other nodes and takes
-- theirs in. capnp, the streams, sha256 and the batch verifier are arguments. The sending to the
-- recipients is in Sending.
pub mod Receiving
pub mod Sending
pub mod Serving
mod Examples
mod SendExamples
use unison.Base.{ℕ, ◌≡◌, refl, Bool, true, false, Option, none, some, List, [], ◌∷◌, if◌then◌else◌}
use unison.Base.Key.{Bytes}
use unison.Messages.{Signature, Batch}
use unison.Crypto.{Ed25519, Signer, sign, verify}
use unison.MemPool.{MemPool, push}

-- The accessors of a decoded `batchmsg.Batch`; `none` is an error.
pub record BatchMessage : Type 0 where
  pub contents : Option Bytes
  pub signature : Option Bytes
  pub signer : Option Bytes

pub data RcvError : Type 0 where
  read_failed unmarshal_failed close_failed bad_field : RcvError
  signature_invalid verifier_failed verification_failed : RcvError

-- How a step of `rcvBatch` ends; nothing recovers from a panic in its goroutine.
pub data Rcv (A : Type 0) : Type 0 where
  rcv_ok : A → Rcv A
  rcv_err : RcvError → Rcv A
  rcv_panic : Rcv A

infixl 5 ◌>>=◌ ◌>>◌
abbrev pub ◌>>=◌ : {A B : Type 0} → Rcv A → (A → Rcv B) → Rcv B
rcv_ok a >>= f = f a
rcv_err e >>= f = rcv_err e
rcv_panic >>= f = rcv_panic

abbrev pub ◌>>◌ : {A B : Type 0} → Rcv A → Rcv B → Rcv B
m >> k = m >>= λ _. k

-- A sequence that ends well has a first step that ends well.
pub >>=-eq-rcv_ok :
    {A B : Type 0} (m : Rcv A) (f : A → Rcv B) {b : B}
    → (m >>= f) ≡ rcv_ok b
    → (a : A) × (m ≡ rcv_ok a) × (f a ≡ rcv_ok b)
>>=-eq-rcv_ok (rcv_ok a) f h = (a, refl, h)
>>=-eq-rcv_ok (rcv_err x) f h = cc
>>=-eq-rcv_ok rcv_panic f h = cc

abbrev pub or_err : {A : Type 0} → Option A → RcvError → Rcv A
or_err none e = rcv_err e
or_err (some a) e = rcv_ok a

abbrev pub guard : Bool → RcvError → Rcv (Unit {0})
guard true e = rcv_ok tt
guard false e = rcv_err e

-- A check that may panic.
abbrev pub guard_panic : Option Bool → RcvError → Rcv (Unit {0})
guard_panic none e = rcv_panic
guard_panic (some b) e = guard b e

pub record Wire : Type 0 where
  -- `io.ReadAll` of the stream, and whether `Close` succeeds
  pub read_all : Option Bytes
  pub closes : Bool
  -- `capnp.Unmarshal` with `ReadRootBatch`, and `BatchVerifier.Verify`
  pub unmarshal : Bytes → Option BatchMessage
  pub verify_batch : Batch → Option Bool

module _ (e : Ed25519) (sha256 : Bytes → Bytes) where
  -- `rcvBatch` up to the checks: the batch on the stream.
  pub decode_batch : Wire → Rcv Batch
  decode_batch w = do
    bytes ← or_err w.read_all read_failed
    msg ← or_err (w.unmarshal bytes) unmarshal_failed
    guard w.closes close_failed
    contents ← or_err msg.contents bad_field
    body ← or_err msg.signature bad_field
    signer ← or_err msg.signer bad_field
    rcv_ok (record { contents = contents; signature = record { body = body; signer = signer } })

  -- The checks of `rcvBatch`.
  pub check_batch : Wire → Batch → Rcv (Unit {0})
  check_batch w batch = do
    guard_panic (verify e batch.contents batch.signature) signature_invalid
    accepted ← or_err (w.verify_batch batch) verifier_failed
    guard accepted verification_failed

  -- `rcvBatch`: the pool after it, with what its `Push` sends, and how it ends.
  pub rcv_batch : Wire → ℕ → MemPool → Rcv (List (ℕ × Batch) × MemPool)
  rcv_batch w now p = do
    batch ← decode_batch w
    check_batch w batch
    rcv_ok (push sha256 now batch p)

  -- `MulticastPool.Push` on the node's own pool; `unsigned` says that the batch has a nil signature
  -- body. `none` is the signer's error.
  pub push_batch :
      Signer → (unsigned : Bool) → ℕ → Batch → MemPool → Option (Batch × List (ℕ × Batch) × MemPool)
  push_batch s unsigned now batch p =
      if unsigned
      then elim (sign e s batch.contents) [
        | none ↦ none
        | some sig ↦
            let signed = let b : Batch = record batch { signature = sig } in b in
            let (sent, p') = push sha256 now signed p in some (signed, sent, p')
      ]
      else let (sent, p') = push sha256 now batch p in some (batch, sent, p')
