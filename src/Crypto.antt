-- ===== src/Crypto.antt =====
-- crypto/ed25519/ed25519.go and crypto/local/signer.go over the standard library's ed25519, which
-- is an argument with its documented behaviour.
pub mod Signing
pub mod Examples
use unison.Base.{
  ℕ, zero, suc, ◌≡◌, ◌≢◌, Bool, true, false, Option, none, some, List, [], ◌∷◌, if◌then◌else◌,
  length, ◌==◌, ◌&&◌,
}
use unison.Base.Key.{Bytes}
use unison.Messages.{Signature, PublicKey, equals, public_key_size}

-- `ed25519.SignatureSize` and `ed25519.PrivateKeySize`
abbrev pub signature_size : ℕ
signature_size = 64

abbrev pub private_key_size : ℕ
private_key_size = 64

-- `crypto/ed25519`: the public half of a private key, `PrivateKey.Sign` (`none` is an error), and
-- `Verify` of a key, a message and a signature (`none` is a panic).
pub record Ed25519 : Type 0 where
  pub public_half : Bytes → Bytes
  pub sign_message : Bytes → Bytes → Option Bytes
  pub verify_message : Bytes → Bytes → Bytes → Option Bool

-- The package's documentation of `Verify`: it panics on a public key whose length is not 32, and only
-- then.
pub record ChecksKeys (e : Ed25519) : Type 0 where
  pub panics : (k m s : Bytes) → length k ≢ public_key_size → e.verify_message k m s ≡ none
  pub answers :
      (k m s : Bytes) → length k ≡ public_key_size → (b : Bool) × (e.verify_message k m s ≡ some b)

-- The package's documentation of the private keys that it made, by `GenerateKey` or of a seed: such a
-- key has 64 bytes and its public half 32; it signs, with 64 bytes, and the signature verifies
-- under its public half. Nothing is said of other bytes, whose halves may not fit.
pub record SignsFor (e : Ed25519) (Made : Bytes → Type 0) : Type 0 where
  pub private_length : (k : Bytes) → Made k → length k ≡ private_key_size
  pub public_length : (k : Bytes) → Made k → length (e.public_half k) ≡ public_key_size
  pub signs :
      (k m : Bytes)
      → Made k
      → (s : Bytes) × (e.sign_message k m ≡ some s)
        × (length s ≡ signature_size)
        × (e.verify_message (e.public_half k) m s ≡ some true)

-- `make([]byte, n)` and `copy` into it.
unfoldable pub fit : ℕ → Bytes → Bytes
fit zero src = []
fit (suc n) [] = 0 ∷ fit n []
fit (suc n) (x ∷ xs) = x ∷ fit n xs

-- `local.Signer`
pub record Signer : Type 0 where
  pub priv_key : Bytes
  pub pub_key : PublicKey

module _ (e : Ed25519) where
  -- `PublicKey.VerifySignature`
  pub verify_signature : PublicKey → Bytes → Bytes → Option Bool
  verify_signature pub_key msg sig =
      if length sig == signature_size then e.verify_message pub_key msg sig else some false

  -- `PrivateKey.PubKey`
  unfoldable pub pub_key_of : Bytes → PublicKey
  unfolding fit
  pub_key_of priv_key = fit public_key_size (e.public_half priv_key)

  -- `NewSigner`; `none` is its error.
  unfoldable pub new_signer : Bytes → Option Signer
  unfolding pub_key_of equals
  new_signer priv_key =
      let pub_key = pub_key_of priv_key in
      if equals (pub_key_of priv_key) pub_key
      then some (record { priv_key = priv_key; pub_key = pub_key })
      else none

  -- `Signer.Sign`
  unfoldable pub sign : Signer → Bytes → Option Signature
  sign s msg = elim (e.sign_message s.priv_key msg) [
    | none ↦ none
    | some signature ↦ some (record { body = signature; signer = s.pub_key })
  ]

  -- `Signer.Verify`: `some true` is nil, `some false` the error, `none` a panic.
  unfoldable pub verify : Bytes → Signature → Option Bool
  unfolding verify_signature
  verify msg signature = verify_signature signature.signer msg signature.body

-- `BytesToPubKey`; `none` is its error.
unfoldable pub bytes_to_pub_key : Bytes → Option PublicKey
unfolding fit
bytes_to_pub_key b = if length b == public_key_size then some (fit public_key_size b) else none

-- `GenKeys` over what `ed25519.GenerateKey` returns; `none` is its error.
unfoldable pub gen_keys : Option (Bytes × Bytes) → Option (PublicKey × Bytes)
unfolding fit
gen_keys none = none
gen_keys (some (pub_k, priv_k)) = some (fit public_key_size pub_k, fit private_key_size priv_k)

-- An argument of the standard library's `PrivateKey.Equal`, with its dynamic type: `ed25519.PrivateKey`,
-- or another.
pub data AnyKey : Type 0 where
  private_key_type other_type : Bytes → AnyKey

-- `PrivateKey.Equals`; `equal` is the `Equal` of the standard library's key, which gets the bytes as
-- they are, with the type `[]byte`.
unfoldable pub private_equals : (equal : Bytes → AnyKey → Bool) → Bytes → Bytes → Bool
private_equals equal priv_key other =
    (length other == private_key_size) && equal priv_key (other_type other)
