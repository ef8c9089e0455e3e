-- ===== src/Crypto/Signing.antt =====
-- What the local signer signs verifies, and on which signatures its check panics.
use unison.Base.{
  ℕ, ◌≡◌, ◌≢◌, ◌⊎◌, inl, inr, refl, ap, Bool, true, false, none, some, [], ◌∷◌, length, arith, ◌==◌,
  Bool-cases, ◌↔◌, ℕ_discrete,
}
use unison.Base.Key.{Bytes, same_refl, bytes_key}
use unison.Messages.{Signature, equals, public_key_size}
use unison.Crypto.{
  Ed25519, ChecksKeys, SignsFor, signature_size, private_key_size, fit, Signer, verify_signature,
  pub_key_of, new_signer, sign, verify, bytes_to_pub_key, gen_keys, AnyKey, other_type,
  private_equals,
}

fit-length : (bs : Bytes) → fit (length bs) bs ≡ bs
unfolding fit
fit-length [] = refl
fit-length (x ∷ xs) = ap (◌∷◌ x) (fit-length xs)

fit_exact : (n : ℕ) (bs : Bytes) → length bs ≡ n → fit n bs ≡ bs
fit_exact n bs h = rw (← h) (fit-length bs)

equals_self : (k : Bytes) → length k ≡ public_key_size → equals k k ≡ true
unfolding equals
equals_self k h = ground (arith, same_refl k)

-- `BytesToPubKey` copies every key of 32 bytes as it is, and refuses all other lengths.
pub bytes_to_pub_key-exact :
    (b : Bytes)
    → ((length b ≡ public_key_size) × (bytes_to_pub_key b ≡ some b))
      ⊎ ((length b ≢ public_key_size) × (bytes_to_pub_key b ≡ none))
unfolding bytes_to_pub_key
bytes_to_pub_key-exact b = ground (arith, fit_exact public_key_size b)

module _ (e : Ed25519) (Made : Bytes → Type 0) (doc : SignsFor e Made) where
  pub_key_of-public_half : (k : Bytes) → Made k → pub_key_of e k ≡ e.public_half k
  unfolding pub_key_of
  pub_key_of-public_half k h = fit_exact public_key_size (e.public_half k) (doc.public_length k h)

  -- From a private key that the package made `NewSigner` makes a signer, whatever that signs carries
  -- the signer's own id, and verifies.
  pub sign-verify :
      (k msg : Bytes)
      → Made k
      → (s : Signer) × (sig : Signature) × (new_signer e k ≡ some s)
        × (sign e s msg ≡ some sig)
        × (sig.signer ≡ s.pub_key)
        × (verify e msg sig ≡ some true)
  unfolding new_signer sign verify
  sign-verify k msg h =
      let (body, signed, size, verified) = doc.signs k msg h in
      (
        record { priv_key = k; pub_key = pub_key_of e k },
        record { body = body; signer = pub_key_of e k },
        ground (
          arith,
          equals_self (pub_key_of e k),
          pub_key_of-public_half k h,
          doc.public_length k h,
        ),
        rw (signed, sign) refl,
        refl,
        ground (arith, size, verified, pub_key_of-public_half k h),
      )

module _ (e : Ed25519) (doc : ChecksKeys e) where
  -- The three ways that the check of a signature goes.
  pub verify_panics :
      (msg : Bytes) (sig : Signature)
      → ((length sig.body ≡ signature_size)
          → (length sig.signer ≢ public_key_size)
          → verify e msg sig ≡ none)
        × ((length sig.body ≢ signature_size) → verify e msg sig ≡ some false)
        × ((length sig.signer ≡ public_key_size) → (b : Bool) × (verify e msg sig ≡ some b))
  unfolding verify verify_signature
  verify_panics msg sig = (
    λ h n. ground (arith, doc.panics sig.signer msg sig.body n),
    λ h. ground arith,
    λ h. elim (Bool-cases (length sig.body == signature_size)) [
      | inl full ↦
          let (b, f) = doc.answers sig.signer msg sig.body h in
          (b, rw (full, f, verify, verify_signature) refl)
      | inr short ↦ (false, rw (short, verify, verify_signature) refl)
    ],
  )

  -- The check of a signature panics exactly when its body has the length of a signature and its
  -- signer has not the length of a public key, which nothing tests before.
  pub verify-none_iff :
      (msg : Bytes) (sig : Signature)
      → (verify e msg sig ≡ none)
        ↔ ((length sig.body ≡ signature_size) × (length sig.signer ≢ public_key_size))
  verify-none_iff msg sig = (
    λ h. (
      panic_full h,
      λ k. let (b, f) = (verify_panics msg sig).2 k in absurd (ground (arith, h, f)),
    ),
    λ h. (verify_panics msg sig).0 h.0 h.1,
  )
    where
      panic_full : verify e msg sig ≡ none → length sig.body ≡ signature_size
      panic_full h = elim (ℕ_discrete (length sig.body) signature_size) [
        | yes p ↦ p
        | no n ↦ absurd (ground (arith, h, (verify_panics msg sig).1 n))
      ]

-- `GenKeys` returns the generated keys as they are, if they have the documented lengths.
pub gen_keys-exact :
    (pub_k priv_k : Bytes)
    → length pub_k ≡ public_key_size
    → length priv_k ≡ private_key_size
    → gen_keys (some (pub_k, priv_k)) ≡ some (pub_k, priv_k)
unfolding gen_keys
gen_keys-exact pub_k priv_k h k =
    ground (arith, fit_exact public_key_size pub_k h, fit_exact private_key_size priv_k k)

-- No private key equals any bytes, its own included: `Equal` refuses an argument that is not of the
-- type of a private key.
pub private_equals-never :
    (equal : Bytes → AnyKey → Bool)
    → ((k other : Bytes) → equal k (other_type other) ≡ false)
    → (priv_key other : Bytes) → private_equals equal priv_key other ≡ false
unfolding private_equals
private_equals-never equal doc priv_key other = ground (arith, doc priv_key other)
