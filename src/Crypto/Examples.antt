-- ===== src/Crypto/Examples.antt =====
-- A scheme that behaves as the documentation of ed25519 says (and protects nothing), with keys and
-- checks of it.
use unison.Base.{
  ℕ, zero, suc, ◌≡◌, refl, false, none, some, [], ◌∷◌, ◌++◌, length, length-append, arith,
  if◌then◌else◌, ◌==◌, Bool,
}
use unison.Base.Key.{Bytes, same, same_refl, bytes_key, bytes_discrete}
use unison.Messages.{Signature, equals, public_key_size}
use unison.Crypto.{
  gen_keys, AnyKey, private_key_type, other_type, private_equals, Ed25519, ChecksKeys, SignsFor,
  fit, verify,
}

pub length-fit : (n : ℕ) (bs : Bytes) → length (fit n bs) ≡ n
unfolding fit
length-fit zero bs = refl
length-fit (suc n) [] = omega (arith, length-fit n [])
length-fit (suc n) (x ∷ xs) = omega (arith, length-fit n xs)

-- A signature is the public key with the message cut to 32 bytes.
abbrev pub toy : Ed25519
toy = record {
  public_half = fit 32;
  sign_message = λ k m. some (fit 32 k ++ fit 32 m);
  verify_message =
      λ k m s. if length k == public_key_size then some (same s (k ++ fit 32 m)) else none;
}

-- The keys that the toy package makes: any 64 bytes, since it takes the first half as the public one.
abbrev pub IsMade : Bytes → Type 0
IsMade k = length k ≡ 64

pub toy-SignsFor : SignsFor toy IsMade
toy-SignsFor = record {
  private_length = λ k h. h;
  public_length = λ k h. length-fit 32 k;
  signs = λ k m h. (
    fit 32 k ++ fit 32 m,
    refl,
    omega (arith, length-append (fit 32 k) (fit 32 m), length-fit 32 k, length-fit 32 m),
    ground (arith, length-fit 32 k, same_refl (fit 32 k ++ fit 32 m)),
  );
}

pub toy-ChecksKeys : ChecksKeys toy
toy-ChecksKeys = record {
  panics = λ k m s n. ground arith;
  answers = λ k m s h. (same s (k ++ fit 32 m), ground arith);
}

abbrev pub private_key : Bytes
private_key = fit 64 (3 ∷ 1 ∷ 4 ∷ [])

-- A signature whose signer is too short.
abbrev pub short_signer : Signature
short_signer = record { body = fit 64 (1 ∷ []); signer = 2 ∷ [] }

key_check : equals (1 ∷ 2 ∷ []) (1 ∷ 2 ∷ []) ≡ false
unfolding equals bytes_discrete
key_check = refl

short_signer_panics : verify toy (5 ∷ []) short_signer ≡ none
unfolding verify fit
short_signer_panics = refl

generated : gen_keys (some (fit 32 (7 ∷ []), private_key)) ≡ some (fit 32 (7 ∷ []), private_key)
unfolding gen_keys fit
generated = refl

-- The standard library's `Equal`: the argument has the type of a private key and the same bytes.
abbrev equal_keys : Bytes → AnyKey → Bool
equal_keys k (private_key_type other) = same k other
equal_keys k (other_type other) = false

unequal_to_itself : private_equals equal_keys private_key private_key ≡ false
unfolding private_equals fit
unequal_to_itself = refl
