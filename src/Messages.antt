-- ===== src/Messages.antt =====
-- The values that the protocol parts hand to one another: crypto/api_sign.go and
-- rebro/api_message.go, the batch of bapl/api.go, and the keys of crypto/ed25519/ed25519.go.
use unison.Base.{
  ℕ, ◌≡◌, ◌≢◌, ◌↔◌, refl, Bool, true, false, Option, none, some, [], ◌∷◌, arith, ◌&&◌, length, ◌==◌,
}
use unison.Base.Key.{Bytes, same, bytes_key}

-- `crypto.Signature`
pub record Signature : Type 0 where
  pub body : Bytes
  pub signer : Bytes

-- `rebro.MessageID` is an interface: a value holds what its methods `Round`, `Signer`, `Hash` and
-- `String` return.
pub record MessageId : Type 0 where
  pub round : ℕ
  pub signer : Bytes
  pub hash : Bytes
  pub string : Bytes

-- `rebro.Message`
pub record Message : Type 0 where
  pub id : MessageId
  pub payload : Bytes

-- `bapl.Batch`
pub record Batch : Type 0 where
  pub contents : Bytes
  pub signature : Signature

-- `ed25519.PublicKeySize`
abbrev pub public_key_size : ℕ
public_key_size = 32

-- `ed25519.PublicKey`, and its `Equals`: the length is tested before the bytes.
abbrev pub PublicKey : Type 0
PublicKey = Bytes

unfoldable pub equals : PublicKey → Bytes → Bool
equals pub_key other = (length other == public_key_size) && same pub_key other

-- `Message.Validate` of a message whose id may be nil; `is_valid` is the id's `Validate`, and `true`
-- is nil.
pub validate_message : (is_valid : MessageId → Bool) → Option MessageId → (payload : Bytes) → Bool
validate_message is_valid none payload = false
validate_message is_valid (some id) [] = false
validate_message is_valid (some id) (b ∷ bs) = is_valid id

-- `Validate` accepts exactly the messages with data and with an id that is there and valid.
pub validate_message-true_iff :
    (is_valid : MessageId → Bool) (id : Option MessageId) (payload : Bytes)
    → (validate_message is_valid id payload ≡ true)
      ↔ ((payload ≢ []) × ((i : MessageId) × (id ≡ some i) × (is_valid i ≡ true)))
unfolding validate_message
validate_message-true_iff is_valid none payload = (λ h. cc, λ h. absurd (ground arith))
validate_message-true_iff is_valid (some id) [] = (λ h. cc, λ h. absurd (h.0 refl))
validate_message-true_iff is_valid (some id) (b ∷ bs) =
    (λ h. (λ e. cc, (id, refl, h)), λ h. ground arith)
