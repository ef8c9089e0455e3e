-- ===== src/Block/Hex.antt =====
-- `String` of a block id, by which a quorum finds certificates.
use unison.Base.{ℕ, ◌<◌, ◌≡◌, refl, [], ◌∷◌, All, arith, ◌/◌, ◌%◌}
use unison.Base.Key.{Bytes}
use unison.Block.{BlockId, bytes_of, digit, hex, message_id}

digit_injective : (n m : ℕ) → n < 16 → m < 16 → digit n ≡ digit m → n ≡ m
unfolding digit
digit_injective n m h k e = ground arith

byte_of : (a b : ℕ) → a < 256 → b < 256 → a / 16 ≡ b / 16 → a % 16 ≡ b % 16 → a ≡ b
byte_of a b h k e f = omega arith

-- Every entry is a byte.
abbrev pub IsByteString : Bytes → Type 0
IsByteString = All (λ (b : ℕ). b < 256)

pub hex_injective : (cs bs : Bytes) → IsByteString cs → IsByteString bs → hex cs ≡ hex bs → cs ≡ bs
unfolding hex
hex_injective [] [] h k e = refl
hex_injective [] (b ∷ bs) h k e = cc
hex_injective (a ∷ cs) [] h k e = cc
hex_injective (a ∷ cs) (b ∷ bs) h k e =
    let high : a / 16 ≡ b / 16 =
      digit_injective (a / 16) (b / 16) (omega (arith, h.0)) (omega (arith, k.0)) (cc) in
    let low : a % 16 ≡ b % 16 =
      digit_injective (a % 16) (b % 16) (omega arith) (omega arith) (cc) in
    let rest : cs ≡ bs = hex_injective cs bs h.1 k.1 (cc) in
    let first : a ≡ b = byte_of a b h.0 k.0 high low in cc

-- Ids that print the same have the same hash: in a quorum over block ids, one key is one hash.
pub string-determines_hash :
    (id id' : BlockId)
    → IsByteString (bytes_of id.hash)
    → IsByteString (bytes_of id'.hash)
    → (message_id id).string ≡ (message_id id').string
    → (message_id id).hash ≡ (message_id id').hash
unfolding message_id
string-determines_hash id id' h k e = hex_injective (bytes_of id.hash) (bytes_of id'.hash) h k e
