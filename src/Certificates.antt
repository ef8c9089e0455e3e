-- ===== src/Certificates.antt =====
-- rebro/api_certificate.go: the interface `QuorumCertificate` with the `AddSignature` of its
-- certificates, as a round uses it, and what a round relies on.
use unison.Base.{◌≡◌, Bool, true, false, Option, none, some, not, ◌&&◌, ◌||◌}
use unison.Base.Key.{same, bytes_key}
use unison.Base.Result.{Result, ok, err}
use unison.Messages.{Signature, MessageId, Message}

abbrev pub is_some {ℓ} : {A : Type ℓ} → Option A → Bool
is_some none = false
is_some (some _) = true

abbrev pub is_ok : {E A : Type 0} → Result E A → Bool
is_ok (ok _) = true
is_ok (err _) = false

-- `Q` is the state of a quorum, `C` a certificate that it hands out and `E` its errors; `none` is a
-- panic. `add_signature id s c` is `c.AddSignature(s)` for the certificate `c` that `get id` gave.
pub record QuorumCertificate (Q C E : Type 0) : Type 0 where
  pub add : Message → Q → Result E (Unit {0}) × Q
  pub get : MessageId → Q → Option C
  pub delete : MessageId → Q → Bool × Q
  pub add_signature : MessageId → Signature → C → Q → Option (Result E Bool × Q)
  pub finalize : Q → Option (Result E Bool × Q)

-- Is there a certificate under the id?
abbrev pub holds : {Q C E : Type 0} → QuorumCertificate Q C E → MessageId → Q → Bool
holds i id q = is_some (i.get id q)

-- A step of the quorum that does not panic, keeps `Valid`, and keeps which ids have certificates.
abbrev pub Keeps :
    {Q C E : Type 0}
    → QuorumCertificate Q C E
    → (Q → Type 0)
    → Q
    → Option (Result E Bool × Q)
    → Type 0
Keeps {E} i Valid q out =
    (r : Result E Bool) × (q' : _) × (out ≡ some (r, q'))
    × Valid q'
    × ((id : MessageId) → holds i id q' ≡ holds i id q)

-- The contract: certificates are found by the string of their id; `Add` and `Delete` change the
-- presence of that one id, and say so; the other operations change no presence and do not panic.
pub record Contract {Q C E : Type 0} (i : QuorumCertificate Q C E) : Type 1 where
  pub Valid : Q → Type 0
  pub get_string : (id k : MessageId) (q : Q) → id.string ≡ k.string → holds i id q ≡ holds i k q
  pub add_valid : (m : Message) (q : Q) → Valid q → Valid (i.add m q).1
  pub add_holds :
      (m : Message) (id : MessageId) (q : Q)
      → holds i id (i.add m q).1
        ≡ (holds i id q || (is_ok (i.add m q).0 && same m.id.string id.string))
  pub delete_valid : (id : MessageId) (q : Q) → Valid q → Valid (i.delete id q).1
  pub delete_holds :
      (k id : MessageId) (q : Q)
      → holds i id (i.delete k q).1 ≡ (holds i id q && not (same k.string id.string))
  pub delete_answer : (id : MessageId) (q : Q) → (i.delete id q).0 ≡ holds i id q
  pub sign_keeps :
      (id : MessageId) (s : Signature) (c : C) (q : Q)
      → Valid q
      → i.get id q ≡ some c
      → Keeps i Valid q (i.add_signature id s c q)
  pub finalize_keeps : (q : Q) → Valid q → Keeps i Valid q (i.finalize q)
