-- ===== src/Quorum/Contract.antt =====
-- The quorum as a `rebro.QuorumCertificate`, and that it keeps the contract that a round relies on.
use unison.Base.{
  ℕ, ◌+◌, ◌≡◌, refl, Bool, Option, none, some, arith, Option-cases, inl, inr, not, ◌&&◌, ◌||◌, leb,
}
use unison.Base.Key.{Bytes, same, bytes_key}
use unison.Base.Map.{lookup, lookup-insert, lookup-delete}
use unison.Base.Result.{Result, ok}
use unison.Messages.{Signature, MessageId, Message}
use unison.Certificates.{QuorumCertificate, Contract, Keeps, holds, is_ok}
use unison.Quorum.{
  Error, Certificate, Quorum, new_certificate, add, get, delete_certificate, add_signature, sign,
  finalize,
}
use unison.Quorum.Total.{filled, threshold}
use unison.Quorum.Invariant.{IsValid, add-IsValid, sign-IsValid, completed_stake, filled-IsValidSet}
use unison.Quorum.Finality.{finalize-exact, delete-IsValid}

-- `Finalize` with its error, which is always nil.
unfoldable pub finalize_result : Quorum → Option (Result Error Bool × Quorum)
unfolding finalize
finalize_result q = elim (finalize q) [ none ↦ none | some (b, q') ↦ some (ok b, q') ]

abbrev pub quorum_certificate : QuorumCertificate Quorum Certificate Error
quorum_certificate = record {
  add = add;
  get = get;
  delete = delete_certificate;
  add_signature = λ id s cert q. sign id.string s cert q;
  finalize = finalize_result;
}

abbrev pub IsValidQuorum : Quorum → Type 0
IsValidQuorum q = (lost : ℕ) × IsValid lost q

pub add_holds :
    (m : Message) (id : MessageId) (q : Quorum)
    → holds quorum_certificate id (add m q).1
      ≡ (holds quorum_certificate id q || (is_ok (add m q).0 && same m.id.string id.string))
unfolding add get
add_holds m id q =
    ground (arith, lookup-insert m.id.string id.string (new_certificate m) q.certificates)

pub delete_holds :
    (k id : MessageId) (q : Quorum)
    → holds quorum_certificate id (delete_certificate k q).1
      ≡ (holds quorum_certificate id q && not (same k.string id.string))
unfolding delete_certificate get
delete_holds k id q = ground (arith, lookup-delete k.string id.string q.certificates)

pub delete_answer :
    (id : MessageId) (q : Quorum) → (delete_certificate id q).0 ≡ holds quorum_certificate id q
unfolding delete_certificate get
delete_answer id q = ground arith

pub get_string :
    (id k : MessageId) (q : Quorum)
    → id.string ≡ k.string
    → holds quorum_certificate id q ≡ holds quorum_certificate k q
unfolding get
get_string id k q e = rw e

add_signature-certificates :
    (s : Signature) (cert cert' : Certificate) (q q' : Quorum) (r : Result Error Bool)
    → add_signature s cert q ≡ some (r, cert', q')
    → q'.certificates ≡ q.certificates
unfolding add_signature
add_signature-certificates s cert cert' q q' r e = ground arith

sign_holds :
    (k : Bytes) (s : Signature) (cert : Certificate) (q q' : Quorum) (r : Result Error Bool)
    → lookup k q.certificates ≡ some cert
    → sign k s cert q ≡ some (r, q')
    → (id : MessageId) → holds quorum_certificate id q' ≡ holds quorum_certificate id q
unfolding sign get
sign_holds k s cert q q' r held e id = elim (Option-cases (add_signature s cert q)) [
  | inl n ↦ absurd (ground (arith, n))
  | inr ((r', cert', q''), f) ↦
      let same_map = add_signature-certificates s cert cert' q q'' r' f in
      ground (arith, f, same_map, lookup-insert k id.string cert' q.certificates)
]

pub sign-Keeps :
    (id : MessageId) (s : Signature) (cert : Certificate) (q : Quorum)
    → IsValidQuorum q
    → get id q ≡ some cert
    → Keeps quorum_certificate IsValidQuorum q (sign id.string s cert q)
unfolding get
sign-Keeps id s cert q (lost, v) held =
    let (r, q', e, v') = sign-IsValid id.string s cert lost q v held in
    (r, q', e, (lost, v'), sign_holds id.string s cert q q' r held e)

pub finalize-Keeps :
    (q : Quorum) → IsValidQuorum q → Keeps quorum_certificate IsValidQuorum q (finalize_result q)
unfolding finalize_result get
finalize-Keeps q (lost, v) = (
  ok (leb (threshold q.includers) (completed_stake q + lost)),
  record q { includers = filled q.includers },
  rw (finalize-exact lost q v, finalize_result) refl,
  (
    lost,
    record {
      set = filled-IsValidSet q.includers v.set;
      entries = v.entries;
      unique = v.unique;
      counted = v.counted;
    },
  ),
  λ id. refl,
)

-- The quorum as an implementation of the contract.
abbrev pub contract : Contract quorum_certificate
contract = record {
  Valid = IsValidQuorum;
  get_string = get_string;
  add_valid = λ m q (lost, v). (lost, add-IsValid m lost q v);
  add_holds = add_holds;
  delete_valid = λ id q (lost, v). (_, delete-IsValid id lost q v);
  delete_holds = delete_holds;
  delete_answer = delete_answer;
  sign_keeps = sign-Keeps;
  finalize_keeps = finalize-Keeps;
}
