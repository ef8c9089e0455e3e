-- ===== src/Quorum/Presence.antt =====
-- A certificate that a quorum holds stays until it is deleted, and so do its proposer and its signers.
use unison.Base.{
  ◌≡◌, ◌≢◌, sym, ◌∙◌, ap, Bool, true, some, none, List, [], ◌∷◌, ◌++◌, All, arith, ◌⊎◌,
  Option-cases, inl, inr,
}
use unison.Base.Key.{Bytes, bytes_key, ◌≟◌}
use unison.Base.Map.{
  lookup, insert, lookup-insert, lookup-insert_self, lookup-insert_ne, lookup-delete_ne,
}
use unison.Base.Result.{Result}
use unison.Messages.{Signature, MessageId, Message}
use unison.Quorum.{
  Error, Certificate, Quorum, find_includer, has_signer, new_certificate, add, delete_certificate,
  finalize, count_certificate, complete, add_signature, sign,
}
use unison.Quorum.Tracking.{add_signature-SignedBy, finalize-includers}
use unison.Quorum.Contract.{finalize_result}

-- The certificate is proposed by the key, and these signed it.
abbrev pub IsSigned : Bytes → List Signature → Certificate → Type 0
IsSigned p ss cert =
    (cert.msg.id.signer ≡ p) × All (λ s. has_signer s.signer cert.signatures ≡ true) ss

-- There is a certificate under the key, proposed by `p` and signed by these.
abbrev pub Present : Bytes → Bytes → List Signature → Quorum → Type 0
Present k p ss q = (cert : Certificate) × (lookup k q.certificates ≡ some cert) × IsSigned p ss cert

has_signer-more :
    (k : Bytes) (ss ts : List Signature) → has_signer k ss ≡ true → has_signer k (ss ++ ts) ≡ true
unfolding has_signer
has_signer-more k [] ts h = cc
has_signer-more k (s ∷ ss) ts h = ground (arith, has_signer-more k ss ts)

has_signer-last : (ss : List Signature) (s : Signature) → has_signer s.signer (ss ++ s ∷ []) ≡ true
unfolding has_signer
has_signer-last [] s = ground arith
has_signer-last (x ∷ ss) s = ground (arith, has_signer-last ss s)

signers-more :
    (ss ts us : List Signature)
    → All (λ s. has_signer s.signer ts ≡ true) ss
    → All (λ s. has_signer s.signer (ts ++ us) ≡ true) ss
signers-more [] ts us h = tt
signers-more (s ∷ ss) ts us h = (has_signer-more s.signer ts us h.0, signers-more ss ts us h.1)

more-IsSigned :
    (p : Bytes) (ss : List Signature) (s : Signature) (cert cert' : Certificate)
    → IsSigned p ss cert
    → cert'.msg ≡ cert.msg
    → (cert'.signatures ≡ cert.signatures) ⊎ (cert'.signatures ≡ cert.signatures ++ s ∷ [])
    → IsSigned p ss cert'
more-IsSigned p ss s cert cert' (h, hs) m (inl e) = (rw m h, rw e hs)
more-IsSigned p ss s cert cert' (h, hs) m (inr e) =
    (rw m h, rw e (signers-more ss cert.signatures (s ∷ []) hs))

-- A message under the key comes from the proposer, or there is a certificate under it already.
pub add-Present :
    (k p : Bytes) (ss : List Signature) (msg : Message) (q : Quorum)
    → Present k p ss q
    → Present k p ss (add msg q).1
unfolding add
add-Present k p ss msg q (cert, held, h) =
    elim (Option-cases (find_includer q.includers.includers msg.id.signer)) [
      | inl e ↦ rw (e, add) (cert, held, h)
      | inr (v, e) ↦ elim (Option-cases (lookup msg.id.string q.certificates)) [
        | inr (c, f) ↦ rw (e, f, add) (cert, held, h)
        | inl f ↦
            let other : msg.id.string ≢ k = (λ g. cc) in
            rw (e, f, add)
              (
                cert,
                lookup-insert_ne msg.id.string k (new_certificate msg) q.certificates other ∙ held,
                h,
              )
      ]
    ]

pub delete-Present :
    (k p : Bytes) (ss : List Signature) (id : MessageId) (q : Quorum)
    → id.string ≢ k
    → Present k p ss q
    → Present k p ss (delete_certificate id q).1
unfolding delete_certificate
delete-Present k p ss id q n (cert, held, h) =
    elim (Option-cases (lookup id.string q.certificates)) [
      | inl e ↦ rw (e, delete_certificate) (cert, held, h)
      | inr (c, e) ↦
          rw (e, delete_certificate) (cert, lookup-delete_ne id.string k q.certificates n ∙ held, h)
    ]

-- What a signature leaves: the certificate under its key is written back as `cert'`.
pub sign-writes :
    (j : Bytes) (s : Signature) (cert : Certificate) (q q' : Quorum) (res : Result Error Bool)
    → sign j s cert q ≡ some (res, q')
    → (cert' : Certificate) × (q₁ : Quorum) × (add_signature s cert q ≡ some (res, cert', q₁))
      × (q'.certificates ≡ insert j cert' q.certificates)
      × (q'.includers.includers ≡ q.includers.includers)
      × (cert'.msg ≡ cert.msg)
      × ((cert'.signatures ≡ cert.signatures) ⊎ (cert'.signatures ≡ cert.signatures ++ s ∷ []))
unfolding sign
sign-writes j s cert q q' res e = elim (Option-cases (add_signature s cert q)) [
  | inl n ↦ absurd (ground (arith, n))
  | inr ((r, cert', q₁), f) ↦
      let (same_msg, sigs, same_map, same_set) = add_signature-SignedBy s cert cert' q q₁ r f in
      let after : record q₁ { certificates = insert j cert' q₁.certificates } ≡ q' =
        ground (arith, f) in
      let same_answer : r ≡ res = ground (arith, f) in
      (
        cert',
        q₁,
        rw (← same_answer) f,
        ap (λ (x : Quorum). x.certificates) (sym after) ∙ ap (insert j cert') same_map,
        ap (λ (x : Quorum). x.includers.includers) (sym after) ∙ same_set,
        same_msg,
        sigs,
      )
]

pub sign-Present :
    (k p : Bytes) (ss : List Signature) (j : Bytes) (s : Signature) (c : Certificate)
    (q q' : Quorum) (res : Result Error Bool)
    → lookup j q.certificates ≡ some c
    → sign j s c q ≡ some (res, q')
    → Present k p ss q
    → Present k p ss q'
sign-Present k p ss j s c q q' res at e (cert, held, h) =
    let (c', q₁, _, written, _, same_msg, sigs) = sign-writes j s c q q' res e in
    elim (j ≟ k) [
      | no n ↦ (cert, rw (written, lookup-insert_ne j k c' q.certificates n) held, h)
      | yes same_key ↦
          let same_cert : c ≡ cert = cc in
          (
            c',
            ap (lookup k) written ∙ lookup-insert j k c' q.certificates ∙ ground arith,
            more-IsSigned p ss s c c' (rw same_cert h) same_msg sigs,
          )
    ]

pub finalize-Present :
    (k p : Bytes) (ss : List Signature) (q q' : Quorum) (res : Result Error Bool)
    → finalize_result q ≡ some (res, q')
    → Present k p ss q
    → Present k p ss q'
unfolding finalize_result
finalize-Present k p ss q q' res e (cert, held, h) = elim (Option-cases (finalize q)) [
  | inl n ↦ absurd (ground (arith, n))
  | inr ((b, q₁), f) ↦
      let (_, same_map) = finalize-includers q q₁ b f in
      let after : q₁ ≡ q' = ground (arith, f) in (cert, rw (← after, same_map) held, h)
]

add_signature-signs :
    (s : Signature) (cert cert' : Certificate) (q q' : Quorum) (res : Result Error Bool)
    → find_includer q.includers.includers s.signer ≢ none
    → add_signature s cert q ≡ some (res, cert', q')
    → has_signer s.signer cert'.signatures ≡ true
unfolding add_signature complete count_certificate
add_signature-signs s cert cert' q q' res known e =
    ground (arith, has_signer-last cert.signatures s)

-- An includer's signature on a certificate that is there is on it then.
pub sign-signs :
    (k p : Bytes) (s : Signature) (c : Certificate) (q q' : Quorum) (res : Result Error Bool)
    → find_includer q.includers.includers s.signer ≢ none
    → lookup k q.certificates ≡ some c
    → sign k s c q ≡ some (res, q')
    → Present k p [] q
    → Present k p (s ∷ []) q'
sign-signs k p s c q q' res known at e (cert, held, (h, _)) =
    let (c', q₁, f, written, _, same_msg, _) = sign-writes k s c q q' res e in
    let same_cert : c ≡ cert = cc in
    let kept : c'.msg.id.signer ≡ p = cc in
    (
      c',
      ap (lookup k) written ∙ lookup-insert_self k c' q.certificates,
      (kept, (add_signature-signs s c c' q q₁ res known f, tt)),
    )
