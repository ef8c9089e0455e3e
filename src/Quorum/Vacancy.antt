-- ===== src/Quorum/Vacancy.antt =====
-- A key of the quorum stays free for a proposer, until its message is there.
use unison.Base.{◌≡◌, ◌≢◌, refl, ◌∙◌, ap, Bool, some, none, [], arith, ◌⊎◌, Option-cases, inl, inr}
use unison.Base.Key.{Bytes, bytes_key, ◌≟◌}
use unison.Base.Map.{lookup, lookup-insert, lookup-insert_self, lookup-insert_ne, lookup-delete_ne}
use unison.Base.Result.{Result}
use unison.Messages.{Signature, MessageId, Message}
use unison.Quorum.{
  Error, Certificate, Quorum, find_includer, new_certificate, add, delete_certificate, finalize,
  sign,
}
use unison.Quorum.Presence.{
  Present, add-Present, delete-Present, sign-Present, finalize-Present, sign-writes,
}
use unison.Quorum.Tracking.{finalize-includers}
use unison.Quorum.Contract.{finalize_result}

-- Nothing stands under the key, or a certificate of the proposer does.
abbrev pub IsFree : Bytes → Bytes → Quorum → Type 0
IsFree k p q = (lookup k q.certificates ≡ none) ⊎ Present k p [] q

-- An includer's message under a key that is free for it is there then.
pub add-proposes :
    (msg : Message) (q : Quorum)
    → find_includer q.includers.includers msg.id.signer ≢ none
    → IsFree msg.id.string msg.id.signer q
    → Present msg.id.string msg.id.signer [] (add msg q).1
unfolding add new_certificate
add-proposes msg q known (inr there) = add-Present msg.id.string msg.id.signer [] msg q there
add-proposes msg q known (inl free) =
    elim (Option-cases (find_includer q.includers.includers msg.id.signer)) [
      | inl n ↦ absurd (known n)
      | inr (v, e) ↦
          rw (e, free, add)
            (
              new_certificate msg,
              lookup-insert_self msg.id.string (new_certificate msg) q.certificates,
              (refl, tt),
            )
    ]

-- A message under another key, or under this one by the proposer, leaves the key free for it.
pub add-IsFree :
    (k p : Bytes) (msg : Message) (q : Quorum)
    → (msg.id.string ≡ k → msg.id.signer ≡ p)
    → IsFree k p q
    → IsFree k p (add msg q).1
unfolding add new_certificate
add-IsFree k p msg q own (inr there) = inr (add-Present k p [] msg q there)
add-IsFree k p msg q own (inl free) =
    elim (Option-cases (find_includer q.includers.includers msg.id.signer)) [
      | inl e ↦ rw (e, add) (inl free)
      | inr (v, e) ↦ elim (Option-cases (lookup msg.id.string q.certificates)) [
        | inr (c, f) ↦ rw (e, f, add) (inl free)
        | inl f ↦ elim (msg.id.string ≟ k) [
          | yes g ↦
              rw (e, f, add)
                (inr (
                  new_certificate msg,
                  lookup-insert msg.id.string k (new_certificate msg) q.certificates ∙ ground arith,
                  (own g, tt),
                ))
          | no n ↦
              rw (e, f, add)
                (inl
                  (lookup-insert_ne msg.id.string k (new_certificate msg) q.certificates n ∙ free))
        ]
      ]
    ]

pub delete-IsFree :
    (k p : Bytes) (id : MessageId) (q : Quorum)
    → id.string ≢ k
    → IsFree k p q
    → IsFree k p (delete_certificate id q).1
unfolding delete_certificate
delete-IsFree k p id q n (inr there) = inr (delete-Present k p [] id q n there)
delete-IsFree k p id q n (inl free) = elim (Option-cases (lookup id.string q.certificates)) [
  | inl e ↦ rw (e, delete_certificate) (inl free)
  | inr (c, e) ↦
      rw (e, delete_certificate) (inl (lookup-delete_ne id.string k q.certificates n ∙ free))
]

pub sign-IsFree :
    (k p j : Bytes) (s : Signature) (c : Certificate) (q q' : Quorum) (res : Result Error Bool)
    → lookup j q.certificates ≡ some c
    → sign j s c q ≡ some (res, q')
    → IsFree k p q
    → IsFree k p q'
sign-IsFree k p j s c q q' res at e (inr there) =
    inr (sign-Present k p [] j s c q q' res at e there)
sign-IsFree k p j s c q q' res at e (inl free) =
    let (c', q₁, f, written, _, _, _) = sign-writes j s c q q' res e in
    let other : j ≢ k = (λ g. cc) in
    inl (ap (lookup k) written ∙ lookup-insert_ne j k c' q.certificates other ∙ free)

pub finalize-IsFree :
    (k p : Bytes) (q q' : Quorum) (res : Result Error Bool)
    → finalize_result q ≡ some (res, q')
    → IsFree k p q
    → IsFree k p q'
unfolding finalize_result
finalize-IsFree k p q q' res e (inr there) = inr (finalize-Present k p [] q q' res e there)
finalize-IsFree k p q q' res e (inl free) = elim (Option-cases (finalize q)) [
  | inl n ↦ absurd (ground (arith, n))
  | inr ((b, q₁), f) ↦
      let (_, same_map) = finalize-includers q q₁ b f in
      let after : q₁ ≡ q' = ground (arith, f) in inl (rw (← after, same_map) free)
]
