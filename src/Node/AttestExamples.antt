-- ===== src/Node/AttestExamples.antt =====
-- A capnp of four fields, and the round trip of a proposal over it.
use unison.Base.{
  ℕ, ◌≡◌, refl, Option, some, none, [], ◌∷◌, ◌++◌, true, ite, ℕ_discrete, arith, zero, suc,
}
use unison.Base.Key.{Bytes, bytes_key}
use unison.Messages.{MessageId, Message}
use unison.Gossip.{
  adds_certificate, certifies, signs, publishes_signature, adds_signature, deliver_gossip,
}
use unison.Gossip.Vouching.{reply_verdict}
use unison.Gossip.Sending.{Capnp, Documented, read, signature_setter, data_setter, broadcast_gossip}
use unison.Quorum.Examples.{block, signature_of}
use unison.Node.Attesting.{proposal_returns_signed}
use unison.Node.Examples.{protocol, env, follows}

record Fields : Type 0 where
  word : ℕ
  first : Bytes
  second : Bytes
  third : Bytes

abbrev data_of : ℕ → Fields → Option Bytes
data_of i s =
    ite (ℕ_discrete i 0) (some s.first)
      (ite (ℕ_discrete i 1) (some s.second) (ite (ℕ_discrete i 2) (some s.third) none))

abbrev with_data : ℕ → Bytes → Fields → Option Fields
with_data i v s = ite (ℕ_discrete i 0) (some (record s { first = v })) (
    ite (ℕ_discrete i 1) (some (record s { second = v }))
      (ite (ℕ_discrete i 2) (some (record s { third = v })) none))

-- Bytes, each after a 1, and a 0 at the end.
encode : Bytes → Bytes
encode [] = 0 ∷ []
encode (b ∷ bs) = 1 ∷ b ∷ encode bs

decode : Bytes → Option (Bytes × Bytes)
decode [] = none
decode (zero ∷ rest) = some ([], rest)
decode (suc n ∷ []) = none
decode (suc n ∷ b ∷ rest) = elim (decode rest) [
  | none ↦ none
  | some (bs, left) ↦ some (b ∷ bs, left)
]

decode-encode : (bs rest : Bytes) → decode (encode bs ++ rest) ≡ some (bs, rest)
unfolding encode decode
decode-encode [] rest = refl
decode-encode (b ∷ bs) rest = rw (decode-encode bs rest) refl

marshal : Fields → Option Bytes
unfolding encode
marshal s = some (s.word ∷ (encode s.first ++ (encode s.second ++ (encode s.third ++ []))))

unmarshal : Bytes → Option Fields
unfolding decode
unmarshal [] = none
unmarshal (word ∷ rest) = elim (decode rest) [
  | none ↦ none
  | some (first, rest₁) ↦ elim (decode rest₁) [
    | none ↦ none
    | some (second, rest₂) ↦ elim (decode rest₂) [
      | none ↦ none
      | some (third, _) ↦
          some (record { word = word; first = first; second = second; third = third })
    ]
  ]
]

marshalled : (s : Fields) (b : Bytes) → marshal s ≡ some b → unmarshal b ≡ some s
unfolding marshal unmarshal
marshalled s b e =
    let same : s.word ∷ (encode s.first ++ (encode s.second ++ (encode s.third ++ []))) ≡ b = cc in
    rw (← same) (
      rw
        (
          decode-encode s.first (encode s.second ++ (encode s.third ++ [])),
          decode-encode s.second (encode s.third ++ []),
          decode-encode s.third [],
          unmarshal,
        )
        refl)

abbrev toy : Capnp Fields
toy = record {
  new_root = some (record { word = 0; first = []; second = []; third = [] });
  u16 = λ s. s.word;
  set_u16 = λ n s. record s { word = n };
  data_at = data_of;
  set_data = with_data;
  marshal = marshal;
  unmarshal = unmarshal;
}

documented : Documented toy
documented = record {
  u16_set = λ n s. refl;
  data_u16 = λ i n s. refl;
  data_set = λ i v s t e. ground arith;
  data_other = λ i j v s t n e. ground arith;
  u16_data = λ i v s t e. ground arith;
  unmarshal_marshal = marshalled;
}

abbrev msg : Message
msg = block

abbrev cid : Bytes
cid = 1 ∷ []

abbrev marshal_id : MessageId → Option Bytes
marshal_id _ = some cid

abbrev sent : Bytes
sent = 1 ∷ (encode cid ++ (encode msg.payload ++ (encode [] ++ [])))

abbrev answered : Bytes
answered =
    0 ∷ (encode cid ++ (encode (signature_of 1).signer ++ (encode (signature_of 1).body ++ [])))

sends : (broadcast_gossip toy (λ _. true) (data_setter toy marshal_id msg)).0 ≡ some sent
unfolding marshal broadcast_gossip data_setter ℕ_discrete
sends = refl

answers :
    (broadcast_gossip toy (λ _. true) (signature_setter toy cid (signature_of 1))).0 ≡ some answered
unfolding marshal broadcast_gossip signature_setter ℕ_discrete
answers = refl

proposal_returns_signed_example :
    ((deliver_gossip env (read toy) sent).1
      ≡ adds_certificate msg
        ∷ certifies msg
        ∷ signs cid
        ∷ publishes_signature cid (signature_of 1)
        ∷ [])
    × (deliver_gossip env (read toy) answered ≡ (
      reply_verdict (env.add_signature msg.id (signature_of 1)),
      adds_signature msg.id (signature_of 1) ∷ [],
    ))
proposal_returns_signed_example =
    proposal_returns_signed toy documented protocol env env (λ _. true) (λ _. true) marshal_id msg
      cid sent answered (signature_of 1) follows follows sends answers refl refl refl refl refl refl
      refl refl refl refl refl
