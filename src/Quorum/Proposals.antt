-- ===== src/Quorum/Proposals.antt =====
-- The stake behind proposals: enough signers complete a certificate, and complete certificates of
-- different proposers count for the stake of all of them.
use unison.Base.{
  ℕ, ◌+◌, ◌≤◌, ◌≡◌, ◌≢◌, refl, sym, ◌∙◌, true, false, some, List, [], ◌∷◌, All, not, keep_if, arith,
  Any, Bool-cases, inl, inr,
}
use unison.Base.Key.{Bytes, same, bytes_key, ◌≟◌}
use unison.Base.Map.{Map, lookup, delete, lookup-delete_ne}
use unison.Base.Entries.{All-lookup, Unique, delete-Unique, sum_by, sum_by-delete}
use unison.Messages.{Signature}
use unison.Quorum.{Includer, Certificate, Quorum, has_signer, completed_of, list}
use unison.Quorum.Stake.{weight, weights, Distinct, stake_sum}
use unison.Quorum.Total.{two_thirds}
use unison.Quorum.Signing.{IsValidCert}
use unison.Quorum.Invariant.{IsValid, IsEntry, credit}

-- The signatures of the other signers.
abbrev without : Bytes → List Signature → List Signature
without k ss = keep_if (λ s. not (same s.signer k)) ss

without-absent :
    (vs : List Includer) (k : Bytes) (ss : List Signature)
    → has_signer k ss ≡ false
    → weights vs (without k ss) ≡ weights vs ss
unfolding has_signer
without-absent vs k [] h = refl
without-absent vs k (s ∷ ss) h = ground (arith, without-absent vs k ss)

weights-without :
    (vs : List Includer) (k : Bytes) (ss : List Signature)
    → Distinct ss
    → weights vs ss ≤ weight vs k + weights vs (without k ss)
weights-without vs k [] d = omega arith
weights-without vs k (s ∷ ss) d =
    ground (arith, weights-without vs k ss d.1, without-absent vs k ss)

has_signer-without :
    (j k : Bytes) (ss : List Signature)
    → has_signer j ss ≡ false
    → has_signer j (without k ss) ≡ false
unfolding has_signer
has_signer-without j k [] h = refl
has_signer-without j k (s ∷ ss) h = ground (arith, has_signer-without j k ss)

Distinct-without : (k : Bytes) (ss : List Signature) → Distinct ss → Distinct (without k ss)
Distinct-without k [] d = tt
Distinct-without k (s ∷ ss) d =
    ground (arith, Distinct-without k ss d.1, has_signer-without s.signer k ss d.0)

abbrev pub SignedIn : List Signature → Signature → Type 0
SignedIn ts s = has_signer s.signer ts ≡ true

without-SignedIn :
    (t : Signature) (ts ss : List Signature)
    → All (SignedIn (t ∷ ts)) ss
    → All (SignedIn ts) (without t.signer ss)
unfolding has_signer
without-SignedIn t ts [] h = tt
without-SignedIn t ts (s ∷ ss) h = ground (arith, without-SignedIn t ts ss h.1)

-- Distinct signers who all signed have no more stake than all that signed.
pub weights-le :
    (vs : List Includer) (ss ts : List Signature)
    → Distinct ss
    → All (SignedIn ts) ss
    → weights vs ss ≤ weights vs ts
unfolding has_signer
weights-le vs [] [] d h = omega arith
weights-le vs (s ∷ ss) [] d h = cc
weights-le vs ss (t ∷ ts) d h = omega (
  arith,
  weights-without vs t.signer ss d,
  weights-le vs (without t.signer ss) ts (Distinct-without t.signer ss d)
      (without-SignedIn t ts ss h),
)

-- A valid certificate that distinct includers with more than two thirds of the stake signed is
-- complete.
pub signed-completed :
    (vs : List Includer) (cert : Certificate) (ss : List Signature)
    → IsValidCert vs cert
    → Distinct ss
    → All (SignedIn cert.signatures) ss
    → two_thirds (stake_sum vs) ≤ weights vs ss
    → cert.completed ≡ true
signed-completed vs cert ss v d h enough =
    ground (arith, v.decided, weights-le vs ss cert.signatures d h)

-- A proposer's message, by the string of its id, and signatures that are made on it.
pub record Proposal : Type 0 where
  pub key : Bytes
  pub proposer : Bytes
  pub signatures : List Signature

-- The stake of the proposers.
abbrev pub proposed_stake : List Includer → List Proposal → ℕ
proposed_stake vs [] = 0
proposed_stake vs (b ∷ bs) = weight vs b.proposer + proposed_stake vs bs

-- No two proposals have the same proposer.
abbrev pub ByDifferent : List Proposal → Type 0
ByDifferent [] = Unit
ByDifferent (b ∷ bs) = All (λ (c : Proposal). c.proposer ≢ b.proposer) bs × ByDifferent bs

-- The map holds the proposal's certificate, and it is complete.
abbrev pub IsComplete : Map Bytes Certificate → Proposal → Type 0
IsComplete m b =
    (cert : Certificate) × (lookup b.key m ≡ some cert)
    × (cert.msg.id.signer ≡ b.proposer)
    × (cert.completed ≡ true)

-- No two proposals stand under the same key.
abbrev pub DistinctKeys : List Proposal → Type 0
DistinctKeys [] = Unit
DistinctKeys (b ∷ bs) = All (λ (c : Proposal). b.key ≢ c.key) bs × DistinctKeys bs

others-IsComplete :
    (b : Proposal) (m : Map Bytes Certificate) (bs : List Proposal)
    → All (λ (c : Proposal). b.key ≢ c.key) bs
    → All (IsComplete m) bs
    → All (IsComplete (delete b.key m)) bs
others-IsComplete b m [] d hs = tt
others-IsComplete b m (c ∷ cs) d ((y, at_c, by_c, done), hs) =
    ((y, lookup-delete_ne b.key c.key m d.0 ∙ at_c, by_c, done), others-IsComplete b m cs d.1 hs)

-- Complete certificates under different keys count for their proposers, for one as often as it
-- proposed.
pub proposed_stake-le :
    (vs : List Includer) (bs : List Proposal) (m : Map Bytes Certificate)
    → Unique m
    → DistinctKeys bs
    → All (IsComplete m) bs
    → proposed_stake vs bs ≤ sum_by (credit vs) m
proposed_stake-le vs [] m u d h = omega arith
proposed_stake-le vs (b ∷ bs) m u d ((cert, at_b, by_b, done), hs) =
    let mine : credit vs cert ≡ weight vs b.proposer = ground arith in
    omega (
      arith,
      mine,
      sum_by-delete (credit vs) b.key cert m u at_b,
      proposed_stake-le vs bs (delete b.key m) (delete-Unique b.key m u) d.1
          (others-IsComplete b m bs d.0 hs),
    )

other_keys :
    (b : Proposal) (m : Map Bytes Certificate) (bs : List Proposal)
    → IsComplete m b
    → All (λ (c : Proposal). c.proposer ≢ b.proposer) bs
    → All (IsComplete m) bs
    → All (λ (c : Proposal). b.key ≢ c.key) bs
other_keys b m [] h d hs = tt
other_keys b m (c ∷ cs) (x, at_b, by_b, done) d ((y, at_c, by_c, done'), hs) =
    ((λ e. d.0 (cc)), other_keys b m cs (x, at_b, by_b, done) d.1 hs)

-- The certificates of different proposers stand under different keys.
pub different_keys :
    (bs : List Proposal) (m : Map Bytes Certificate)
    → ByDifferent bs
    → All (IsComplete m) bs
    → DistinctKeys bs
different_keys [] m d h = tt
different_keys (b ∷ bs) m d (h, hs) = (other_keys b m bs h d.0 hs, different_keys bs m d.1 hs)

-- The certificate is listed.
abbrev pub IsListed : List Certificate → Proposal → Type 0
IsListed certs b =
    Any
      (λ (cert : Certificate).
        (cert.msg.id.string ≡ b.key) × (cert.msg.id.signer ≡ b.proposer) × (cert.completed ≡ true))
      certs

completed_of-IsListed :
    (m : Map Bytes Certificate) (b : Proposal) (cert : Certificate)
    → lookup b.key m ≡ some cert
    → cert.msg.id.string ≡ b.key
    → cert.msg.id.signer ≡ b.proposer
    → cert.completed ≡ true
    → IsListed (completed_of m) b
unfolding lookup completed_of
completed_of-IsListed [] b cert e s p done = cc
completed_of-IsListed ((k, c) ∷ m) b cert e s p done = elim (k ≟ b.key) [
  | yes same_key ↦
      let here : c ≡ cert = ground arith in rw (here, done, completed_of) (inl (s, p, refl))
  | no other ↦
      let rest = completed_of-IsListed m b cert (ground arith) s p done in
      elim (Bool-cases c.completed) [
        | inl yes_now ↦ rw (yes_now, completed_of) (inr rest)
        | inr not_now ↦ rw (not_now, completed_of) rest
      ]
]

-- What is complete in a valid quorum is listed by `List`.
pub list-IsListed :
    (lost : ℕ) (q : Quorum) (b : Proposal)
    → IsValid lost q
    → IsComplete q.certificates b
    → IsListed (list q) b
unfolding list
list-IsListed lost q b v (cert, held, by_proposer, done) =
    let entry =
      All-lookup (IsEntry q.includers.includers) b.key cert q.certificates v.entries held in
    completed_of-IsListed q.certificates b cert held (sym entry.0) by_proposer done
