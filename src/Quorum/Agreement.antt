-- ===== src/Quorum/Agreement.antt =====
-- The order in which signatures arrive does not matter: what a valid quorum counts is decided by who
-- proposed and who signed.
use unison.Base.{
  ℕ, ◌≡◌, refl, sym, ap, ◌∙◌, true, Option, some, none, List, [], ◌∷◌, All, arith, leb, subst,
}
use unison.Base.Int.{pos}
use unison.Base.Key.{Bytes, bytes_key}
use unison.Base.Map.{lookup}
use unison.Base.Entries.{All-lookup, sum_by-agree, count_at}
use unison.Messages.{Signature}
use unison.Quorum.{Includer, Certificate, Quorum, has_signer}
use unison.Quorum.Stake.{weights, Distinct, stake_sum}
use unison.Quorum.Total.{two_thirds}
use unison.Quorum.Signing.{IsValidCert}
use unison.Quorum.Invariant.{IsValid, IsEntry, credit, completed_stake}
use unison.Quorum.Proposals.{SignedIn, weights-le}

-- One proposer, and the same signers in any order.
abbrev pub SameSigners : Certificate → Certificate → Type 0
SameSigners c d =
    (c.msg.id.signer ≡ d.msg.id.signer)
    × ((j : Bytes) → has_signer j c.signatures ≡ has_signer j d.signatures)

abbrev pub Matches : Option Certificate → Option Certificate → Type 0
Matches none none = Unit
Matches (some c) (some d) = SameSigners c d
Matches none (some d) = ⊥
Matches (some c) none = ⊥

all-SignedIn :
    (ss ts : List Signature)
    → ((j : Bytes) → has_signer j ss ≡ true → has_signer j ts ≡ true)
    → All (SignedIn ts) ss
unfolding has_signer
all-SignedIn [] ts h = tt
all-SignedIn (s ∷ ss) ts h =
    (h s.signer (ground arith), all-SignedIn ss ts (λ j e. h j (ground arith)))

weights-same :
    (vs : List Includer) (ss ts : List Signature)
    → Distinct ss
    → Distinct ts
    → ((j : Bytes) → has_signer j ss ≡ has_signer j ts)
    → weights vs ss ≡ weights vs ts
weights-same vs ss ts d d' h = omega (
  arith,
  weights-le vs ss ts d (all-SignedIn ss ts (λ j e. sym (h j) ∙ e)),
  weights-le vs ts ss d' (all-SignedIn ts ss (λ j e. h j ∙ e)),
)

-- Valid certificates with the same signers have the same stake and are complete alike.
pub signers_decide :
    (vs : List Includer) (c d : Certificate)
    → IsValidCert vs c
    → IsValidCert vs d
    → SameSigners c d
    → (c.active_stake ≡ d.active_stake) × (c.completed ≡ d.completed)
signers_decide vs c d v w (_, same) =
    let h = weights-same vs c.signatures d.signatures v.distinct w.distinct same in
    (
      v.staked ∙ ap pos h ∙ sym w.staked,
      v.decided ∙ ap (leb (two_thirds (stake_sum vs))) h ∙ sym w.decided,
    )

match-credit :
    (vs : List Includer) (a b : Option Certificate)
    → ((c : Certificate) → a ≡ some c → IsValidCert vs c)
    → ((d : Certificate) → b ≡ some d → IsValidCert vs d)
    → Matches a b
    → count_at (credit vs) a ≡ count_at (credit vs) b
match-credit vs none none va vb m = refl
match-credit vs none (some d) va vb m = absurd m
match-credit vs (some c) none va vb m = absurd m
match-credit vs (some c) (some d) va vb m =
    ground (arith, m.0, (signers_decide vs c d (va c refl) (vb d refl) m).1)

valid_at :
    (vs : List Includer) (lost : ℕ) (q : Quorum) (k : Bytes) (c : Certificate)
    → IsValid lost q
    → q.includers.includers ≡ vs
    → lookup k q.certificates ≡ some c
    → IsValidCert vs c
valid_at vs lost q k c v members e =
    subst (λ (l : List Includer). IsValidCert l c) members
      (All-lookup (IsEntry q.includers.includers) k c q.certificates v.entries e).1

-- Valid quorums of the same includers that hold certificates of the same proposers and signers count
-- the same stake for the complete ones.
pub completed_stake-agree :
    (vs : List Includer) (lost lost' : ℕ) (q q' : Quorum)
    → IsValid lost q
    → IsValid lost' q'
    → q.includers.includers ≡ vs
    → q'.includers.includers ≡ vs
    → ((k : Bytes) → Matches (lookup k q.certificates) (lookup k q'.certificates))
    → completed_stake q ≡ completed_stake q'
completed_stake-agree vs lost lost' q q' v v' members members' m =
    rw (members, members')
      (sum_by-agree (credit vs) (credit vs) q.certificates q'.certificates v.unique v'.unique (λ k.
        match-credit vs (lookup k q.certificates) (lookup k q'.certificates)
          (λ c e. valid_at vs lost q k c v members e)
          (λ d e. valid_at vs lost' q' k d v' members' e) (m k)))
