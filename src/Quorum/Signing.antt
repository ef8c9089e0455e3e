-- ===== src/Quorum/Signing.antt =====
-- `addSignature` on every branch, for a valid includer set and a valid certificate.
use unison.Base.{
  ◌≡◌, ◌≢◌, refl, true, false, Bool, some, none, List, [], ◌∷◌, ◌++◌, All, All-append, leb, arith,
}
use unison.Base.Int.{pos}
use unison.Base.Key.{Bytes}
use unison.Base.Result.{ok, err}
use unison.Messages.{Signature}
use unison.Quorum.{
  Includer, Certificate, Quorum, signer_unknown, signature_duplicate, find_includer, has_signer,
  safe_add_clip, add_signature,
}
use unison.Quorum.Stake.{
  stake_sum, weights, Distinct, Distinct-append, weights-append, weights-le-stake_sum,
}
use unison.Quorum.Total.{
  HasStake, IsValidSet, two_thirds, filled, safe_add_clip_pos, stake_required-exact,
}

-- What `addSignature` keeps true of a certificate: its signers are distinct includers, its stake is
-- theirs, and it is complete exactly when that stake suffices.
pub record IsValidCert (vs : List Includer) (cert : Certificate) : Type 0 where
  pub proposed : find_includer vs cert.msg.id.signer ≢ none
  pub distinct : Distinct cert.signatures
  pub known : All (λ s. find_includer vs s.signer ≢ none) cert.signatures
  pub staked : cert.active_stake ≡ pos (weights vs cert.signatures)
  pub decided : cert.completed ≡ leb (two_thirds (stake_sum vs)) (weights vs cert.signatures)

pub find_includer-HasStake :
    (vs : List Includer) (k : Bytes) (v : Includer)
    → All HasStake vs
    → find_includer vs k ≡ some v
    → HasStake v
unfolding find_includer
find_includer-HasStake [] k v h e = cc
find_includer-HasStake (w ∷ vs) k v h e = ground (arith, find_includer-HasStake vs k v h.1)

-- The certificate with one more signature.
abbrev pub signed : List Includer → Signature → Certificate → Certificate
signed vs s cert =
    let ss = cert.signatures ++ s ∷ [] in
    record cert {
      signatures = ss;
      active_stake = pos (weights vs ss);
      completed = leb (two_thirds (stake_sum vs)) (weights vs ss);
    }

-- The quorum after a signature is taken, by whether the certificate was complete before and is
-- after: the stake of its proposer `p` counts when this signature completes it.
abbrev pub credited : Bool → Bool → Includer → Quorum → Quorum
credited true after p q = q
credited false true p q = record q {
  includers = filled q.includers;
  active_stake = safe_add_clip q.active_stake p.stake;
}
credited false false p q = record q { includers = filled q.includers }

module _ (s : Signature) (cert : Certificate) (q : Quorum) where
  -- The signed certificate's stake and completeness, from the parts.
  stake_step :
      (v : Includer)
      → IsValidSet q.includers
      → IsValidCert q.includers.includers cert
      → find_includer q.includers.includers s.signer ≡ some v
      → has_signer s.signer cert.signatures ≡ false
      → safe_add_clip cert.active_stake v.stake
        ≡ pos (weights q.includers.includers (cert.signatures ++ s ∷ []))
  stake_step v valid c e new =
      let vs = q.includers.includers in
      rw c.staked (
        ground (
          arith,
          safe_add_clip_pos (weights vs cert.signatures) v,
          find_includer-HasStake vs s.signer v valid.stakes,
          weights-append vs cert.signatures (s ∷ []),
          weights-le-stake_sum vs (cert.signatures ++ s ∷ []),
          Distinct-append cert.signatures s c.distinct new,
        ))

  -- A certificate that was complete stays complete with more stake.
  pub completed_stays :
      IsValidCert q.includers.includers cert
      → cert.completed ≡ true
      → (signed q.includers.includers s cert).completed ≡ true
  completed_stays c done =
      ground (arith, c.decided, weights-append q.includers.includers cert.signatures (s ∷ []))

  -- A new signature of an includer is accepted: it is appended, its signer's stake is added exactly,
  -- the answer says whether the certificate is complete now, and only the signature that completes
  -- it lets the proposer's stake count for the quorum.
  pub add_signature-accepts :
      (v p : Includer)
      → IsValidSet q.includers
      → IsValidCert q.includers.includers cert
      → find_includer q.includers.includers s.signer ≡ some v
      → find_includer q.includers.includers cert.msg.id.signer ≡ some p
      → has_signer s.signer cert.signatures ≡ false
      → add_signature s cert q
        ≡ some (
          ok (signed q.includers.includers s cert).completed,
          signed q.includers.includers s cert,
          credited cert.completed (signed q.includers.includers s cert).completed p q,
        )
  unfolding add_signature
  add_signature-accepts v p valid c e prop new =
      ground (
        arith,
        stake_step v valid c e new,
        completed_stays c,
        stake_required-exact q.includers valid,
      )

  -- A stranger's signature, and a second one of a signer, are refused and change nothing.
  pub add_signature-refuses :
      ((find_includer q.includers.includers s.signer ≡ none)
        → add_signature s cert q ≡ some (err signer_unknown, cert, q))
      × (find_includer q.includers.includers s.signer ≢ none
          → has_signer s.signer cert.signatures ≡ true
          → add_signature s cert q ≡ some (err signature_duplicate, cert, q))
  unfolding add_signature
  add_signature-refuses = (λ e. ground arith, λ e d. ground arith)

  pub signed-IsValidCert :
      IsValidCert q.includers.includers cert
      → find_includer q.includers.includers s.signer ≢ none
      → has_signer s.signer cert.signatures ≡ false
      → IsValidCert q.includers.includers (signed q.includers.includers s cert)
  signed-IsValidCert c e new = record {
    proposed = c.proposed;
    distinct = Distinct-append cert.signatures s c.distinct new;
    known =
        All-append (λ t. find_includer q.includers.includers t.signer ≢ none) cert.signatures
          (s ∷ []) c.known (e, tt);
    staked = refl;
    decided = refl;
  }
