-- ===== src/Quorum/Intersection.antt =====
-- Why a complete certificate is final: two lists of signatures that both hold more than two thirds
-- of the stake share signers who hold more than a third.
use unison.Base.{◌+◌, ◌*◌, ◌≤◌, ◌<◌, ◌≡◌, refl, false, List, [], ◌∷◌, ◌++◌, not, keep_if, arith}
use unison.Base.Key.{Bytes, bytes_key}
use unison.Messages.{Signature}
use unison.Quorum.{Includer, has_signer}
use unison.Quorum.Stake.{stake_sum, weights, Distinct, weights-append, weights-le-stake_sum}
use unison.Quorum.Total.{two_thirds}

-- The signatures of the first list whose signers signed the second too, and the others.
abbrev pub common : List Signature → List Signature → List Signature
common ss ts = keep_if (λ s. has_signer s.signer ts) ss

abbrev others : List Signature → List Signature → List Signature
others ss ts = keep_if (λ s. not (has_signer s.signer ts)) ss

weights-split :
    (vs : List Includer) (ss ts : List Signature)
    → weights vs ss ≡ weights vs (common ss ts) + weights vs (others ss ts)
weights-split vs [] ts = refl
weights-split vs (s ∷ ss) ts = ground (arith, weights-split vs ss ts)

has_signer-union :
    (k : Bytes) (ss ts : List Signature)
    → has_signer k ss ≡ false
    → has_signer k ts ≡ false
    → has_signer k (others ss ts ++ ts) ≡ false
unfolding has_signer
has_signer-union k [] ts hs ht = ht
has_signer-union k (s ∷ ss) ts hs ht = ground (arith, has_signer-union k ss ts)

Distinct-union :
    (ss ts : List Signature) → Distinct ss → Distinct ts → Distinct (others ss ts ++ ts)
Distinct-union [] ts ds dt = dt
Distinct-union (s ∷ ss) ts ds dt =
    ground (arith, Distinct-union ss ts ds.1 dt, has_signer-union s.signer ss ts ds.0)

weights-common :
    (vs : List Includer) (ss ts : List Signature)
    → Distinct ss
    → Distinct ts
    → weights vs ss + weights vs ts ≤ stake_sum vs + weights vs (common ss ts)
weights-common vs ss ts ds dt = omega (
  arith,
  weights-split vs ss ts,
  weights-append vs (others ss ts) ts,
  weights-le-stake_sum vs (others ss ts ++ ts) (Distinct-union ss ts ds dt),
)

-- Two lists of signatures by distinct signers, each with the stake that a certificate needs, share
-- signers whose stake is more than a third of the whole.
pub common_third :
    (vs : List Includer) (ss ts : List Signature)
    → Distinct ss
    → Distinct ts
    → two_thirds (stake_sum vs) ≤ weights vs ss
    → two_thirds (stake_sum vs) ≤ weights vs ts
    → stake_sum vs < 3 * weights vs (common ss ts)
common_third vs ss ts ds dt hs ht = omega (arith, weights-common vs ss ts ds dt)
