-- ===== src/Quorum/Stake.antt =====
-- The stake behind a list of signatures: each signer's stake, looked up as `GetByPubKey` does.
use unison.Base.{ℕ, ◌+◌, ◌≤◌, ◌≡◌, refl, false, Option, none, some, List, [], ◌∷◌, ◌++◌, arith}
use unison.Base.Key.{Bytes, same, bytes_key}
use unison.Base.Int.{pos_part}
use unison.Messages.{Signature}
use unison.Quorum.{Includer, find_includer, has_signer}

-- The stake of all includers.
abbrev pub stake_sum : List Includer → ℕ
stake_sum [] = 0
stake_sum (v ∷ vs) = pos_part v.stake + stake_sum vs

abbrev pub stake_or_zero : Option Includer → ℕ
stake_or_zero none = 0
stake_or_zero (some v) = pos_part v.stake

-- The stake of one key, 0 for a stranger.
abbrev pub weight : List Includer → Bytes → ℕ
weight vs k = stake_or_zero (find_includer vs k)

-- The stake of the signers of a list of signatures.
abbrev pub weights : List Includer → List Signature → ℕ
weights vs [] = 0
weights vs (s ∷ ss) = weight vs s.signer + weights vs ss

-- No two signatures have the same signer.
abbrev pub Distinct : List Signature → Type 0
Distinct [] = Unit
Distinct (s ∷ ss) = (has_signer s.signer ss ≡ false) × Distinct ss

pub has_signer-append :
    (k : Bytes) (ss : List Signature) (s : Signature)
    → has_signer k ss ≡ false
    → has_signer k (ss ++ s ∷ []) ≡ same s.signer k
unfolding has_signer
has_signer-append k [] s h = ground arith
has_signer-append k (x ∷ ss) s h = ground (arith, has_signer-append k ss s)

pub Distinct-append :
    (ss : List Signature) (s : Signature)
    → Distinct ss
    → has_signer s.signer ss ≡ false
    → Distinct (ss ++ s ∷ [])
unfolding has_signer
Distinct-append [] s d h = (refl, tt)
Distinct-append (x ∷ ss) s d h =
    ground (arith, Distinct-append ss s d.1, has_signer-append x.signer ss s d.0)

pub weights-append :
    (vs : List Includer) (ss ts : List Signature)
    → weights vs (ss ++ ts) ≡ weights vs ss + weights vs ts
weights-append vs [] ts = omega arith
weights-append vs (s ∷ ss) ts = omega (arith, weights-append vs ss ts)

-- An includer that signed nothing adds nothing.
weights-cons_absent :
    (v : Includer) (vs : List Includer) (ss : List Signature)
    → has_signer v.pub_key ss ≡ false
    → weights (v ∷ vs) ss ≡ weights vs ss
unfolding has_signer find_includer
weights-cons_absent v vs [] h = refl
weights-cons_absent v vs (s ∷ ss) h = ground (arith, weights-cons_absent v vs ss)

-- An includer that signed adds its stake at most once.
weights-cons-le :
    (v : Includer) (vs : List Includer) (ss : List Signature)
    → Distinct ss
    → weights (v ∷ vs) ss ≤ pos_part v.stake + weights vs ss
unfolding has_signer find_includer
weights-cons-le v vs [] d = omega arith
weights-cons-le v vs (s ∷ ss) d =
    ground (arith, weights-cons-le v vs ss d.1, weights-cons_absent v vs ss)

weights-nil : (ss : List Signature) → weights [] ss ≡ 0
unfolding find_includer
weights-nil [] = refl
weights-nil (s ∷ ss) = omega (arith, weights-nil ss)

-- Distinct signers hold no more than the whole stake.
pub weights-le-stake_sum :
    (vs : List Includer) (ss : List Signature) → Distinct ss → weights vs ss ≤ stake_sum vs
weights-le-stake_sum [] ss d = omega (arith, weights-nil ss)
weights-le-stake_sum (v ∷ vs) ss d =
    omega (arith, weights-cons-le v vs ss d, weights-le-stake_sum vs ss d)
