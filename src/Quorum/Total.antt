-- ===== src/Quorum/Total.antt =====
-- The total stake and the stake that a certificate needs.
use unison.Base.{
  ℕ, ◌+◌, ◌*◌, ◌/◌, ◌≤◌, ◌≡◌, ◌⊎◌, none, some, List, [], ◌∷◌, All, leb, if◌then◌else◌, arith,
}
use unison.Base.Int.{
  mul64_exact, div64_exact, add64_exact, pos, pos_part, ◌≤ℤ◌, IsInt64, mul64, div64, add64,
}
use unison.Quorum.{Includer, Includers, safe_add_clip, add_stakes, total_stake_of, stake_required}
use unison.Quorum.SafeAdd.{safe_add_clip-eq-clamp}
use unison.Quorum.Stake.{stake_sum}

-- `MaxStake` as a number.
abbrev pub stake_limit : ℕ
stake_limit = 1152921504606846975

-- The stake is an `int64` that is not negative: what `Includer.Validate` asks for.
abbrev pub HasStake : Includer → Type 0
HasStake v = (pos 0 ≤ℤ v.stake) × IsInt64 v.stake

pub safe_add_clip_pos :
    (s : ℕ) (v : Includer)
    → s ≤ 9223372036854775807
    → HasStake v
    → safe_add_clip (pos s) v.stake ≡ (
        if leb (s + pos_part v.stake) 9223372036854775807
        then pos (s + pos_part v.stake)
        else pos 9223372036854775807)
safe_add_clip_pos s v hs hv = ground (arith, safe_add_clip-eq-clamp (pos s) v.stake)

-- Above the limit the loop panics, and below it the sum is exact.
add_stakes_exact :
    (s : ℕ) (vs : List Includer)
    → s ≤ stake_limit
    → All HasStake vs
    → add_stakes (pos s) vs
      ≡ (if leb (s + stake_sum vs) stake_limit then some (pos (s + stake_sum vs)) else none)
unfolding add_stakes
add_stakes_exact s [] hs h = ground arith
add_stakes_exact s (v ∷ vs) hs h =
    ground (arith, safe_add_clip_pos s v, add_stakes_exact (s + pos_part v.stake) vs)

-- The cache holds nothing or the right sum.
abbrev pub IsCached : Includers → Type 0
IsCached incl =
    (incl.total_stake ≡ pos 0)
    ⊎ ((incl.total_stake ≡ pos (stake_sum incl.includers))
        × (stake_sum incl.includers ≤ stake_limit))

-- The set with its cache filled.
abbrev pub filled : Includers → Includers
filled incl = record incl { total_stake = pos (stake_sum incl.includers) }

-- `TotalStake` of includers whose stakes are valid: the exact sum of the stakes, with the cache
-- filled, if the sum is within `MaxStake`, and the panic if not; never a wrapped or clipped sum.
pub total_stake_of-exact :
    (incl : Includers)
    → All HasStake incl.includers
    → IsCached incl
    → total_stake_of incl ≡ (
        if leb (stake_sum incl.includers) stake_limit
        then some (pos (stake_sum incl.includers), filled incl)
        else none)
unfolding total_stake_of
total_stake_of-exact incl h c = ground (arith, add_stakes_exact 0 incl.includers)

-- What valid includers are: valid stakes whose sum is within `MaxStake`.
pub record IsValidSet (incl : Includers) : Type 0 where
  pub stakes : All HasStake incl.includers
  pub bounded : stake_sum incl.includers ≤ stake_limit
  pub cached : IsCached incl

-- Two thirds of a total, rounded down, and one.
abbrev pub two_thirds : ℕ → ℕ
two_thirds total = total * 2 / 3 + 1

abbrev pub threshold : Includers → ℕ
threshold incl = two_thirds (stake_sum incl.includers)

required_exact :
    (t : ℕ) → t ≤ stake_limit → add64 (div64 (mul64 (pos t) 2) 3) (pos 1) ≡ pos (two_thirds t)
required_exact t h =
    rw (mul64_exact t 2 (omega arith), div64_exact (t * 2))
      (rw (add64_exact (pos (t * 2 / 3)) (pos 1) (ground arith)) (ground arith))

-- The stake that is required of valid includers is exact: no step of the formula overflows.
pub stake_required-exact :
    (incl : Includers)
    → IsValidSet incl
    → stake_required incl ≡ some (pos (threshold incl), filled incl)
unfolding stake_required
stake_required-exact incl v =
    ground (
      arith,
      total_stake_of-exact incl v.stakes v.cached,
      required_exact (stake_sum incl.includers),
    )
