-- ===== src/Quorum/SafeAdd.antt =====
-- `safeAdd` and `safeAddClip`: the overflow tests, which themselves compute in `int64`, are exact.
use unison.Base.{◌≡◌, if◌then◌else◌, arith}
use unison.Base.Int.{ℤ, ◌+ℤ◌, ltb_ℤ, max_int64, min_int64, IsInt64, add64_exact, sub64_exact}
use unison.Quorum.{safe_add_clip}

-- The nearest value of the range.
abbrev pub clamp : ℤ → ℤ
clamp a = if ltb_ℤ a min_int64 then min_int64 else if ltb_ℤ max_int64 a then max_int64 else a

-- On two `int64` values the clipped sum is the exact sum, brought to the nearest `int64` value.
pub safe_add_clip-eq-clamp : (a b : ℤ) → IsInt64 a → IsInt64 b → safe_add_clip a b ≡ clamp (a +ℤ b)
unfolding safe_add_clip
safe_add_clip-eq-clamp a b ha hb =
    ground (arith, add64_exact a b, sub64_exact max_int64 b, sub64_exact min_int64 b)
