-- ===== src/Base/Result.antt =====
-- What a Go function returns beside its error: a value, or the error.
pub data Result (E A : Type 0) : Type 0 where
  ok : A → Result E A
  err : E → Result E A
