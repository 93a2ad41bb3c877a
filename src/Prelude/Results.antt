-- ===== src/Prelude/Results.antt =====
-- The pair of a value and an `error` that Go functions return, read as one of the two.
pub data Result {ℓ} (E A : Type ℓ) : Type ℓ where
  ok : A → Result E A
  err : E → Result E A
