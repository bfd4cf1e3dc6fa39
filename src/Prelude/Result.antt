-- ===== src/Prelude/Result.antt =====
-- The value and error pairs of Go.

pub data Result {ℓ κ} (E : Type κ) (A : Type ℓ) : Type (ℓ ⊔ κ) where
  ok : A → Result E A
  err : E → Result E A
