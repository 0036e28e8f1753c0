-- ===== src/Base/Outcome.antt =====
-- What a call of the C++ code comes to.

-- `ok a` returns a value, `failed` returns false, `fault` is a read outside the data that was given,
-- and `stuck` is no behaviour of the code: a loop of the model ran out of fuel.
pub data Outcome {ℓ} (A : Type ℓ) : Type ℓ where
  ok : A → Outcome A
  failed : Outcome A
  fault : Outcome A
  stuck : Outcome A
