-- ===== src/Base/Outcome.antt =====
-- What a C++ function does: it returns, or it throws. The state that it leaves stands beside this.
use Prim.Native.String.{String}

-- The exceptions that the program throws, with their messages.
pub data Exception : Type 0 where
  internal_error : String → Exception
  invalid_argument : String → Exception
  runtime_error : String → Exception
  -- A failed `assert`, and a use of a dangling iterator.
  assertion : String → Exception
  undefined : String → Exception

pub data Outcome {ℓ} (A : Type ℓ) : Type ℓ where
  returns : A → Outcome A
  throws : Exception → Outcome A
