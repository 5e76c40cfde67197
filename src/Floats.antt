-- ===== src/Floats.antt =====
-- Python's floats, as far as the modelled code computes with them: a type with operations and
-- tests, which the modules that use it take as a parameter.
use aiops_research.Base.{Bool, ℤ}

pub record Floats : Type 1 where
  pub F : Type 0
  pub zero : F
  pub one : F
  pub half : F
  pub add : F → F → F
  pub div : F → F → F
  pub sub : F → F → F
  pub mul : F → F → F
  -- The float that an integer becomes in arithmetic, and `int(a)` of a finite float.
  pub of_int : ℤ → F
  pub truncated : F → ℤ
  pub is_finite : F → Bool
  -- `a > b`
  pub gtb : F → F → Bool
  -- Whether the value is true as a condition, which zero is not.
  pub truth : F → Bool
  -- `a >= b`
  pub geb : F → F → Bool
  -- `a == b`
  pub eqb : F → F → Bool
  -- Finite and not negative.
  pub is_weight : F → Bool
