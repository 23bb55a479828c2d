-- ===== src/Base/Float.antt =====
-- The arithmetic of `float`, as an interface: the type and its operations are a parameter.
use mathlib.Core.Bool.{Bool}
use onnxruntime_genai_privat.Base.Int.{ℤ}

pub record FloatOps {ℓ} (F : Type ℓ) : Type ℓ where
  pub ltf : F → F → Bool
  pub lef : F → F → Bool
  pub eqf : F → F → Bool
  pub add : F → F → F
  pub sub : F → F → F
  pub mul : F → F → F
  pub div : F → F → F
  pub pow : F → F → F
  pub exp : F → F
  pub of_int : ℤ → F
  pub lowest : F
