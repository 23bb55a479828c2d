-- ===== src/Config/Tree/EndTokens.antt =====
-- The end tokens of a configuration, a number or an array of numbers (src/config.cpp).
use onnxruntime_genai_privat.Base.{◌≡◌, refl, ap, ◌∙◌, List, [], ◌∷◌, ◌++◌}
use onnxruntime_genai_privat.Base.Int.{ℤ}
use onnxruntime_genai_privat.Config.Data.{Model}
use onnxruntime_genai_privat.Config.Handlers.{
  eos_array_on_number, eos_array_settle, eos_array_on_complete,
}

-- The whole array: its numbers, then its end.
pub read_array : List ℤ → Model → Model
unfolding eos_array_on_number eos_array_on_complete
read_array [] m = eos_array_on_complete m
read_array (x ∷ xs) m = read_array xs (eos_array_on_number x m)

append_nil : (xs : List ℤ) → xs ++ [] ≡ xs
append_nil [] = refl
append_nil (x ∷ xs) = ap (λ ys. x ∷ ys) (append_nil xs)

append_step : (xs ys : List ℤ) (y : ℤ) → (xs ++ y ∷ []) ++ ys ≡ xs ++ y ∷ ys
append_step [] ys y = refl
append_step (x ∷ xs) ys y = ap (λ zs. x ∷ zs) (append_step xs ys y)

read_array-collects :
    (xs : List ℤ) (m : Model)
    → read_array xs m
      ≡ eos_array_settle
          (m.eos_token_ids ++ xs)
          (record m { eos_token_ids = m.eos_token_ids ++ xs })
unfolding read_array eos_array_on_number eos_array_on_complete
read_array-collects [] m = rw (append_nil m.eos_token_ids) refl
read_array-collects (x ∷ xs) m =
    rw (← append_step m.eos_token_ids xs x)
      (read_array-collects xs (record m { eos_token_ids = m.eos_token_ids ++ x ∷ [] }))

-- An array of end tokens, read into a model that has none yet: none leaves the model as it was, one
-- is the end token, as if it stood there as a number, and of more the first is the end token while
-- all are kept.
pub read_array-cases :
    (m : Model)
    → m.eos_token_ids ≡ []
    → (read_array [] m ≡ m)
      × ((x : ℤ) → read_array (x ∷ []) m ≡ record m { eos_token_id = x })
      × ((x y : ℤ) (xs : List ℤ)
          → read_array (x ∷ y ∷ xs) m ≡ record m { eos_token_id = x; eos_token_ids = x ∷ y ∷ xs })
unfolding eos_array_settle
read_array-cases m none_yet = (
  read_array-collects [] m ∙ rw none_yet refl,
  λ x. read_array-collects (x ∷ []) m ∙ rw none_yet refl,
  λ x y xs. read_array-collects (x ∷ y ∷ xs) m ∙ rw none_yet refl,
)
