-- ===== src/Dml/Rising.antt =====
-- Lists along which a number of the elements does not fall.
use onnxruntime_genai_privat.Base.{ℕ, ◌≤◌, List, [], ◌∷◌, ◌++◌, arith}

-- A measure that does not fall along a list, between two bounds.
abbrev pub Rising {ℓ} : {A : Type ℓ} → (A → ℕ) → ℕ → List A → ℕ → Type 0
Rising measure low [] high = low ≤ high
Rising measure low (x ∷ xs) high = (low ≤ measure x) × Rising measure (measure x) xs high

module _ {ℓ} {A : Type ℓ} (measure : A → ℕ) where
  pub Rising-from :
      (xs : List A) (low lower high : ℕ)
      → Rising measure low xs high
      → lower ≤ low
      → Rising measure lower xs high
  Rising-from [] low lower high h le = omega arith
  Rising-from (x ∷ xs) low lower high h le = (omega arith, h.1)

  pub Rising-to :
      (xs : List A) (low high higher : ℕ)
      → Rising measure low xs high
      → high ≤ higher
      → Rising measure low xs higher
  Rising-to [] low high higher h le = omega arith
  Rising-to (x ∷ xs) low high higher h le = (h.0, Rising-to xs (measure x) high higher h.1 le)

  pub Rising-push :
      (xs : List A) (low high : ℕ) (x : A)
      → Rising measure low xs high
      → high ≤ measure x
      → Rising measure low (xs ++ x ∷ []) (measure x)
  Rising-push [] low high x h le = ((omega arith), (omega arith))
  Rising-push (y ∷ xs) low high x h le = (h.0, Rising-push xs (measure y) high x h.1 le)

  pub Rising-low : (xs : List A) (low high : ℕ) → Rising measure low xs high → low ≤ high
  Rising-low [] low high h = h
  Rising-low (x ∷ xs) low high h = omega (arith, Rising-low xs (measure x) high h.1)
