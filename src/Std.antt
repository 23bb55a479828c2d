-- ===== src/Std.antt =====
-- What the sources use of the C++ standard library's algorithms: `std::max_element`,
-- `std::accumulate`, `std::iota` and `std::sort` by a comparison.
pub mod Sorted
use onnxruntime_genai_privat.Base.{
  ℕ, zero, suc, ◌+◌, Bool, true, not, ◌&&◌, List, [], ◌∷◌, if◌then◌else◌,
}

-- `std::iota`: `n` numbers from `i` on.
unfoldable pub iota : ℕ → ℕ → List ℕ
iota i zero = []
iota i (suc n) = i ∷ iota (i + 1) n

module _ {ℓ} {A : Type ℓ} (before : A → A → Bool) where
  unfoldable pub insert_by : A → List A → List A
  insert_by x [] = x ∷ []
  insert_by x (y ∷ ys) = if before y x then y ∷ insert_by x ys else x ∷ y ∷ ys

  -- `std::sort` by a strict order. Which of two equivalent elements comes first is not specified;
  -- here it is the one that stood further back.
  unfoldable pub sort_by : List A → List A
  unfolding insert_by
  sort_by [] = []
  sort_by (x ∷ xs) = insert_by x (sort_by xs)

  -- `std::max_element`: the index `best` of the first largest element, where `largest` stands at
  -- `best` and the elements from index `i` on are still to be read.
  unfoldable pub max_index : ℕ → A → ℕ → List A → ℕ
  max_index best largest i [] = best
  max_index best largest i (x ∷ xs) =
      let rest = max_index i x (i + 1) xs in
      let keep = max_index best largest (i + 1) xs in if before largest x then rest else keep

-- `std::accumulate`.
unfoldable pub accumulate {ℓ} : {A : Type ℓ} → (A → A → A) → A → List A → A
accumulate plus acc [] = acc
accumulate plus acc (x ∷ xs) = accumulate plus (plus acc x) xs

-- A test of each element and the next one.
unfoldable pub adjacent {ℓ} : {A : Type ℓ} → (A → A → Bool) → List A → Bool
adjacent test [] = true
adjacent test (x ∷ []) = true
adjacent test (x ∷ y ∷ rest) = test x y && adjacent test (y ∷ rest)

-- `std::is_sorted` by a strict order.
unfoldable pub is_sorted {ℓ} : {A : Type ℓ} → (A → A → Bool) → List A → Bool
unfolding adjacent
is_sorted before xs = adjacent (λ x y. not (before y x)) xs
