-- ===== src/Models/Positions/Rows.antt =====
-- Rows of tensors that were written one behind another, and of expanded ones.
use onnxruntime_genai_privat.Base.{
  ℕ, zero, suc, ◌+◌, ◌*◌, ◌≤◌, ◌<◌, ◌≡◌, inl, inr, refl, sym, ap, ◌∙◌, Bool-cases, List, [], ◌∷◌,
  ◌++◌, length, drop, subspan, length-append, take-append_length, ◌==◌, ==_iff, arith,
  get_elem?-subspan, List-ext, row_le,
}
use native.Mathlib.Nat.{mul_assoc}
use onnxruntime_genai_privat.Models.Blocks.{block, length-block}
use onnxruntime_genai_privat.Models.Positions.{concat_rows, expand_inputs}

drop-append {ℓ} :
    {A : Type ℓ} (xs ys : List A) (n k : ℕ) → length xs ≡ n → drop (n + k) (xs ++ ys) ≡ drop k ys
drop-append [] ys n k h = let none_left : n + k ≡ k = omega arith in rw none_left refl
drop-append (x ∷ xs) ys n k h =
    let fewer : n + k ≡ suc (length xs + k) = omega arith in
    rw fewer (drop-append xs ys (length xs) k refl)

-- Row `r` of what a loop has written.
pub block-concat_rows {ℓ} :
    {A : Type ℓ} (size count from r : ℕ) (row : ℕ → List A)
    → ((i : ℕ) → i < from + count → length (row i) ≡ size)
    → r < count
    → block size (concat_rows count from row) r ≡ row (from + r)
unfolding concat_rows
block-concat_rows size zero from r row sized lt = elim lt [ ]
block-concat_rows size (suc count) from zero row sized lt =
    let start : from + 0 ≡ from = omega arith in
    let front : 0 * size ≡ 0 = omega arith in
    rw (start, front)
      (take-append_length (row from) (concat_rows count (from + 1) row) size
        (sized from (omega arith)))
block-concat_rows size (suc count) from (suc r) row sized lt =
    let place : suc r * size ≡ size + r * size = omega arith in
    let next : from + suc r ≡ from + 1 + r = omega arith in
    rw (place, next)
      (rw
        (drop-append (row from) (concat_rows count (from + 1) row) size (r * size)
          (sized from (omega arith)))
        (block-concat_rows size count (from + 1) r row (λ i hi. sized i (omega arith))
          (omega arith)))

pub length-concat_rows {ℓ} :
    {A : Type ℓ} (size count from : ℕ) (row : ℕ → List A)
    → ((i : ℕ) → i < from + count → length (row i) ≡ size)
    → length (concat_rows count from row) ≡ count * size
unfolding concat_rows
length-concat_rows size zero from row sized = omega arith
length-concat_rows size (suc count) from row sized = omega (
  arith,
  length-append (row from) (concat_rows count (from + 1) row),
  sized from (omega arith),
  length-concat_rows size count (from + 1) row (λ i hi. sized i (omega arith)),
)

-- A part of a part.
subspan-subspan :
    (xs : List ℕ) (a n b m : ℕ) → b + m ≤ n → subspan (subspan xs a n) b m ≡ subspan xs (a + b) m
subspan-subspan xs a n b m fits = List-ext _ _ λ j.
    let place : a + (b + j) ≡ a + b + j = omega arith in
    let outer = get_elem?-subspan (subspan xs a n) b m j in
    let inner = get_elem?-subspan xs a n (b + j) in
    let whole = get_elem?-subspan xs (a + b) m j in ground (arith, outer, inner, whole, place)

-- Row `j` of entry `i` in an expanded tensor is row `i`.
pub block-expand_inputs :
    (num_beams batch_size size i j : ℕ) (input : List ℕ)
    → length input ≡ batch_size * size
    → i < batch_size
    → j < num_beams
    → block size (expand_inputs num_beams batch_size size input) (i * num_beams + j)
      ≡ block size input i
unfolding expand_inputs
block-expand_inputs num_beams batch_size size i j input sized hi hj =
    elim (Bool-cases (num_beams == 1)) [
      | inl one ↦
          let single = (==_iff num_beams 1).0 one in
          let row : i * num_beams + j ≡ i = rw single (omega (arith, single)) in
          rw one (rw row refl)
      | inr more ↦ rw more (
          rw place (
            sym (
              subspan-subspan all (i * (num_beams * size)) (num_beams * size) (j * size) size
                (row_le j num_beams size hj))
            ∙ (ap (λ (l : List ℕ). subspan l (j * size) size) (entry ∙ rw zeroth refl)
                ∙ (block-concat_rows size num_beams 0 j (λ _. block size input i)
                    (λ _ _. whole i hi) hj))))
    ]
  where
    beams : ℕ → List ℕ
    beams i' = concat_rows num_beams 0 (λ j'. subspan input (i' * size) size)

    all : List ℕ
    all = concat_rows batch_size 0 beams

    place : (i * num_beams + j) * size ≡ i * (num_beams * size) + j * size
    place = grind arith

    zeroth : 0 + i ≡ i
    zeroth = omega arith

    whole : (i' : ℕ) → i' < batch_size → length (block size input i') ≡ size
    whole i' h = length-block size input i' batch_size h sized

    entry : block (num_beams * size) all i ≡ beams (0 + i)
    entry =
        block-concat_rows (num_beams * size) batch_size 0 i beams
          (λ i' h.
            length-concat_rows size num_beams 0 (λ _. block size input i')
              (λ _ _. whole i' (omega arith)))
          hi

pub length-expand_inputs :
    (num_beams batch_size size : ℕ) (input : List ℕ)
    → length input ≡ batch_size * size
    → length (expand_inputs num_beams batch_size size input) ≡ batch_size * num_beams * size
unfolding expand_inputs
length-expand_inputs num_beams batch_size size input sized = elim (Bool-cases (num_beams == 1)) [
  | inl one ↦
      let single = (==_iff num_beams 1).0 one in
      rw one (rw single (let same : batch_size * 1 ≡ batch_size = omega arith in rw same sized))
  | inr more ↦ rw more (
      length-concat_rows (num_beams * size) batch_size 0 _ (λ i h.
        length-concat_rows size num_beams 0 (λ _. block size input i)
          (λ _ _. length-block size input i batch_size (omega arith) sized))
      ∙ sym (mul_assoc batch_size num_beams size))
]
