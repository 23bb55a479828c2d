-- ===== src/Models/Positions/Generated.antt =====
-- From the prompts to the inputs behind any number of generated tokens.
use onnxruntime_genai_privat.Base.{
  ℕ, suc, ◌+◌, ◌*◌, ◌/◌, ◌%◌, ◌<◌, ◌≡◌, refl, sym, ap, ◌∙◌, true, List, [], ◌∷◌, ◌++◌, length,
  get_elem?, replicate, subspan, some, arith, get_elem?-subspan,
}
use native.Mathlib.Nat.{div-lt_iff_lt-mul, div-add-mod', mod-lt, zero-add}
use onnxruntime_genai_privat.Base.Int.{ℤ}
use onnxruntime_genai_privat.Models.Blocks.{block, length-block}
use onnxruntime_genai_privat.Models.Positions.{
  concat_rows, mask_row, count_tokens, expand_inputs, init, update,
}
use onnxruntime_genai_privat.Models.Positions.Rows.{
  block-concat_rows, length-concat_rows, block-expand_inputs, length-expand_inputs,
}
use onnxruntime_genai_privat.Models.Positions.Grown.{
  updates, ones, count_tokens-ones, length-mask_row, IsAt-start, IsAt-updates,
}

-- The cell of a row of one.
only_cell : (xs : List ℕ) (r v : ℕ) → block 1 xs r ≡ v ∷ [] → get_elem? xs r ≡ some v
only_cell xs r v h =
    let place : r * 1 + 0 ≡ r = omega arith in
    rw place at (sym (get_elem?-subspan xs (r * 1) 1 0) ∙ ap (λ (l : List ℕ). get_elem? l 0) h)

module _ (pad : ℤ) (batch_size m num_beams : ℕ) (input_ids : List ℤ)
    (whole : length input_ids ≡ batch_size * m) (some_beams : 0 < num_beams) where
  -- The prompt of the entry that row `r` belongs to.
  abbrev pub prompt : ℕ → List ℤ
  prompt r = subspan input_ids (r / num_beams * m) m

  entry_lt : (r : ℕ) → r < batch_size * num_beams → r / num_beams < batch_size
  entry_lt r lt = (div-lt_iff_lt-mul some_beams).1 lt

  -- A tensor of one row for each entry, expanded.
  expanded_row :
      (size : ℕ) (row : ℕ → List ℕ) (r : ℕ)
      → ((i : ℕ) → i < batch_size → length (row i) ≡ size)
      → r < batch_size * num_beams
      → block size (expand_inputs num_beams batch_size size (concat_rows batch_size 0 row)) r
        ≡ row (r / num_beams)
  expanded_row size row r sized lt =
      let split : r ≡ r / num_beams * num_beams + r % num_beams = sym (div-add-mod' r num_beams) in
      let zeroth : 0 + r / num_beams ≡ r / num_beams = omega arith in
      let i = entry_lt r lt in
      ap
        (λ k. block size (expand_inputs num_beams batch_size size (concat_rows batch_size 0 row)) k)
        split
      ∙ (block-expand_inputs num_beams batch_size size (r / num_beams) (r % num_beams)
            (concat_rows batch_size 0 row)
            (length-concat_rows size batch_size 0 row (λ k hk. sized k (omega arith))) i
            (mod-lt r some_beams)
          ∙ (block-concat_rows size batch_size 0 (r / num_beams) row (λ k hk. sized k (omega arith))
                i
              ∙ ap row zeroth))

  words : ℕ → List ℤ
  words i = subspan input_ids (i * m) m

  length-words : (i : ℕ) → i < batch_size → length (mask_row pad (words i)) ≡ m
  unfolding words
  length-words i lt = length-mask_row pad (words i) ∙ length-block m input_ids i batch_size lt whole

  -- If the prompts fill the input, there are beams, and a new tensor of a size has so many cells: the
  -- inputs behind the prompt and `k + 1` updates have in the mask of each row its prompt's marks and
  -- `k + 1` ones behind them, and as its position the number of ones among the marks plus `k`.
  pub updates-init :
      (create : ℕ → List ℕ) (k r : ℕ)
      → ((n : ℕ) → length (create n) ≡ n)
      → r < batch_size * num_beams
      → let p =
          updates create k
            (m + 1)
            (update create (m + 1) (init true true pad batch_size m num_beams input_ids)) in
        (block (m + suc k) p.attention_mask r ≡ mask_row pad (prompt r) ++ replicate (suc k) 1)
        × (get_elem? p.position_ids r ≡ some (ones (mask_row pad (prompt r)) + k))
  unfolding init words
  updates-init create k r created lt =
      let rows = batch_size * num_beams in
      let marks : ℕ → List ℕ = λ r'. mask_row pad (prompt r') in
      let count : ℕ → List ℕ = λ i. count_tokens pad 0 (words i) ∷ [] in
      let start =
        IsAt-start create created rows m marks (λ r'. ones (marks r'))
          (init true true pad batch_size m num_beams input_ids) (refl, refl, refl) refl
          (length-expand_inputs num_beams batch_size m
            (concat_rows batch_size 0 (λ i. mask_row pad (words i)))
            (length-concat_rows m batch_size 0 _ (λ i hi. length-words i (omega arith))))
          (λ r' hr. expanded_row m (λ i. mask_row pad (words i)) r' length-words hr)
          (λ r' hr.
            only_cell (expand_inputs num_beams batch_size 1 (concat_rows batch_size 0 count)) r'
              (ones (marks r'))
              (expanded_row 1 count r' (λ _ _. refl) hr
                ∙ ap (λ n. n ∷ [])
                    (count_tokens-ones pad (words (r' / num_beams)) 0 ∙ zero-add _))) in
      let end = IsAt-updates create created rows m marks (λ r'. ones (marks r')) k 0 _ start in
      let same : 0 + k ≡ k = omega arith in
      (rw same at (end.mask r lt), rw same at (end.position r lt))
