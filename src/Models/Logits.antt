-- ===== src/Models/Logits.antt =====
-- src/models/logits.cpp: from the scores that the model gives for every place of the prompt to those of
-- the last token of each row, with the end tokens made one. What runs on other devices than the CPU,
-- and the conversion from 16-bit floats, is left out.
pub mod EndTokens
pub mod Rows
pub mod Last
use onnxruntime_genai_privat.Base.{
  ℕ, zero, suc, ◌+◌, ◌*◌, ◌-◌, ◌/◌, ◌%◌, ◌^◌, Bool, true, false, not, List, [], ◌∷◌, length, get_or,
  set, subspan, write_at, if◌then◌else◌, ◌==◌, for_range,
}
use onnxruntime_genai_privat.Base.Int.{ℤ, pos, beq_ℤ}
use onnxruntime_genai_privat.Base.Float.{FloatOps}
use onnxruntime_genai_privat.Search.Sampling.{score}

-- `shape_`, and the scores of the model's last run.
pub record Logits {ℓ} (F : Type ℓ) : Type ℓ where
  pub batch_beam_size : ℕ
  pub sequence_length : ℕ
  pub vocab_size : ℕ
  pub output_raw : List F

-- The first token from the end that is not the pad token. `token_index--` of 0 gives the largest
-- `size_t`, which is what a row of pad tokens leaves.
pub last_token_index : ℤ → List ℤ → ℕ → ℕ
last_token_index pad input_ids zero = 2 ^ 64 - 1
last_token_index pad input_ids (suc token_index) =
    let before = last_token_index pad input_ids token_index in
    if not (beq_ℤ (get_or input_ids token_index (pos 0)) pad) then token_index else before

-- The bytes of a `float`; offsets are counted in bytes.
abbrev pub element_size : ℕ
element_size = 4

module _ {ℓ} {F : Type ℓ} (ops : FloatOps F) where
  -- `std::max`.
  abbrev pub larger : F → F → F
  larger a b = if ops.ltf a b then b else a

  -- The loop over the end tokens: the largest score so far, and the scores.
  pub take_eos : List ℕ → F → List F → F × List F
  take_eos [] max logits = (max, logits)
  take_eos (id ∷ ids) max logits =
      take_eos ids (larger max (score ops logits id)) (set logits id ops.lowest)

  pub handle_eos_row : ℕ → List ℕ → List F → List F
  unfolding take_eos
  handle_eos_row eos_token_id ids logits =
      let (max, lowered) = take_eos ids ops.lowest logits in set lowered eos_token_id max

  abbrev pub is_empty : List ℕ → Bool
  is_empty [] = true
  is_empty (id ∷ ids) = false

  pub handle_eos_array : ℕ → List ℕ → ℕ → ℕ → List F → List F
  unfolding handle_eos_row
  handle_eos_array eos_token_id ids rows vocab_size batched_logits =
      if is_empty ids
      then batched_logits
      else for_range rows 0
          (λ index now.
            write_at now (index * vocab_size)
              (handle_eos_row eos_token_id ids (subspan now (index * vocab_size) vocab_size)))
          batched_logits

  -- The copy of one row; `input_ids` is the prompt of its entry.
  pub copy_last : Logits F → ℤ → List ℤ → ℕ → List F → List F
  unfolding last_token_index
  copy_last l pad input_ids row now =
      let token_index = last_token_index pad input_ids l.sequence_length in
      let vocab_index = row * l.vocab_size in
      write_at now vocab_index (
        subspan l.output_raw
          ((vocab_index * l.sequence_length + token_index * l.vocab_size)
            * element_size
            % 2 ^ 64
            / element_size)
          l.vocab_size)

  -- The loops over the entries and their beams, on a new tensor.
  pub last_tokens : Logits F → ℕ → ℕ → ℤ → List ℤ → List F → List F
  unfolding copy_last
  last_tokens l batch_size num_beams pad input_ids created =
      for_range batch_size 0
        (λ batch_index now.
          for_range num_beams 0
            (λ beam_index.
              copy_last l pad
                (subspan input_ids (batch_index * l.sequence_length) l.sequence_length)
                (batch_index * num_beams + beam_index))
            now)
        created

  -- Get on the CPU. The shape keeps one place for each row.
  pub get : Logits F → ℕ → ℕ → ℤ → List ℤ → List F → ℕ → List ℕ → Logits F × List F
  unfolding last_tokens handle_eos_array
  get l batch_size num_beams pad input_ids created eos_token_id eos_token_ids =
      let logits =
        if l.sequence_length == 1
        then l.output_raw
        else last_tokens l batch_size num_beams pad input_ids created in
      (
        record l { sequence_length = 1 },
        handle_eos_array eos_token_id eos_token_ids l.batch_beam_size l.vocab_size logits,
      )

  -- Update makes a new tensor if the old one has more than one place for each row.
  pub update : Logits F → ℕ → (ℕ → List F) → Logits F
  update l raw_length create =
      if raw_length == 1
      then l
      else record l { output_raw = create (l.batch_beam_size * l.sequence_length * l.vocab_size) }
