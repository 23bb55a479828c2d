-- ===== src/Sequences.antt =====
-- `Sequences` of src/sequences.h and src/sequences.cpp: the tokens generated so far, row by row in
-- one flat buffer, or in two that a beam search swaps. Sizes are numbers; a read out of range
-- gives 0 and a write out of range changes nothing.
pub mod Rows
pub mod Beams
pub mod Start
use onnxruntime_genai_privat.Base.{
  ℕ, zero, suc, ◌+◌, ◌*◌, ◌/◌, List, [], ◌==◌, if◌then◌else◌, get_or, set, replicate, subspan,
  write_at, length, for_range,
}
use onnxruntime_genai_privat.Base.Int.{ℤ, pos}

-- `sequences_` and `sequences_next_`, with the three sizes.
pub record Sequences : Type 0 where
  pub sequences : List ℤ
  pub sequences_next : List ℤ
  pub batch_beam_size : ℕ
  pub max_length : ℕ
  pub current_length : ℕ

-- The read `xs[i]` of a span of tokens.
abbrev pub at : List ℤ → ℕ → ℤ
at xs i = get_or xs i (pos 0)

-- One row: the `j` loop of the constructor.
fill_row : List ℤ → ℕ → ℕ → ℕ → List ℤ → List ℤ
fill_row input source length target buffer =
    for_range length 0 (λ j b. set b (target + j) (at input (source + j))) buffer

-- The rows of one batch entry: the `beam` loop.
fill_beams : List ℤ → ℕ → ℕ → ℕ → ℕ → List ℤ → List ℤ
unfolding fill_row
fill_beams input beam_size max_length length batch buffer =
    for_range beam_size 0
      (λ beam b. fill_row input (batch * length) length ((batch * beam_size + beam) * max_length) b)
      buffer

-- The constructor.
unfoldable pub init : List ℤ → ℕ → ℕ → ℕ → Sequences
unfolding fill_beams
init input_sequences batch_size beam_size max_length =
    let current_length = length input_sequences / batch_size in
    let sequences_size = batch_size * beam_size * max_length in
    record {
      sequences =
          for_range batch_size 0
            (λ batch b. fill_beams input_sequences beam_size max_length current_length batch b)
            (replicate sequences_size (pos 0));
      sequences_next = if beam_size == 1 then [] else replicate sequences_size (pos 0);
      batch_beam_size = batch_size * beam_size;
      max_length = max_length;
      current_length = current_length;
    }

pub get_sequence : Sequences → ℕ → List ℤ
get_sequence s batch_beam_index =
    subspan s.sequences (batch_beam_index * s.max_length) s.current_length

unfoldable pub get_sequence_length : Sequences → ℕ
get_sequence_length s = s.current_length

-- One round of the loop of the beam version: copy the chosen row, then write its next token.
append_beam : Sequences → List ℕ → List ℤ → ℕ → List ℤ → List ℤ
append_beam s batch_beam_indices batch_beam_next_tokens i next =
    let batch_beam_index = get_or batch_beam_indices i 0 in
    let source = subspan s.sequences (batch_beam_index * s.max_length) s.current_length in
    set (write_at next (i * s.max_length) source) (i * s.max_length + s.current_length)
      (at batch_beam_next_tokens i)

-- `AppendNextTokenToSequences(batch_beam_indices, batch_beam_next_tokens)`, of a beam search.
pub append_beams : Sequences → List ℕ → List ℤ → Sequences
unfolding append_beam
append_beams s batch_beam_indices batch_beam_next_tokens = record s {
  sequences =
      for_range s.batch_beam_size 0 (append_beam s batch_beam_indices batch_beam_next_tokens)
        s.sequences_next;
  sequences_next = s.sequences;
  current_length = s.current_length + 1;
}

-- `AppendNextTokenToSequences(next_tokens)`, of a greedy search.
pub append_tokens : Sequences → List ℤ → Sequences
append_tokens s next_tokens = record s {
  sequences =
      for_range s.batch_beam_size 0
        (λ i b. set b (i * s.max_length + s.current_length) (at next_tokens i)) s.sequences;
  current_length = s.current_length + 1;
}
