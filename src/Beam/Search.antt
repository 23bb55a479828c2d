-- ===== src/Beam/Search.antt =====
-- `BeamSearch_Cpu` of src/search.h and src/search.cpp. Floats are those of `Base.Float`.
pub mod Rows
use onnxruntime_genai_privat.Base.{
  ℕ, zero, suc, ◌+◌, ◌*◌, ◌/◌, ◌%◌, Bool, true, false, List, [], ◌∷◌, ◌++◌, map, ◌==◌,
  if◌then◌else◌, get_or, set, subspan, take, for_range,
}
use onnxruntime_genai_privat.Base.Int.{ℤ, pos}
use onnxruntime_genai_privat.Base.Float.{FloatOps}
use onnxruntime_genai_privat.Std.{iota}
use onnxruntime_genai_privat.Sequences
use onnxruntime_genai_privat.Sequences.{Sequences}
use onnxruntime_genai_privat.Search.{Params}
use onnxruntime_genai_privat.Search.Sampling.{score, ranked}
use onnxruntime_genai_privat.Beam.Scorer
use onnxruntime_genai_privat.Beam.Scorer.{Scorer}

pub record BeamSearch {ℓ} (F : Type ℓ) : Type ℓ where
  pub params : Params F
  pub next_token_scores : List F
  pub sequences : Sequences
  pub done : Bool
  pub next_tokens : List ℤ
  pub scorer : Scorer F

module _ {ℓ} {F : Type ℓ} (ops : FloatOps F) where
  -- The constructor; `sequence_length` is that of the prompts.
  unfoldable pub init : Params F → ℕ → BeamSearch F
  init p sequence_length = record {
    params = p;
    next_token_scores = [];
    sequences = Sequences.init p.input_ids p.batch_size p.num_beams p.max_length;
    done = false;
    next_tokens = [];
    scorer = Scorer.init ops p sequence_length;
  }

  -- The first loops of `SelectTop`: the score of its beam is added to each token's score.
  pub add_beam_scores : Params F → List F → List F → List F
  add_beam_scores p beam_scores next_token_scores =
      for_range p.batch_size 0
        (λ i a.
          for_range p.num_beams 0
            (λ j b.
              for_range p.vocab_size 0
                (λ k c.
                  let offset = (i * p.num_beams + j) * p.vocab_size + k in
                  set c offset
                    (ops.add (score ops c offset) (score ops beam_scores (i * p.num_beams + j))))
                b)
            a)
        next_token_scores

  -- The scores of the beams of one entry.
  pub entry_scores : Params F → List F → ℕ → List F
  entry_scores p scores batch_index =
      subspan scores (batch_index * p.num_beams * p.vocab_size) (p.num_beams * p.vocab_size)

  -- The tops of the priority queue, each as its place among the scores of the entry.
  pub entry_best : Params F → List F → ℕ → List ℕ
  unfolding entry_scores ranked
  entry_best p scores batch_index =
      take (2 * p.num_beams) (ranked ops (entry_scores p scores batch_index))

  -- The rows of `top_k` values of each entry, one behind the other.
  pub rows {κ} : {A : Type κ} → (ℕ → List A) → List ℕ → List A
  rows row [] = []
  rows row (batch_index ∷ rest) = row batch_index ++ rows row rest

  pub next_scores : Params F → List F → List F
  unfolding entry_best rows iota
  next_scores p scores =
      rows (λ b. map (score ops (entry_scores p scores b)) (entry_best p scores b))
        (iota 0 p.batch_size)

  pub next_candidate_tokens : Params F → List F → List ℤ
  unfolding entry_best rows iota
  next_candidate_tokens p scores =
      rows (λ b. map (λ i. pos (i % p.vocab_size)) (entry_best p scores b)) (iota 0 p.batch_size)

  pub next_candidate_indices : Params F → List F → List ℕ
  unfolding entry_best rows iota
  next_candidate_indices p scores =
      rows (λ b. map (λ i. i / p.vocab_size) (entry_best p scores b)) (iota 0 p.batch_size)

  -- `AppendNextTokensToSequences`.
  unfoldable pub append_next_tokens : BeamSearch F → BeamSearch F
  append_next_tokens s =
      let grown =
        Sequences.append_beams s.sequences s.scorer.next_beam_indices s.scorer.next_beam_tokens in
      record s {
        sequences = grown;
        done = if Sequences.get_sequence_length grown == s.params.max_length then true else s.done;
      }

  unfoldable pub select_top : BeamSearch F → BeamSearch F
  unfolding append_next_tokens
  select_top s =
      let scores = add_beam_scores s.params s.scorer.next_beam_scores s.next_token_scores in
      let scorer =
        Scorer.process ops s.scorer s.sequences (next_scores s.params scores)
          (next_candidate_tokens s.params scores) (next_candidate_indices s.params scores) in
      append_next_tokens (record s {
        next_token_scores = scores;
        next_tokens = scorer.next_beam_tokens;
        scorer = scorer;
      })

  -- `Finalize`.
  pub finalize : BeamSearch F → ℕ → List ℤ → List F → BeamSearch F × (List ℤ × List F)
  finalize s num_return_sequences output sequence_scores =
      let (scorer, written) =
        Scorer.finalize ops s.scorer s.sequences num_return_sequences output sequence_scores in
      (record s { scorer = scorer }, written)
