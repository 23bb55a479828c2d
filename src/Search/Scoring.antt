-- ===== src/Search/Scoring.antt =====
-- The scoring features of `Search_Cpu` in src/search.cpp: `GetScores`, `ApplyMinLength` and
-- `ApplyRepetitionPenalty`, on the scores and the sequences of a search.
use onnxruntime_genai_privat.Base.{
  ◌*◌, Bool, false, not, ◌||◌, List, [], ◌∷◌, if◌then◌else◌, set, write_at, for_range,
}
use onnxruntime_genai_privat.Base.Int.{ℤ, pos, negsuc, beq_ℤ, ltb_ℤ}
use onnxruntime_genai_privat.Base.Float.{FloatOps}
use onnxruntime_genai_privat.Sequences
use onnxruntime_genai_privat.Sequences.{Sequences}
use onnxruntime_genai_privat.Search.{Params}
use onnxruntime_genai_privat.Search.Sampling.{score, row, zero_f}

-- Whether a token stands in a list.
unfoldable pub contains : ℤ → List ℤ → Bool
contains word [] = false
contains word (x ∷ xs) = beq_ℤ word x || contains word xs

-- The words of a sequence, each once: what the `unordered_set` holds.
unfoldable pub unique : List ℤ → List ℤ
unfolding contains
unique [] = []
unique (x ∷ xs) = let rest = unique xs in if contains x rest then rest else x ∷ rest

module _ {ℓ} {F : Type ℓ} (ops : FloatOps F) where
  -- A write to a row by a token; an index out of range changes nothing.
  abbrev pub set_score : List F → ℤ → F → List F
  set_score scores (pos i) v = set scores i v
  set_score scores (negsuc i) v = scores

  abbrev pub score_at : List F → ℤ → F
  score_at scores (pos i) = score ops scores i
  score_at scores (negsuc i) = zero_f ops

  unfoldable pub apply_min_length : Params F → Sequences → ℤ → List F → List F
  apply_min_length p sequences min_length scores =
      if not (ltb_ℤ (pos (Sequences.get_sequence_length sequences)) min_length)
      then scores
      else for_range (p.batch_size * p.num_beams) 0
          (λ i now.
            write_at now (i * p.vocab_size) (set_score (row ops p now i) p.eos_token_id ops.lowest))
          scores

  unfoldable pub penalized : F → F → F
  penalized penalty score =
      if ops.ltf score (zero_f ops) then ops.mul score penalty else ops.div score penalty

  -- The loop over the words of one sequence.
  unfoldable pub penalize : F → List ℤ → List F → List F
  unfolding penalized
  penalize penalty [] scores = scores
  penalize penalty (word ∷ words) scores =
      penalize penalty words (set_score scores word (penalized penalty (score_at scores word)))

  unfoldable pub apply_repetition_penalty : Params F → Sequences → F → List F → List F
  unfolding unique penalize
  apply_repetition_penalty p sequences penalty scores =
      if ops.eqf penalty (ops.of_int (pos 1))
      then scores
      else for_range (p.batch_size * p.num_beams) 0
          (λ i now.
            write_at now (i * p.vocab_size)
              (penalize penalty (unique (Sequences.get_sequence sequences i)) (row ops p now i)))
          scores
