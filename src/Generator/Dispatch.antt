-- ===== src/Generator/Dispatch.antt =====
-- The virtual functions of `Search` (src/search.h) over the two searches of the CPU, and
-- `CreateSearch` of src/generators.cpp.
pub mod Progress
use onnxruntime_genai_privat.Base.{ℕ, Bool, List, [], ◌∷◌, if◌then◌else◌, ltb}
use onnxruntime_genai_privat.Base.Int.{ℤ}
use onnxruntime_genai_privat.Base.Float.{FloatOps}
use onnxruntime_genai_privat.Sequences
use onnxruntime_genai_privat.Sequences.{Sequences}
use onnxruntime_genai_privat.Search
use onnxruntime_genai_privat.Search.{Params, Sampler, GreedySearch}
use onnxruntime_genai_privat.Search.Sampling
use onnxruntime_genai_privat.Search.Scoring
use onnxruntime_genai_privat.Beam
use onnxruntime_genai_privat.Beam.Search.{BeamSearch}

pub data AnySearch {ℓ} (F G : Type ℓ) : Type ℓ where
  greedy : GreedySearch F G → AnySearch F G
  beam : BeamSearch F → AnySearch F G

module _ {ℓ} {F G : Type ℓ} where
  abbrev pub sequences_of : AnySearch F G → Sequences
  sequences_of (greedy s) = s.sequences
  sequences_of (beam s) = s.sequences

  abbrev pub params_of : AnySearch F G → Params F
  params_of (greedy s) = s.params
  params_of (beam s) = s.params

  -- `GetNextIndices`: empty for a greedy search.
  abbrev pub get_next_indices : AnySearch F G → List ℕ
  get_next_indices (greedy s) = []
  get_next_indices (beam s) = s.scorer.next_beam_indices

  abbrev pub get_next_tokens : AnySearch F G → List ℤ
  get_next_tokens (greedy s) = s.next_tokens
  get_next_tokens (beam s) = s.scorer.next_beam_tokens

  -- `IsDone`, for which a beam search has no own version.
  abbrev pub is_done : AnySearch F G → Bool
  is_done (greedy s) = s.done
  is_done (beam s) = s.done

  unfoldable pub get_sequence_length : AnySearch F G → ℕ
  get_sequence_length s = Sequences.get_sequence_length (sequences_of s)

  unfoldable pub get_sequence : AnySearch F G → ℕ → List ℤ
  get_sequence s index = Sequences.get_sequence (sequences_of s) index

  -- The scores of a search, changed by a function of its sizes and its sequences.
  abbrev pub change_scores :
      (Params F → Sequences → List F → List F) → AnySearch F G → AnySearch F G
  change_scores f (greedy s) =
      greedy (record s { next_token_scores = f s.params s.sequences s.next_token_scores })
  change_scores f (beam s) =
      beam (record s { next_token_scores = f s.params s.sequences s.next_token_scores })

  unfoldable pub set_logits : AnySearch F G → List F → AnySearch F G
  set_logits s logits = change_scores (λ _ _ _. logits) s

module _ {ℓ} {F G : Type ℓ} (ops : FloatOps F) where
  unfoldable pub create_search : Params F → ℕ → G → AnySearch F G
  create_search p sequence_length gen =
      if ltb 1 p.num_beams
      then beam (Beam.Search.init ops p sequence_length)
      else greedy (Search.init p gen)

  unfoldable pub apply_min_length : ℤ → AnySearch F G → AnySearch F G
  unfolding Scoring.apply_min_length
  apply_min_length min_length s =
      change_scores
        (λ p sequences scores. Scoring.apply_min_length ops p sequences min_length scores) s

  unfoldable pub apply_repetition_penalty : F → AnySearch F G → AnySearch F G
  unfolding Scoring.apply_repetition_penalty
  apply_repetition_penalty penalty s =
      change_scores
        (λ p sequences scores. Scoring.apply_repetition_penalty ops p sequences penalty scores) s

  module _ (rng : Sampler F G) where
    unfoldable pub select_top : AnySearch F G → AnySearch F G
    unfolding Sampling.select_top
    select_top (greedy s) = greedy (Sampling.select_top ops rng s)
    select_top (beam s) = beam (Beam.Search.select_top ops s)

    -- For a beam search the sampling functions are those of the base class, which do nothing but
    -- assert; `GenerateNextToken` does not call them.
    unfoldable pub sample_top_p : F → F → AnySearch F G → AnySearch F G
    unfolding Sampling.sample_top_p
    sample_top_p top_p temperature (greedy s) =
        greedy (Sampling.sample_top_p ops rng top_p temperature s)
    sample_top_p top_p temperature (beam s) = beam s

    unfoldable pub sample_top_k : ℕ → F → AnySearch F G → AnySearch F G
    unfolding Sampling.sample_top_k
    sample_top_k k temperature (greedy s) = greedy (Sampling.sample_top_k ops rng k temperature s)
    sample_top_k k temperature (beam s) = beam s

    unfoldable pub sample_top_k_top_p : ℕ → F → F → AnySearch F G → AnySearch F G
    unfolding Sampling.sample_top_k_top_p
    sample_top_k_top_p k top_p temperature (greedy s) =
        greedy (Sampling.sample_top_k_top_p ops rng k top_p temperature s)
    sample_top_k_top_p k top_p temperature (beam s) = beam s
