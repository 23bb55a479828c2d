-- ===== src/Search.antt =====
-- `Search_Cpu` and `GreedySearch_Cpu` of src/search.h and src/search.cpp. The random engine and the
-- distributions that draw from it are a parameter; floats are those of `Base.Float`.
pub mod Sampling
pub mod Ended
pub mod Emitted
pub mod Ranked
pub mod Greedy
pub mod TopK
pub mod Scoring
pub mod Penalties
pub mod Progress
use onnxruntime_genai_privat.Base.{
  ℕ, zero, suc, ◌+◌, ◌*◌, Bool, true, false, List, [], ◌∷◌, map, ◌==◌, leb, if◌then◌else◌, get_or,
  set, replicate, subspan, take, write_at, length, for_range,
}
use onnxruntime_genai_privat.Base.Int.{ℤ, pos, pos_part, decrement, beq_ℤ}
use onnxruntime_genai_privat.Base.Float.{FloatOps}
use onnxruntime_genai_privat.Std.{iota, sort_by, max_index, accumulate}
use onnxruntime_genai_privat.Sequences
use onnxruntime_genai_privat.Sequences.{Sequences}

-- What a search reads of `GeneratorParams`; the sizes are those that `Generator` has checked.
pub record Params {ℓ} (F : Type ℓ) : Type ℓ where
  pub input_ids : List ℤ
  pub batch_size : ℕ
  pub num_beams : ℕ
  pub max_length : ℕ
  pub vocab_size : ℕ
  pub pad_token_id : ℤ
  pub eos_token_id : ℤ
  pub length_penalty : F
  pub early_stopping : Bool

-- `std::discrete_distribution` and `std::uniform_real_distribution` over an engine `G`.
pub record Sampler {ℓ} (F G : Type ℓ) : Type ℓ where
  pub discrete : List F → G → ℕ × G
  pub uniform : F → G → F × G

pub record GreedySearch {ℓ} (F G : Type ℓ) : Type ℓ where
  pub params : Params F
  pub next_token_scores : List F
  pub sequences : Sequences
  pub done : Bool
  pub next_tokens : List ℤ
  pub eos_seen : List Bool
  pub not_done_count : ℤ
  pub gen : G

module _ {ℓ} {F G : Type ℓ} where
  -- The constructors of `Search_Cpu` and `GreedySearch_Cpu`; `gen` is the seeded engine.
  unfoldable pub init : Params F → G → GreedySearch F G
  init p gen = record {
    params = p;
    next_token_scores = [];
    sequences = Sequences.init p.input_ids p.batch_size p.num_beams p.max_length;
    done = false;
    next_tokens = replicate p.batch_size (pos 0);
    eos_seen = replicate p.batch_size false;
    not_done_count = pos p.batch_size;
    gen = gen;
  }

  pub set_logits : GreedySearch F G → List F → GreedySearch F G
  set_logits s logits = record s { next_token_scores = logits }

  -- `PadIfAlreadyEOS`.
  pub pad_if_already_eos : GreedySearch F G → ℕ → GreedySearch F G × Bool
  pad_if_already_eos s batch_id =
      if get_or s.eos_seen batch_id false
      then (record s { next_tokens = set s.next_tokens batch_id s.params.pad_token_id }, true)
      else (s, false)

  -- `SetNextToken`.
  pub set_next_token : GreedySearch F G → ℕ → ℤ → GreedySearch F G
  set_next_token s batch_id token =
      let count = decrement s.not_done_count in
      if beq_ℤ token s.params.eos_token_id
      then record s {
        next_tokens = set s.next_tokens batch_id token;
        eos_seen = set s.eos_seen batch_id true;
        not_done_count = count;
        done = if beq_ℤ count (pos 0) then true else s.done;
      }
      else record s { next_tokens = set s.next_tokens batch_id token }

  -- `AppendNextTokensToSequences`.
  pub append_next_tokens : GreedySearch F G → GreedySearch F G
  append_next_tokens s =
      let grown = Sequences.append_tokens s.sequences s.next_tokens in
      record s {
        sequences = grown;
        done = if Sequences.get_sequence_length grown == s.params.max_length then true else s.done;
      }

  -- One round of the loop that `SelectTop`, `SampleTopP` and `SampleTopKTopP` share: `choose` is
  -- the part of the body that picks a token, and may change the scores and the engine.
  pub choose_round : (ℕ → List F → G → ℤ × List F × G) → ℕ → GreedySearch F G → GreedySearch F G
  unfolding pad_if_already_eos set_next_token
  choose_round choose batch_id s =
      let (padded, already) = pad_if_already_eos s batch_id in
      let (token, scores, gen) = choose batch_id s.next_token_scores s.gen in
      if already
      then padded
      else set_next_token (record s { next_token_scores = scores; gen = gen }) batch_id token

  pub choose_tokens : (ℕ → List F → G → ℤ × List F × G) → GreedySearch F G → GreedySearch F G
  unfolding choose_round append_next_tokens
  choose_tokens choose s =
      append_next_tokens (for_range s.params.batch_size 0 (choose_round choose) s)
