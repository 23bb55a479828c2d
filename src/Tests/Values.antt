-- ===== src/Tests/Values.antt =====
-- Concrete numbers for the `float` of the sources, and states of small searches.
use onnxruntime_genai_privat.Base.{
  ℕ, ◌+◌, ◌-◌, ◌*◌, ◌/◌, ◌^◌, ◌≡◌, true, false, not, List, [], ◌∷◌, ◌==◌, leb, ltb, arith,
}
use onnxruntime_genai_privat.Base.Int.{pos, pos_part}
use onnxruntime_genai_privat.Base.Float.{FloatOps}
use onnxruntime_genai_privat.Std.Sorted.{IsStrictWeak}
use onnxruntime_genai_privat.Sequences.{Sequences}
use onnxruntime_genai_privat.Search.{Params, Sampler, GreedySearch}
use onnxruntime_genai_privat.Beam.Hypotheses.{BeamHypotheses}
use onnxruntime_genai_privat.Beam.Scorer.{Scorer}
use onnxruntime_genai_privat.Beam.Search.{BeamSearch}

abbrev pub number_ops : FloatOps ℕ
number_ops = record {
  ltf = λ a b. ltb a b;
  lef = λ a b. leb a b;
  eqf = λ a b. a == b;
  add = λ a b. a + b;
  sub = λ a b. a - b;
  mul = λ a b. a * b;
  div = λ a b. a / b;
  pow = λ a b. a ^ b;
  exp = λ a. a;
  of_int = pos_part;
  lowest = 0;
}

pub number_order : IsStrictWeak number_ops.ltf
number_order = record { asymm = λ a b h. ground arith; not_trans = λ a b c p q. ground arith }

pub number_lef : (a c : ℕ) → number_ops.lef a c ≡ not (number_ops.ltf c a)
number_lef a c = ground arith

-- Draws that count how often they were asked.
abbrev pub first_draw : Sampler ℕ ℕ
first_draw = record { discrete = λ weights gen. (0, gen + 1); uniform = λ p gen. (0, gen + 1) }

-- Two prompts of one token each, in rows of four places, with three words: 0 pads and 2 ends.
abbrev pub two_rows : Sequences
two_rows = record {
  sequences = pos 1 ∷ pos 0 ∷ pos 0 ∷ pos 0 ∷ pos 1 ∷ pos 0 ∷ pos 0 ∷ pos 0 ∷ [];
  sequences_next = pos 0 ∷ pos 0 ∷ pos 0 ∷ pos 0 ∷ pos 0 ∷ pos 0 ∷ pos 0 ∷ pos 0 ∷ [];
  batch_beam_size = 2;
  max_length = 4;
  current_length = 1;
}

abbrev pub two_entries : Params ℕ
two_entries = record {
  input_ids = pos 1 ∷ pos 1 ∷ [];
  batch_size = 2;
  num_beams = 1;
  max_length = 4;
  vocab_size = 3;
  pad_token_id = pos 0;
  eos_token_id = pos 2;
  length_penalty = 1;
  early_stopping = true;
}

abbrev pub scores : List ℕ
scores = 0 ∷ 5 ∷ 1 ∷ 0 ∷ 1 ∷ 7 ∷ []

abbrev pub greedy_two : GreedySearch ℕ ℕ
greedy_two = record {
  params = two_entries;
  next_token_scores = scores;
  sequences = two_rows;
  done = false;
  next_tokens = pos 0 ∷ pos 0 ∷ [];
  eos_seen = false ∷ false ∷ [];
  not_done_count = pos 2;
  gen = 0;
}

-- The second entry has ended.
abbrev pub greedy_one : GreedySearch ℕ ℕ
greedy_one = record greedy_two { eos_seen = false ∷ true ∷ []; not_done_count = pos 1 }

-- One entry with two beams.
abbrev pub two_beams : Params ℕ
two_beams = record two_entries { input_ids = pos 1 ∷ []; batch_size = 1; num_beams = 2 }

abbrev pub no_hypothesis : BeamHypotheses ℕ
no_hypothesis = record {
  beams = record { hypothesis = []; score = 0 } ∷ record { hypothesis = []; score = 0 } ∷ [];
  beams_used = 0;
  length_penalty = 1;
  done = false;
}

abbrev pub scorer_two : Scorer ℕ
scorer_two = record {
  batch_size = 1;
  num_beams = 2;
  max_length = 4;
  pad_token_id = pos 0;
  eos_token_id = pos 2;
  early_stopping = true;
  not_done_count = pos 1;
  next_beam_scores = 0 ∷ 0 ∷ [];
  next_beam_tokens = pos 0 ∷ pos 0 ∷ [];
  next_beam_indices = 0 ∷ 0 ∷ [];
  hypothesis_buffer_size = 20;
  hypothesis_buffer_used = 0;
  beam_hyps = no_hypothesis ∷ [];
}

abbrev pub beams_two : BeamSearch ℕ
beams_two = record {
  params = two_beams;
  next_token_scores = scores;
  sequences = two_rows;
  done = false;
  next_tokens = [];
  scorer = scorer_two;
}
