-- ===== src/Beam/Hypotheses.antt =====
-- `HypothesisScore` and `BeamHypotheses` of src/beam_search_scorer.h and
-- src/beam_search_scorer.cpp. A hypothesis is held by value: the code gives each its own range of a
-- buffer, or a row of the sequences that is not written any more.
pub mod Insert
pub mod Ranked
use onnxruntime_genai_privat.Base.{
  ℕ, zero, suc, ◌+◌, ◌-◌, ◌*◌, Bool, true, false, List, [], ◌∷◌, ◌==◌, if◌then◌else◌, get_or, set,
  replicate, take, write_at, length, for_range,
}
use onnxruntime_genai_privat.Base.Int.{ℤ, pos}
use onnxruntime_genai_privat.Base.Float.{FloatOps}

pub record HypothesisScore {ℓ} (F : Type ℓ) : Type ℓ where
  pub hypothesis : List ℤ
  pub score : F

pub record BeamHypotheses {ℓ} (F : Type ℓ) : Type ℓ where
  pub beams : List (HypothesisScore F)
  pub beams_used : ℕ
  pub length_penalty : F
  pub done : Bool

module _ {ℓ} {F : Type ℓ} (ops : FloatOps F) where
  -- What stands in a beam before it is used.
  abbrev pub blank : HypothesisScore F
  blank = record { hypothesis = []; score = ops.of_int (pos 0) }

  -- The read `beams_[index]`.
  abbrev pub beam_at : List (HypothesisScore F) → ℕ → HypothesisScore F
  beam_at beams index = get_or beams index blank

  -- `Init`.
  unfoldable pub init : F → List (HypothesisScore F) → BeamHypotheses F
  init length_penalty beams = record {
    beams = beams;
    beams_used = 0;
    length_penalty = length_penalty;
    done = false;
  }

  -- The score of a hypothesis: the sum of its log probabilities over a power of its length.
  unfoldable pub penalized : F → F → ℕ → F
  penalized length_penalty sum_logprobs length =
      ops.div sum_logprobs (ops.pow (ops.of_int (pos length)) length_penalty)

  -- The loop of `Add`: elements move back while the new one scores higher; then it is written.
  pub rotate_in : HypothesisScore F → List (HypothesisScore F) → ℕ → List (HypothesisScore F)
  rotate_in new beams zero = set beams zero new
  rotate_in new beams (suc index) =
      let rest = rotate_in new (set beams (suc index) (beam_at beams index)) index in
      if ops.ltf (beam_at beams index).score new.score then rest else set beams (suc index) new

  -- `Add`.
  unfoldable pub add : BeamHypotheses F → List ℤ → F → BeamHypotheses F
  unfolding penalized rotate_in
  add b hypothesis sum_logprobs =
      let score = penalized b.length_penalty sum_logprobs (length hypothesis) in
      let new : HypothesisScore F = record { hypothesis = hypothesis; score = score } in
      let last = length b.beams - 1 in
      if b.beams_used == length b.beams
      then (if ops.lef score (beam_at b.beams last).score
          then b
          else record b { beams = rotate_in new b.beams last })
      else record b { beams = rotate_in new b.beams b.beams_used; beams_used = b.beams_used + 1 }

  -- `CanImprove`.
  unfoldable pub can_improve : BeamHypotheses F → F → ℕ → Bool
  unfolding penalized
  can_improve b best_sum_logprobs current_length =
      ops.ltf (beam_at b.beams (length b.beams - 1)).score
        (penalized b.length_penalty best_sum_logprobs current_length)

  -- `Output`: the first `top_k` hypotheses, each at the front of a row of `sequences`; the scores are
  -- written if there is room for any.
  unfoldable pub output : BeamHypotheses F → ℕ → ℕ → List ℤ → List F → List ℤ × List F
  output b top_k max_length sequences sequences_scores = (
    for_range top_k 0
        (λ index out. write_at out (index * max_length) (beam_at b.beams index).hypothesis)
        sequences,
    for_range top_k 0 (λ index out. set out index (beam_at b.beams index).score) sequences_scores,
  )
