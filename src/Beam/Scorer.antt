-- ===== src/Beam/Scorer.antt =====
-- `BeamSearchScorer` of src/beam_search_scorer.h and src/beam_search_scorer.cpp.
pub mod Filled
pub mod InRange
pub mod Counted
use onnxruntime_genai_privat.Base.{
  ℕ, zero, suc, ◌+◌, ◌-◌, ◌*◌, ◌/◌, Bool, true, false, not, ◌&&◌, ◌||◌, List, map, write_at, [],
  ◌∷◌, ◌++◌, ◌==◌, leb, ltb, if◌then◌else◌, get_or, set, replicate, subspan, length, for_range,
}
use onnxruntime_genai_privat.Base.Int.{ℤ, pos, negsuc, decrement, beq_ℤ, ltb_ℤ}
use onnxruntime_genai_privat.Base.Float.{FloatOps}
use onnxruntime_genai_privat.Std.{iota, max_index}
use onnxruntime_genai_privat.Sequences
use onnxruntime_genai_privat.Sequences.{Sequences}
use onnxruntime_genai_privat.Search.{Params}
use onnxruntime_genai_privat.Beam.Hypotheses
use onnxruntime_genai_privat.Beam.Hypotheses.{BeamHypotheses}

-- `hypothesis_buffer_used` counts the tokens of the buffer that hypotheses occupy; the buffer itself
-- is not a field, since each hypothesis is held by value.
pub record Scorer {ℓ} (F : Type ℓ) : Type ℓ where
  pub batch_size : ℕ
  pub num_beams : ℕ
  pub max_length : ℕ
  pub pad_token_id : ℤ
  pub eos_token_id : ℤ
  pub early_stopping : Bool
  pub not_done_count : ℤ
  pub next_beam_scores : List F
  pub next_beam_tokens : List ℤ
  pub next_beam_indices : List ℕ
  pub hypothesis_buffer_size : ℕ
  pub hypothesis_buffer_used : ℕ
  pub beam_hyps : List (BeamHypotheses F)

module _ {ℓ} {F : Type ℓ} (ops : FloatOps F) where
  abbrev zero_f : F
  zero_f = ops.of_int (pos 0)

  -- The constructor: the first beam of each entry starts with 0, the others with -1e9.
  pub init : Params F → ℕ → Scorer F
  unfolding Hypotheses.init
  init p sequence_length =
      let batch_beam_size = p.batch_size * p.num_beams in
      let per_beam =
        (p.max_length * (p.max_length + 1) - (sequence_length - 1) * sequence_length) / 2 in
      record {
        batch_size = p.batch_size;
        num_beams = p.num_beams;
        max_length = p.max_length;
        pad_token_id = p.pad_token_id;
        eos_token_id = p.eos_token_id;
        early_stopping = p.early_stopping;
        not_done_count = pos p.batch_size;
        next_beam_scores =
            for_range p.batch_size 0
              (λ i scores.
                for_range (p.num_beams - 1) 1
                  (λ j row. set row (i * p.num_beams + j) (ops.of_int (negsuc 999_999_999))) scores)
              (replicate batch_beam_size zero_f);
        next_beam_tokens = replicate batch_beam_size (pos 0);
        next_beam_indices = replicate batch_beam_size 0;
        hypothesis_buffer_size = batch_beam_size * per_beam;
        hypothesis_buffer_used = 0;
        beam_hyps =
            replicate p.batch_size
              (Hypotheses.init ops p.length_penalty (replicate p.num_beams (Hypotheses.blank ops)));
      }

  abbrev pub no_hypotheses : BeamHypotheses F
  no_hypotheses = record { beams = []; beams_used = 0; length_penalty = zero_f; done = true }

  -- The read `beam_hyps_[batch]`.
  abbrev pub hyps_at : Scorer F → ℕ → BeamHypotheses F
  hyps_at s batch = get_or s.beam_hyps batch no_hypotheses

  -- `IsDone`.
  pub is_done : Scorer F → Bool
  is_done s = beq_ℤ s.not_done_count (pos 0)

  -- The padding of an entry that is done.
  pub pad_batch : Scorer F → ℕ → Scorer F
  pad_batch s batch =
      for_range s.num_beams 0
        (λ j t. record t {
          next_beam_scores = set t.next_beam_scores (batch * s.num_beams + j) zero_f;
          next_beam_tokens = set t.next_beam_tokens (batch * s.num_beams + j) s.pad_token_id;
          next_beam_indices = set t.next_beam_indices (batch * s.num_beams + j) 0;
        })
        s

  -- A candidate: a token with its score and the beam that it extends.
  pub record Candidate : Type ℓ where
    pub score : F
    pub token : ℤ
    pub index : ℕ

  -- The test for an end token.
  unfoldable pub is_eos : ℤ → ℤ → Bool
  is_eos eos token = not (ltb_ℤ eos (pos 0)) && beq_ℤ token eos

  -- One round of the loop over the candidates of an entry; `beam_idx` counts the beams filled.
  pub candidate : Sequences → ℕ → ℕ → Candidate → Scorer F × ℕ → Scorer F × ℕ
  unfolding is_eos Hypotheses.add
  candidate sequences batch j c (s, beam_idx) =
      let batch_beam_idx = batch * s.num_beams + c.index in
      let length = Sequences.get_sequence_length sequences in
      let place = batch * s.num_beams + beam_idx in
      if is_eos s.eos_token_id c.token
      then (if leb s.num_beams j then (s, beam_idx) else (
        record s {
          hypothesis_buffer_used = s.hypothesis_buffer_used + length;
          beam_hyps = set s.beam_hyps batch (
              Hypotheses.add ops (hyps_at s batch) (Sequences.get_sequence sequences batch_beam_idx)
                c.score);
        },
        beam_idx,
      ))
      else (
        record s {
          next_beam_scores = set s.next_beam_scores place c.score;
          next_beam_tokens = set s.next_beam_tokens place c.token;
          next_beam_indices = set s.next_beam_indices place batch_beam_idx;
        },
        beam_idx + 1,
      )

  -- The loop, which stops once the beams are full. (The source's `continue` for an end token behind
  -- the first `num_beams` candidates skips that test, which then cannot hold.)
  pub candidates : Sequences → ℕ → ℕ → List Candidate → Scorer F × ℕ → Scorer F × ℕ
  unfolding candidate
  candidates sequences batch j [] st = st
  candidates sequences batch j (c ∷ cs) st =
      let next = candidate sequences batch j c st in
      let rest = candidates sequences batch (j + 1) cs next in
      if next.1 == next.0.num_beams then next else rest

  -- The candidates of an entry, read from the rows of `top_k` scores, tokens and indices.
  unfoldable pub candidates_of : List F → List ℤ → List ℕ → ℕ → ℕ → List Candidate
  unfolding iota
  candidates_of next_scores next_tokens next_indices batch top_k =
      map
        (λ j. record {
          score = get_or next_scores (batch * top_k + j) zero_f;
          token = get_or next_tokens (batch * top_k + j) (pos 0);
          index = get_or next_indices (batch * top_k + j) 0;
        })
        (iota 0 top_k)

  -- The scores among which `Process` looks for the best one: it starts at `batch * num_beams`,
  -- while the candidates of the entry start at `batch * top_k`.
  unfoldable pub scored_window : ℕ → ℕ → List F → List F
  scored_window num_beams batch next_scores =
      subspan next_scores (batch * num_beams) (2 * num_beams)

  -- Whether an entry is done after its candidates: its hypotheses are complete and cannot improve.
  pub is_finished : ℕ → ℕ → List F → Scorer F → Bool
  unfolding max_index scored_window Hypotheses.can_improve
  is_finished sequence_length batch next_scores s =
      let hyps = hyps_at s batch in
      let topk_scores = scored_window s.num_beams batch next_scores in
      let first = get_or topk_scores 0 zero_f in
      let best = get_or topk_scores (max_index ops.ltf 0 first 0 topk_scores) zero_f in
      not (ltb hyps.beams_used s.num_beams)
      && (s.early_stopping || not (Hypotheses.can_improve ops hyps best sequence_length))

  -- What is done with an entry that is done.
  pub finish : Scorer F → ℕ → Scorer F
  finish s batch = record s {
    beam_hyps = set s.beam_hyps batch (record (hyps_at s batch) { done = true });
    not_done_count = decrement s.not_done_count;
  }

  -- One round of the loop of `Process`.
  pub process_batch : Sequences → List F → List ℤ → List ℕ → ℕ → Scorer F → Scorer F
  unfolding pad_batch candidates candidates_of is_finished finish
  process_batch sequences next_scores next_tokens next_indices batch s =
      let listed = candidates_of next_scores next_tokens next_indices batch (2 * s.num_beams) in
      let t = (candidates sequences batch 0 listed (s, 0)).0 in
      let length = Sequences.get_sequence_length sequences in
      if (hyps_at s batch).done
      then pad_batch s batch
      else (if is_finished length batch next_scores t then finish t batch else t)

  pub process : Scorer F → Sequences → List F → List ℤ → List ℕ → Scorer F
  unfolding process_batch
  process s sequences next_scores next_tokens next_indices =
      for_range s.batch_size 0 (process_batch sequences next_scores next_tokens next_indices) s

  -- The first loop of `Finalize`: the beams of an open entry become hypotheses.
  pub close_batch : Sequences → ℕ → Scorer F → Scorer F
  unfolding Hypotheses.add
  close_batch sequences batch s =
      if (hyps_at s batch).done
      then s
      else for_range s.num_beams 0
          (λ beam t.
            let place = batch * s.num_beams + beam in
            record t {
              beam_hyps = set t.beam_hyps batch (
                  Hypotheses.add ops (hyps_at t batch) (Sequences.get_sequence sequences place)
                    (get_or t.next_beam_scores place zero_f));
            })
          s

  -- `Finalize`: `output` and `scores` are the caller's buffers.
  pub finalize : Scorer F → Sequences → ℕ → List ℤ → List F → Scorer F × (List ℤ × List F)
  unfolding close_batch Hypotheses.output
  finalize s sequences num_return_sequences output scores =
      let t = for_range s.batch_size 0 (close_batch sequences) s in
      (
        t,
        for_range t.batch_size 0
            (λ batch (out, scored).
              let width = num_return_sequences * t.max_length in
              let (rows, row_scores) =
                Hypotheses.output ops (hyps_at t batch) num_return_sequences t.max_length
                  (subspan out (batch * width) width)
                  (subspan scored (batch * num_return_sequences) num_return_sequences) in
              (
                write_at out (batch * width) rows,
                write_at scored (batch * num_return_sequences) row_scores,
              ))
            (replicate (length output) t.pad_token_id, scores),
      )
