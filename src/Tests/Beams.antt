-- ===== src/Tests/Beams.antt =====
-- A beam search with one entry of two beams.
use onnxruntime_genai_privat.Base.{
  ℕ, ◌<◌, ◌≡◌, refl, List, [], ◌∷◌, ◌++◌, ◌==◌, get_or, take, length, arith,
}
use onnxruntime_genai_privat.Base.Int.{ℤ, pos}
use onnxruntime_genai_privat.Sequences
use onnxruntime_genai_privat.Sequences.{at}
use onnxruntime_genai_privat.Search.Ended.{count_open}
use onnxruntime_genai_privat.Beam.Hypotheses.{HypothesisScore, penalized, add}
use onnxruntime_genai_privat.Beam.Hypotheses.Ranked.{IsRanked, Inserted, add-Inserted}
use onnxruntime_genai_privat.Beam.Scorer.{is_done, candidates_of, process_batch, process}
use onnxruntime_genai_privat.Beam.Scorer.Filled.{Filled, going_on, process_batch-Filled}
use onnxruntime_genai_privat.Beam.Scorer.Counted.{IsCounted, flags, process-IsCounted}
use onnxruntime_genai_privat.Beam.Scorer.InRange.{IsInRange, process-IsInRange}
use onnxruntime_genai_privat.Beam.Search.{select_top}
use onnxruntime_genai_privat.Beam.Search.Rows.{IsReady, select_top-Moves}
use onnxruntime_genai_privat.Tests.Values.{
  number_ops, number_order, number_lef, two_rows, no_hypothesis, scorer_two, beams_two,
}

no_hypothesis-IsRanked : IsRanked number_ops no_hypothesis
no_hypothesis-IsRanked = record { some_beam = omega arith; used_le = omega arith; sorted = tt }

add-Inserted_example :
    let new : HypothesisScore ℕ = record {
      hypothesis = pos 1 ∷ pos 2 ∷ [];
      score = penalized number_ops 1 6 2;
    } in
    Inserted number_ops new no_hypothesis (add number_ops no_hypothesis (pos 1 ∷ pos 2 ∷ []) 6)
    × IsRanked number_ops (add number_ops no_hypothesis (pos 1 ∷ pos 2 ∷ []) 6)
add-Inserted_example =
    add-Inserted number_ops number_order number_lef no_hypothesis (pos 1 ∷ pos 2 ∷ []) 6
      no_hypothesis-IsRanked

-- The candidates: the second ends its sequence.
abbrev best : List ℕ
best = 9 ∷ 8 ∷ 7 ∷ 6 ∷ []

abbrev words : List ℤ
words = pos 1 ∷ pos 2 ∷ pos 0 ∷ pos 1 ∷ []

abbrev sources : List ℕ
sources = 0 ∷ 0 ∷ 1 ∷ 1 ∷ []

three_go_on :
    length (going_on number_ops (pos 2) (candidates_of number_ops best words sources 0 4)) ≡ 3
unfolding going_on candidates_of
three_go_on = refl

process_batch-Filled_example :
    Filled number_ops scorer_two
      (process_batch number_ops two_rows best words sources 0 scorer_two)
      0
      0
      (take 2 (going_on number_ops (pos 2) (candidates_of number_ops best words sources 0 4)))
    × (length
          (take 2 (going_on number_ops (pos 2) (candidates_of number_ops best words sources 0 4)))
        ≡ 2)
process_batch-Filled_example =
    process_batch-Filled number_ops two_rows best words sources 0 scorer_two refl (omega arith)
      (omega (arith, three_go_on))

scorer_two-IsCounted : IsCounted number_ops scorer_two
unfolding count_open
scorer_two-IsCounted = record { entries = refl; counter = refl }

process-IsCounted_example :
    let t = process number_ops scorer_two two_rows best words sources in
    IsCounted number_ops t
    × (is_done number_ops t ≡ (count_open (flags number_ops t.beam_hyps) == 0))
process-IsCounted_example =
    process-IsCounted number_ops scorer_two two_rows best words sources scorer_two-IsCounted

scorer_two-IsInRange : IsInRange number_ops 1 2 scorer_two
scorer_two-IsInRange = record {
  rows = (omega arith, (omega arith, tt));
  batches = refl;
  beams = refl;
}

process-IsInRange_example :
    IsInRange number_ops 1 2 (process number_ops scorer_two two_rows best words sources)
process-IsInRange_example =
    process-IsInRange number_ops 1 2 scorer_two two_rows best words sources scorer_two-IsInRange
      (omega arith, (omega arith, (omega arith, (omega arith, tt)))) (omega arith)

beams_two-IsReady : IsReady number_ops beams_two
beams_two-IsReady = record {
  valid = record { valid = record { sized = refl; fits = omega arith }; sized_next = refl };
  in_range = scorer_two-IsInRange;
  sized = refl;
  some_words = omega arith;
  some_beams = omega arith;
  some_entries = omega arith;
}

select_top-Moves_example :
    let t = select_top number_ops beams_two in
    let source = get_or t.scorer.next_beam_indices 1 0 in
    (source < 2)
    × (Sequences.get_sequence t.sequences 1
        ≡ Sequences.get_sequence two_rows source ++ at t.scorer.next_beam_tokens 1 ∷ [])
    × IsReady number_ops t
select_top-Moves_example =
    select_top-Moves number_ops beams_two 1 beams_two-IsReady (omega arith) (omega arith)
