-- ===== src/Tests/Greedy.antt =====
-- Greedy searches of two entries.
use onnxruntime_genai_privat.Base.{
  ℕ, ◌+◌, ◌*◌, ◌≡◌, ◌≢◌, refl, ◌&&◌, if◌then◌else◌, get_or, take, arith,
}
use onnxruntime_genai_privat.Base.Int.{pos, beq_ℤ, ltb_ℤ}
use onnxruntime_genai_privat.Sequences
use onnxruntime_genai_privat.Search.Sampling.{
  row, score, softmax, ranked, select_top, sample_top_p, sample_top_k_top_p, top_k_round,
}
use onnxruntime_genai_privat.Search.Scoring.{
  contains, penalized, apply_repetition_penalty, apply_min_length,
}
use onnxruntime_genai_privat.Search.Ended.{count_open, IsCounted, IsStep, greedy_steps-IsStep}
use onnxruntime_genai_privat.Search.Emitted.{IsReady, Appends}
use onnxruntime_genai_privat.Search.Ranked.{IsAmongTop}
use onnxruntime_genai_privat.Search.Greedy.{
  IsArgmax, select_top-Appends, sample_top_k_top_p-Appends,
}
use onnxruntime_genai_privat.Search.TopK.{top_k_round_miscounts}
use onnxruntime_genai_privat.Search.Penalties.{
  score-apply_repetition_penalty, score-apply_min_length,
}
use onnxruntime_genai_privat.Base.Float.{FloatOps}
use onnxruntime_genai_privat.Tests.Values.{
  number_ops, number_order, first_draw, two_rows, two_entries, scores, greedy_two, greedy_one,
}

greedy_two-IsReady : IsReady greedy_two
greedy_two-IsReady = record {
  sized = record { tokens = refl; flags = refl };
  valid = record { sized = refl; fits = omega arith };
  rows = refl;
  room = omega arith;
  scored = refl;
}

greedy_two-IsCounted : IsCounted greedy_two
unfolding count_open
greedy_two-IsCounted = record { entries = refl; counter = refl; finished = refl }

greedy_one-IsCounted : IsCounted greedy_one
unfolding count_open
greedy_one-IsCounted = record { entries = refl; counter = refl; finished = refl }

select_top-Appends_example :
    Appends
      (λ token.
        (i : ℕ) × (token ≡ pos i) × IsArgmax number_ops (row number_ops two_entries scores 0) i)
      greedy_two
      (select_top number_ops first_draw greedy_two)
      0
select_top-Appends_example =
    select_top-Appends number_ops first_draw greedy_two 0 greedy_two-IsReady (omega arith)
      number_order (omega arith)

sample_top_k_top_p-Appends_example :
    Appends
      (λ token.
        (i : ℕ) × (token ≡ pos i)
        × IsAmongTop number_ops 2 (softmax number_ops (row number_ops two_entries scores 1) 1) i)
      greedy_two
      (sample_top_k_top_p number_ops first_draw 2 1 1 greedy_two)
      1
sample_top_k_top_p-Appends_example =
    sample_top_k_top_p-Appends number_ops first_draw greedy_two 1 greedy_two-IsReady (omega arith)
      number_order 2 1 1 (omega arith) (omega arith)

greedy_steps-IsStep_example :
    IsStep greedy_two (select_top number_ops first_draw greedy_two)
    × ((top_p temperature : ℕ)
        → IsStep greedy_two (sample_top_p number_ops first_draw top_p temperature greedy_two))
    × ((k top_p temperature : ℕ)
        → IsStep greedy_two
            (sample_top_k_top_p number_ops first_draw k top_p temperature greedy_two))
greedy_steps-IsStep_example =
    greedy_steps-IsStep number_ops first_draw greedy_two greedy_two-IsCounted

-- Numbers for which the probabilities are the scores.
abbrev plain_ops : FloatOps ℕ
plain_ops = record number_ops { sub = λ a b. a; div = λ a b. a }

best_is_end :
    let probabilities = softmax plain_ops (row plain_ops two_entries scores 1) 1 in
    pos (get_or (ranked plain_ops probabilities) (first_draw.discrete (take 2 probabilities) 0).0 0)
    ≡ pos 2
unfolding softmax ranked
best_is_end = refl

-- The second entry has ended, and its best word is the end token.
top_k_round_miscounts_example :
    let t = top_k_round plain_ops first_draw 2 1 1 greedy_one in
    (t.eos_seen ≡ greedy_one.eos_seen) × (t.not_done_count ≢ pos (count_open t.eos_seen))
top_k_round_miscounts_example =
    top_k_round_miscounts plain_ops first_draw 2 1 1 greedy_one greedy_one-IsCounted refl
      best_is_end

score-apply_repetition_penalty_example :
    score number_ops (apply_repetition_penalty number_ops two_entries two_rows 5 scores) (0 * 3 + 1)
    ≡ (if number_ops.eqf 5 1
        then score number_ops scores (0 * 3 + 1)
        else (if contains (pos 1) (Sequences.get_sequence two_rows 0)
            then penalized number_ops 5 (score number_ops scores (0 * 3 + 1))
            else score number_ops scores (0 * 3 + 1)))
score-apply_repetition_penalty_example =
    score-apply_repetition_penalty number_ops two_entries two_rows scores refl 0 1 (omega arith)
      (omega arith) 5

score-apply_min_length_example :
    score number_ops (apply_min_length number_ops two_entries two_rows (pos 3) scores) (1 * 3 + 2)
    ≡ (if ltb_ℤ (pos (Sequences.get_sequence_length two_rows)) (pos 3) && beq_ℤ (pos 2) (pos 2)
        then 0
        else score number_ops scores (1 * 3 + 2))
score-apply_min_length_example =
    score-apply_min_length number_ops two_entries two_rows scores refl 1 2 (omega arith)
      (omega arith) (pos 3)
