-- ===== src/Search/Sampling.antt =====
-- `SelectTop`, `SampleTopK`, `SampleTopP` and `SampleTopKTopP` of `GreedySearch_Cpu`, and
-- `SoftMax`, all of src/search.cpp.
use onnxruntime_genai_privat.Base.{
  ℕ, ◌-◌, ◌*◌, List, [], ◌∷◌, map, if◌then◌else◌, get_or, subspan, take, write_at, length,
  for_range,
}
use onnxruntime_genai_privat.Base.Int.{ℤ, pos}
use onnxruntime_genai_privat.Base.Float.{FloatOps}
use onnxruntime_genai_privat.Std.{iota, sort_by, max_index, accumulate}
use onnxruntime_genai_privat.Search.{
  Params, Sampler, GreedySearch, set_next_token, append_next_tokens, choose_tokens,
}

module _ {ℓ} {F : Type ℓ} (ops : FloatOps F) where
  abbrev pub zero_f : F
  zero_f = ops.of_int (pos 0)

  -- The read `scores[i]`.
  abbrev pub score : List F → ℕ → F
  score scores i = get_or scores i zero_f

  -- The scores of one batch entry.
  abbrev pub row : Params F → List F → ℕ → List F
  row p scores batch_id = subspan scores (batch_id * p.vocab_size) p.vocab_size

  -- The distance of `std::max_element` from the first score.
  unfoldable pub argmax : List F → ℕ
  unfolding max_index
  argmax [] = 0
  argmax (x ∷ xs) = max_index ops.ltf 0 x 1 xs

  -- `SoftMax`.
  unfoldable pub softmax : List F → F → List F
  unfolding argmax accumulate
  softmax scores temperature =
      let max_score = score scores (argmax scores) in
      let scaled = map (λ x. ops.exp (ops.div (ops.sub x max_score) temperature)) scores in
      let exp_sum = accumulate ops.add zero_f scaled in map (λ x. ops.div x exp_sum) scaled

  -- The indices of the scores, highest score first.
  unfoldable pub ranked : List F → List ℕ
  unfolding iota sort_by
  ranked scores =
      sort_by (λ i j. ops.ltf (score scores j) (score scores i)) (iota 0 (length scores))

  -- The loop over the ranked indices: the first at which the threshold is used up, or `token`.
  unfoldable pub first_past : List F → ℕ → F → List ℕ → ℕ
  first_past scores token threshold [] = token
  first_past scores token threshold (i ∷ is) =
      let left = ops.sub threshold (score scores i) in
      let rest = first_past scores token left is in if ops.ltf zero_f left then rest else i

module _ {ℓ} {F G : Type ℓ} (ops : FloatOps F) (rng : Sampler F G) where
  unfoldable pub choose_top : Params F → ℕ → List F → G → ℤ × List F × G
  unfolding argmax
  choose_top p batch_id scores gen = (pos (argmax ops (row ops p scores batch_id)), scores, gen)

  unfoldable pub choose_top_p : F → F → Params F → ℕ → List F → G → ℤ × List F × G
  unfolding softmax ranked first_past
  choose_top_p top_p temperature params batch_id scores gen =
      let probabilities = softmax ops (row ops params scores batch_id) temperature in
      let (threshold, gen') = rng.uniform top_p gen in
      (
        pos (first_past ops probabilities 0 threshold (ranked ops probabilities)),
        write_at scores (batch_id * params.vocab_size) probabilities,
        gen',
      )

  unfoldable pub choose_top_k_top_p : ℕ → F → F → Params F → ℕ → List F → G → ℤ × List F × G
  unfolding softmax ranked first_past
  choose_top_k_top_p k top_p temperature params batch_id scores gen =
      let probabilities = softmax ops (row ops params scores batch_id) temperature in
      let indices = ranked ops probabilities in
      let (threshold, gen') = rng.uniform top_p gen in
      (
        pos (first_past ops probabilities (get_or indices (k - 1) 0) threshold (take k indices)),
        write_at scores (batch_id * params.vocab_size) probabilities,
        gen',
      )

  unfoldable pub select_top : GreedySearch F G → GreedySearch F G
  unfolding choose_top choose_tokens
  select_top s = choose_tokens (choose_top s.params) s

  unfoldable pub sample_top_p : F → F → GreedySearch F G → GreedySearch F G
  unfolding choose_top_p choose_tokens
  sample_top_p top_p temperature s = choose_tokens (choose_top_p top_p temperature s.params) s

  unfoldable pub sample_top_k_top_p : ℕ → F → F → GreedySearch F G → GreedySearch F G
  unfolding choose_top_k_top_p choose_tokens
  sample_top_k_top_p k top_p temperature s =
      choose_tokens (choose_top_k_top_p k top_p temperature s.params) s

  -- One round of `SampleTopK`. It does not ask whether the entry has ended, and its distribution is
  -- over the first `k` probabilities of the row, not over those of the ranked indices.
  unfoldable pub top_k_round : ℕ → F → ℕ → GreedySearch F G → GreedySearch F G
  unfolding softmax ranked set_next_token
  top_k_round k temperature batch_id s =
      let probabilities = softmax ops (row ops s.params s.next_token_scores batch_id) temperature in
      let indices = ranked ops probabilities in
      let (drawn, gen') = rng.discrete (take k probabilities) s.gen in
      set_next_token
        (record s {
          next_token_scores =
              write_at s.next_token_scores (batch_id * s.params.vocab_size) probabilities;
          gen = gen';
        })
        batch_id (pos (get_or indices drawn 0))

  unfoldable pub sample_top_k : ℕ → F → GreedySearch F G → GreedySearch F G
  unfolding top_k_round append_next_tokens
  sample_top_k k temperature s =
      append_next_tokens (for_range s.params.batch_size 0 (top_k_round k temperature) s)
