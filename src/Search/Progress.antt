-- ===== src/Search/Progress.antt =====
-- Each way to choose tokens in src/search.cpp makes the rows of a greedy search one token longer.
use onnxruntime_genai_privat.Base.{
  ℕ, ◌+◌, ◌≡◌, refl, sym, ap, ◌∙◌, true, List, ==_iff, for_range_inv, arith,
}
use onnxruntime_genai_privat.Base.Int.{ℤ}
use onnxruntime_genai_privat.Base.Float.{FloatOps}
use onnxruntime_genai_privat.Sequences
use onnxruntime_genai_privat.Sequences.{Sequences}
use onnxruntime_genai_privat.Sequences.Rows.{append_tokens_sizes}
use onnxruntime_genai_privat.Search.{
  Params, Sampler, GreedySearch, set_next_token, append_next_tokens, choose_tokens,
}
use onnxruntime_genai_privat.Search.Ended.{params-choose_round}
use onnxruntime_genai_privat.Search.Sampling.{
  choose_top, choose_top_p, choose_top_k_top_p, select_top, sample_top_p, sample_top_k_top_p,
  sample_top_k, top_k_round,
}

module _ {F G : Type 0} where
  pub record Progress (s t : GreedySearch F G) : Type 0 where
    pub same_params : t.params ≡ s.params
    pub longer :
        Sequences.get_sequence_length t.sequences ≡ Sequences.get_sequence_length s.sequences + 1
    pub ended : Sequences.get_sequence_length t.sequences ≡ s.params.max_length → t.done ≡ true

  -- The parameters and the rows are still those of `s`.
  Untouched : GreedySearch F G → GreedySearch F G → Type 0
  Untouched s t = (t.params ≡ s.params) × (t.sequences ≡ s.sequences)

  append_next_tokens-Progress :
      (s u : GreedySearch F G) → Untouched s u → Progress s (append_next_tokens u)
  unfolding append_next_tokens Untouched
  append_next_tokens-Progress s u (same, rows) =
      let grown = append_tokens_sizes u.sequences u.next_tokens in
      let length =
        Sequences.get_sequence_length (Sequences.append_tokens u.sequences u.next_tokens) in
      record {
        same_params = same;
        longer = grown.1 ∙ ap (λ (q : Sequences). Sequences.get_sequence_length q + 1) rows;
        ended = λ e.
            let full =
              (==_iff length u.params.max_length).1
                (e ∙ ap (λ (p : Params F). p.max_length) (sym same)) in
            rw full refl;
      }

  pub choose_tokens-Progress :
      (choose : ℕ → List F → G → ℤ × List F × G) (s : GreedySearch F G)
      → Progress s (choose_tokens choose s)
  unfolding choose_tokens Untouched
  choose_tokens-Progress choose s = append_next_tokens-Progress s _ (
      for_range_inv (λ _ t. Untouched s t) _ s.params.batch_size 0 s.params.batch_size s
        (omega arith)
        (λ k t hk w. let kept = params-choose_round choose k t in (kept.0 ∙ w.0, kept.1 ∙ w.1))
        (refl, refl))

module _ {F G : Type 0} (ops : FloatOps F) (rng : Sampler F G) (s : GreedySearch F G) where
  pub select_top-Progress : Progress s (select_top ops rng s)
  unfolding select_top
  select_top-Progress = choose_tokens-Progress (choose_top ops rng s.params) s

  pub sample_top_p-Progress :
      (p temperature : F) → Progress s (sample_top_p ops rng p temperature s)
  unfolding sample_top_p
  sample_top_p-Progress p temperature =
      choose_tokens-Progress (choose_top_p ops rng p temperature s.params) s

  pub sample_top_k_top_p-Progress :
      (k : ℕ) (p temperature : F) → Progress s (sample_top_k_top_p ops rng k p temperature s)
  unfolding sample_top_k_top_p
  sample_top_k_top_p-Progress k p temperature =
      choose_tokens-Progress (choose_top_k_top_p ops rng k p temperature s.params) s

  top_k_round-Untouched :
      (b : ℕ) (u : GreedySearch F G) (k : ℕ) (temperature : F)
      → Untouched u (top_k_round ops rng k temperature b u)
  unfolding top_k_round set_next_token Untouched
  top_k_round-Untouched b u k temperature = ground arith

  pub sample_top_k-Progress :
      (k : ℕ) (temperature : F) → Progress s (sample_top_k ops rng k temperature s)
  unfolding sample_top_k Untouched
  sample_top_k-Progress k temperature = append_next_tokens-Progress s _ (
      for_range_inv (λ _ t. Untouched s t) _ s.params.batch_size 0 s.params.batch_size s
        (omega arith)
        (λ b t hb w.
          let kept = top_k_round-Untouched b t k temperature in (kept.0 ∙ w.0, kept.1 ∙ w.1))
        (refl, refl))
