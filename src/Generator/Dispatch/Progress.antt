-- ===== src/Generator/Dispatch/Progress.antt =====
-- Each way to choose the next tokens (src/search.cpp) brings a search one token closer to its end.
use onnxruntime_genai_privat.Base.{ℕ, ◌+◌, ◌≡◌, refl, sym, ap, ◌∙◌, Bool, true, false, List, ==_iff}
use onnxruntime_genai_privat.Base.Float.{FloatOps}
use onnxruntime_genai_privat.Sequences
use onnxruntime_genai_privat.Sequences.{Sequences}
use onnxruntime_genai_privat.Sequences.Beams.{append_beams_sizes}
use onnxruntime_genai_privat.Search.{Params, Sampler, GreedySearch}
use onnxruntime_genai_privat.Search.Progress
use onnxruntime_genai_privat.Search.Progress.{Progress}
use onnxruntime_genai_privat.Beam.Search.{
  BeamSearch, append_next_tokens, add_beam_scores, next_scores, next_candidate_tokens,
  next_candidate_indices,
}
use onnxruntime_genai_privat.Beam.Scorer
use onnxruntime_genai_privat.Beam
use onnxruntime_genai_privat.Generator.Dispatch.{
  AnySearch, greedy, beam, sequences_of, params_of, is_done, get_sequence_length, change_scores,
  select_top, sample_top_p, sample_top_k, sample_top_k_top_p,
}

module _ {F G : Type 0} where
  abbrev pub max_of : AnySearch F G → ℕ
  max_of s = (params_of s).max_length

  abbrev pub is_greedy : AnySearch F G → Bool
  is_greedy (greedy s) = true
  is_greedy (beam s) = false

  -- One token more, and done once the rows are full.
  pub record Closer (s t : AnySearch F G) : Type 0 where
    pub same_max : max_of t ≡ max_of s
    pub same_kind : is_greedy t ≡ is_greedy s
    pub longer : get_sequence_length t ≡ get_sequence_length s + 1
    pub ended : get_sequence_length t ≡ max_of s → is_done t ≡ true

  greedy-Closer : (s t : GreedySearch F G) → Progress s t → Closer (greedy s) (greedy t)
  unfolding get_sequence_length
  greedy-Closer s t w = record {
    same_max = ap (λ (p : Params F). p.max_length) w.same_params;
    same_kind = refl;
    longer = w.longer;
    ended = w.ended;
  }

  -- The scores do not count.
  pub change_scores-same :
      (f : Params F → Sequences → List F → List F) (s : AnySearch F G)
      → (sequences_of (change_scores f s) ≡ sequences_of s)
        × (params_of (change_scores f s) ≡ params_of s)
        × (is_greedy (change_scores f s) ≡ is_greedy s)
        × (is_done (change_scores f s) ≡ is_done s)
  change_scores-same f (greedy s) = (refl, refl, refl, refl)
  change_scores-same f (beam s) = (refl, refl, refl, refl)

module _ {F G : Type 0} (ops : FloatOps F) where
  append-Closer :
      (s u : BeamSearch F)
      → u.sequences ≡ s.sequences
      → u.params ≡ s.params
      → Closer {F = F} {G = G} (beam s) (beam (append_next_tokens ops u))
  unfolding append_next_tokens get_sequence_length
  append-Closer s u rows same =
      let indices = u.scorer.next_beam_indices in
      let tokens = u.scorer.next_beam_tokens in
      let length =
        Sequences.get_sequence_length (Sequences.append_beams u.sequences indices tokens) in
      record {
        same_max = ap (λ (p : Params F). p.max_length) same;
        same_kind = refl;
        longer =
            (append_beams_sizes u.sequences indices tokens).1
            ∙ ap (λ (q : Sequences). Sequences.get_sequence_length q + 1) rows;
        ended = λ e.
            let full =
              (==_iff length u.params.max_length).1
                (e ∙ ap (λ (p : Params F). p.max_length) (sym same)) in
            rw full refl;
      }

  module _ (rng : Sampler F G) where
    pub select_top-Closer : (s : AnySearch F G) → Closer s (select_top ops rng s)
    unfolding select_top Beam.Search.select_top
    select_top-Closer (greedy s) = greedy-Closer s _ (Progress.select_top-Progress ops rng s)
    select_top-Closer (beam s) =
        let p = s.params in
        let scores = add_beam_scores ops p s.scorer.next_beam_scores s.next_token_scores in
        let scorer =
          Scorer.process ops s.scorer s.sequences (next_scores ops p scores)
            (next_candidate_tokens ops p scores) (next_candidate_indices ops p scores) in
        append-Closer s
          (record s {
            next_token_scores = scores;
            next_tokens = scorer.next_beam_tokens;
            scorer = scorer;
          })
          refl refl

    -- A sampling function steps a greedy search.
    pub sample_top_p-Closer :
        (p temperature : F) (s : GreedySearch F G)
        → Closer (greedy s) (sample_top_p ops rng p temperature (greedy s))
    unfolding sample_top_p
    sample_top_p-Closer p temperature s =
        greedy-Closer s _ (Progress.sample_top_p-Progress ops rng s p temperature)

    pub sample_top_k-Closer :
        (k : ℕ) (temperature : F) (s : GreedySearch F G)
        → Closer (greedy s) (sample_top_k ops rng k temperature (greedy s))
    unfolding sample_top_k
    sample_top_k-Closer k temperature s =
        greedy-Closer s _ (Progress.sample_top_k-Progress ops rng s k temperature)

    pub sample_top_k_top_p-Closer :
        (k : ℕ) (p temperature : F) (s : GreedySearch F G)
        → Closer (greedy s) (sample_top_k_top_p ops rng k p temperature (greedy s))
    unfolding sample_top_k_top_p
    sample_top_k_top_p-Closer k p temperature s =
        greedy-Closer s _ (Progress.sample_top_k_top_p-Progress ops rng s k p temperature)
