-- ===== src/Generator/Termination.antt =====
-- The loop of `Generate` in src/generators.cpp ends.
use onnxruntime_genai_privat.Base.{
  ℕ, zero, suc, ◌+◌, ◌≤◌, ◌≡◌, ◌≢◌, refl, ap, ◌∙◌, Bool, true, false, not, ◌&&◌, ◌||◌, Option, none,
  some, List, ◌⊎◌, arith, Bool-cases, Option-cases, inl, inr,
}
use mathlib.Core.Path.{subst, sym}
use onnxruntime_genai_privat.Base.Int.{ℤ, pos, pos_part, beq_ℤ, ltb_ℤ}
use onnxruntime_genai_privat.Base.Float.{FloatOps}
use onnxruntime_genai_privat.Search.{Sampler}
use onnxruntime_genai_privat.Search.Scoring
use onnxruntime_genai_privat.Generator.Dispatch
use onnxruntime_genai_privat.Generator.Dispatch.{
  AnySearch, greedy, beam, sequences_of, params_of, change_scores,
}
use onnxruntime_genai_privat.Generator.Dispatch.Progress.{
  Closer, max_of, is_greedy, change_scores-same, select_top-Closer, sample_top_p-Closer,
  sample_top_k-Closer, sample_top_k_top_p-Closer,
}
use onnxruntime_genai_privat.Generator.{
  GeneratorParams, Error, run_failed, Model, Generator, compute_logits, is_done, sample,
  sampling_refused, generate_next_token, step, Outcome, finished, failed, out_of_fuel,
  generate_loop,
}

module _ {F G S : Type 0} (ops : FloatOps F) (rng : Sampler F G) (model : Model F S) where
  -- The search that `ComputeLogits` leaves.
  scored : Generator F G S → List F → AnySearch F G
  scored g logits =
      Dispatch.apply_repetition_penalty ops g.params.repetition_penalty
        (Dispatch.apply_min_length ops g.params.min_length (Dispatch.set_logits g.search logits))

  -- A search with the rows and the parameters of another.
  AsLong : AnySearch F G → AnySearch F G → Type 0
  AsLong s t =
      (sequences_of t ≡ sequences_of s) × (params_of t ≡ params_of s) × (is_greedy t ≡ is_greedy s)

  scored-AsLong : (g : Generator F G S) (logits : List F) → AsLong g.search (scored g logits)
  unfolding scored AsLong Dispatch.apply_repetition_penalty Dispatch.apply_min_length
      Dispatch.set_logits
  scored-AsLong g logits =
      let a = change_scores-same (λ _ _ _. logits) g.search in
      let s1 = Dispatch.set_logits g.search logits in
      let b =
        change_scores-same (λ p q x. Scoring.apply_min_length ops p q g.params.min_length x) s1 in
      let s2 = Dispatch.apply_min_length ops g.params.min_length s1 in
      let c =
        change_scores-same
          (λ p q x. Scoring.apply_repetition_penalty ops p q g.params.repetition_penalty x) s2 in
      (c.0 ∙ b.0 ∙ a.0, c.1 ∙ b.1 ∙ a.1, c.2 ∙ b.2 ∙ a.2)

  -- A generator between two tokens, with room for at most `n` more.
  pub record HasRoom (n : ℕ) (g : Generator F G S) : Type 0 where
    pub ready : g.computed_logits ≡ false
    pub enough : max_of g.search ≤ Dispatch.get_sequence_length g.search + n
    pub fits : Dispatch.get_sequence_length g.search ≤ max_of g.search
    pub ended :
        Dispatch.get_sequence_length g.search ≡ max_of g.search → Dispatch.is_done g.search ≡ true
    -- One beam is a greedy search.
    pub one_beam : beq_ℤ g.params.num_beams (pos 1) ≡ true → is_greedy g.search ≡ true

  sample-Closer :
      (p : GeneratorParams F) (s : AnySearch F G)
      → is_greedy s ≡ true
      → Closer s (sample ops rng model p s)
  unfolding sample
  sample-Closer p (greedy s) kind =
      elim (Bool-cases (
        ops.ltf (ops.of_int (pos 0)) p.top_p
        && ops.ltf p.top_p (ops.of_int (pos 1))
        && ltb_ℤ (pos 1) p.top_k)) [
          | inl e ↦
              rw e (sample_top_k_top_p-Closer ops rng (pos_part p.top_k) p.top_p p.temperature s)
          | inr e ↦ rw e (elim (Bool-cases (ltb_ℤ (pos 1) p.top_k)) [
            | inl f ↦ rw f (sample_top_k-Closer ops rng (pos_part p.top_k) p.temperature s)
            | inr f ↦ rw f (sample_top_p-Closer ops rng p.top_p p.temperature s)
          ])
        ]
  sample-Closer p (beam s) kind = cc

  Closer-scored :
      (g : Generator F G S) (logits : List F) (t : AnySearch F G)
      → Closer (scored g logits) t
      → Closer g.search t
  unfolding AsLong Dispatch.get_sequence_length
  Closer-scored g logits t w =
      let (rows, params, kind) = scored-AsLong g logits in ground (arith, w, rows, params, kind)

  -- The run that `ComputeLogits` makes.
  abbrev ran : Generator F G S → Option (List F) × S
  ran g =
      model.run g.state (Dispatch.get_sequence_length g.search) (Dispatch.get_next_tokens g.search)
        (Dispatch.get_next_indices g.search)

  -- Some run of the model throws.
  pub RunThrows : Type 0
  RunThrows =
      (s : S) × (n : ℕ) × (tokens : List ℤ) × (indices : List ℕ) × ((model.run s n tokens indices).0
        ≡ none)

  -- Why a round throws: the sampling parameter is refused, or the model has thrown.
  Because : GeneratorParams F → Error → Type 0
  Because p e = (sampling_refused ops rng model p ≡ some e) ⊎ ((e ≡ run_failed) × RunThrows)

  -- A round brings the generator one token further, or throws.
  Stepped : Generator F G S → Generator F G S × Option Error → Type 0
  Stepped g r =
      ((t : AnySearch F G) × (state : S) × Closer g.search t
        × (r ≡ (record g { search = t; state = state; computed_logits = false }, none)))
      ⊎ ((h : Generator F G S) × (e : Error) × Because g.params e × (r ≡ (h, some e)))

  one_beam_of :
      (p : GeneratorParams F)
      → sampling_refused ops rng model p ≡ none
      → beq_ℤ p.num_beams (pos 1) ≡ true
  unfolding sampling_refused
  one_beam_of p e = ground arith

  -- The second half of a round.
  generate_next_token-Stepped :
      (g : Generator F G S) (scores : List F) (state : S)
      → (beq_ℤ g.params.num_beams (pos 1) ≡ true → is_greedy g.search ≡ true)
      → Stepped g (
          generate_next_token ops rng model
            (record g { search = scored g scores; state = state; computed_logits = true }))
  unfolding Stepped Because AsLong generate_next_token
  generate_next_token-Stepped g scores state one_beam =
      let prepared = scored g scores in
      let (_, _, kind) = scored-AsLong g scores in
      elim (Bool-cases (not g.params.do_sample || beq_ℤ g.params.top_k (pos 1))) [
        | inl e ↦
            rw e
              (inl (_, state, Closer-scored g scores _ (select_top-Closer ops rng prepared), refl))
        | inr e ↦ rw e (elim (Option-cases (sampling_refused ops rng model g.params)) [
          | inl f ↦ rw f (
              inl (
                _,
                state,
                Closer-scored g scores _
                    (sample-Closer g.params prepared (kind ∙ one_beam (one_beam_of g.params f))),
                refl,
              ))
          | inr (thrown, f) ↦ rw f (inr (_, thrown, inl refl, refl))
        ])
      ]

  compute_logits-given :
      (g : Generator F G S) (scores : List F)
      → g.computed_logits ≡ false
      → (ran g).0 ≡ some scores
      → compute_logits ops rng model g
        ≡ (record g { search = scored g scores; state = (ran g).1; computed_logits = true }, none)
  unfolding compute_logits scored
  compute_logits-given g scores ready given = rw (compute_logits, ready, given)

  after_logits : Generator F G S × Option Error → Generator F G S × Option Error
  after_logits r = elim r.1 [
    | some e ↦ (r.0, some e)
    | none ↦ generate_next_token ops rng model r.0
  ]

  step-after_logits :
      (g : Generator F G S) → step ops rng model g ≡ after_logits (compute_logits ops rng model g)
  unfolding step after_logits
  step-after_logits g = refl

  compute_logits-threw :
      (g : Generator F G S)
      → g.computed_logits ≡ false
      → (ran g).0 ≡ none
      → compute_logits ops rng model g ≡ (record g { state = (ran g).1 }, some run_failed)
  unfolding compute_logits
  compute_logits-threw g ready threw =
      rw (compute_logits, ready, threw)
        (ap (λ (b : Bool). (record g { state = (ran g).1; computed_logits = b }, some run_failed))
          ready)

  step-Stepped :
      (g : Generator F G S)
      → g.computed_logits ≡ false
      → (beq_ℤ g.params.num_beams (pos 1) ≡ true → is_greedy g.search ≡ true)
      → Stepped g (step ops rng model g)
  unfolding Stepped Because RunThrows after_logits
  step-Stepped g ready one_beam = elim (Option-cases (ran g).0) [
    | inl threw ↦
        let e = step-after_logits g ∙ ap after_logits (compute_logits-threw g ready threw) in
        inr (_, run_failed, inr (refl, (g.state, _, _, _, threw)), e)
    | inr (scores, given) ↦
        let e = step-after_logits g ∙ ap after_logits (compute_logits-given g scores ready given) in
        subst (λ r. Stepped g r) (sym e) (generate_next_token-Stepped g scores (ran g).1 one_beam)
  ]

  HasRoom-step :
      (n : ℕ) (g : Generator F G S) (t : AnySearch F G) (state : S)
      → HasRoom (suc n) g
      → Dispatch.is_done g.search ≡ false
      → Closer g.search t
      → HasRoom n (record g { search = t; state = state; computed_logits = false })
  HasRoom-step n g t state w e closer =
      let short : Dispatch.get_sequence_length g.search ≢ max_of g.search =
        λ full. cc (w.ended full, e) in
      record {
        ready = refl;
        enough = omega (arith, w.enough, closer.longer, closer.same_max);
        fits = omega (arith, w.fits, short, closer.longer, closer.same_max);
        ended = λ full. closer.ended (full ∙ closer.same_max);
        one_beam = λ one. closer.same_kind ∙ w.one_beam one;
      }

  asked :
      (g : Generator F G S) (done : Bool)
      → g.computed_logits ≡ false
      → Dispatch.is_done g.search ≡ done
      → is_done ops rng model g ≡ inr done
  unfolding is_done
  asked g done ready e = rw ready (ap inr e)

  -- How the loop may end: finished, with full rows at most, with a refused sampling parameter, or
  -- where the model throws.
  pub EndsWell : GeneratorParams F → ℕ → Outcome ops rng model → Type 0
  EndsWell p full (finished g) =
      (Dispatch.is_done g.search ≡ true) × (Dispatch.get_sequence_length g.search ≤ full)
  EndsWell p full (failed g e) =
      (sampling_refused ops rng model p ≡ some e) ⊎ ((e ≡ run_failed) × RunThrows)
  EndsWell p full out_of_fuel = ⊥

  -- Fuel for as many rounds as there are free places in a row is enough: the loop ends with a
  -- finished search whose rows are no longer than the maximal length, or with the sampling
  -- parameter that `GenerateNextToken` refuses, or where a run of the model throws; the calls are
  -- never out of order.
  pub generate_loop-EndsWell :
      (n : ℕ) (g : Generator F G S)
      → HasRoom n g
      → EndsWell g.params (max_of g.search) (generate_loop ops rng model n g)
  unfolding EndsWell Because Stepped generate_loop
  generate_loop-EndsWell zero g w =
      let full : Dispatch.is_done g.search ≡ true = w.ended (omega (arith, w.enough, w.fits)) in
      rw (generate_loop, asked g true w.ready full) (full, w.fits)
  generate_loop-EndsWell (suc n) g w = elim (Bool-cases (Dispatch.is_done g.search)) [
    | inl e ↦ rw (generate_loop, asked g true w.ready e) (e, w.fits)
    | inr e ↦
        rw (generate_loop, asked g false w.ready e)
          (elim (step-Stepped g w.ready w.one_beam) [
            | inl (t, state, closer, same) ↦
                let h : Generator F G S = record g {
                  search = t;
                  state = state;
                  computed_logits = false;
                } in
                rw (same, ap (λ (r : Generator F G S × Option Error). r.0) same)
                  (rw closer.same_max at
                    (generate_loop-EndsWell n h (HasRoom-step n g t state w e closer)))
            | inr (h, thrown, because, same) ↦ rw same because
          ])
  ]
