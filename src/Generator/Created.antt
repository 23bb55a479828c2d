-- ===== src/Generator/Created.antt =====
-- What the constructor of `Generator` (src/generators.cpp) makes sure of.
use onnxruntime_genai_privat.Base.{
  ℕ, ◌/◌, ◌<◌, ◌≡◌, refl, true, false, not, none, length, arith, ltb, Bool-cases, inl, inr,
}
use onnxruntime_genai_privat.Base.Int.{pos, pos_part, ltb_ℤ}
use onnxruntime_genai_privat.Base.Float.{FloatOps}
use onnxruntime_genai_privat.Sequences
use onnxruntime_genai_privat.Search
use onnxruntime_genai_privat.Search.{Sampler}
use onnxruntime_genai_privat.Beam
use onnxruntime_genai_privat.Generator.Dispatch
use onnxruntime_genai_privat.Generator.Dispatch.Progress.{max_of, is_greedy}
use onnxruntime_genai_privat.Generator.Termination.{HasRoom, EndsWell, generate_loop-EndsWell}
use onnxruntime_genai_privat.Generator.{
  GeneratorParams, Model, Generator, search_params, refused, build, create, generate_loop,
}

module _ {F G S : Type 0} (ops : FloatOps F) (rng : Sampler F G) (model : Model F S) where
  -- The facts that the checks establish.
  refused-none :
      (p : GeneratorParams F)
      → refused ops rng model p ≡ none
      → (ltb_ℤ p.sequence_length p.max_length ≡ true) × (ltb_ℤ p.batch_size (pos 1) ≡ false)
  unfolding refused
  refused-none p e = ground arith

  -- The search has the prompts' length and the maximal length, and is greedy for one beam.
  create_search-sizes :
      (p : GeneratorParams F) (gen : G)
      → let s =
          Dispatch.create_search ops
            (search_params ops rng model p)
            (pos_part p.sequence_length)
            gen in
        (Dispatch.get_sequence_length s ≡ length p.input_ids / pos_part p.batch_size)
        × (max_of s ≡ pos_part p.max_length)
        × (is_greedy s ≡ not (ltb 1 (pos_part p.num_beams)))
  unfolding Dispatch.create_search search_params Dispatch.get_sequence_length
      Sequences.get_sequence_length Sequences.init Search.init Beam.Search.init
  create_search-sizes p gen = elim (Bool-cases (ltb 1 (pos_part p.num_beams))) [
    | inl e ↦ rw e (refl, refl, refl)
    | inr e ↦ rw e (refl, refl, refl)
  ]

  create-passed :
      (p : GeneratorParams F) (gen : G)
      → refused ops rng model p ≡ none
      → create ops rng model p gen ≡ inr (build ops rng model p gen)
  unfolding create
  create-passed p gen passed = rw (create, passed) refl

  -- If the checks pass and the prompts have the length that `sequence_length` says, the constructor
  -- makes a generator for which `max_length` rounds are enough, and whose prompts are shorter than the
  -- maximal length.
  create-HasRoom :
      (p : GeneratorParams F) (gen : G) (n : ℕ)
      → p.sequence_length ≡ pos n
      → length p.input_ids / pos_part p.batch_size ≡ n
      → refused ops rng model p ≡ none
      → (g : Generator F G S) × (create ops rng model p gen ≡ inr g)
        × HasRoom ops rng model (pos_part p.max_length) g
        × (g.params ≡ p)
        × (Dispatch.get_sequence_length g.search < max_of g.search)
  unfolding build
  create-HasRoom p gen n same fill passed =
      let (length', max', kind) = create_search-sizes p gen in
      let (short, _) = refused-none p passed in
      let room : n < pos_part p.max_length = ground (arith, short, same) in
      (
        build ops rng model p gen,
        create-passed p gen passed,
        record {
          ready = refl;
          enough = omega (arith, length', max');
          fits = omega (arith, length', max', fill, room);
          ended = λ full. absurd (omega (arith, length', max', fill, room, full));
          one_beam = λ one. ground (arith, kind, one);
        },
        refl,
        omega (arith, length', max', fill, room),
      )

  -- If the checks pass and the prompts have the length that `sequence_length` says, the constructor
  -- makes a generator for which the loop of `Generate`, given `max_length` rounds, ends: with a
  -- finished search whose rows are no longer than the maximal length, with the sampling parameter
  -- that `GenerateNextToken` refuses, or where a run of the model throws.
  pub generate-EndsWell :
      (p : GeneratorParams F) (gen : G) (n : ℕ)
      → p.sequence_length ≡ pos n
      → length p.input_ids / pos_part p.batch_size ≡ n
      → refused ops rng model p ≡ none
      → (g : Generator F G S) × (create ops rng model p gen ≡ inr g)
        × EndsWell ops rng model p
            (max_of g.search)
            (generate_loop ops rng model (pos_part p.max_length) g)
  generate-EndsWell p gen n same fill passed =
      let (g, made, room, params, _) = create-HasRoom p gen n same fill passed in
      (g, made, rw params at (generate_loop-EndsWell ops rng model (pos_part p.max_length) g room))
