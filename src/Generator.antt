-- ===== src/Generator.antt =====
-- `Generator`, `CreateSearch` and `Generate` of src/generators.cpp, over the searches of the CPU. The
-- model that a generator runs is a parameter; what the log writes is left out.
pub mod Dispatch
pub mod Termination
pub mod Created
use onnxruntime_genai_privat.Base.{
  ℕ, zero, suc, ◌+◌, ◌*◌, Bool, true, false, not, ◌&&◌, ◌||◌, Option, none, some, List, [], ◌∷◌,
  if◌then◌else◌, ◌⊎◌, inl, inr,
}
use onnxruntime_genai_privat.Base.Int.{ℤ, pos, pos_part, beq_ℤ, ltb_ℤ}
use onnxruntime_genai_privat.Base.Float.{FloatOps}
use onnxruntime_genai_privat.Search.{Params, Sampler}
use onnxruntime_genai_privat.Generator.Dispatch
use onnxruntime_genai_privat.Generator.Dispatch.{AnySearch}

-- `GeneratorParams` with its `Config::Search`, as far as the generator reads them.
pub record GeneratorParams {ℓ} (F : Type ℓ) : Type ℓ where
  pub batch_size : ℤ
  pub vocab_size : ℤ
  pub sequence_length : ℤ
  pub input_ids : List ℤ
  pub pad_token_id : ℤ
  pub eos_token_id : ℤ
  pub do_sample : Bool
  pub min_length : ℤ
  pub max_length : ℤ
  pub num_beams : ℤ
  pub early_stopping : Bool
  pub length_penalty : F
  pub repetition_penalty : F
  pub temperature : F
  pub top_k : ℤ
  pub top_p : F

-- The exceptions that the generator throws, in the order of the code; `run_failed` is one of
-- `State::Run`.
pub data Error : Type 0 where
  max_length_zero : Error
  max_length_over_context : Error
  batch_size_too_small : Error
  vocab_size_too_small : Error
  sequence_too_long : Error
  logits_computed_twice : Error
  run_failed : Error
  asked_in_the_middle : Error
  logits_not_computed : Error
  sampling_with_beams : Error
  top_p_out_of_range : Error
  top_k_negative : Error

-- What the generator uses of a model: its context length, `CreateState`, and `State::Run`, which
-- takes the length of the sequences, the next tokens and the next indices; it gives no scores where
-- it throws.
pub record Model {ℓ} (F S : Type ℓ) : Type ℓ where
  pub context_length : ℤ
  pub create_state : GeneratorParams F → S
  pub run : S → ℕ → List ℤ → List ℕ → Option (List F) × S

pub record Generator {ℓ} (F G S : Type ℓ) : Type ℓ where
  pub params : GeneratorParams F
  pub search : AnySearch F G
  pub state : S
  pub computed_logits : Bool

module _ {ℓ} {F G S : Type ℓ} (ops : FloatOps F) (rng : Sampler F G) (model : Model F S) where
  -- The sizes, once they are checked. A negative number of beams is not modelled.
  unfoldable pub search_params : GeneratorParams F → Params F
  search_params p = record {
    input_ids = p.input_ids;
    batch_size = pos_part p.batch_size;
    num_beams = pos_part p.num_beams;
    max_length = pos_part p.max_length;
    vocab_size = pos_part p.vocab_size;
    pad_token_id = p.pad_token_id;
    eos_token_id = p.eos_token_id;
    length_penalty = p.length_penalty;
    early_stopping = p.early_stopping;
  }

  -- The checks of the constructor.
  unfoldable pub refused : GeneratorParams F → Option Error
  refused p =
      if beq_ℤ p.max_length (pos 0)
      then some max_length_zero
      else if ltb_ℤ model.context_length p.max_length
      then some max_length_over_context
      else if ltb_ℤ p.batch_size (pos 1)
      then some batch_size_too_small
      else if ltb_ℤ p.vocab_size (pos 1)
      then some vocab_size_too_small
      else if not (ltb_ℤ p.sequence_length p.max_length)
      then some sequence_too_long
      else none

  -- The members after the checks; `gen` is the seeded engine.
  unfoldable pub build : GeneratorParams F → G → Generator F G S
  unfolding search_params Dispatch.create_search
  build p gen = record {
    params = p;
    search = Dispatch.create_search ops (search_params p) (pos_part p.sequence_length) gen;
    state = model.create_state p;
    computed_logits = false;
  }

  -- The constructor.
  unfoldable pub create : GeneratorParams F → G → Error ⊎ Generator F G S
  unfolding refused build
  create p gen = elim (refused p) [ some e ↦ inl e | none ↦ inr (build p gen) ]

  -- `ComputeLogits`.
  unfoldable pub compute_logits : Generator F G S → Generator F G S × Option Error
  compute_logits g =
      let (logits, state) =
        model.run g.state (Dispatch.get_sequence_length g.search)
          (Dispatch.get_next_tokens g.search) (Dispatch.get_next_indices g.search) in
      if g.computed_logits then (g, some logits_computed_twice) else elim logits [
        | none ↦ (record g { state = state }, some run_failed)
        | some scores ↦ (
          record g {
            search = Dispatch.apply_repetition_penalty ops g.params.repetition_penalty (
                Dispatch.apply_min_length ops g.params.min_length
                  (Dispatch.set_logits g.search scores));
            state = state;
            computed_logits = true;
          },
          none,
        )
      ]

  -- `IsDone`.
  unfoldable pub is_done : Generator F G S → Error ⊎ Bool
  is_done g = if g.computed_logits then inl asked_in_the_middle else inr (Dispatch.is_done g.search)

  -- The last branches of `GenerateNextToken`: which sampling is called.
  unfoldable pub sample : GeneratorParams F → AnySearch F G → AnySearch F G
  sample p s =
      if ops.ltf (ops.of_int (pos 0)) p.top_p
        && ops.ltf p.top_p (ops.of_int (pos 1))
        && ltb_ℤ (pos 1) p.top_k
      then Dispatch.sample_top_k_top_p ops rng (pos_part p.top_k) p.top_p p.temperature s
      else if ltb_ℤ (pos 1) p.top_k
      then Dispatch.sample_top_k ops rng (pos_part p.top_k) p.temperature s
      else Dispatch.sample_top_p ops rng p.top_p p.temperature s

  -- What `GenerateNextToken` refuses to sample with.
  unfoldable pub sampling_refused : GeneratorParams F → Option Error
  sampling_refused p =
      if not (beq_ℤ p.num_beams (pos 1))
      then some sampling_with_beams
      else if ops.ltf p.top_p (ops.of_int (pos 0)) || ops.ltf (ops.of_int (pos 1)) p.top_p
      then some top_p_out_of_range
      else if ltb_ℤ p.top_k (pos 0)
      then some top_k_negative
      else none

  -- `GenerateNextToken`. Where it throws for a sampling parameter, the flag is reset already.
  unfoldable pub generate_next_token : Generator F G S → Generator F G S × Option Error
  unfolding sample sampling_refused
  generate_next_token g =
      let h = record g { computed_logits = false } in
      if not g.computed_logits
      then (g, some logits_not_computed)
      else if not g.params.do_sample || beq_ℤ g.params.top_k (pos 1)
      then (record h { search = Dispatch.select_top ops rng g.search }, none)
      else elim (sampling_refused g.params) [
        | some e ↦ (h, some e)
        | none ↦ (record h { search = sample g.params g.search }, none)
      ]

  -- `GetSequence`.
  unfoldable pub get_sequence : Generator F G S → ℕ → List ℤ
  get_sequence g index = Dispatch.get_sequence g.search index

  -- How the loop of `Generate` ends.
  pub data Outcome : Type ℓ where
    finished : Generator F G S → Outcome
    failed : Generator F G S → Error → Outcome
    out_of_fuel : Outcome

  -- The body of the loop: `ComputeLogits`, then `GenerateNextToken`.
  unfoldable pub step : Generator F G S → Generator F G S × Option Error
  unfolding compute_logits generate_next_token
  step g =
      let (h, thrown) = compute_logits g in
      elim thrown [ some e ↦ (h, some e) | none ↦ generate_next_token h ]

  -- The loop of `Generate`, on fuel.
  unfoldable pub generate_loop : ℕ → Generator F G S → Outcome
  unfolding is_done step
  generate_loop zero g = elim (is_done g) [
    | inl e ↦ failed g e
    | inr done ↦ if done then finished g else out_of_fuel
  ]
  generate_loop (suc fuel) g =
      let (h, thrown) = step g in
      let rest = generate_loop fuel h in
      elim (is_done g) [
        | inl e ↦ failed g e
        | inr done ↦ if done then finished g else elim thrown [ some e ↦ failed h e | none ↦ rest ]
      ]

  -- The sequences that `Generate` returns.
  unfoldable pub results : Generator F G S → ℕ → ℕ → List (List ℤ)
  unfolding get_sequence
  results g i zero = []
  results g i (suc n) = get_sequence g i ∷ results g (i + 1) n
