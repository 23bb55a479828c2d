-- ===== src/Tests/Generation.antt =====
-- A generator for two prompts of one token, over a model that always yields the same scores.
use onnxruntime_genai_privat.Base.{ℕ, ◌+◌, ◌≡◌, inr, refl, true, false, none, some, [], ◌∷◌, arith}
use onnxruntime_genai_privat.Base.Int.{pos}
use onnxruntime_genai_privat.Sequences
use onnxruntime_genai_privat.Generator.Dispatch
use onnxruntime_genai_privat.Generator.Dispatch.{greedy}
use onnxruntime_genai_privat.Generator.Dispatch.Progress.{max_of}
use onnxruntime_genai_privat.Generator.{
  GeneratorParams, Model, Generator, refused, create, generate_loop,
}
use onnxruntime_genai_privat.Generator.Termination.{HasRoom, EndsWell, generate_loop-EndsWell}
use onnxruntime_genai_privat.Generator.Created.{generate-EndsWell}
use onnxruntime_genai_privat.Tests.Values.{number_ops, first_draw, scores, greedy_two}

-- The model counts its runs.
abbrev counting : Model ℕ ℕ
counting = record {
  context_length = pos 8;
  create_state = λ p. 0;
  run = λ state length tokens indices. (some scores, state + 1);
}

abbrev wanted : GeneratorParams ℕ
wanted = record {
  batch_size = pos 2;
  vocab_size = pos 3;
  sequence_length = pos 1;
  input_ids = pos 1 ∷ pos 1 ∷ [];
  pad_token_id = pos 0;
  eos_token_id = pos 2;
  do_sample = true;
  min_length = pos 0;
  max_length = pos 4;
  num_beams = pos 1;
  early_stopping = true;
  length_penalty = 1;
  repetition_penalty = 1;
  temperature = 1;
  top_k = pos 2;
  top_p = 1;
}

wanted_accepted : refused number_ops first_draw counting wanted ≡ none
unfolding refused
wanted_accepted = refl

abbrev waiting : Generator ℕ ℕ ℕ
waiting = record { params = wanted; search = greedy greedy_two; state = 0; computed_logits = false }

waiting-HasRoom : HasRoom number_ops first_draw counting 3 waiting
unfolding Dispatch.get_sequence_length Sequences.get_sequence_length
waiting-HasRoom = record {
  ready = refl;
  enough = omega arith;
  fits = omega arith;
  ended = λ e. absurd (omega (arith, e));
  one_beam = λ one. refl;
}

generate_loop-EndsWell_example :
    EndsWell number_ops first_draw counting wanted 4
      (generate_loop number_ops first_draw counting 3 waiting)
generate_loop-EndsWell_example =
    generate_loop-EndsWell number_ops first_draw counting 3 waiting waiting-HasRoom

generate-EndsWell_example :
    (g : Generator ℕ ℕ ℕ) × (create number_ops first_draw counting wanted 0 ≡ inr g)
    × EndsWell number_ops first_draw counting wanted
        (max_of g.search)
        (generate_loop number_ops first_draw counting 4 g)
generate-EndsWell_example =
    generate-EndsWell number_ops first_draw counting wanted 0 1 refl refl wanted_accepted
