-- ===== src/Config/Search.antt =====
-- `Search_Element` of src/config.cpp, with `SetSearchNumber` and `SetSearchBool`, which call it.
use Prim.Native.String.{String}
use text.Mathlib.Text.{◌==◌}
use onnxruntime_genai_privat.Base.{Bool, Option, none, some, if◌then◌else◌}
use onnxruntime_genai_privat.Base.Int.{ℤ}
use onnxruntime_genai_privat.Config.Data.{Search}

module _ {ℓ} {F : Type ℓ} where
  -- `OnBool`, and `SetSearchBool`.
  unfoldable pub search_on_bool : String → Bool → Search F → Option (Search F)
  search_on_bool name value v =
      if name == "do_sample"
      then some (record v { do_sample = value })
      else if name == "past_present_share_buffer"
      then some (record v { past_present_share_buffer = value })
      else if name == "early_stopping"
      then some (record v { early_stopping = value })
      else none

module _ {ℓ} {F : Type ℓ} {D : Type 0} (to_int : D → ℤ) (to_float : D → F) where
  -- `OnNumber`, and `SetSearchNumber`. (The source tests for "length_penalty" twice.)
  unfoldable pub search_on_number : String → D → Search F → Option (Search F)
  search_on_number name value v =
      if name == "min_length"
      then some (record v { min_length = to_int value })
      else if name == "max_length"
      then some (record v { max_length = to_int value })
      else if name == "num_beams"
      then some (record v { num_beams = to_int value })
      else if name == "num_return_sequences"
      then some (record v { num_return_sequences = to_int value })
      else if name == "top_k"
      then some (record v { top_k = to_int value })
      else if name == "top_p"
      then some (record v { top_p = to_float value })
      else if name == "temperature"
      then some (record v { temperature = to_float value })
      else if name == "repetition_penalty"
      then some (record v { repetition_penalty = to_float value })
      else if name == "length_penalty"
      then some (record v { length_penalty = to_float value })
      else if name == "no_repeat_ngram_size"
      then some (record v { no_repeat_ngram_size = to_int value })
      else if name == "diversity_penalty"
      then some (record v { diversity_penalty = to_float value })
      else if name == "length_penalty"
      then some (record v { length_penalty = to_float value })
      else if name == "random_seed"
      then some (record v { random_seed = to_int value })
      else none
