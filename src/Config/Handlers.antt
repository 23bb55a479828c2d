-- ===== src/Config/Handlers.antt =====
-- The handlers of src/config.cpp, one for each `Element` class, on the struct that the element fills:
-- `none` stands for the `unknown_value_error` that the class throws. What a number is, and its two
-- casts, are a parameter.
use Prim.Native.String.{String}
use text.Mathlib.Text.{◌==◌}
use onnxruntime_genai_privat.Base.{Bool, Option, none, some, List, [], ◌∷◌, ◌++◌, if◌then◌else◌}
use onnxruntime_genai_privat.Base.Int.{ℤ}
use onnxruntime_genai_privat.Config.Data.{
  SessionOptions, EmbeddingInputs, EmbeddingOutputs, Embedding, VisionInputs, VisionOutputs, Vision,
  Inputs, Outputs, Decoder, Model,
}

-- `SessionOptions_Element::OnString`.
unfoldable pub session_options_on_string : String → String → SessionOptions → Option SessionOptions
session_options_on_string name value v =
    if name == "log_id"
    then some (record v { log_id = some value })
    else if name == "enable_profiling"
    then some (record v { enable_profiling = some value })
    else none

-- `SessionOptions_Element::OnBool`.
unfoldable pub session_options_on_bool : String → Bool → SessionOptions → Option SessionOptions
session_options_on_bool name value v =
    if name == "enable_cpu_mem_arena"
    then some (record v { enable_cpu_mem_arena = some value })
    else if name == "enable_mem_pattern"
    then some (record v { enable_mem_pattern = some value })
    else none

-- `EncoderDecoderInit_Element::OnString`.
unfoldable pub encoder_decoder_init_on_string : String → String → Model → Option Model
encoder_decoder_init_on_string name value v =
    if name == "filename" then some (record v { encoder_decoder_init = value }) else none

-- `Inputs_Element::OnString`.
unfoldable pub inputs_on_string : String → String → Inputs → Option Inputs
inputs_on_string name value v =
    if name == "input_ids"
    then some (record v { input_ids = value })
    else if name == "inputs_embeds"
    then some (record v { embeddings = value })
    else if name == "position_ids"
    then some (record v { position_ids = value })
    else if name == "attention_mask"
    then some (record v { attention_mask = value })
    else if name == "seqlens_k"
    then some (record v { seqlens_k = value })
    else if name == "total_seq_len"
    then some (record v { total_sequence_length = value })
    else if name == "past_key_names"
    then some (record v { past_key_names = value })
    else if name == "past_value_names"
    then some (record v { past_value_names = value })
    else if name == "past_names"
    then some (record v { past_names = value })
    else if name == "cross_past_key_names"
    then some (record v { cross_past_key_names = value })
    else if name == "cross_past_value_names"
    then some (record v { cross_past_value_names = value })
    else none

-- `Outputs_Element::OnString`.
unfoldable pub outputs_on_string : String → String → Outputs → Option Outputs
outputs_on_string name value v =
    if name == "logits"
    then some (record v { logits = value })
    else if name == "present_key_names"
    then some (record v { present_key_names = value })
    else if name == "present_value_names"
    then some (record v { present_value_names = value })
    else if name == "present_names"
    then some (record v { present_names = value })
    else if name == "cross_present_key_names"
    then some (record v { cross_present_key_names = value })
    else if name == "cross_present_value_names"
    then some (record v { cross_present_value_names = value })
    else none

-- `Decoder_Element::OnString`.
unfoldable pub decoder_on_string : String → String → Decoder → Option Decoder
decoder_on_string name value v =
    if name == "filename" then some (record v { filename = value }) else none

-- `VisionInputs_Element::OnString`.
unfoldable pub vision_inputs_on_string : String → String → VisionInputs → Option VisionInputs
vision_inputs_on_string name value v =
    if name == "pixel_values"
    then some (record v { pixel_values = value })
    else if name == "image_sizes"
    then some (record v { image_sizes = value })
    else none

-- `VisionOutputs_Element::OnString`.
unfoldable pub vision_outputs_on_string : String → String → VisionOutputs → Option VisionOutputs
vision_outputs_on_string name value v =
    if name == "visual_features" then some (record v { visual_features = value }) else none

-- `Vision_Element::OnString`.
unfoldable pub vision_on_string : String → String → Vision → Option Vision
vision_on_string name value v =
    if name == "filename" then some (record v { filename = value }) else none

-- `EmbeddingInputs_Element::OnString`.
unfoldable pub embedding_inputs_on_string :
    String → String → EmbeddingInputs → Option EmbeddingInputs
embedding_inputs_on_string name value v =
    if name == "input_ids" then some (record v { input_ids = value }) else none

-- `EmbeddingOutputs_Element::OnString`.
unfoldable pub embedding_outputs_on_string :
    String → String → EmbeddingOutputs → Option EmbeddingOutputs
embedding_outputs_on_string name value v =
    if name == "inputs_embeds" then some (record v { embeddings = value }) else none

-- `Embedding_Element::OnString`.
unfoldable pub embedding_on_string : String → String → Embedding → Option Embedding
embedding_on_string name value v =
    if name == "filename" then some (record v { filename = value }) else none

-- `Model_Element::OnString`.
unfoldable pub model_on_string : String → String → Model → Option Model
model_on_string name value v = if name == "type" then some (record v { type = value }) else none

-- `Eos_Array_Element`: the ids are collected, and at the end the first becomes the primary one.
unfoldable pub eos_array_on_number : ℤ → Model → Model
eos_array_on_number value v = record v { eos_token_ids = v.eos_token_ids ++ value ∷ [] }

-- What is done with the ids at the end of the array.
unfoldable pub eos_array_settle : List ℤ → Model → Model
eos_array_settle [] v = v
eos_array_settle (x ∷ []) v = record v { eos_token_id = x; eos_token_ids = [] }
eos_array_settle (x ∷ y ∷ xs) v = record v { eos_token_id = x }

unfoldable pub eos_array_on_complete : Model → Model
unfolding eos_array_settle
eos_array_on_complete v = eos_array_settle v.eos_token_ids v

module _ {D : Type 0} (to_int : D → ℤ) where
  -- `SessionOptions_Element::OnNumber`.
  unfoldable pub session_options_on_number : String → D → SessionOptions → Option SessionOptions
  session_options_on_number name value v =
      if name == "intra_op_num_threads"
      then some (record v { intra_op_num_threads = some (to_int value) })
      else if name == "inter_op_num_threads"
      then some (record v { inter_op_num_threads = some (to_int value) })
      else if name == "log_severity_level"
      then some (record v { log_severity_level = some (to_int value) })
      else none

  -- `Decoder_Element::OnNumber`.
  unfoldable pub decoder_on_number : String → D → Decoder → Option Decoder
  decoder_on_number name value v =
      if name == "hidden_size"
      then some (record v { hidden_size = to_int value })
      else if name == "num_attention_heads"
      then some (record v { num_attention_heads = to_int value })
      else if name == "num_key_value_heads"
      then some (record v { num_key_value_heads = to_int value })
      else if name == "num_hidden_layers"
      then some (record v { num_hidden_layers = to_int value })
      else if name == "head_size"
      then some (record v { head_size = to_int value })
      else none

  -- `Model_Element::OnNumber`.
  unfoldable pub model_on_number : String → D → Model → Option Model
  model_on_number name value v =
      if name == "vocab_size"
      then some (record v { vocab_size = to_int value })
      else if name == "context_length"
      then some (record v { context_length = to_int value })
      else if name == "pad_token_id"
      then some (record v { pad_token_id = to_int value })
      else if name == "eos_token_id"
      then some (record v { eos_token_id = to_int value })
      else if name == "bos_token_id"
      then some (record v { bos_token_id = to_int value })
      else if name == "decoder_start_token_id"
      then some (record v { decoder_start_token_id = to_int value })
      else if name == "sep_token_id"
      then some (record v { sep_token_id = to_int value })
      else none
