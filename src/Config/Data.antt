-- ===== src/Config/Data.antt =====
-- The structs of `Config` in src/config.h, with the values that their members start with.
use Prim.Native.String.{String}
use onnxruntime_genai_privat.Base.{Bool, true, false, Option, none, List, []}
use onnxruntime_genai_privat.Base.Int.{ℤ, pos, negsuc}

pub record ProviderOptions : Type 0 where
  pub name : String
  pub options : List (String × String)

pub record SessionOptions : Type 0 where
  pub intra_op_num_threads : Option ℤ
  pub inter_op_num_threads : Option ℤ
  pub enable_cpu_mem_arena : Option Bool
  pub enable_mem_pattern : Option Bool
  pub log_id : Option String
  pub log_severity_level : Option ℤ
  pub enable_profiling : Option String
  pub provider_options : List ProviderOptions

abbrev pub session_options : SessionOptions
session_options = record {
  intra_op_num_threads = none;
  inter_op_num_threads = none;
  enable_cpu_mem_arena = none;
  enable_mem_pattern = none;
  log_id = none;
  log_severity_level = none;
  enable_profiling = none;
  provider_options = [];
}

pub record EmbeddingInputs : Type 0 where
  pub input_ids : String

abbrev pub embedding_inputs : EmbeddingInputs
embedding_inputs = record { input_ids = "input_ids" }

pub record EmbeddingOutputs : Type 0 where
  pub embeddings : String

abbrev pub embedding_outputs : EmbeddingOutputs
embedding_outputs = record { embeddings = "inputs_embeds" }

pub record Embedding : Type 0 where
  pub filename : String
  pub inputs : EmbeddingInputs
  pub outputs : EmbeddingOutputs

abbrev pub embedding : Embedding
embedding = record { filename = ""; inputs = embedding_inputs; outputs = embedding_outputs }

pub record VisionInputs : Type 0 where
  pub pixel_values : String
  pub image_sizes : String

abbrev pub vision_inputs : VisionInputs
vision_inputs = record { pixel_values = "pixel_values"; image_sizes = "image_sizes" }

pub record VisionOutputs : Type 0 where
  pub visual_features : String

abbrev pub vision_outputs : VisionOutputs
vision_outputs = record { visual_features = "visual_features" }

pub record Vision : Type 0 where
  pub filename : String
  pub inputs : VisionInputs
  pub outputs : VisionOutputs

abbrev pub vision : Vision
vision = record { filename = ""; inputs = vision_inputs; outputs = vision_outputs }

pub record Inputs : Type 0 where
  pub input_ids : String
  pub embeddings : String
  pub position_ids : String
  pub attention_mask : String
  pub seqlens_k : String
  pub total_sequence_length : String
  pub past_key_names : String
  pub past_value_names : String
  pub past_names : String
  pub cross_past_key_names : String
  pub cross_past_value_names : String

abbrev pub inputs : Inputs
inputs = record {
  input_ids = "input_ids";
  embeddings = "inputs_embeds";
  position_ids = "position_ids";
  attention_mask = "attention_mask";
  seqlens_k = "seqlens_k";
  total_sequence_length = "total_seq_len";
  past_key_names = "past_key_values.%d.key";
  past_value_names = "past_key_values.%d.value";
  past_names = "";
  cross_past_key_names = "";
  cross_past_value_names = "";
}

pub record Outputs : Type 0 where
  pub logits : String
  pub present_key_names : String
  pub present_value_names : String
  pub present_names : String
  pub cross_present_key_names : String
  pub cross_present_value_names : String

abbrev pub outputs : Outputs
outputs = record {
  logits = "logits";
  present_key_names = "present.%d.key";
  present_value_names = "present.%d.value";
  present_names = "";
  cross_present_key_names = "";
  cross_present_value_names = "";
}

pub record Decoder : Type 0 where
  pub filename : String
  pub session_options : SessionOptions
  pub hidden_size : ℤ
  pub num_attention_heads : ℤ
  pub num_key_value_heads : ℤ
  pub num_hidden_layers : ℤ
  pub head_size : ℤ
  pub inputs : Inputs
  pub outputs : Outputs

abbrev pub decoder : Decoder
decoder = record {
  filename = "";
  session_options = session_options;
  hidden_size = pos 0;
  num_attention_heads = pos 0;
  num_key_value_heads = pos 0;
  num_hidden_layers = pos 0;
  head_size = pos 0;
  inputs = inputs;
  outputs = outputs;
}

-- `encoder_decoder_init` is the `filename` that is its only member.
pub record Model : Type 0 where
  pub type : String
  pub pad_token_id : ℤ
  pub eos_token_id : ℤ
  pub eos_token_ids : List ℤ
  pub bos_token_id : ℤ
  pub sep_token_id : ℤ
  pub decoder_start_token_id : ℤ
  pub vocab_size : ℤ
  pub context_length : ℤ
  pub encoder_decoder_init : String
  pub embedding : Embedding
  pub vision : Vision
  pub decoder : Decoder

abbrev pub model : Model
model = record {
  type = "";
  pad_token_id = pos 0;
  eos_token_id = pos 0;
  eos_token_ids = [];
  bos_token_id = pos 0;
  sep_token_id = pos 0;
  decoder_start_token_id = pos 0;
  vocab_size = pos 0;
  context_length = pos 0;
  encoder_decoder_init = "";
  embedding = embedding;
  vision = vision;
  decoder = decoder;
}

pub record Search {ℓ} (F : Type ℓ) : Type ℓ where
  pub do_sample : Bool
  pub min_length : ℤ
  pub max_length : ℤ
  pub num_beams : ℤ
  pub num_return_sequences : ℤ
  pub repetition_penalty : F
  pub top_k : ℤ
  pub top_p : F
  pub temperature : F
  pub early_stopping : Bool
  pub no_repeat_ngram_size : ℤ
  pub diversity_penalty : F
  pub length_penalty : F
  pub past_present_share_buffer : Bool
  pub random_seed : ℤ

-- The floats are made from whole numbers by `of_int`.
abbrev pub search {ℓ} : {F : Type ℓ} → (ℤ → F) → Search F
search of_int = record {
  do_sample = false;
  min_length = pos 0;
  max_length = pos 0;
  num_beams = pos 1;
  num_return_sequences = pos 1;
  repetition_penalty = of_int (pos 1);
  top_k = pos 0;
  top_p = of_int (pos 0);
  temperature = of_int (pos 1);
  early_stopping = true;
  no_repeat_ngram_size = pos 0;
  diversity_penalty = of_int (pos 0);
  length_penalty = of_int (pos 1);
  past_present_share_buffer = false;
  random_seed = negsuc 0;
}

-- `Config`; the directory it was read from is left out. The map of names is an association list.
pub record Config {ℓ} (F : Type ℓ) : Type ℓ where
  pub model : Model
  pub search : Search F
  pub nominal_names_to_graph_names : List (String × String)
