-- ===== src/Models/Cache.antt =====
-- src/models/kv_cache.cpp: the key and value tensors that a run of the model takes from the one before
-- it. A tensor is its cells. The names, the element types and the buffers of captured graphs are left
-- out, and `create` stands for the cells of a new tensor of a size.
pub mod Reordered
use onnxruntime_genai_privat.Base.{
  ℕ, ◌+◌, ◌*◌, Bool, true, false, ◌&&◌, ◌==◌, List, [], ◌∷◌, ◌++◌, map, length, replicate, get_or,
  write_at, if◌then◌else◌, for_range,
}
use onnxruntime_genai_privat.Models.Blocks.{copy_block}

-- The tensors that the model reads and writes, in `State`.
pub record Bindings {ℓ} (A : Type ℓ) : Type ℓ where
  pub inputs : List (List A)
  pub outputs : List (List A)

-- `past_length` is the third dimension; `tensors` is twice the number of layers.
pub record KvCache {ℓ} (A : Type ℓ) : Type ℓ where
  pub past_present_share_buffer : Bool
  pub tensors : ℕ
  pub batch_beam_size : ℕ
  pub num_heads : ℕ
  pub past_length : ℕ
  pub head_size : ℕ
  pub pasts : List (List A)
  pub presents : List (List A)
  pub input_index : ℕ
  pub output_index : ℕ

abbrev pub is_empty : List ℕ → Bool
is_empty [] = true
is_empty (index ∷ rest) = false

module _ {ℓ} {A : Type ℓ} (create : ℕ → List A) where
  abbrev pub block_size : KvCache A → ℕ
  block_size cache = cache.num_heads * cache.past_length * cache.head_size

  abbrev pub element_count : KvCache A → ℕ
  element_count cache = cache.batch_beam_size * block_size cache

  -- The search options say whether buffers are shared; a beam search never shares them.
  pub init : Bool → ℕ → ℕ → ℕ → ℕ → ℕ → ℕ → ℕ → KvCache A
  init share num_beams tensors batch_beam_size num_heads head_size sequence_length max_length =
      let shared = share && (num_beams == 1) in
      let length = if shared then max_length else sequence_length in
      record {
        past_present_share_buffer = shared;
        tensors = tensors;
        batch_beam_size = batch_beam_size;
        num_heads = num_heads;
        past_length = length;
        head_size = head_size;
        pasts = replicate tensors [];
        presents = replicate tensors (create (batch_beam_size * (num_heads * length * head_size)));
        input_index = 0;
        output_index = 0;
      }

  -- The empty past has no cells.
  pub add : KvCache A → Bindings A → KvCache A × Bindings A
  add cache state = (
    record cache { input_index = length state.inputs; output_index = length state.outputs },
    record {
      inputs =
          state.inputs
          ++ (if cache.past_present_share_buffer
              then cache.presents
              else replicate cache.tensors (create 0));
      outputs = state.outputs ++ cache.presents;
    },
  )

  pub pick_past_state : KvCache A → List ℕ → List A → List A
  pick_past_state cache beam_indices present =
      for_range (length beam_indices) 0
        (λ j past. copy_block (block_size cache) present (get_or beam_indices j 0) j past)
        (create (element_count cache))

  -- A cache with its next tensors: the pasts are bound as inputs, new presents as outputs.
  pub rebind : List (List A) → ℕ → KvCache A → Bindings A → KvCache A × Bindings A
  rebind pasts current_length cache state =
      let grown = record cache { pasts = pasts; past_length = current_length } in
      let presents = replicate cache.tensors (create (element_count grown)) in
      (
        record grown { presents = presents },
        record {
          inputs = write_at state.inputs cache.input_index pasts;
          outputs = write_at state.outputs cache.output_index presents;
        },
      )

  pub update : List ℕ → ℕ → KvCache A → Bindings A → KvCache A × Bindings A
  unfolding rebind pick_past_state
  update beam_indices current_length cache state =
      if cache.past_present_share_buffer
      then (cache, state)
      else rebind
          (if is_empty beam_indices
            then cache.presents
            else map (pick_past_state cache beam_indices) cache.presents)
          current_length cache state

  -- `KV_Cache_Combined` keeps the keys of all rows before the values of all rows: `past_key_size`
  -- cells are `batch_beam_size` blocks.
  pub pick_combined_state : KvCache A → List ℕ → List A → List A
  pick_combined_state cache beam_indices present =
      for_range (length beam_indices) 0
        (λ j past.
          copy_block (block_size cache) present (cache.batch_beam_size + get_or beam_indices j 0)
            (cache.batch_beam_size + j)
            (copy_block (block_size cache) present (get_or beam_indices j 0) j past))
        (create (2 * element_count cache))
