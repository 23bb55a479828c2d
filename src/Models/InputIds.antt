-- ===== src/Models/InputIds.antt =====
-- src/models/input_ids.cpp on the CPU, without captured graphs: the tokens that a model reads. A
-- tensor is a number, its place in the memory, since the inputs of the model point to it and a tensor
-- of 32-bit tokens is made on the prompts of the parameters themselves.
pub mod Written
use onnxruntime_genai_privat.Base.{
  ℕ, ◌*◌, Option, none, some, List, [], ◌∷◌, ◌++◌, length, get_or, set, take, write_at,
  if◌then◌else◌, ◌==◌,
}
use onnxruntime_genai_privat.Base.Int.{ℤ}
use onnxruntime_genai_privat.Models.Positions.{int32, int64, expand_inputs}

-- The cells of the tensors, and `state_.inputs_`.
pub record Memory : Type 0 where
  pub tensors : List (List ℤ)
  pub inputs : List ℕ

pub record InputIds : Type 0 where
  pub input_index : ℕ
  pub rows : ℕ
  pub sequence_length : ℕ
  pub type : ℕ
  pub value : ℕ

abbrev pub create_tensor : List ℤ → Memory → ℕ × Memory
create_tensor cells m = (length m.tensors, record m { tensors = m.tensors ++ cells ∷ [] })

abbrev pub get_tensor : ℕ → Memory → List ℤ
get_tensor k m = get_or m.tensors k []

-- The tensor before its rows are expanded. `prompts` is the tensor on the prompts of the parameters;
-- `none` is the exception for other types.
pub first_value : ℕ → ℕ → Memory → Option (ℕ × Memory)
first_value type prompts m =
    if type == int64
    then some (create_tensor (get_tensor prompts m) m)
    else if type == int32
    then some (prompts, m)
    else none

pub expand : ℕ → ℕ → ℕ → ℕ → Memory → ℕ × Memory
expand num_beams batch_size sequence_length value m =
    if num_beams == 1
    then (value, m)
    else create_tensor (expand_inputs num_beams batch_size sequence_length (get_tensor value m)) m

-- The constructor.
pub init : ℕ → ℕ → ℕ → ℕ → ℕ → Memory → Option (InputIds × Memory)
unfolding first_value expand
init type batch_size sequence_length num_beams prompts m = elim (first_value type prompts m) [
  | none ↦ none
  | some first ↦
      let (value, after) = expand num_beams batch_size sequence_length first.0 first.1 in
      some (
        record {
          input_index = 0;
          rows = batch_size * num_beams;
          sequence_length = sequence_length;
          type = type;
          value = value;
        },
        after,
      )
]

pub add : InputIds → Memory → InputIds × Memory
add ids m =
    (record ids { input_index = length m.inputs }, record m { inputs = m.inputs ++ ids.value ∷ [] })

-- The first update makes the shape one place wide, with a new tensor of `created` cells.
pub resize : (ℕ → List ℤ) → InputIds → Memory → InputIds × Memory
resize created ids m =
    if ids.sequence_length == 1
    then (ids, m)
    else let (value, after) = create_tensor (created ids.rows) m in
      (
        record ids { sequence_length = 1; value = value },
        record after { inputs = set m.inputs ids.input_index value },
      )

-- Either width of the tokens: the first of them for each row.
pub write_tokens : List ℤ → InputIds → Memory → Memory
write_tokens next_tokens ids m = record m {
  tensors =
      set m.tensors ids.value (write_at (get_tensor ids.value m) 0 (take ids.rows next_tokens));
}

pub update : (ℕ → List ℤ) → List ℤ → InputIds → Memory → InputIds × Memory
unfolding resize write_tokens
update created next_tokens ids m =
    let (sized, room) = resize created ids m in (sized, write_tokens next_tokens sized room)
