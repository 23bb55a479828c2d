-- ===== src/Models/Positions.antt =====
-- src/models/position_inputs.cpp on the CPU: the attention mask and the position ids that go with the
-- tokens of a run, and ExpandInputs of src/models/model.cpp. What a captured graph changes is left out.
pub mod Rows
pub mod Grown
pub mod Generated
use onnxruntime_genai_privat.Base.{
  ℕ, zero, suc, ◌+◌, ◌-◌, ◌*◌, Bool, true, false, not, ◌&&◌, ◌||◌, ◌⊎◌, inl, inr, Option, none,
  some, List, [], ◌∷◌, ◌++◌, map, get_or, set, subspan, write_at, replicate, if◌then◌else◌, ◌==◌,
  for_range,
}
use onnxruntime_genai_privat.Base.Int.{ℤ, beq_ℤ}

-- The element types of tensors, by their numbers in ONNX Runtime.
abbrev pub int32 : ℕ
int32 = 6

abbrev pub int64 : ℕ
int64 = 7

pub data TypeError : Type 0 where
  different_types unsupported_type : TypeError

-- The checks of the constructor; `mask` and `posid` are the types of the inputs that the model has.
pub common_type : Option ℕ → Option ℕ → ℕ
common_type mask (some posid) = posid
common_type (some mask) none = mask
common_type none none = int32

pub types_differ : Option ℕ → Option ℕ → Bool
types_differ (some mask) (some posid) = not (posid == mask)
types_differ (some mask) none = false
types_differ none posid = false

pub check_types : Option ℕ → Option ℕ → Option TypeError
unfolding common_type types_differ
check_types mask posid =
    if types_differ mask posid
    then some different_types
    else if (common_type mask posid == int32) || (common_type mask posid == int64)
    then none
    else some unsupported_type

-- The tensors, one row for each beam of each entry; the shapes are the rows and a length.
pub record PositionInputs : Type 0 where
  pub has_mask_input : Bool
  pub has_posid_input : Bool
  pub rows : ℕ
  pub position_length : ℕ
  pub position_ids : List ℕ
  pub position_ids_next : List ℕ
  pub mask_length : ℕ
  pub attention_mask : List ℕ
  pub is_first_posid_update : Bool
  pub initial_sequence_lengths : List ℕ

-- Rows that a loop writes one behind another, from the row `from` on.
pub concat_rows {ℓ} : {A : Type ℓ} → ℕ → ℕ → (ℕ → List A) → List A
concat_rows zero from row = []
concat_rows (suc count) from row = row from ++ concat_rows count (from + 1) row

-- One row of InitializeTensors: the mask, the positions and the number of tokens.
unfoldable pub mask_row : ℤ → List ℤ → List ℕ
mask_row pad [] = []
mask_row pad (word ∷ words) = (if beq_ℤ word pad then 0 else 1) ∷ mask_row pad words

pub position_row : ℤ → ℕ → List ℤ → List ℕ
position_row pad abs_position [] = []
position_row pad abs_position (word ∷ words) =
    let padded = 0 ∷ position_row pad abs_position words in
    let counted = abs_position ∷ position_row pad (abs_position + 1) words in
    if beq_ℤ word pad then padded else counted

pub count_tokens : ℤ → ℕ → List ℤ → ℕ
count_tokens pad abs_position [] = abs_position
count_tokens pad abs_position (word ∷ words) =
    let skipped = count_tokens pad abs_position words in
    let counted = count_tokens pad (abs_position + 1) words in
    if beq_ℤ word pad then skipped else counted

-- ExpandInputs: the rows of an input, each for all beams of its entry.
pub expand_inputs {ℓ} : {A : Type ℓ} → ℕ → ℕ → ℕ → List A → List A
unfolding concat_rows
expand_inputs num_beams batch_size data_size input =
    if num_beams == 1
    then input
    else concat_rows batch_size 0
        (λ i. concat_rows num_beams 0 (λ j. subspan input (i * data_size) data_size))

-- The members that the constructor makes, with InitializeTensors, from what the model asks for and
-- the prompts.
pub init : Bool → Bool → ℤ → ℕ → ℕ → ℕ → List ℤ → PositionInputs
unfolding mask_row position_row count_tokens expand_inputs
init has_mask_input has_posid_input pad batch_size sequence_length num_beams input_ids =
    let words : ℕ → List ℤ = λ i. subspan input_ids (i * sequence_length) sequence_length in
    let count : ℕ → ℕ = λ i. count_tokens pad 0 (words i) in
    record {
      has_mask_input = has_mask_input;
      has_posid_input = has_posid_input;
      rows = batch_size * num_beams;
      position_length = sequence_length;
      position_ids =
          expand_inputs num_beams batch_size sequence_length
            (concat_rows batch_size 0 (λ i. position_row pad 0 (words i)));
      position_ids_next =
          expand_inputs num_beams batch_size 1 (concat_rows batch_size 0 (λ i. count i ∷ []));
      mask_length = sequence_length;
      attention_mask =
          expand_inputs num_beams batch_size sequence_length
            (concat_rows batch_size 0 (λ i. mask_row pad (words i)));
      is_first_posid_update = true;
      initial_sequence_lengths = concat_rows batch_size 0 (λ i. replicate num_beams (count i));
    }

abbrev is_some : Option ℕ → Bool
is_some none = false
is_some (some type) = true

-- The constructor, which throws for the types before it makes the tensors.
pub create : Option ℕ → Option ℕ → ℤ → ℕ → ℕ → ℕ → List ℤ → TypeError ⊎ PositionInputs
unfolding check_types init
create mask posid pad batch_size sequence_length num_beams input_ids =
    elim (check_types mask posid) [
      | some e ↦ inl e
      | none ↦
          inr
            (init (is_some mask) (is_some posid) pad batch_size sequence_length num_beams input_ids)
    ]

pub update_position_ids : PositionInputs → PositionInputs
update_position_ids p =
    if p.is_first_posid_update
    then record p {
      position_length = 1;
      position_ids = p.position_ids_next;
      position_ids_next = [];
      is_first_posid_update = false;
    }
    else record p { position_ids = map (λ id. id + 1) p.position_ids }

-- UpdateAttentionMaskImpl for one row: the loop over its cells copies the old row.
pub update_mask_row : List ℕ → ℕ → ℕ → List ℕ → List ℕ
update_mask_row old_data current_length i next_data =
    set
      (write_at next_data (i * current_length)
        (subspan old_data (i * (current_length - 1)) (current_length - 1)))
      (i * current_length + current_length - 1) 1

-- `created` are the cells of the new tensor.
pub update_attention_mask : (ℕ → List ℕ) → ℕ → PositionInputs → PositionInputs
unfolding update_mask_row
update_attention_mask create current_length p = record p {
  mask_length = current_length;
  attention_mask =
      for_range p.rows 0 (update_mask_row p.attention_mask current_length)
        (create (p.rows * current_length));
}

pub update : (ℕ → List ℕ) → ℕ → PositionInputs → PositionInputs
unfolding update_position_ids update_attention_mask
update create current_length p =
    let moved = if p.has_posid_input then update_position_ids p else p in
    if p.has_mask_input then update_attention_mask create current_length moved else moved
