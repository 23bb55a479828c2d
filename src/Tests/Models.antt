-- ===== src/Tests/Models.antt =====
-- The theorems on the inputs and outputs of models at concrete inputs.
use onnxruntime_genai_privat.Base.{
  ℕ, zero, suc, ◌%◌, ◌≤◌, ◌<◌, ◌≡◌, Bool, ltb, ◌↔◌, refl, true, false, List, [], ◌∷◌, replicate,
  length-replicate, subspan, ◌*◌, get_elem?, get_or, some, arith,
}
use onnxruntime_genai_privat.Base.Int.{ℤ, pos, beq_ℤ}
use onnxruntime_genai_privat.Std.Sorted.{AllPairs}
use onnxruntime_genai_privat.Models.Blocks.{block}
use onnxruntime_genai_privat.Models.Cache.{KvCache, Bindings, update}
use onnxruntime_genai_privat.Models.Cache.Reordered.{Chosen, block-update}
use onnxruntime_genai_privat.Models.Logits.{handle_eos_array}
use onnxruntime_genai_privat.Models.Logits.Rows.{
  with_end_tokens, RowHandled, handle_eos_array-RowHandled,
}
use onnxruntime_genai_privat.Models.Logits.{Logits, get}
use onnxruntime_genai_privat.Models.Logits.Last.{IsLast, IsRun, get-block}
use onnxruntime_genai_privat.Models.InputIds.{Memory, InputIds}
use onnxruntime_genai_privat.Models.InputIds
use onnxruntime_genai_privat.Models.InputIds.Written.{IsWritten, update-IsWritten}
use onnxruntime_genai_privat.Models.Positions
use onnxruntime_genai_privat.Models.Positions.{mask_row, init}
use onnxruntime_genai_privat.Models.Positions.Grown.{updates, ones}
use onnxruntime_genai_privat.Models.Positions.Generated.{updates-init}
use onnxruntime_genai_privat.Models.Graphs.{GraphKey}
use onnxruntime_genai_privat.Models.Graphs.Unique.{Call, Apart, calls, new_shared, calls-Apart}
use onnxruntime_genai_privat.Models.Buffers.{
  size_of, product, create_tensor, first_buffer, room, create_tensor-fits_iff,
}
use onnxruntime_genai_privat.Models.Buffers
use onnxruntime_genai_privat.Tests.Values.{number_ops, number_order}

abbrev zeros : ℕ → List ℕ
zeros n = replicate n 0

-- Two rows of two cells, of which the search goes on with the second, twice.
abbrev two_row_cache : KvCache ℕ
two_row_cache = record {
  past_present_share_buffer = false;
  tensors = 1;
  batch_beam_size = 2;
  num_heads = 1;
  past_length = 2;
  head_size = 1;
  pasts = [] ∷ [];
  presents = (1 ∷ 2 ∷ 3 ∷ 4 ∷ []) ∷ [];
  input_index = 1;
  output_index = 0;
}

abbrev bound : Bindings ℕ
bound = record { inputs = (9 ∷ []) ∷ [] ∷ []; outputs = (1 ∷ 2 ∷ 3 ∷ 4 ∷ []) ∷ [] }

second_twice-Chosen : Chosen 2 (1 ∷ 1 ∷ [])
second_twice-Chosen = (refl, λ j lt. below j lt)
  where
    below : (j : ℕ) → j < 2 → get_or (1 ∷ 1 ∷ []) j 0 < 2
    below zero lt = omega arith
    below (suc zero) lt = omega arith
    below (suc (suc j)) lt = absurd (omega arith)

block-update_example :
    (past : List ℕ) × (get_elem? (update zeros (1 ∷ 1 ∷ []) 3 two_row_cache bound).1.inputs 1
      ≡ some past)
    × (block 2 past 0 ≡ 3 ∷ 4 ∷ [])
block-update_example =
    block-update zeros (λ n. length-replicate n 0) two_row_cache bound (1 ∷ 1 ∷ []) 3 0 0
      (1 ∷ 2 ∷ 3 ∷ 4 ∷ []) second_twice-Chosen refl (omega arith) (omega arith) refl refl
      (omega arith)

-- Tokens 1 and 3 end; 3 has the better score.
abbrev two_scored : List ℕ
two_scored = 0 ∷ 0 ∷ 0 ∷ 0 ∷ 5 ∷ 2 ∷ 6 ∷ 4 ∷ []

handle_eos_array-RowHandled_example :
    RowHandled number_ops 1
      (1 ∷ 3 ∷ [])
      (5 ∷ 2 ∷ 6 ∷ 4 ∷ [])
      (block 4 (handle_eos_array number_ops 1 (1 ∷ 3 ∷ []) 2 4 two_scored) 1)
handle_eos_array-RowHandled_example =
    handle_eos_array-RowHandled number_ops 1 (1 ∷ 3 ∷ []) 2 4 1 two_scored number_order refl
      (omega arith) ((omega arith), ((omega arith), tt)) (omega arith)

-- Two prompts of two tokens for two beams each, the first with a pad token, and three updates.
abbrev prompts : List ℤ
prompts = pos 0 ∷ pos 5 ∷ pos 6 ∷ pos 7 ∷ []

updates-init_example :
    let p = updates zeros 2 3 (Positions.update zeros 3 (init true true (pos 0) 2 2 2 prompts)) in
    (block 5 p.attention_mask 1 ≡ 0 ∷ 1 ∷ 1 ∷ 1 ∷ 1 ∷ []) × (get_elem? p.position_ids 1 ≡ some 3)
unfolding mask_row ones
updates-init_example =
    updates-init (pos 0) 2 2 2 prompts refl (omega arith) zeros 2 1 (λ n. length-replicate n 0)
      (omega arith)

abbrev key : GraphKey
key = record { max_batch_size = 2; max_length = 8; num_beams = 1; extra_inputs = [] }

abbrev shared_calls : List Call
shared_calls =
    Call.reserved true key ∷ Call.reserved true key ∷ Call.returned 1 ∷ Call.reserved true key ∷ []

calls-Apart_example : AllPairs Apart (calls shared_calls new_shared).used
calls-Apart_example = calls-Apart shared_calls (omega arith)

-- A buffer for five rows, made for three: it has no room for five.
abbrev gives : ℕ → Bool
gives bytes = ltb 0 bytes

create_tensor-fits_iff_example :
    ((create_tensor gives Buffers.float32 5
        (2 ∷ [])
        (first_buffer gives Buffers.float32 3 5 (2 ∷ []))).1
      ≡ some 40)
    × ((40 ≤ room (first_buffer gives Buffers.float32 3 5 (2 ∷ []))) ↔ (5 % 3 ≡ 0))
unfolding product size_of
create_tensor-fits_iff_example =
    create_tensor-fits_iff gives Buffers.float32 4 3 5 (2 ∷ []) (λ bytes some_bytes. ground arith)
      refl (omega arith) (omega arith) (omega arith) (omega arith)

-- One prompt of two places, of which the second is a pad token, and two beams with three tokens.
abbrev two_beams : Logits ℕ
two_beams = record {
  batch_beam_size = 2;
  sequence_length = 2;
  vocab_size = 3;
  output_raw = 5 ∷ 1 ∷ 7 ∷ 0 ∷ 0 ∷ 0 ∷ 2 ∷ 8 ∷ 4 ∷ 0 ∷ 0 ∷ 0 ∷ [];
}

abbrev prompt : List ℤ
prompt = pos 6 ∷ pos 0 ∷ []

two_beams-IsRun : IsRun number_ops two_beams 1 2 (pos 0) prompt (λ b. 0)
two_beams-IsRun = record { scores = refl; fits = omega arith; found = λ b lt. first b lt }
  where
    pads : (j : ℕ) → 0 < j → j < 2 → beq_ℤ (get_or prompt j (pos 0)) (pos 0) ≡ true
    pads zero above lt = absurd (omega arith)
    pads (suc zero) above lt = refl
    pads (suc (suc j)) above lt = absurd (omega arith)

    first : (b : ℕ) → b < 1 → IsLast (pos 0) (subspan prompt (b * 2) 2) 2 0
    first zero lt = record { within = omega arith; token = refl; pads = pads }
    first (suc b) lt = absurd (omega arith)

get-block_example :
    ((get number_ops two_beams 1 2 (pos 0) prompt (zeros 6) 0 (1 ∷ [])).0.sequence_length ≡ 1)
    × (block 3 (get number_ops two_beams 1 2 (pos 0) prompt (zeros 6) 0 (1 ∷ [])).1 1
        ≡ with_end_tokens number_ops 0 (1 ∷ []) (2 ∷ 8 ∷ 4 ∷ []))
get-block_example =
    get-block number_ops two_beams 1 2 (pos 0) prompt (λ b. 0) two_beams-IsRun (zeros 6) 0 (1 ∷ [])
      0 1 refl refl (omega arith) (omega arith)

-- The tensor on a prompt of two tokens, which the model reads.
abbrev one_prompt : Memory
one_prompt = record { tensors = (pos 6 ∷ pos 4 ∷ []) ∷ []; inputs = 0 ∷ [] }

abbrev prompt_ids : InputIds
prompt_ids = record { input_index = 0; rows = 1; sequence_length = 2; type = 6; value = 0 }

abbrev new_tokens : ℕ → List ℤ
new_tokens n = replicate n (pos 0)

update-IsWritten_example :
    IsWritten one_prompt
      (pos 8 ∷ [])
      (InputIds.update new_tokens (pos 8 ∷ []) prompt_ids one_prompt)
update-IsWritten_example =
    update-IsWritten new_tokens (λ n. length-replicate n (pos 0)) (pos 8 ∷ []) prompt_ids one_prompt
      (record { bound = refl; inside = omega arith; cells = refl }) refl
