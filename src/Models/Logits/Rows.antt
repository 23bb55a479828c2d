-- ===== src/Models/Logits/Rows.antt =====
-- HandleEOSArray on a batch: the rows are handled one by one, and none for no end tokens.
use onnxruntime_genai_privat.Base.{
  ℕ, ◌*◌, ◌<◌, ◌≡◌, inl, inr, ◌∙◌, List, [], ◌∷◌, All, All-imp, length, length-set, if◌then◌else◌,
  Bool-cases,
}
use onnxruntime_genai_privat.Base.Float.{FloatOps}
use onnxruntime_genai_privat.Std.Sorted.{IsStrictWeak}
use onnxruntime_genai_privat.Models.Blocks.{block, length-block, block-each}
use onnxruntime_genai_privat.Models.Logits.{handle_eos_row, handle_eos_array, is_empty}
use onnxruntime_genai_privat.Models.Logits.EndTokens.{
  length-take_eos, EosHandled, handle_eos_row-EosHandled,
}

module _ {F : Type 0} (ops : FloatOps F) (eos_token_id : ℕ) (ids : List ℕ) where
  length-handle_eos_row :
      (logits : List F) → length (handle_eos_row ops eos_token_id ids logits) ≡ length logits
  unfolding handle_eos_row
  length-handle_eos_row logits =
      length-set _ eos_token_id _ ∙ length-take_eos ops ids ops.lowest logits

  -- The scores that a row keeps.
  abbrev pub with_end_tokens : List F → List F
  with_end_tokens logits =
      if is_empty ops ids then logits else handle_eos_row ops eos_token_id ids logits

  pub block-handle_eos_array :
      (rows vocab_size row : ℕ) (logits : List F)
      → length logits ≡ rows * vocab_size
      → row < rows
      → block vocab_size (handle_eos_array ops eos_token_id ids rows vocab_size logits) row
        ≡ with_end_tokens (block vocab_size logits row)
  unfolding handle_eos_array
  block-handle_eos_array rows vocab_size row logits sized lt =
      elim (Bool-cases (is_empty ops ids)) [
        | inl e ↦ rw e
        | inr e ↦ rw e (
            block-each vocab_size (handle_eos_row ops eos_token_id ids) length-handle_eos_row rows
              logits sized row lt)
      ]

-- What HandleEOSArray leaves of a row of the batch: without end tokens in the configuration the row,
-- and otherwise the primary end token with the scores of all.
pub RowHandled : {F : Type 0} → FloatOps F → ℕ → List ℕ → List F → List F → Type 0
RowHandled ops eos_token_id [] before after = after ≡ before
RowHandled ops eos_token_id (id ∷ ids) before after =
    EosHandled ops eos_token_id (id ∷ ids) before after

-- If the order of the floats is a strict weak one, the scores have the batch's size and the end
-- tokens are tokens of the vocabulary, HandleEOSArray leaves every score if the configuration has no
-- end tokens; otherwise it gives in each row the primary end token a score that is not less than
-- that of any end token and is one of them or the lowest, gives the other end tokens the lowest
-- score, and leaves the remaining scores.
pub handle_eos_array-RowHandled :
    {F : Type 0} (ops : FloatOps F) (eos_token_id : ℕ) (ids : List ℕ) (rows vocab_size row : ℕ)
    (logits : List F)
    → IsStrictWeak ops.ltf
    → length logits ≡ rows * vocab_size
    → eos_token_id < vocab_size
    → All (λ id. id < vocab_size) ids
    → row < rows
    → RowHandled ops eos_token_id ids
        (block vocab_size logits row)
        (block vocab_size (handle_eos_array ops eos_token_id ids rows vocab_size logits) row)
unfolding RowHandled
handle_eos_array-RowHandled ops eos [] rows vocab row logits order sized primary small lt =
    block-handle_eos_array ops eos [] rows vocab row logits sized lt
handle_eos_array-RowHandled ops eos (id ∷ ids) rows vocab row logits order sized primary small lt =
    let full = length-block vocab logits row rows lt sized in
    rw (block-handle_eos_array ops eos (id ∷ ids) rows vocab row logits sized lt) (
      handle_eos_row-EosHandled ops eos (id ∷ ids) (block vocab logits row) order (rw full primary)
        (All-imp (id ∷ ids) (λ i below. rw full below) small))
