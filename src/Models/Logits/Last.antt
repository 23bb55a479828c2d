-- ===== src/Models/Logits/Last.antt =====
-- The scores that Logits::Get keeps of a run on prompts are those of the last token of each row.
use onnxruntime_genai_privat.Base.{
  ℕ, zero, suc, ◌+◌, ◌*◌, ◌/◌, ◌%◌, ◌^◌, ◌≤◌, ◌<◌, ◌≡◌, inl, inr, refl, sym, ap, ◌∙◌, true, false,
  ◌==◌, ==_iff, List, length, get_or, subspan, if◌then◌else◌, Bool-cases, for_range_inv, write_at,
  length-write_at, row_le, ltb, ltb→lt, arith,
}
use onnxruntime_genai_privat.Base.Int.{ℤ, pos, beq_ℤ}
use onnxruntime_genai_privat.Base.Float.{FloatOps}
use onnxruntime_genai_privat.Models.Blocks.{block, length-block, block-write_at}
use onnxruntime_genai_privat.Models.Logits.{
  Logits, element_size, last_token_index, copy_last, last_tokens, get,
}
use onnxruntime_genai_privat.Models.Logits.Rows.{with_end_tokens, block-handle_eos_array}

-- The last place of the prompt that is not a pad token.
pub record IsLast (pad : ℤ) (prompt : List ℤ) (places i : ℕ) : Type 0 where
  pub within : i < places
  pub token : beq_ℤ (get_or prompt i (pos 0)) pad ≡ false
  pub pads : (j : ℕ) → i < j → j < places → beq_ℤ (get_or prompt j (pos 0)) pad ≡ true

last_token_index-IsLast :
    (pad : ℤ) (prompt : List ℤ) (places i : ℕ)
    → IsLast pad prompt places i
    → last_token_index pad prompt places ≡ i
unfolding last_token_index
last_token_index-IsLast pad prompt zero i l = absurd (omega (arith, l.within))
last_token_index-IsLast pad prompt (suc places) i l = elim (Bool-cases (places == i)) [
  | inl here ↦ let same : places ≡ i = (==_iff places i).0 here in rw (same, l.token)
  | inr before ↦
      let lt : i < places = earlier places i before l.within in
      rw (l.pads places lt (omega arith)) (
        last_token_index-IsLast pad prompt places i
          (record { within = lt; token = l.token; pads = λ j hi hj. l.pads j hi (omega arith) }))
]
  where
    earlier : (n k : ℕ) → (n == k) ≡ false → k < suc n → k < n
    earlier n k e lt = ground arith

same_entry :
    (b c k j num_beams : ℕ)
    → k < num_beams
    → j < num_beams
    → b * num_beams + k ≡ c * num_beams + j
    → b ≡ c
same_entry b c k j num_beams hk hj same = elim (Bool-cases (ltb b c)) [
  | inl lt ↦ absurd (omega (arith, row_le b c num_beams (ltb→lt b c lt)))
  | inr later ↦ elim (Bool-cases (ltb c b)) [
    | inl lt ↦ absurd (omega (arith, row_le c b num_beams (ltb→lt c b lt)))
    | inr sooner ↦ neither b c later sooner
  ]
]
  where
    neither : (m n : ℕ) → ltb m n ≡ false → ltb n m ≡ false → m ≡ n
    neither m n h k = ground arith

module _ {F : Type 0} (ops : FloatOps F) (l : Logits F) (batch_size num_beams : ℕ) (pad : ℤ)
    (input_ids : List ℤ) (last : ℕ → ℕ) where
  -- The run was on this batch, each prompt has a token, and the offsets fit in `size_t`.
  pub record IsRun : Type 0 where
    pub scores : length l.output_raw ≡ batch_size * num_beams * l.sequence_length * l.vocab_size
    pub fits : batch_size * num_beams * l.sequence_length * l.vocab_size * element_size < 2 ^ 64
    pub found :
        (b : ℕ)
        → b < batch_size
        → IsLast pad
            (subspan input_ids (b * l.sequence_length) l.sequence_length)
            l.sequence_length
            (last b)

  -- The rows before `count` are copied.
  record Copied (count : ℕ) (now : List F) : Type 0 where
    same_size : length now ≡ batch_size * num_beams * l.vocab_size
    copied :
        (b k : ℕ)
        → b < batch_size
        → k < num_beams
        → b * num_beams + k < count
        → block l.vocab_size now (b * num_beams + k)
          ≡ block l.vocab_size l.output_raw ((b * num_beams + k) * l.sequence_length + last b)

  module _ (run : IsRun) where
    -- The offset of the last token of a row is that of a block.
    offset :
        (row token rows places vocab : ℕ)
        → row < rows
        → token < places
        → rows * places * vocab * element_size < 2 ^ 64
        → (row * vocab * places + token * vocab) * element_size % 2 ^ 64 / element_size
          ≡ (row * places + token) * vocab
    offset row token rows places vocab hr ht fits = rw product (omega (arith, below, fits))
      where
        product : row * vocab * places + token * vocab ≡ (row * places + token) * vocab
        product = grind arith

        place : row * places + token < rows * places
        place = omega (arith, row_le row rows places hr, ht)

        below : (row * places + token) * vocab + vocab ≤ rows * places * vocab
        below = row_le (row * places + token) (rows * places) vocab place

    module _ (b k : ℕ) (hb : b < batch_size) (hk : k < num_beams) where
      abbrev row : ℕ
      row = b * num_beams + k

      abbrev source : ℕ
      source = row * l.sequence_length + last b

      row_lt : row < batch_size * num_beams
      row_lt = omega (arith, row_le b batch_size num_beams hb)

      source_lt : source < batch_size * num_beams * l.sequence_length
      source_lt = omega (
        arith,
        row_le row (batch_size * num_beams) l.sequence_length row_lt,
        (run.found b hb).within,
      )

      copy_last-written :
          (now : List F)
          → copy_last ops l pad
              (subspan input_ids (b * l.sequence_length) l.sequence_length)
              row
              now
            ≡ write_at now (row * l.vocab_size) (block l.vocab_size l.output_raw source)
      unfolding copy_last
      copy_last-written now =
          rw (last_token_index-IsLast pad _ l.sequence_length (last b) (run.found b hb)) (
            rw (
              offset row (last b) (batch_size * num_beams) l.sequence_length l.vocab_size row_lt
                (run.found b hb).within run.fits))

      -- One more row.
      Copied-write_at :
          (now : List F)
          → Copied row now
          → Copied
              (row + 1)
              (write_at now (row * l.vocab_size) (block l.vocab_size l.output_raw source))
      Copied-write_at now w = record {
        same_size = length-write_at now (row * l.vocab_size) _ ∙ w.same_size;
        copied = λ c j hc hj lt.
            changed (c * num_beams + j) ∙ elim (Bool-cases (row == (c * num_beams + j))) [
              | inl same ↦
                  let one = (==_iff row (c * num_beams + j)).0 same in
                  rw (same, one, same_entry b c k j num_beams hk hj one)
              | inr other ↦ rw other (w.copied c j hc hj (before row (c * num_beams + j) other lt))
            ];
      }
        where
          before : (m n : ℕ) → (m == n) ≡ false → n < m + 1 → n < m
          before m n e lt = ground arith

          changed :
              (r : ℕ)
              → block l.vocab_size
                  (write_at now (row * l.vocab_size) (block l.vocab_size l.output_raw source))
                  r
                ≡ (if row == r
                    then block l.vocab_size l.output_raw source
                    else block l.vocab_size now r)
          changed r =
              block-write_at l.vocab_size _ now row r (batch_size * num_beams)
                (length-block l.vocab_size l.output_raw source _ source_lt run.scores) row_lt
                w.same_size

    Copied-copy_last :
        (b k : ℕ)
        → b < batch_size
        → k < num_beams
        → (now : List F) → Copied (b * num_beams + k) now
        → Copied (b * num_beams + (k + 1)) (
            copy_last ops l pad
              (subspan input_ids (b * l.sequence_length) l.sequence_length)
              (b * num_beams + k)
              now)
    Copied-copy_last b k hb hk now w =
        let next : b * num_beams + (k + 1) ≡ b * num_beams + k + 1 = omega arith in
        rw (next, copy_last-written b k hb hk now) (Copied-write_at b k hb hk now w)

    last_tokens-Copied :
        (created : List F)
        → length created ≡ batch_size * num_beams * l.vocab_size
        → Copied
            (batch_size * num_beams)
            (last_tokens ops l batch_size num_beams pad input_ids created)
    unfolding last_tokens
    last_tokens-Copied created sized =
        for_range_inv (λ b. Copied (b * num_beams)) _ batch_size 0 batch_size created (omega arith)
          (λ b now hb w.
            let start : b * num_beams + 0 ≡ b * num_beams = omega arith in
            let next : (b + 1) * num_beams ≡ b * num_beams + num_beams = omega arith in
            let beams =
              for_range_inv (λ k. Copied (b * num_beams + k))
                (λ k.
                  copy_last ops l pad (subspan input_ids (b * l.sequence_length) l.sequence_length)
                    (b * num_beams + k))
                num_beams 0 num_beams now (omega arith) (λ k t hk v. Copied-copy_last b k hb hk t v)
                (rw start w) in
            rw next beams)
          (record { same_size = sized; copied = λ b k hb hk lt. absurd (omega (arith, lt)) })

    last_tokens-block :
        (created : List F) (b k : ℕ)
        → length created ≡ batch_size * num_beams * l.vocab_size
        → b < batch_size
        → k < num_beams
        → block l.vocab_size
            (last_tokens ops l batch_size num_beams pad input_ids created)
            (b * num_beams + k)
          ≡ block l.vocab_size l.output_raw ((b * num_beams + k) * l.sequence_length + last b)
    last_tokens-block created b k sized hb hk =
        (last_tokens-Copied created sized).copied b k hb hk
          (omega (arith, row_le b batch_size num_beams hb))

    -- For scores of a run on the whole batch whose number of bytes fits in `size_t`, with a token other
    -- than the pad token in each prompt, Get leaves a shape with one place, and row `k` of entry `b`
    -- is the vocabulary of the last such token of the prompt of `b`, as row `k` of `b` scored it,
    -- with the end tokens handled. It holds for prompts of one token, which are not copied, and of
    -- more.
    pub get-block :
        (created : List F) (eos_token_id : ℕ) (ids : List ℕ) (b k : ℕ)
        → l.batch_beam_size ≡ batch_size * num_beams
        → length created ≡ batch_size * num_beams * l.vocab_size
        → b < batch_size
        → k < num_beams
        → ((get ops l batch_size num_beams pad input_ids created eos_token_id ids).0.sequence_length
            ≡ 1)
          × (block l.vocab_size
                (get ops l batch_size num_beams pad input_ids created eos_token_id ids).1
                (b * num_beams + k)
              ≡ with_end_tokens ops eos_token_id ids (
                  block l.vocab_size l.output_raw
                    ((b * num_beams + k) * l.sequence_length + last b)))
    unfolding get
    get-block created eos_token_id ids b k rows sized hb hk = (
      refl,
      elim (Bool-cases (l.sequence_length == 1)) [
        | inl one ↦
            let single = (==_iff l.sequence_length 1).0 one in
            rw one (
              block-handle_eos_array ops eos_token_id ids l.batch_beam_size l.vocab_size
                (b * num_beams + k) l.output_raw (run.scores ∙ whole single) (rw rows row_lt)
              ∙ ap (λ row. kept (block l.vocab_size l.output_raw row)) (sym (source single)))
        | inr many ↦ rw many (
            block-handle_eos_array ops eos_token_id ids l.batch_beam_size l.vocab_size
              (b * num_beams + k) _ ((last_tokens-Copied created sized).same_size ∙ rw rows)
              (rw rows row_lt)
            ∙ ap kept (last_tokens-block created b k sized hb hk))
      ],
    )
      where
        kept : List F → List F
        kept = with_end_tokens ops eos_token_id ids

        row_lt : b * num_beams + k < batch_size * num_beams
        row_lt = omega (arith, row_le b batch_size num_beams hb)

        units : (m v : ℕ) → m * 1 * v ≡ m * v
        units m v = grind arith

        whole :
            l.sequence_length ≡ 1
            → batch_size * num_beams * l.sequence_length * l.vocab_size
              ≡ l.batch_beam_size * l.vocab_size
        whole single = rw (single, rows) (units (batch_size * num_beams) l.vocab_size)

        source :
            l.sequence_length ≡ 1
            → (b * num_beams + k) * l.sequence_length + last b ≡ b * num_beams + k
        source single = rw single (omega (arith, (run.found b hb).within, single))
