-- ===== src/Sequences/Start.antt =====
-- What the rows of `Sequences` hold at the start: each beam of a batch entry has its prompt.
use onnxruntime_genai_privat.Base.{
  ℕ, ◌+◌, ◌*◌, ◌/◌, ◌≤◌, ◌<◌, ◌≡◌, ◌≢◌, refl, ap, ◌∙◌, List, some, arith, ◌==◌, ltb, leb,
  if◌then◌else◌, ◌&&◌, get_elem?, set, subspan, length, for_range_inv, cell_lt, cell_eq,
  get_elem?-set, get_elem?-subspan, get_elem?-in, length-set, length-replicate, List-ext,
}
use onnxruntime_genai_privat.Base.Int.{ℤ, pos}
use onnxruntime_genai_privat.Sequences.{at, fill_row, fill_beams, init, get_sequence}
use onnxruntime_genai_privat.Sequences.Rows.{IsValid, IsValidBeam}

module _ (input : List ℤ) (n m len : ℕ) (fits : len ≤ m) where
  -- The buffer while row `k` is filled up to column `j`.
  record RowFilled (source k : ℕ) (old : List ℤ) (j : ℕ) (b : List ℤ) : Type 0 where
    same_size : length b ≡ length old
    cell :
        (r c : ℕ)
        → c < m
        → get_elem? b (r * m + c) ≡ (
            if (k == r) && ltb c j then some (at input (source + c)) else get_elem? old (r * m + c))

  RowFilled-round :
      (source k : ℕ) (old : List ℤ)
      → length old ≡ n * m
      → k < n
      → (j : ℕ) (b : List ℤ) → j < len
      → RowFilled source k old j b
      → RowFilled source k old (j + 1) (set b (k * m + j) (at input (source + j)))
  RowFilled-round source k old size hk j b hj w = record {
    same_size = omega (arith, w.same_size, length-set b (k * m + j) (at input (source + j)));
    cell = λ r c hc. ground (
      arith,
      w.cell r c hc,
      w.same_size,
      cell_lt k n j m hk,
      get_elem?-set b (k * m + j) (r * m + c) (at input (source + j)),
      cell_eq k r j c m,
    );
  }

  RowFilled-end :
      (source k : ℕ) (old : List ℤ)
      → length old ≡ n * m
      → k < n
      → RowFilled source k old len (fill_row input source len (k * m) old)
  unfolding fill_row
  RowFilled-end source k old size hk =
      for_range_inv (RowFilled source k old) _ len 0 len old (omega arith)
        (RowFilled-round source k old size hk)
        (record { same_size = refl; cell = λ r c hc. ground arith })

module _ (input : List ℤ) (batches beams m len : ℕ) (fits : len ≤ m) where
  -- The buffer while the rows of entry `e` are filled up to beam `k`.
  record EntryFilled (e : ℕ) (old : List ℤ) (k : ℕ) (b : List ℤ) : Type 0 where
    same_size : length b ≡ length old
    cell :
        (r c : ℕ)
        → c < m
        → get_elem? b (r * m + c) ≡ (
            if leb (e * beams) r && ltb r (e * beams + k) && ltb c len
            then some (at input (e * len + c))
            else get_elem? old (r * m + c))

  EntryFilled-round :
      (e : ℕ) (old : List ℤ)
      → length old ≡ batches * beams * m
      → e < batches
      → (k : ℕ) (b : List ℤ) → k < beams
      → EntryFilled e old k b
      → EntryFilled e old (k + 1) (fill_row input (e * len) len ((e * beams + k) * m) b)
  EntryFilled-round e old size he k b hk w =
      let filled =
        RowFilled-end input (batches * beams) m len fits (e * len) (e * beams + k) b
          (w.same_size ∙ size) (cell_lt e batches k beams he hk) in
      record {
        same_size = omega (arith, filled.same_size, w.same_size);
        cell = λ r c hc. ground (arith, filled.cell r c hc, w.cell r c hc);
      }

  EntryFilled-end :
      (e : ℕ) (old : List ℤ)
      → length old ≡ batches * beams * m
      → e < batches
      → EntryFilled e old beams (fill_beams input beams m len e old)
  unfolding fill_beams
  EntryFilled-end e old size he =
      for_range_inv (EntryFilled e old) _ beams 0 beams old (omega arith)
        (EntryFilled-round e old size he)
        (record { same_size = refl; cell = λ r c hc. ground arith })

  -- The buffer once the first `k` entries are filled.
  record Filled (k : ℕ) (b : List ℤ) : Type 0 where
    same_size : length b ≡ batches * beams * m
    cell :
        (e j c : ℕ)
        → e < k
        → j < beams
        → c < len
        → get_elem? b ((e * beams + j) * m + c) ≡ some (at input (e * len + c))

  Filled-round :
      (k : ℕ) (b : List ℤ)
      → k < batches
      → Filled k b
      → Filled (k + 1) (fill_beams input beams m len k b)
  Filled-round k b hk w =
      let entry = EntryFilled-end k b w.same_size hk in
      record {
        same_size = omega (arith, entry.same_size, w.same_size);
        cell = λ e j c he hj hc. ground (
          arith,
          entry.cell (e * beams + j) c,
          w.cell e j c,
          cell_lt e k j beams,
          ap (λ (x : ℕ). x * beams) {x = e} {y = k},
          ap (λ (x : ℕ). some (at input (x * len + c))) {x = e} {y = k},
        );
      }

module _ (input : List ℤ) (batch_size beam_size max_length : ℕ)
    (fits : length input / batch_size ≤ max_length) where
  Filled-init :
      Filled input batch_size beam_size max_length
        (length input / batch_size)
        fits
        batch_size
        (init input batch_size beam_size max_length).sequences
  unfolding init
  Filled-init =
      for_range_inv (Filled input batch_size beam_size max_length (length input / batch_size) fits)
        _ batch_size 0 batch_size _ (omega arith)
        (Filled-round input batch_size beam_size max_length (length input / batch_size) fits)
        (record { same_size = length-replicate _ (pos 0); cell = λ e j c he. elim he [ ] })

  -- The constructor lays out the rows, and sizes the second buffer of a beam search.
  pub init-IsValid :
      (IsValid (init input batch_size beam_size max_length))
      × (beam_size ≢ 1 → IsValidBeam (init input batch_size beam_size max_length))
  unfolding init
  init-IsValid =
      let valid : IsValid (init input batch_size beam_size max_length) = record {
        sized = Filled-init.same_size;
        fits = fits;
      } in
      (
        valid,
        λ several. record {
          valid = valid;
          sized_next =
              ground (arith, length-replicate (batch_size * beam_size * max_length) (pos 0));
        },
      )

  -- If the prompts fill `input` exactly, each beam `j` of entry `e` starts with the prompt of `e`.
  pub get_sequence-init :
      (e j : ℕ)
      → length input ≡ batch_size * (length input / batch_size)
      → e < batch_size
      → j < beam_size
      → get_sequence (init input batch_size beam_size max_length) (e * beam_size + j)
        ≡ subspan input (e * (length input / batch_size)) (length input / batch_size)
  unfolding get_sequence init
  get_sequence-init e j exact he hj = List-ext _ _ λ c.
      let len = length input / batch_size in
      ground (
        arith,
        get_elem?-subspan (init input batch_size beam_size max_length).sequences
            ((e * beam_size + j) * max_length) len c,
        get_elem?-subspan input (e * len) len c,
        get_elem?-in input (e * len + c) (pos 0),
        cell_lt e batch_size c len he,
        Filled-init.cell e j c he hj,
      )
