-- ===== src/Models/Blocks.antt =====
-- A tensor as blocks of one size, one for each row of its first dimension, and the copies between
-- blocks of two tensors.
use onnxruntime_genai_privat.Base.{
  ℕ, ◌+◌, ◌*◌, ◌<◌, ◌≤◌, get_elem?-out, ◌≡◌, inl, inr, List, get_elem?, write_at, subspan, length,
  Bool-cases, if◌then◌else◌, ◌==◌, none, sym, ap, ◌∙◌, ltb→lt, true, false, ◌&&◌, arith, for_range,
  for_range_inv, ltb, ==_iff, refl, get_elem?-subspan, get_elem?-write_row, length-write_at,
  length-take, length-drop, List-ext, row_le, drop,
}

module _ {ℓ} {A : Type ℓ} (size : ℕ) where
  abbrev pub block : List A → ℕ → List A
  block cells row = subspan cells (row * size) size

  -- `copy(present.subspan(source * size, size), past.subspan(target * size, size))`.
  unfoldable pub copy_block : List A → ℕ → ℕ → List A → List A
  copy_block present source target past = write_at past (target * size) (block present source)

  pub length-block :
      (cells : List A) (row rows : ℕ)
      → row < rows
      → length cells ≡ rows * size
      → length (block cells row) ≡ size
  length-block cells row rows lt sized = omega (
    arith,
    length-take size (drop (row * size) cells),
    length-drop (row * size) cells,
    row_le row rows size lt,
  )

  pub length-copy_block :
      (present : List A) (source target : ℕ) (past : List A)
      → length (copy_block present source target past) ≡ length past
  unfolding copy_block
  length-copy_block present source target past =
      length-write_at past (target * size) (block present source)

  -- A block that is written replaces one block.
  pub block-write_at :
      (vs past : List A) (target row rows : ℕ)
      → length vs ≡ size
      → target < rows
      → length past ≡ rows * size
      → block (write_at past (target * size) vs) row
        ≡ (if target == row then vs else block past row)
  block-write_at vs past target row rows n ht sized =
      List-ext (block after row) (if target == row then vs else block past row) cell
    where
      after : List A
      after = write_at past (target * size) vs

      outside :
          (xs : List A) (at j : ℕ) → ltb j size ≡ false → get_elem? (subspan xs at size) j ≡ none
      outside xs at j e = get_elem?-subspan xs at size j ∙ rw e

      inside :
          (xs : List A) (at j : ℕ)
          → ltb j size ≡ true
          → get_elem? (subspan xs at size) j ≡ get_elem? xs (at + j)
      inside xs at j e = get_elem?-subspan xs at size j ∙ rw e

      beyond : (j : ℕ) → ltb j size ≡ false → get_elem? vs j ≡ none
      beyond j e = get_elem?-out vs j (omega (arith, n, not_below j e))
        where
          not_below : (k : ℕ) → ltb k size ≡ false → size ≤ k
          not_below k h = ground arith

      written :
          (j : ℕ)
          → ltb j size ≡ true
          → get_elem? after (row * size + j) ≡ (
              if (target == row) && ltb j (length vs)
              then get_elem? vs j
              else get_elem? past (row * size + j))
      written j e =
          get_elem?-write_row past target row j size vs (ltb→lt j size e) (omega (arith, n))
            (omega (arith, n, row_le target rows size ht))

      cell :
          (j : ℕ)
          → get_elem? (block after row) j
            ≡ get_elem? (if target == row then vs else block past row) j
      cell j = elim (Bool-cases (ltb j size)) [
        | inr e ↦ outside after (row * size) j e ∙ elim (Bool-cases (target == row)) [
          | inl same ↦ rw same (sym (beyond j e))
          | inr other ↦ rw other (sym (outside past (row * size) j e))
        ]
        | inl e ↦
            inside after (row * size) j e
            ∙ (written j e ∙ elim (Bool-cases (target == row)) [
              | inl same ↦ rw (same, n, e)
              | inr other ↦ rw other (sym (inside past (row * size) j e))
            ])
      ]

  -- A copy replaces one block.
  pub block-copy_block :
      (present past : List A) (source target row rows : ℕ)
      → source < rows
      → target < rows
      → length present ≡ rows * size
      → length past ≡ rows * size
      → block (copy_block present source target past) row
        ≡ (if target == row then block present source else block past row)
  unfolding copy_block
  block-copy_block present past source target row rows hs ht sized sized' =
      block-write_at (block present source) past target row rows
        (length-block present source rows hs sized) ht sized'

  -- A loop that gives each block to a function.
  module _ (f : List A → List A) (keeps : (vs : List A) → length (f vs) ≡ length vs) (rows : ℕ)
      (cells : List A) (sized : length cells ≡ rows * size) where
    abbrev each : ℕ → List A → List A
    each i now = write_at now (i * size) (f (block now i))

    record Given (k : ℕ) (now : List A) : Type ℓ where
      same_size : length now ≡ rows * size
      given : (row : ℕ) → row < k → block now row ≡ f (block cells row)
      kept : (row : ℕ) → k ≤ row → block now row ≡ block cells row

    Given-each : (k : ℕ) (now : List A) → k < rows → Given k now → Given (k + 1) (each k now)
    Given-each k now lt w = record {
      same_size = length-write_at now (k * size) _ ∙ w.same_size;
      given = λ row hr. changed row ∙ elim (Bool-cases (k == row)) [
        | inl same ↦
            let one = (==_iff k row).0 same in
            rw (same, one) (ap f (w.kept row (omega (arith, one))))
        | inr other ↦ rw other (w.given row (before k row other hr))
      ];
      kept = λ row hr.
          let other : (k == row) ≡ false = ground arith in
          changed row ∙ rw other (w.kept row (omega arith));
    }
      where
        before : (m n : ℕ) → (m == n) ≡ false → n < m + 1 → n < m
        before m n e h = ground arith

        changed :
            (row : ℕ)
            → block (each k now) row ≡ (if k == row then f (block now k) else block now row)
        changed row =
            block-write_at (f (block now k)) now k row rows
              (keeps (block now k) ∙ length-block now k rows lt w.same_size) lt w.same_size

    pub block-each :
        (row : ℕ) → row < rows → block (for_range rows 0 each cells) row ≡ f (block cells row)
    block-each row lt =
        (for_range_inv Given each rows 0 rows cells (omega arith)
            (λ k now h w. Given-each k now h w)
            (record { same_size = sized; given = λ r h. elim h [ ]; kept = λ r h. refl })).given
          row lt
