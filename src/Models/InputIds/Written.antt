-- ===== src/Models/InputIds/Written.antt =====
-- Update of the input tokens writes the tensor that the model reads, and no other.
use onnxruntime_genai_privat.Base.{
  ℕ, ◌*◌, ◌≤◌, ◌<◌, ◌≡◌, ◌≢◌, inl, inr, refl, Bool-cases, some, List, ◌==◌, ==_iff, length,
  get_elem?, arith, ap, zero, suc, get_or, lt→ltb, ltb→lt, take-all, ◌∷◌, ◌++◌, false, List-ext,
  write_at, get_elem?-write_at, ltb, ◌∙◌, length-set, get_or-set, [], get_elem?-out, length-append,
  sym, get_elem?-set,
}
use onnxruntime_genai_privat.Base.Int.{ℤ}
use onnxruntime_genai_privat.Models.InputIds.{
  get_tensor, Memory, InputIds, resize, write_tokens, update,
}

-- The model reads the tensor, which has the cells of its shape.
pub record IsBound (ids : InputIds) (m : Memory) : Type 0 where
  pub bound : get_elem? m.inputs ids.input_index ≡ some ids.value
  pub inside : ids.value < length m.tensors
  pub cells : length (get_tensor ids.value m) ≡ ids.rows * ids.sequence_length

pub record IsWritten (m : Memory) (next_tokens : List ℤ) (after : InputIds × Memory) : Type 0 where
  pub still_bound : IsBound after.0 after.1
  pub one_place : after.0.sequence_length ≡ 1
  pub written : get_tensor after.0.value after.1 ≡ next_tokens
  pub others :
      (k : ℕ) → k < length m.tensors → k ≢ after.0.value → get_tensor k after.1 ≡ get_tensor k m

get_or-append :
    (xs ys : List (List ℤ)) (k : ℕ) → k < length xs → get_or (xs ++ ys) k [] ≡ get_or xs k []
get_or-append [] ys k lt = elim lt [ ]
get_or-append (x ∷ xs) ys zero lt = refl
get_or-append (x ∷ xs) ys (suc k) lt = get_or-append xs ys k (omega arith)

get_or-append_last : (xs : List (List ℤ)) (y : List ℤ) → get_or (xs ++ y ∷ []) (length xs) [] ≡ y
get_or-append_last [] y = refl
get_or-append_last (x ∷ xs) y = get_or-append_last xs y

write_at-whole :
    (cells next_tokens : List ℤ)
    → length next_tokens ≡ length cells
    → write_at cells 0 next_tokens ≡ next_tokens
write_at-whole cells next_tokens same = List-ext _ _ cell
  where
    cell : (j : ℕ) → get_elem? (write_at cells 0 next_tokens) j ≡ get_elem? next_tokens j
    cell j = elim (Bool-cases (ltb j (length next_tokens))) [
      | inl e ↦ ground (arith, get_elem?-write_at cells 0 next_tokens j (omega (arith, same)))
      | inr e ↦ ground (
        arith,
        same,
        get_elem?-write_at cells 0 next_tokens j (omega (arith, same)),
        get_elem?-out cells j,
        get_elem?-out next_tokens j,
      )
    ]

write_tokens-IsWritten :
    (next_tokens : List ℤ) (ids : InputIds) (m : Memory)
    → IsBound ids m
    → length next_tokens ≡ ids.rows
    → ids.sequence_length ≡ 1
    → IsWritten m next_tokens (ids, write_tokens next_tokens ids m)
unfolding write_tokens
write_tokens-IsWritten next_tokens ids m w rows one = record {
  still_bound = record {
    bound = w.bound;
    inside = rw (length-set m.tensors ids.value _) w.inside;
    cells = ap (λ (l : List ℤ). length l) read ∙ (rows ∙ rw one (omega arith));
  };
  one_place = one;
  written = read;
  others = λ k lt other.
      let apart : (ids.value == k) ≡ false = ground (arith, other) in
      get_or-set m.tensors ids.value k _ [] ∙ rw apart;
}
  where
    room : length next_tokens ≡ length (get_tensor ids.value m)
    room = rows ∙ sym (w.cells ∙ rw one (omega arith))

    read : get_tensor ids.value (write_tokens next_tokens ids m) ≡ next_tokens
    read =
        get_or-set m.tensors ids.value ids.value _ []
        ∙ rw
            (
              (==_iff ids.value ids.value).1 refl,
              lt→ltb ids.value _ w.inside,
              take-all ids.rows next_tokens (omega (arith, rows)),
            )
            (write_at-whole (get_tensor ids.value m) next_tokens room)

module _ (created : ℕ → List ℤ) (sized : (n : ℕ) → length (created n) ≡ n) where
  resized-IsBound :
      (ids : InputIds) (m : Memory)
      → IsBound ids m
      → (ids.sequence_length == 1) ≡ false
      → IsBound (resize created ids m).0 (resize created ids m).1
  unfolding resize
  resized-IsBound ids m w many = rw many (record {
    bound =
        get_elem?-set m.inputs ids.input_index ids.input_index (length m.tensors) index_in
        ∙ rw ((==_iff ids.input_index ids.input_index).1 refl);
    inside = omega (arith, length-append m.tensors (created ids.rows ∷ []));
    cells =
        ap (λ (l : List ℤ). length l) (get_or-append_last m.tensors (created ids.rows))
        ∙ (sized ids.rows ∙ omega arith);
  })
    where
      index_in : ids.input_index < length m.inputs
      index_in = elim (Bool-cases (ltb ids.input_index (length m.inputs))) [
        | inl lt ↦ ltb→lt ids.input_index _ lt
        | inr out ↦
            let gone = get_elem?-out m.inputs ids.input_index (beyond _ _ out) in
            absurd (cc (gone, w.bound))
      ]
        where
          beyond : (i n : ℕ) → ltb i n ≡ false → n ≤ i
          beyond i n h = ground arith

  -- A new tensor leaves the old ones.
  resized-others :
      (ids : InputIds) (m : Memory) (k : ℕ)
      → k < length m.tensors
      → (k < length (resize created ids m).1.tensors)
        × (get_tensor k (resize created ids m).1 ≡ get_tensor k m)
  unfolding resize
  resized-others ids m k lt = elim (Bool-cases (ids.sequence_length == 1)) [
    | inl one ↦ rw one (lt, refl)
    | inr many ↦ rw many (
      omega (arith, length-append m.tensors (created ids.rows ∷ [])),
      get_or-append m.tensors (created ids.rows ∷ []) k lt,
    )
  ]

  -- If a new tensor of a size has so many cells, the input of the model points to the tensor, which
  -- has the cells of its shape, and there is a token for each row, Update leaves the input pointing to
  -- a tensor of one place for each row that holds just the next tokens, and every other tensor that
  -- there was keeps its cells.
  pub update-IsWritten :
      (next_tokens : List ℤ) (ids : InputIds) (m : Memory)
      → IsBound ids m
      → length next_tokens ≡ ids.rows
      → IsWritten m next_tokens (update created next_tokens ids m)
  unfolding update resize
  update-IsWritten next_tokens ids m w rows = elim (Bool-cases (ids.sequence_length == 1)) [
    | inl one ↦
        rw one
          (write_tokens-IsWritten next_tokens ids m w rows ((==_iff ids.sequence_length 1).0 one))
    | inr many ↦
        let there = resized-IsBound ids m w many in
        let v =
          write_tokens-IsWritten next_tokens (resize created ids m).0 (resize created ids m).1 there
            (rw many rows) (rw many) in
        let old = resized-others ids m in
        record {
          still_bound = v.still_bound;
          one_place = v.one_place;
          written = v.written;
          others = λ k lt other. v.others k (old k lt).0 other ∙ (old k lt).1;
        }
  ]
