-- ===== src/Models/Positions/Grown.antt =====
-- After the constructor and some updates: the mask of a row has its prompt's marks and a 1 for each
-- generated token, and its position is the number of tokens before.
use onnxruntime_genai_privat.Base.{
  ℕ, zero, suc, ◌+◌, ◌-◌, ◌*◌, ◌<◌, ◌≡◌, inl, inr, refl, sym, ap, ◌∙◌, Bool-cases, true, false,
  List, [], ◌∷◌, ◌++◌, map, length, get_elem?, write_at, replicate, if◌then◌else◌, some, arith,
  for_range, for_range_inv, cell_lt, cell_eq, get_elem?-write_row, get_elem?-set, get_elem?-subspan,
  get_elem?-append, get_elem?-out, get_elem?-map, length-set, length-write_at, List-ext,
}
use onnxruntime_genai_privat.Base.Int.{ℤ, beq_ℤ}
use onnxruntime_genai_privat.Models.Blocks.{block, length-block}
use onnxruntime_genai_privat.Models.Positions.{
  PositionInputs, mask_row, count_tokens, update_position_ids, update_mask_row,
  update_attention_mask, update,
}

module _ (rows m : ℕ) (old : List ℕ) (sized : length old ≡ rows * m) where
  -- The new mask after `k` rows.
  record Marked (k : ℕ) (now : List ℕ) : Type 0 where
    same_size : length now ≡ rows * (m + 1)
    cell :
        (r c : ℕ)
        → r < rows
        → c < m + 1
        → r < k
        → get_elem? now (r * (m + 1) + c) ≡ get_elem? (block m old r ++ 1 ∷ []) c

  Marked-round :
      (k : ℕ) (now : List ℕ)
      → k < rows
      → Marked k now
      → Marked (k + 1) (update_mask_row old (m + 1) k now)
  unfolding update_mask_row
  Marked-round k now lt w =
      let source = block m old k in
      let place = k * (m + 1) + m in
      let full : length source ≡ m = length-block m old k rows lt sized in
      let inside : place < length now =
        omega (arith, w.same_size, cell_lt k rows m (m + 1) lt (omega arith)) in
      let back : m + 1 - 1 ≡ m = omega arith in
      let last : k * (m + 1) + (m + 1) - 1 ≡ place = omega arith in
      rw (back, last)
        (record {
          same_size = omega (
            arith,
            w.same_size,
            length-set (write_at now (k * (m + 1)) source) place 1,
            length-write_at now (k * (m + 1)) source,
          );
          cell = λ r c hr hc hk. ground (
            arith,
            w.cell r c hr hc,
            get_elem?-set (write_at now (k * (m + 1)) source) place (r * (m + 1) + c) 1,
            length-write_at now (k * (m + 1)) source,
            cell_eq k r m c (m + 1),
            get_elem?-write_row now k r c (m + 1) source,
            get_elem?-append source (1 ∷ []) c,
          );
        })

  Marked-end :
      (created : List ℕ)
      → length created ≡ rows * (m + 1)
      → Marked rows (for_range rows 0 (update_mask_row old (m + 1)) created)
  Marked-end created whole =
      for_range_inv Marked _ rows 0 rows created (omega arith) Marked-round
        (record { same_size = whole; cell = λ r c hr hc hk. elim hk [ ] })

  -- Each row of the new mask is the old one with a 1 behind it.
  block-for_range :
      (created : List ℕ) (i : ℕ)
      → length created ≡ rows * (m + 1)
      → i < rows
      → block (m + 1) (for_range rows 0 (update_mask_row old (m + 1)) created) i
        ≡ block m old i ++ 1 ∷ []
  block-for_range created i whole hi =
      let full = length-block m old i rows hi sized in
      List-ext _ _ λ j. ground (
        arith,
        get_elem?-subspan (for_range rows 0 (update_mask_row old (m + 1)) created) (i * (m + 1))
            (m + 1) j,
        get_elem?-append (block m old i) (1 ∷ []) j,
        get_elem?-out {A = ℕ} (1 ∷ []) (j - m),
        full,
        (Marked-end created whole).cell i j hi,
      )

-- The updates for the lengths behind `current_length`.
unfoldable pub updates : (ℕ → List ℕ) → ℕ → ℕ → PositionInputs → PositionInputs
updates create zero current_length p = p
updates create (suc n) current_length p =
    updates create n (current_length + 1) (update create (current_length + 1) p)

unfoldable pub ones : List ℕ → ℕ
ones [] = 0
ones (mark ∷ marks) = mark + ones marks

-- The number of tokens of a row is that of the ones in its mask.
pub count_tokens-ones :
    (pad : ℤ) (words : List ℤ) (start : ℕ)
    → count_tokens pad start words ≡ start + ones (mask_row pad words)
unfolding count_tokens mask_row ones
count_tokens-ones pad [] start = omega arith
count_tokens-ones pad (word ∷ words) start = elim (Bool-cases (beq_ℤ word pad)) [
  | inl e ↦ rw e (omega (arith, count_tokens-ones pad words start))
  | inr e ↦ rw e (omega (arith, count_tokens-ones pad words (start + 1)))
]

pub length-mask_row : (pad : ℤ) (words : List ℤ) → length (mask_row pad words) ≡ length words
unfolding mask_row
length-mask_row pad [] = refl
length-mask_row pad (word ∷ words) = ap suc (length-mask_row pad words)

replicate-suc : (n : ℕ) (xs : List ℕ) → (xs ++ replicate n 1) ++ 1 ∷ [] ≡ xs ++ replicate (suc n) 1
replicate-suc n [] = repeated n
  where
    repeated : (k : ℕ) → replicate k 1 ++ 1 ∷ [] ≡ replicate {A = ℕ} (suc k) 1
    repeated zero = refl
    repeated (suc k) = ap (λ (l : List ℕ). 1 ∷ l) (repeated k)
replicate-suc n (x ∷ xs) = ap (λ (l : List ℕ). x ∷ l) (replicate-suc n xs)

-- Inputs of a model that has both, behind their first update: row `r` had the marks `marks r` and the
-- position `first r`.
pub record IsAt (rows m : ℕ) (marks : ℕ → List ℕ) (first : ℕ → ℕ) (n : ℕ) (p : PositionInputs)
    : Type 0 where
  pub both :
      (p.has_mask_input ≡ true) × (p.has_posid_input ≡ true) × (p.is_first_posid_update ≡ false)
  pub same_rows : p.rows ≡ rows
  pub sized : length p.attention_mask ≡ rows * (m + suc n)
  pub mask :
      (r : ℕ) → r < rows → block (m + suc n) p.attention_mask r ≡ marks r ++ replicate (suc n) 1
  pub position : (r : ℕ) → r < rows → get_elem? p.position_ids r ≡ some (first r + n)

-- An update of inputs that the model both has, by the fields that it changes.
module _ (create : ℕ → List ℕ) (current_length : ℕ) (p : PositionInputs)
    (has_mask : p.has_mask_input ≡ true) (has_posid : p.has_posid_input ≡ true) where
  unfolds_to :
      update create current_length p
      ≡ update_attention_mask create current_length (update_position_ids p)
  unfolding update
  unfolds_to = simp (has_mask, has_posid)

  mask-update :
      (update create current_length p).attention_mask
      ≡ for_range p.rows 0
          (update_mask_row p.attention_mask current_length)
          (create (p.rows * current_length))
  unfolding update_attention_mask update_position_ids
  mask-update =
      rw unfolds_to (elim (Bool-cases p.is_first_posid_update) [ inl e ↦ simp e | inr e ↦ simp e ])

  rows-update : (update create current_length p).rows ≡ p.rows
  unfolding update_attention_mask update_position_ids
  rows-update =
      rw unfolds_to (elim (Bool-cases p.is_first_posid_update) [ inl e ↦ simp e | inr e ↦ simp e ])

  flags-update :
      ((update create current_length p).has_mask_input ≡ true)
      × ((update create current_length p).has_posid_input ≡ true)
      × ((update create current_length p).is_first_posid_update ≡ false)
  unfolding update_attention_mask update_position_ids
  flags-update = rw unfolds_to (elim (Bool-cases p.is_first_posid_update) [
    | inl e ↦ simp e (has_mask, has_posid, refl)
    | inr e ↦ simp e (has_mask, has_posid, refl)
  ])

  position-update :
      (update create current_length p).position_ids
      ≡ (if p.is_first_posid_update then p.position_ids_next else map (λ id. id + 1) p.position_ids)
  unfolding update_attention_mask update_position_ids
  position-update =
      rw unfolds_to (elim (Bool-cases p.is_first_posid_update) [ inl e ↦ simp e | inr e ↦ simp e ])

  -- Each row of the mask gets a 1 behind it.
  masks-update :
      (created : (n : ℕ) → length (create n) ≡ n) (w : ℕ)
      → current_length ≡ w + 1
      → length p.attention_mask ≡ p.rows * w
      → (length (update create current_length p).attention_mask ≡ p.rows * (w + 1))
        × ((r : ℕ)
            → r < p.rows
            → block (w + 1) (update create current_length p).attention_mask r
              ≡ block w p.attention_mask r ++ 1 ∷ [])
  masks-update created w e whole =
      let fresh : length (create (p.rows * (w + 1))) ≡ p.rows * (w + 1) =
        created (p.rows * (w + 1)) in
      let end = Marked-end p.rows w p.attention_mask whole (create (p.rows * (w + 1))) fresh in
      rw mask-update (
        rw e (
          end.same_size,
          λ r hr.
              block-for_range p.rows w p.attention_mask whole (create (p.rows * (w + 1))) r fresh
                hr,
        ))

module _ (create : ℕ → List ℕ) (created : (n : ℕ) → length (create n) ≡ n) (rows m : ℕ)
    (marks : ℕ → List ℕ) (first : ℕ → ℕ) where
  -- The first update takes the positions that the constructor left for it.
  pub IsAt-start :
      (p : PositionInputs)
      → (p.has_mask_input ≡ true) × (p.has_posid_input ≡ true) × (p.is_first_posid_update ≡ true)
      → p.rows ≡ rows
      → length p.attention_mask ≡ rows * m
      → ((r : ℕ) → r < rows → block m p.attention_mask r ≡ marks r)
      → ((r : ℕ) → r < rows → get_elem? p.position_ids_next r ≡ some (first r))
      → IsAt rows m marks first 0 (update create (m + 1) p)
  IsAt-start p (mask, posid, fresh) same whole marked counted =
      let grown =
        masks-update create (m + 1) p mask posid created m refl
          (whole ∙ ap (λ k. k * m) (sym same)) in
      record {
        both = flags-update create (m + 1) p mask posid;
        same_rows = rows-update create (m + 1) p mask posid ∙ same;
        sized = grown.0 ∙ ap (λ k. k * (m + 1)) same;
        mask = λ r hr. (grown.1 r (omega (arith, same)) ∙ rw (marked r hr) refl);
        position = λ r hr.
            let none_yet : first r + 0 ≡ first r = omega arith in
            rw (position-update create (m + 1) p mask posid, none_yet) (rw fresh (counted r hr));
      }

  IsAt-update :
      (n : ℕ) (p : PositionInputs)
      → IsAt rows m marks first n p
      → IsAt rows m marks first (suc n) (update create (m + suc n + 1) p)
  IsAt-update n p h =
      let (mask, posid, later) = h.both in
      let grown =
        masks-update create (m + suc n + 1) p mask posid created (m + suc n) refl
          (h.sized ∙ ap (λ k. k * (m + suc n)) (sym h.same_rows)) in
      let next : m + suc (suc n) ≡ m + suc n + 1 = omega arith in
      record {
        both = flags-update create (m + suc n + 1) p mask posid;
        same_rows = rows-update create (m + suc n + 1) p mask posid ∙ h.same_rows;
        sized = rw next (grown.0 ∙ ap (λ k. k * (m + suc n + 1)) h.same_rows);
        mask = λ r hr. rw next (
            grown.1 r (omega (arith, h.same_rows))
            ∙ (rw (h.mask r hr) (replicate-suc (suc n) (marks r))));
        position = λ r hr.
            let one_more : first r + suc n ≡ first r + n + 1 = omega arith in
            rw (position-update create (m + suc n + 1) p mask posid, one_more)
              (rw later (get_elem?-map (λ id. id + 1) p.position_ids r (h.position r hr)));
      }

  pub IsAt-updates :
      (k n : ℕ) (p : PositionInputs)
      → IsAt rows m marks first n p
      → IsAt rows m marks first (n + k) (updates create k (m + suc n) p)
  unfolding updates
  IsAt-updates zero n p h = let same : n + 0 ≡ n = omega arith in rw same h
  IsAt-updates (suc k) n p h =
      let later : n + suc k ≡ suc n + k = omega arith in
      let place : m + suc n + 1 ≡ m + suc (suc n) = omega arith in
      rw later (
        rw place (
          IsAt-updates k (suc n) (update create (m + suc (suc n)) p)
            (rw place at (IsAt-update n p h))))
