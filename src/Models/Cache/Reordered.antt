-- ===== src/Models/Cache/Reordered.antt =====
-- The pasts that a beam search hands to the next run are the presents of the chosen rows.
use onnxruntime_genai_privat.Base.{
  ℕ, zero, suc, ◌+◌, ◌*◌, ◌-◌, ◌≤◌, ◌<◌, ◌≡◌, inl, inr, refl, sym, ap, ◌∙◌, true, false, ◌==◌,
  ==_iff, ◌⊎◌, some, List, [], ◌∷◌, map, length, get_elem?, get_or, leb, ltb, write_at, Bool-cases,
  for_range_inv, get_elem?-write_at, get_elem?-map, arith,
}
use native.Mathlib.Nat.{mul_assoc}
use onnxruntime_genai_privat.Models.Blocks.{block, copy_block, length-copy_block, block-copy_block}
use onnxruntime_genai_privat.Models.Cache.{
  KvCache, Bindings, block_size, element_count, is_empty, pick_past_state, pick_combined_state,
  rebind, update,
}

-- Each row of the batch is told an old row.
abbrev pub Chosen : ℕ → List ℕ → Type 0
Chosen rows beam_indices =
    (length beam_indices ≡ rows) × ((j : ℕ) → j < rows → get_or beam_indices j 0 < rows)

module _ {ℓ} {A : Type ℓ} (create : ℕ → List A) (sized : (n : ℕ) → length (create n) ≡ n)
    (cache : KvCache A) (beam_indices : List ℕ) (chosen : Chosen cache.batch_beam_size beam_indices)
    (present : List A) where
  -- After `k` rounds the first `k` rows are the chosen ones, in each of the parts of the tensor that
  -- begin at the row `first`.
  record Picked (rows first k : ℕ) (past : List A) : Type ℓ where
    same_size : length past ≡ rows * block_size create cache
    picked :
        (r : ℕ)
        → r < k
        → block (block_size create cache) past (first + r)
          ≡ block (block_size create cache) present (first + get_or beam_indices r 0)

  Picked-copy :
      (rows first k source target : ℕ) (past : List A)
      → length present ≡ rows * block_size create cache
      → first + cache.batch_beam_size ≤ rows
      → k < cache.batch_beam_size
      → source ≡ first + get_or beam_indices k 0
      → target ≡ first + k
      → Picked rows first k past
      → Picked rows first (k + 1) (copy_block (block_size create cache) present source target past)
  Picked-copy rows first k source target past here room lt from to w = record {
    same_size =
        length-copy_block (block_size create cache) present source target past ∙ w.same_size;
    picked = λ r hr.
        let there = chosen.1 k lt in
        let changed =
          block-copy_block (block_size create cache) present past source target (first + r) rows
            (omega (arith, from)) (omega (arith, to)) here w.same_size in
        changed ∙ elim (Bool-cases (target == (first + r))) [
          | inl same ↦
              let row : k ≡ r = omega (arith, to, (==_iff target (first + r)).0 same) in
              rw (same, from, row) refl
          | inr other ↦ rw other (w.picked r (before first k target r to other hr))
        ];
  }
    where
      before :
          (first k target r : ℕ)
          → target ≡ first + k
          → (target == (first + r)) ≡ false
          → r < k + 1
          → r < k
      before first k target r to other hr = ground arith

  -- A copy to another part leaves this one.
  Picked-other :
      (rows first k source target : ℕ) (past : List A)
      → length present ≡ rows * block_size create cache
      → (first + k ≤ target) ⊎ (target < first)
      → source < rows
      → target < rows
      → Picked rows first k past
      → Picked rows first k (copy_block (block_size create cache) present source target past)
  Picked-other rows first k source target past here behind from to w = record {
    same_size =
        length-copy_block (block_size create cache) present source target past ∙ w.same_size;
    picked = λ r hr.
        let other : (target == (first + r)) ≡ false = ground arith in
        block-copy_block (block_size create cache) present past source target (first + r) rows from
          (omega arith) here w.same_size
        ∙ rw other (w.picked r hr);
  }

  pick_past_state-Picked :
      length present ≡ element_count create cache
      → Picked cache.batch_beam_size 0 cache.batch_beam_size
          (pick_past_state create cache beam_indices present)
  unfolding pick_past_state
  pick_past_state-Picked here =
      for_range_inv (Picked cache.batch_beam_size 0) _ (length beam_indices) 0 cache.batch_beam_size
        (create (element_count create cache)) (omega (arith, chosen.0))
        (λ k past lt w.
          Picked-copy cache.batch_beam_size 0 k _ k past here (omega arith) lt (omega arith)
            (omega arith) w)
        (record { same_size = sized (element_count create cache); picked = λ r hr. elim hr [ ] })

  -- Keys and values of the combined tensor.
  Both : ℕ → List A → Type ℓ
  Both k past =
      Picked (2 * cache.batch_beam_size) 0 k past
      × Picked (2 * cache.batch_beam_size) cache.batch_beam_size k past

  pick_combined_state-Both :
      length present ≡ 2 * cache.batch_beam_size * block_size create cache
      → Both cache.batch_beam_size (pick_combined_state create cache beam_indices present)
  unfolding pick_combined_state Both
  pick_combined_state-Both here =
      for_range_inv Both _ (length beam_indices) 0 cache.batch_beam_size
        (create (2 * element_count create cache)) (omega (arith, chosen.0))
        (λ k past lt w.
          let from = chosen.1 k lt in
          let keys =
            Picked-copy (2 * cache.batch_beam_size) 0 k _ k past here (omega arith) lt (omega arith)
              (omega arith) w.0 in
          let old =
            Picked-other (2 * cache.batch_beam_size) cache.batch_beam_size k
              (get_or beam_indices k 0) k past here (inr lt) (omega arith) (omega arith) w.1 in
          (
            Picked-other (2 * cache.batch_beam_size) 0 (k + 1) _ (cache.batch_beam_size + k) _ here
                (inl (omega arith)) (omega arith) (omega arith) keys,
            Picked-copy (2 * cache.batch_beam_size) cache.batch_beam_size k _ _ _ here (omega arith)
                lt refl refl old,
          ))
        (
          record { same_size = start; picked = λ r hr. elim hr [ ] },
          record { same_size = start; picked = λ r hr. elim hr [ ] },
        )
    where
      start :
          length (create (2 * element_count create cache))
          ≡ 2 * cache.batch_beam_size * block_size create cache
      start =
          sized (2 * element_count create cache)
          ∙ sym (mul_assoc 2 cache.batch_beam_size (block_size create cache))

length-map {ℓ κ} :
    {A : Type ℓ} {B : Type κ} (f : A → B) (xs : List A) → length (map f xs) ≡ length xs
length-map f [] = refl
length-map f (x ∷ xs) = ap suc (length-map f xs)

in_range {ℓ} : {A : Type ℓ} (xs : List A) (i : ℕ) {x : A} → get_elem? xs i ≡ some x → i < length xs
in_range [] i h = absurd cc
in_range (y ∷ xs) zero h = omega arith
in_range (y ∷ xs) (suc i) h = omega (arith, in_range xs i h)

is_empty-false : (indices : List ℕ) → 0 < length indices → is_empty indices ≡ false
is_empty-false [] h = absurd (omega arith)
is_empty-false (index ∷ rest) h = refl

written {ℓ} :
    {A : Type ℓ} (xs vs : List A) (at i : ℕ)
    → i < length vs
    → at + length vs ≤ length xs
    → get_elem? (write_at xs at vs) (at + i) ≡ get_elem? vs i
written xs vs at i lt room =
    let low : leb at (at + i) ≡ true = ground arith in
    let high : ltb (at + i) (at + length vs) ≡ true = ground arith in
    let back : at + i - at ≡ i = omega arith in
    get_elem?-write_at xs at vs (at + i) room ∙ rw (low, high, back)

module _ {ℓ} {A : Type ℓ} (create : ℕ → List A) (sized : (n : ℕ) → length (create n) ≡ n)
    (cache : KvCache A) (state : Bindings A) (beam_indices : List ℕ) (current_length : ℕ) where
  -- If a new tensor of a size has so many cells, buffers are not shared, there are rows, each of which
  -- is told an old row, the inputs of the cache are bound and present `i` has the cells of its shape,
  -- then what an update binds as input `i` has in row `j` what the present had in the row chosen for
  -- `j`.
  pub block-update :
      (i j : ℕ) (present : List A)
      → Chosen cache.batch_beam_size beam_indices
      → cache.past_present_share_buffer ≡ false
      → 0 < cache.batch_beam_size
      → cache.input_index + length cache.presents ≤ length state.inputs
      → get_elem? cache.presents i ≡ some present
      → length present ≡ element_count create cache
      → j < cache.batch_beam_size
      → (past : List A) × (get_elem?
            (update create beam_indices current_length cache state).1.inputs
            (cache.input_index + i)
          ≡ some past)
        × (block (block_size create cache) past j
            ≡ block (block_size create cache) present (get_or beam_indices j 0))
  unfolding update rebind
  block-update i j present chosen unshared rows room here whole lt =
      let w = pick_past_state-Picked create sized cache beam_indices chosen present whole in
      let from : 0 + j ≡ j = omega arith in
      let to : 0 + get_or beam_indices j 0 ≡ get_or beam_indices j 0 = omega arith in
      let pasts = map (pick_past_state create cache beam_indices) cache.presents in
      let picked =
        get_elem?-map (pick_past_state create cache beam_indices) cache.presents i here in
      let same = length-map (pick_past_state create cache beam_indices) cache.presents in
      let inside = in_range cache.presents i here in
      let some_rows = is_empty-false beam_indices (omega (arith, chosen.0)) in
      (
        pick_past_state create cache beam_indices present,
        simp (unshared, some_rows)
            (written state.inputs pasts cache.input_index i (omega (arith, same, inside))
                (omega (arith, same))
              ∙ picked),
        rw (from, to) at (w.picked j lt),
      )
