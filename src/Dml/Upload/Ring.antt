-- ===== src/Dml/Upload/Ring.antt =====
-- One chunk: its allocations go round the ring without touching each other, also with the one that
-- FindOffsetForAllocation finds room for.
use onnxruntime_genai_privat.Base.{
  ℕ, ◌+◌, ◌%◌, ◌^◌, ◌≤◌, ◌<◌, ◌≡◌, ◌⊎◌, inl, inr, refl, sym, ap, false, some, List, [], ◌∷◌, ◌++◌,
  Bool-cases, ltb, arith,
}
use onnxruntime_genai_privat.Dml.Fence.{is_signaled}
use onnxruntime_genai_privat.Dml.Upload.{
  Allocation, Chunk, align, back, end_of, find_behind, find_in, find_offset_for_allocation,
  pop_signaled, allocation_alignment,
}
use mathlib.Core.List.{append_assoc, append-nil}

-- Allocations one behind another, from `low` to `high`, each aligned and not empty.
abbrev pub Run : ℕ → List Allocation → ℕ → Type 0
Run low [] high = low ≤ high
Run low (a ∷ rest) high =
    (low ≤ a.offset_in_chunk)
    × (0 < a.size_in_bytes)
    × (a.offset_in_chunk % allocation_alignment ≡ 0)
    × Run (a.offset_in_chunk + a.size_in_bytes) rest high

-- The older allocations run up to the end of the chunk at most, and the newer ones, from the
-- beginning of the chunk, up to the oldest.
pub data IsRing (capacity : ℕ) (allocations : List Allocation) : Type 0 where
  unused : allocations ≡ [] → IsRing capacity allocations
  around :
      (first : Allocation) (older newer : List Allocation)
      → allocations ≡ first ∷ (older ++ newer)
      → Run first.offset_in_chunk (first ∷ older) capacity
      → Run 0 newer first.offset_in_chunk
      → IsRing capacity allocations

pub Run-high : (xs : List Allocation) (low high : ℕ) → Run low xs high → low ≤ high
Run-high [] low high h = h
Run-high (a ∷ rest) low high h = omega (arith, Run-high rest _ high h.3)

Run-weaken :
    (xs : List Allocation) (low high higher : ℕ)
    → Run low xs high
    → high ≤ higher
    → Run low xs higher
Run-weaken [] low high higher h le = omega arith
Run-weaken (a ∷ rest) low high higher h le = (h.0, h.1, h.2, Run-weaken rest _ high higher h.3 le)

Run-back :
    (rest : List Allocation) (first : Allocation) (low high : ℕ)
    → Run low (first ∷ rest) high
    → (low ≤ (back first rest).offset_in_chunk)
      × (0 < (back first rest).size_in_bytes)
      × ((back first rest).offset_in_chunk + (back first rest).size_in_bytes ≤ high)
unfolding back
Run-back [] first low high h = (h.0, h.1, h.3)
Run-back (next ∷ rest) first low high h =
    let later = Run-back rest next _ high h.3 in (omega arith, later.1, later.2)

Run-push :
    (rest : List Allocation) (first : Allocation) (low high higher : ℕ) (a : Allocation)
    → Run low (first ∷ rest) high
    → (back first rest).offset_in_chunk + (back first rest).size_in_bytes ≤ a.offset_in_chunk
    → 0 < a.size_in_bytes
    → a.offset_in_chunk % allocation_alignment ≡ 0
    → a.offset_in_chunk + a.size_in_bytes ≤ higher
    → Run low (first ∷ (rest ++ a ∷ [])) higher
unfolding back
Run-push [] first low high higher a h behind filled aligned fits =
    (h.0, h.1, h.2, (behind, filled, aligned, fits))
Run-push (next ∷ rest) first low high higher a h behind filled aligned fits =
    (h.0, h.1, h.2, Run-push rest next _ high higher a h.3 behind filled aligned fits)

back-append :
    (older : List Allocation) (first next : Allocation) (newer : List Allocation)
    → back first (older ++ next ∷ newer) ≡ back next newer
unfolding back
back-append [] first next newer = refl
back-append (x ∷ older) first next newer = back-append older x next newer

align_lem :
    (offset : ℕ)
    → offset ≤ 2 ^ 63
    → (offset ≤ align offset)
      × (align offset % allocation_alignment ≡ 0)
      × (align offset ≤ offset + 511)
unfolding align
align_lem offset h = omega arith

pub IsRing-pop :
    (capacity : ℕ) (first : Allocation) (rest : List Allocation)
    → IsRing capacity (first ∷ rest)
    → IsRing capacity rest
IsRing-pop capacity first rest (unused e) = absurd cc
IsRing-pop capacity first rest (around x [] [] e high low) = unused cc
IsRing-pop capacity first rest (around x [] (y ∷ newer) e high low) =
    around y newer [] (rw (append-nil newer) cc)
      ((omega arith), low.1, low.2, (Run-weaken newer _ _ capacity low.3 (omega (arith, high.3))))
      (omega arith)
IsRing-pop capacity first rest (around x (y ∷ older) newer e high low) =
    around y older newer (cc) (omega arith, high.3.1, high.3.2, high.3.3)
      (Run-weaken newer 0 _ _ low (omega arith))

pub IsRing-pop_signaled :
    (completed capacity : ℕ) (xs : List Allocation)
    → IsRing capacity xs
    → IsRing capacity (pop_signaled completed xs)
unfolding pop_signaled
IsRing-pop_signaled completed capacity [] h = h
IsRing-pop_signaled completed capacity (first ∷ rest) h =
    elim (Bool-cases (is_signaled completed first.done_event)) [
      | inl e ↦
          rw e (IsRing-pop_signaled completed capacity rest (IsRing-pop capacity first rest h))
      | inr e ↦ rw e h
    ]

-- The place that is found is behind the last allocation and before the oldest, or at the beginning.
find_behind-eq-some :
    (capacity size first_offset last_offset begin o : ℕ)
    → find_behind capacity size first_offset last_offset begin ≡ some o
    → begin ≤ 2 ^ 63 + 511
    → size ≤ 2 ^ 63
    → ((first_offset ≤ last_offset) × (o ≡ begin) × (begin + size ≤ capacity))
      ⊎ ((first_offset ≤ last_offset) × (o ≡ 0) × (size ≤ first_offset))
      ⊎ ((last_offset < first_offset) × (o ≡ begin) × (begin + size ≤ first_offset))
unfolding find_behind
find_behind-eq-some capacity size first_offset last_offset begin o e b s = ground arith

begin_lem :
    (a : Allocation)
    → a.offset_in_chunk + a.size_in_bytes ≤ 2 ^ 63
    → (a.offset_in_chunk + a.size_in_bytes ≤ align (end_of a))
      × (align (end_of a) % allocation_alignment ≡ 0)
      × (align (end_of a) ≤ 2 ^ 63 + 511)
begin_lem a h =
    let whole : end_of a ≡ a.offset_in_chunk + a.size_in_bytes = omega arith in
    rw whole (
      let facts = align_lem (a.offset_in_chunk + a.size_in_bytes) h in
      (facts.0, facts.1, omega (arith, facts.2)))

pub IsRing-single :
    (capacity : ℕ) (a : Allocation)
    → 0 < a.size_in_bytes
    → a.size_in_bytes ≤ capacity
    → a.offset_in_chunk ≡ 0
    → IsRing capacity (a ∷ [])
IsRing-single capacity a pos fit zeroth = around a [] [] refl (ground arith) (ground arith)

module _ (capacity : ℕ) (a first : Allocation) (cap : capacity ≤ 2 ^ 63) (pos : 0 < a.size_in_bytes)
    (fit : a.size_in_bytes ≤ capacity) where
  -- Room behind the last of one run, or before it.
  push_older :
      (older : List Allocation)
      → Run first.offset_in_chunk (first ∷ older) capacity
      → find_in (first ∷ older) capacity a.size_in_bytes ≡ some a.offset_in_chunk
      → IsRing capacity (first ∷ (older ++ a ∷ []))
  unfolding find_in
  push_older older high found =
      let last = Run-back older first _ capacity high in
      let begin = begin_lem (back first older) (omega (arith, last.2)) in
      elim (find_behind-eq-some capacity _ _ _ _ a.offset_in_chunk found begin.2 (omega arith)) [
        | inl (_, e, room) ↦
            around first (older ++ a ∷ []) [] (rw (append-nil (older ++ a ∷ [])))
              (Run-push older first _ capacity capacity a high (omega (arith, e, begin.0)) pos
                (rw e begin.1) (omega (arith, e, room)))
              (omega arith)
        | inr (inl (_, e, room)) ↦
            around first older (a ∷ []) refl high
              ((omega arith), pos, (omega (arith, e)), (omega (arith, e, room)))
        | inr (inr (before, _, _)) ↦ absurd (omega (arith, before, last.0))
      ]

  -- Room between the last of the newer run and the oldest.
  push_newer :
      (older : List Allocation) (next : Allocation) (newer : List Allocation)
      → Run first.offset_in_chunk (first ∷ older) capacity
      → Run 0 (next ∷ newer) first.offset_in_chunk
      → find_in (first ∷ (older ++ next ∷ newer)) capacity a.size_in_bytes ≡ some a.offset_in_chunk
      → IsRing capacity (first ∷ ((older ++ next ∷ newer) ++ a ∷ []))
  unfolding find_in
  push_newer older next newer high low found =
      let last = Run-back newer next 0 first.offset_in_chunk low in
      let top = Run-high (first ∷ older) _ capacity high in
      let begin = begin_lem (back next newer) (omega (arith, last.2, top)) in
      let found' = rw (back-append older first next newer) at found in
      elim (find_behind-eq-some capacity _ _ _ _ a.offset_in_chunk found' begin.2 (omega arith)) [
        | inl (before, _, _) ↦ absurd (omega (arith, before, last.1, last.2))
        | inr (inl (before, _, _)) ↦ absurd (omega (arith, before, last.1, last.2))
        | inr (inr (_, e, room)) ↦
            around first older (next ∷ (newer ++ a ∷ []))
              (ap (λ (l : List Allocation). first ∷ l) (append_assoc older (next ∷ newer) (a ∷ [])))
              high
              (Run-push newer next 0 first.offset_in_chunk first.offset_in_chunk a low
                (omega (arith, e, begin.0)) pos (rw e begin.1) (omega (arith, e, room)))
      ]

-- What FindOffsetForAllocation finds keeps the ring: the new allocation is aligned, lies in the
-- chunk and touches no other.
pub IsRing-push :
    (chunk : Chunk) (a : Allocation)
    → IsRing chunk.capacity_in_bytes chunk.allocations
    → chunk.capacity_in_bytes ≤ 2 ^ 63
    → 0 < a.size_in_bytes
    → find_offset_for_allocation chunk a.size_in_bytes ≡ some a.offset_in_chunk
    → IsRing chunk.capacity_in_bytes (chunk.allocations ++ a ∷ [])
unfolding find_offset_for_allocation find_in
IsRing-push chunk a ring cap pos found =
    elim (Bool-cases (ltb chunk.capacity_in_bytes a.size_in_bytes)) [
      | inl small ↦ absurd (let no = rw small at found in cc no)
      | inr fits ↦ held ring (rw fits at found) (omega (arith, not_small fits))
    ]
  where
    not_small :
        ltb chunk.capacity_in_bytes a.size_in_bytes ≡ false
        → a.size_in_bytes ≤ chunk.capacity_in_bytes
    not_small h = ground arith

    held :
        {xs : List Allocation}
        → IsRing chunk.capacity_in_bytes xs
        → find_in xs chunk.capacity_in_bytes a.size_in_bytes ≡ some a.offset_in_chunk
        → a.size_in_bytes ≤ chunk.capacity_in_bytes
        → IsRing chunk.capacity_in_bytes (xs ++ a ∷ [])
    held {xs} (unused e) here fit =
        let found : some 0 ≡ some a.offset_in_chunk = rw (find_in, e) at here in
        let zeroth : 0 ≡ a.offset_in_chunk = cc found in
        rw e (IsRing-single chunk.capacity_in_bytes a pos fit (sym zeroth))
    held {xs} (around first older [] e high low) here fit =
        let e' = rw (append-nil older) at e in
        let pushed =
          push_older chunk.capacity_in_bytes a first cap pos fit older high (rw e' at here) in
        rw e' pushed
    held {xs} (around first older (next ∷ newer) e high low) here fit =
        let pushed =
          push_newer chunk.capacity_in_bytes a first cap pos fit older next newer high low
            (rw e at here) in
        rw e pushed
