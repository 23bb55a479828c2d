-- ===== src/Dml/Upload/Trimmed.antt =====
-- Trim releases the chunks without an allocation and keeps the invariant.
use onnxruntime_genai_privat.Base.{
  ℕ, ◌+◌, ◌^◌, ◌≤◌, ◌≡◌, inl, inr, refl, false, List, [], ◌∷◌, All, Bool-cases, le→leb, arith,
}
use onnxruntime_genai_privat.Dml.Fence.{add_size}
use onnxruntime_genai_privat.Dml.Upload.{
  Allocation, Chunk, Heap, pop_signaled, reclaim_chunks, reclaim_allocations, is_empty, in_use,
  sum_capacity, trim,
}
use onnxruntime_genai_privat.Dml.Rising.{Rising, Rising-from, Rising-low}
use onnxruntime_genai_privat.Dml.Upload.Kept.{
  fence_of, capacity_of, held, IsChunk, IsHeap, reclaim_allocations-IsHeap,
}

in_use-All {ℓ} : (P : Chunk → Type ℓ) (chunks : List Chunk) → All P chunks → All P (in_use chunks)
unfolding in_use
in_use-All P [] h = tt
in_use-All P (chunk ∷ chunks) h = elim (Bool-cases (is_empty chunk.allocations)) [
  | inl e ↦ rw e (in_use-All P chunks h.1)
  | inr e ↦ rw e (h.0, in_use-All P chunks h.1)
]

held-in_use : (chunks : List Chunk) → held (in_use chunks) ≤ held chunks
unfolding held in_use
held-in_use [] = omega arith
held-in_use (chunk ∷ chunks) = elim (Bool-cases (is_empty chunk.allocations)) [
  | inl e ↦ rw e (omega (arith, held-in_use chunks))
  | inr e ↦ rw e (omega (arith, held-in_use chunks))
]

in_use-Rising :
    (chunks : List Chunk) (low high : ℕ)
    → Rising capacity_of low chunks high
    → Rising capacity_of low (in_use chunks) high
unfolding in_use
in_use-Rising [] low high h = h
in_use-Rising (chunk ∷ chunks) low high h = elim (Bool-cases (is_empty chunk.allocations)) [
  | inl e ↦
      rw e
        (Rising-from capacity_of (in_use chunks) _ low high (in_use-Rising chunks _ high h.1) h.0)
  | inr e ↦ rw e (h.0, in_use-Rising chunks _ high h.1)
]

-- A rising list of chunks rises up to the bytes that they hold.
Rising-held :
    (chunks : List Chunk) (low high bound : ℕ)
    → Rising capacity_of low chunks high
    → low ≤ bound
    → held chunks ≤ bound
    → Rising capacity_of low chunks bound
unfolding held
Rising-held [] low high bound h le room = le
Rising-held (chunk ∷ chunks) low high bound h le room =
    (h.0, Rising-held chunks _ high bound h.1 (omega arith) (omega arith))

pub sum_capacity_lem :
    (chunks : List Chunk) (sum : ℕ)
    → sum + held chunks ≤ 2 ^ 63
    → sum_capacity sum chunks ≡ sum + held chunks
unfolding sum_capacity held
sum_capacity_lem [] sum h = omega arith
sum_capacity_lem (chunk ∷ chunks) sum h =
    let whole : add_size sum chunk.capacity_in_bytes ≡ sum + chunk.capacity_in_bytes =
      omega arith in
    rw whole (omega (arith, sum_capacity_lem chunks (sum + chunk.capacity_in_bytes) (omega arith)))

in_use-filled :
    (chunks : List Chunk) → All (λ chunk. is_empty chunk.allocations ≡ false) (in_use chunks)
unfolding in_use
in_use-filled [] = tt
in_use-filled (chunk ∷ chunks) = elim (Bool-cases (is_empty chunk.allocations)) [
  | inl e ↦ rw e (in_use-filled chunks)
  | inr e ↦ rw e (e, in_use-filled chunks)
]

-- Trim keeps the invariant, and no chunk without an allocation stays.
pub trim-IsHeap :
    (completed latest : ℕ) (heap : Heap)
    → IsHeap latest heap
    → IsHeap latest (trim completed heap)
      × All (λ chunk. is_empty chunk.allocations ≡ false) (trim completed heap).chunks
unfolding trim
trim-IsHeap completed latest heap h =
    let clean = reclaim_allocations completed heap in
    let clean_kept = reclaim_allocations-IsHeap completed latest heap h in
    let less = held-in_use clean.chunks in
    let sum =
      sum_capacity_lem (in_use clean.chunks) 0 (omega (arith, less, clean_kept.addressable)) in
    (
      record {
        each = in_use-All (IsChunk latest) clean.chunks clean_kept.each;
        ascending =
            Rising-held (in_use clean.chunks) 0 _ _
              (in_use-Rising clean.chunks 0 _ clean_kept.ascending) (omega arith)
              (omega (arith, sum));
        total = omega (arith, sum);
        addressable = omega (arith, less, clean_kept.addressable);
      },
      in_use-filled clean.chunks,
    )

pop_signaled-all :
    (completed latest low : ℕ) (xs : List Allocation)
    → Rising fence_of low xs latest
    → latest ≤ completed
    → pop_signaled completed xs ≡ []
unfolding pop_signaled
pop_signaled-all completed latest low [] h le = refl
pop_signaled-all completed latest low (x ∷ xs) h le =
    let top = Rising-low fence_of xs (fence_of x) latest h.1 in
    rw (le→leb (fence_of x) completed (omega arith)) (pop_signaled-all completed latest _ xs h.1 le)

reclaim_chunks-unused :
    (completed latest : ℕ) (chunks : List Chunk)
    → All (IsChunk latest) chunks
    → latest ≤ completed
    → in_use (reclaim_chunks completed chunks) ≡ []
unfolding reclaim_chunks in_use
reclaim_chunks-unused completed latest [] h le = refl
reclaim_chunks-unused completed latest (chunk ∷ chunks) h le =
    rw (pop_signaled-all completed latest 0 chunk.allocations h.0.in_order le)
      (reclaim_chunks-unused completed latest chunks h.1 le)

-- When the GPU has completed the greatest fence value that was given, Trim releases all memory.
pub trim-all :
    (completed latest : ℕ) (heap : Heap)
    → IsHeap latest heap
    → latest ≤ completed
    → trim completed heap ≡ record { chunks = []; total_capacity = 0 }
unfolding trim reclaim_allocations sum_capacity
trim-all completed latest heap h le =
    rw (reclaim_chunks-unused completed latest heap.chunks h.each le)
