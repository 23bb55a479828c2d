-- ===== src/Dml/Upload/Kept.antt =====
-- The whole heap: every call of BeginUploadToGpu and Trim keeps its invariant.
use onnxruntime_genai_privat.Base.{
  ℕ, zero, suc, ◌+◌, ◌^◌, ◌≤◌, ◌<◌, max, ◌≡◌, inl, inr, refl, ap, ◌∙◌, true, Option, none, some,
  List, [], ◌∷◌, ◌++◌, All, All-imp, All-append, Bool-cases, Option-cases, arith,
}
use onnxruntime_genai_privat.Dml.Fence.{is_signaled, add_size}
use onnxruntime_genai_privat.Dml.Upload.{
  Allocation, Chunk, Heap, Device, min_chunk_size, find_offset_for_allocation, reserve_from,
  count_chunks, reserve, pop_signaled, reclaim_chunks, reclaim_allocations, push_allocation,
  begin_upload_to_gpu,
}
use onnxruntime_genai_privat.Dml.Rising.{Rising, Rising-from, Rising-to, Rising-push}
use onnxruntime_genai_privat.Dml.Upload.Ring.{
  IsRing, unused, IsRing-single, IsRing-push, IsRing-pop_signaled,
}

abbrev pub fence_of : Allocation → ℕ
fence_of a = a.done_event.fence_value

abbrev pub capacity_of : Chunk → ℕ
capacity_of chunk = chunk.capacity_in_bytes

-- The bytes that all chunks hold.
unfoldable pub held : List Chunk → ℕ
held [] = 0
held (chunk ∷ chunks) = chunk.capacity_in_bytes + held chunks

-- `latest` is the greatest fence value given so far.
pub record IsChunk (latest : ℕ) (chunk : Chunk) : Type 0 where
  pub ring : IsRing chunk.capacity_in_bytes chunk.allocations
  pub in_order : Rising fence_of 0 chunk.allocations latest
  pub whole : chunk.resource ≡ some chunk.capacity_in_bytes

pub record IsHeap (latest : ℕ) (heap : Heap) : Type 0 where
  pub each : All (IsChunk latest) heap.chunks
  pub ascending : Rising capacity_of 0 heap.chunks heap.total_capacity
  pub total : heap.total_capacity ≡ held heap.chunks
  pub addressable : held heap.chunks ≤ 2 ^ 63

-- The device never holds more upload memory than half of what `size_t` counts.
abbrev pub Bounded : Device → Type 0
Bounded device = (bytes size : ℕ) → device.grants bytes size ≡ true → bytes + size ≤ 2 ^ 63

Rising-pop_signaled :
    (completed low latest : ℕ) (xs : List Allocation)
    → Rising fence_of low xs latest
    → Rising fence_of low (pop_signaled completed xs) latest
unfolding pop_signaled
Rising-pop_signaled completed low latest [] h = h
Rising-pop_signaled completed low latest (x ∷ xs) h =
    elim (Bool-cases (is_signaled completed x.done_event)) [
      | inl e ↦ rw e (
          Rising-pop_signaled completed low latest xs
            (Rising-from fence_of xs _ low latest h.1 h.0))
      | inr e ↦ rw e h
    ]

reclaim_chunks-IsChunk :
    (completed latest : ℕ) (chunks : List Chunk)
    → All (IsChunk latest) chunks
    → All (IsChunk latest) (reclaim_chunks completed chunks)
unfolding reclaim_chunks
reclaim_chunks-IsChunk completed latest [] h = tt
reclaim_chunks-IsChunk completed latest (chunk ∷ chunks) h = (
  record {
    ring = IsRing-pop_signaled completed _ chunk.allocations h.0.ring;
    in_order = Rising-pop_signaled completed 0 latest chunk.allocations h.0.in_order;
    whole = h.0.whole;
  },
  reclaim_chunks-IsChunk completed latest chunks h.1,
)

reclaim_chunks-Rising :
    (completed low high : ℕ) (chunks : List Chunk)
    → Rising capacity_of low chunks high
    → Rising capacity_of low (reclaim_chunks completed chunks) high
unfolding reclaim_chunks
reclaim_chunks-Rising completed low high [] h = h
reclaim_chunks-Rising completed low high (chunk ∷ chunks) h =
    (h.0, reclaim_chunks-Rising completed _ high chunks h.1)

held-reclaim_chunks :
    (completed : ℕ) (chunks : List Chunk) → held (reclaim_chunks completed chunks) ≡ held chunks
unfolding held reclaim_chunks
held-reclaim_chunks completed [] = refl
held-reclaim_chunks completed (chunk ∷ chunks) = omega (arith, held-reclaim_chunks completed chunks)

pub reclaim_allocations-IsHeap :
    (completed latest : ℕ) (heap : Heap)
    → IsHeap latest heap
    → IsHeap latest (reclaim_allocations completed heap)
unfolding reclaim_allocations
reclaim_allocations-IsHeap completed latest heap h =
    let same = held-reclaim_chunks completed heap.chunks in
    record {
      each = reclaim_chunks-IsChunk completed latest heap.chunks h.each;
      ascending = reclaim_chunks-Rising completed 0 _ heap.chunks h.ascending;
      total = omega (arith, same, h.total);
      addressable = omega (arith, same, h.addressable);
    }

IsChunk-raise :
    (latest later : ℕ)
    → latest ≤ later
    → (chunk : Chunk) → IsChunk latest chunk
    → IsChunk later chunk
IsChunk-raise latest later le chunk h = record {
  ring = h.ring;
  in_order = Rising-to fence_of chunk.allocations 0 latest later h.in_order le;
  whole = h.whole;
}

push_allocation-Rising :
    (index : ℕ) (a : Allocation) (chunks : List Chunk) (low high : ℕ)
    → Rising capacity_of low chunks high
    → Rising capacity_of low (push_allocation index a chunks) high
unfolding push_allocation
push_allocation-Rising index a [] low high h = h
push_allocation-Rising zero a (chunk ∷ chunks) low high h = h
push_allocation-Rising (suc index) a (chunk ∷ chunks) low high h =
    (h.0, push_allocation-Rising index a chunks _ high h.1)

held-push_allocation :
    (index : ℕ) (a : Allocation) (chunks : List Chunk)
    → held (push_allocation index a chunks) ≡ held chunks
unfolding held push_allocation
held-push_allocation index a [] = refl
held-push_allocation zero a (chunk ∷ chunks) = refl
held-push_allocation (suc index) a (chunk ∷ chunks) =
    omega (arith, held-push_allocation index a chunks)

held-append : (xs ys : List Chunk) → held (xs ++ ys) ≡ held xs + held ys
unfolding held
held-append [] ys = omega arith
held-append (x ∷ xs) ys = omega (arith, held-append xs ys)

-- A new chunk stands behind the others, and its allocation goes there.
push_allocation-append :
    (a : Allocation) (chunks : List Chunk) (chunk : Chunk)
    → push_allocation (count_chunks chunks) a (chunks ++ chunk ∷ [])
      ≡ chunks ++ record chunk { allocations = chunk.allocations ++ a ∷ [] } ∷ []
unfolding push_allocation count_chunks
push_allocation-append a [] chunk = refl
push_allocation-append a (x ∷ chunks) chunk =
    let next : count_chunks chunks + 1 ≡ suc (count_chunks chunks) = omega arith in
    rw next (ap (λ (l : List Chunk). x ∷ l) (push_allocation-append a chunks chunk))

module _ (a : Allocation) (latest : ℕ) (some_bytes : 0 < a.size_in_bytes)
    (later : latest ≤ fence_of a) where
  push_chunk :
      (chunk : Chunk)
      → IsChunk latest chunk
      → chunk.capacity_in_bytes ≤ 2 ^ 63
      → find_offset_for_allocation chunk a.size_in_bytes ≡ some a.offset_in_chunk
      → IsChunk (fence_of a) (record chunk { allocations = chunk.allocations ++ a ∷ [] })
  push_chunk chunk h small found = record {
    ring = IsRing-push chunk a h.ring small some_bytes found;
    in_order = Rising-push fence_of chunk.allocations 0 latest a h.in_order later;
    whole = h.whole;
  }

  -- The place that Reserve finds in the chunks there are.
  push_reserved :
      (chunks : List Chunk) (from index : ℕ)
      → All (IsChunk latest) chunks
      → held chunks ≤ 2 ^ 63
      → reserve_from from chunks a.size_in_bytes ≡ some (index, a.offset_in_chunk)
      → (j : ℕ) × (index ≡ from + j) × All (IsChunk (fence_of a)) (push_allocation j a chunks)
  unfolding reserve_from push_allocation held
  push_reserved [] from index h small found = absurd cc
  push_reserved (chunk ∷ chunks) from index h small found =
      elim (Option-cases (find_offset_for_allocation chunk a.size_in_bytes)) [
        | inl e ↦
            let found' = rw (reserve_from, e) at found in
            let (j, at, rest) = push_reserved chunks (from + 1) index h.1 (omega arith) found' in
            (suc j, omega arith, (IsChunk-raise latest (fence_of a) later chunk h.0, rest))
        | inr (o, e) ↦
            let found' = rw (reserve_from, e) at found in
            let place : o ≡ a.offset_in_chunk = cc found' in
            let first : from ≡ index = cc found' in
            (
              0,
              omega (arith, first),
              (
                push_chunk chunk h.0 (omega arith) (e ∙ ap some place),
                All-imp chunks (IsChunk-raise latest (fence_of a) later) h.1,
              ),
            )
      ]

IsHeap-raise :
    (latest later : ℕ) (heap : Heap) → latest ≤ later → IsHeap latest heap → IsHeap later heap
IsHeap-raise latest later heap le h = record {
  each = All-imp heap.chunks (IsChunk-raise latest later le) h.each;
  ascending = h.ascending;
  total = h.total;
  addressable = h.addressable;
}

-- A new chunk of the size that the device gives.
grown-IsHeap :
    (latest : ℕ) (heap : Heap) (chunk : Chunk)
    → IsHeap latest heap
    → IsChunk latest chunk
    → heap.total_capacity ≤ chunk.capacity_in_bytes
    → heap.total_capacity + chunk.capacity_in_bytes ≤ 2 ^ 63
    → IsHeap latest (record {
      chunks = heap.chunks ++ chunk ∷ [];
      total_capacity = add_size heap.total_capacity chunk.capacity_in_bytes;
    })
unfolding held
grown-IsHeap latest heap chunk h new larger room =
    let sum = held-append heap.chunks (chunk ∷ []) in
    let whole : add_size heap.total_capacity chunk.capacity_in_bytes
        ≡ heap.total_capacity + chunk.capacity_in_bytes =
      omega arith in
    record {
      each = All-append (IsChunk latest) heap.chunks (chunk ∷ []) h.each (new, tt);
      ascending =
          Rising-to capacity_of (heap.chunks ++ chunk ∷ []) 0 chunk.capacity_in_bytes _
            (Rising-push capacity_of heap.chunks 0 heap.total_capacity chunk h.ascending larger)
            (omega (arith, whole));
      total = omega (arith, whole, sum, h.total);
      addressable = omega (arith, sum, h.total);
    }

module _ (device : Device) (bounded : Bounded device) (latest size : ℕ) (heap : Heap)
    (some_bytes : 0 < size) (later : latest ≤ device.next_value) (kept : IsHeap latest heap) where
  entry : ℕ → Allocation
  entry offset = record {
    size_in_bytes = size;
    offset_in_chunk = offset;
    done_event = record { fence_value = device.next_value };
  }

  pushed : Heap → ℕ → ℕ → Heap
  pushed now index offset = record now { chunks = push_allocation index (entry offset) now.chunks }

  Kept : Heap × Option (ℕ × ℕ) → Type 0
  Kept (now, none) = IsHeap latest now
  Kept (now, some (index, offset)) =
      IsHeap latest now × IsHeap device.next_value (pushed now index offset)

  found-IsHeap :
      (index offset : ℕ)
      → reserve_from 0 heap.chunks size ≡ some (index, offset)
      → IsHeap device.next_value (pushed heap index offset)
  unfolding pushed entry
  found-IsHeap index offset found =
      let (j, at, each) =
        push_reserved (entry offset) latest some_bytes later heap.chunks 0 index kept.each
          kept.addressable found in
      let here : index ≡ j = omega arith in
      let same = held-push_allocation index (entry offset) heap.chunks in
      record {
        each = rw here each;
        ascending = push_allocation-Rising index (entry offset) heap.chunks 0 _ kept.ascending;
        total = omega (arith, same, kept.total);
        addressable = omega (arith, same, kept.addressable);
      }

  new_chunk : List Allocation → Chunk
  new_chunk allocations = record {
    resource = some (max heap.total_capacity (max min_chunk_size size));
    capacity_in_bytes = max heap.total_capacity (max min_chunk_size size);
    allocations = allocations;
  }

  grown : List Allocation → Heap
  grown allocations = record {
    chunks = heap.chunks ++ new_chunk allocations ∷ [];
    total_capacity =
        add_size heap.total_capacity (max heap.total_capacity (max min_chunk_size size));
  }

  grown-Kept :
      device.grants heap.total_capacity (max heap.total_capacity (max min_chunk_size size)) ≡ true
      → Kept (grown [], some (count_chunks heap.chunks, 0))
  unfolding Kept grown new_chunk pushed entry
  grown-Kept granted =
      let room =
        bounded heap.total_capacity (max heap.total_capacity (max min_chunk_size size)) granted in
      (
        (grown-IsHeap latest heap (new_chunk []) kept
            (record { ring = unused refl; in_order = omega arith; whole = refl }) (omega arith)
            room),
        (rw (push_allocation-append (entry 0) heap.chunks (new_chunk [])) (
            grown-IsHeap device.next_value heap (new_chunk (entry 0 ∷ []))
              (IsHeap-raise latest device.next_value heap later kept)
              (record {
                ring = IsRing-single _ (entry 0) some_bytes (omega arith) refl;
                in_order = (omega arith, omega arith);
                whole = refl;
              })
              (omega arith) room)),
      )

  reserve-Kept : Kept (reserve device heap size)
  unfolding Kept reserve grown new_chunk
  reserve-Kept = elim (Option-cases (reserve_from 0 heap.chunks size)) [
    | inr ((index, offset), e) ↦ rw (reserve, e) (kept, found-IsHeap index offset e)
    | inl e ↦
        elim (Bool-cases
          (device.grants heap.total_capacity (max heap.total_capacity (max min_chunk_size size)))) [
            | inl yes_given ↦ rw (reserve, e, yes_given) (grown-Kept yes_given)
            | inr refused ↦ rw (reserve, e, refused) kept
          ]
  ]

  Kept-heap : (outcome : Heap × Option (ℕ × ℕ)) → Kept outcome → IsHeap latest outcome.0
  unfolding Kept
  Kept-heap (now, none) h = h
  Kept-heap (now, some (index, offset)) h = h.0

  Kept-pushed :
      (outcome : Heap × Option (ℕ × ℕ)) (index offset : ℕ)
      → Kept outcome
      → outcome.1 ≡ some (index, offset)
      → IsHeap device.next_value (pushed outcome.0 index offset)
  unfolding Kept
  Kept-pushed (now, none) index offset h e = absurd cc
  Kept-pushed (now, some (i, o)) index offset h e =
      let first : i ≡ index = cc in let second : o ≡ offset = cc in rw (← first) (rw (← second) h.1)

-- If the device grants no more than 2^63 bytes of upload memory in all, BeginUploadToGpu of at least
-- one byte, with an event no earlier than those before, keeps the invariant of the heap, exceptions
-- included.
pub begin_upload_to_gpu-IsHeap :
    (device : Device) (latest size : ℕ) (heap : Heap)
    → Bounded device
    → 0 < size
    → latest ≤ device.next_value
    → IsHeap latest heap
    → IsHeap device.next_value (begin_upload_to_gpu device size heap).0
unfolding entry pushed begin_upload_to_gpu
begin_upload_to_gpu-IsHeap device latest size heap bounded pos later kept =
    let clean = reclaim_allocations device.completed heap in
    let clean_kept = reclaim_allocations-IsHeap device.completed latest heap kept in
    let outcome = reserve-Kept device bounded latest size clean pos later clean_kept in
    let now = Kept-heap device bounded latest size clean pos later clean_kept _ outcome in
    let idle = IsHeap-raise latest device.next_value _ later now in
    elim (Option-cases (reserve device clean size).1) [
      | inl e ↦ rw (begin_upload_to_gpu, e) idle
      | inr ((index, offset), e) ↦ elim (Bool-cases device.maps) [
        | inl mapped ↦
            rw (begin_upload_to_gpu, e, mapped)
              (Kept-pushed device bounded latest size clean pos later clean_kept _ index offset
                outcome e)
        | inr failed ↦ rw (begin_upload_to_gpu, e, failed) idle
      ]
    ]
