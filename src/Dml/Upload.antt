-- ===== src/Dml/Upload.antt =====
-- src/dml/dml_pooled_upload_heap.cpp: chunks of upload memory, each a ring of allocations that the
-- GPU has not completed. `assert`s are left out but for AssertInvariants, which is a test here.
pub mod Ring
pub mod Kept
pub mod Trimmed
pub mod Asserted
use onnxruntime_genai_privat.Base.{
  ℕ, zero, suc, ◌+◌, ◌-◌, ◌*◌, ◌/◌, ◌%◌, ◌^◌, max, Bool, true, false, not, ◌&&◌, Option, none, some,
  List, [], ◌∷◌, ◌++◌, ltb, leb, ◌==◌, if◌then◌else◌,
}
use onnxruntime_genai_privat.Std.{sort_by}
use onnxruntime_genai_privat.Dml.Fence.{GpuEvent, is_signaled, add_size}

abbrev pub min_chunk_size : ℕ
min_chunk_size = 1024 * 1024

abbrev pub allocation_alignment : ℕ
allocation_alignment = 512

pub record Allocation : Type 0 where
  pub size_in_bytes : ℕ
  pub offset_in_chunk : ℕ
  pub done_event : GpuEvent

-- `resource` is the width of the buffer, which CreateCommittedResource makes as it was described.
pub record Chunk : Type 0 where
  pub resource : Option ℕ
  pub capacity_in_bytes : ℕ
  pub allocations : List Allocation

pub record Heap : Type 0 where
  pub chunks : List Chunk
  pub total_capacity : ℕ

-- The mask `~(alignment - 1)` of a power of two clears the remainder.
pub align : ℕ → ℕ
align offset =
    (add_size offset (allocation_alignment - 1) / allocation_alignment) * allocation_alignment

-- `back()` of a list with the head `first`
pub back : Allocation → List Allocation → Allocation
back first [] = first
back first (next ∷ rest) = back next rest

abbrev pub end_of : Allocation → ℕ
end_of a = add_size a.offset_in_chunk a.size_in_bytes

-- The branches behind the test for an empty chunk; `begin` is the aligned end of the last
-- allocation.
pub find_behind : ℕ → ℕ → ℕ → ℕ → ℕ → Option ℕ
find_behind capacity size first_offset last_offset begin =
    if ltb (add_size begin size) begin
    then none
    else if leb first_offset last_offset
    then if leb (add_size begin size) capacity
      then some begin
      else if leb (add_size 0 size) first_offset
      then some 0
      else none
    else if leb (add_size begin size) first_offset
    then some begin
    else none

pub find_in : List Allocation → ℕ → ℕ → Option ℕ
unfolding align back find_behind
find_in [] capacity size = some 0
find_in (first ∷ rest) capacity size =
    let last = back first rest in
    find_behind capacity size first.offset_in_chunk last.offset_in_chunk (align (end_of last))

pub find_offset_for_allocation : Chunk → ℕ → Option ℕ
unfolding find_in
find_offset_for_allocation chunk size =
    if ltb chunk.capacity_in_bytes size
    then none
    else find_in chunk.allocations chunk.capacity_in_bytes size

-- The chunk at an index of the vector, with the offset in it: the `Chunk*` of the source.
pub reserve_from : ℕ → List Chunk → ℕ → Option (ℕ × ℕ)
unfolding find_offset_for_allocation
reserve_from index [] size = none
reserve_from index (chunk ∷ chunks) size =
    let later = reserve_from (index + 1) chunks size in
    elim (find_offset_for_allocation chunk size) [
      | some offset ↦ some (index, offset)
      | none ↦ later
    ]

pub count_chunks : List Chunk → ℕ
count_chunks [] = 0
count_chunks (chunk ∷ chunks) = count_chunks chunks + 1

-- What the device and the GPU do during a call: the fence value completed at its start, whether
-- `CreateCommittedResource` gives a buffer of a size while so many bytes are held, whether `Map`
-- succeeds, and the fence value of the event for the work of the call.
pub record Device : Type 0 where
  pub completed : ℕ
  pub grants : ℕ → ℕ → Bool
  pub maps : Bool
  pub next_value : ℕ

-- `none`: CreateChunk throws, and the heap stays as it is.
pub reserve : Device → Heap → ℕ → Heap × Option (ℕ × ℕ)
unfolding reserve_from count_chunks
reserve device heap size = elim (reserve_from 0 heap.chunks size) [
  | some place ↦ (heap, some place)
  | none ↦
      let new_chunk_size = max heap.total_capacity (max min_chunk_size size) in
      if device.grants heap.total_capacity new_chunk_size
      then (
        record {
          chunks =
              heap.chunks
              ++ record {
                resource = some new_chunk_size;
                capacity_in_bytes = new_chunk_size;
                allocations = [];
              }
                ∷ [];
          total_capacity = add_size heap.total_capacity new_chunk_size;
        },
        some (count_chunks heap.chunks, 0),
      )
      else (heap, none)
]

pub pop_signaled : ℕ → List Allocation → List Allocation
pop_signaled completed [] = []
pop_signaled completed (first ∷ rest) =
    let popped = pop_signaled completed rest in
    if is_signaled completed first.done_event then popped else first ∷ rest

pub reclaim_chunks : ℕ → List Chunk → List Chunk
unfolding pop_signaled
reclaim_chunks completed [] = []
reclaim_chunks completed (chunk ∷ chunks) =
    record chunk { allocations = pop_signaled completed chunk.allocations }
    ∷ reclaim_chunks completed chunks

pub reclaim_allocations : ℕ → Heap → Heap
unfolding reclaim_chunks
reclaim_allocations completed heap = record heap { chunks = reclaim_chunks completed heap.chunks }

-- `chunk->allocations.push_back(allocation)` for the chunk at an index.
pub push_allocation : ℕ → Allocation → List Chunk → List Chunk
push_allocation index allocation [] = []
push_allocation zero allocation (chunk ∷ chunks) =
    record chunk { allocations = chunk.allocations ++ allocation ∷ [] } ∷ chunks
push_allocation (suc index) allocation (chunk ∷ chunks) =
    chunk ∷ push_allocation index allocation chunks

-- What is copied into the destination: the chunk, the offset in it and the size.
pub record Copy : Type 0 where
  pub chunk : ℕ
  pub offset_in_chunk : ℕ
  pub bytes : ℕ

-- `none`: an exception. The copy is flushed and waited for before the allocation is entered.
pub begin_upload_to_gpu : Device → ℕ → Heap → Heap × Option (Copy × GpuEvent)
unfolding reserve reclaim_allocations push_allocation
begin_upload_to_gpu device size heap =
    let (reserved, place) = reserve device (reclaim_allocations device.completed heap) size in
    let done : GpuEvent = record { fence_value = device.next_value } in
    elim place [
      | none ↦ (reserved, none)
      | some (index, offset) ↦
          if device.maps
          then (
            record reserved {
              chunks =
                  push_allocation index
                    (record { size_in_bytes = size; offset_in_chunk = offset; done_event = done })
                    reserved.chunks;
            },
            some (record { chunk = index; offset_in_chunk = offset; bytes = size }, done),
          )
          else (reserved, none)
    ]

abbrev pub is_empty : List Allocation → Bool
is_empty [] = true
is_empty (first ∷ rest) = false

-- `std::remove_if` with `erase`
pub in_use : List Chunk → List Chunk
in_use [] = []
in_use (chunk ∷ chunks) =
    let kept = in_use chunks in if is_empty chunk.allocations then kept else chunk ∷ kept

pub sum_capacity : ℕ → List Chunk → ℕ
sum_capacity sum [] = sum
sum_capacity sum (chunk ∷ chunks) = sum_capacity (add_size sum chunk.capacity_in_bytes) chunks

pub trim : ℕ → Heap → Heap
unfolding reclaim_allocations in_use sum_capacity
trim completed heap =
    let kept = in_use (reclaim_allocations completed heap).chunks in
    record { chunks = kept; total_capacity = sum_capacity 0 kept }
