-- ===== src/Dml/Descriptors.antt =====
-- src/dml/dml_descriptor_pool.cpp: descriptor heaps that hand out ranges from their end and start
-- again when their last event is signaled. A handle is its distance from the start of its heap, in
-- descriptors.
pub mod Pending
pub mod Allocated
use onnxruntime_genai_privat.Base.{
  ℕ, zero, suc, ◌+◌, ◌-◌, ◌%◌, ◌^◌, max, Bool, true, false, not, ◌&&◌, Option, none, some, List, [],
  ◌∷◌, ◌++◌, ltb, ◌==◌, if◌then◌else◌,
}
use onnxruntime_genai_privat.Dml.Fence.{GpuEvent, is_signaled}

-- `completion_event` is `none` while its fence is null. `size` is at most `capacity`, so the
-- subtraction of the source does not wrap.
pub record DescriptorHeap : Type 0 where
  pub capacity : ℕ
  pub size : ℕ
  pub head : ℕ
  pub heap_flags : ℕ
  pub completion_event : Option GpuEvent

abbrev pub event_signaled : ℕ → Option GpuEvent → Bool
event_signaled completed none = false
event_signaled completed (some event) = is_signaled completed event

pub restart : ℕ → DescriptorHeap → DescriptorHeap
restart completed heap =
    if event_signaled completed heap.completion_event
    then record heap { size = 0; head = 0 }
    else heap

pub try_alloc_descriptors : ℕ → ℕ → GpuEvent → ℕ → DescriptorHeap → DescriptorHeap × Option ℕ
try_alloc_descriptors completed num_descriptors event flags heap =
    let started = restart completed heap in
    if not (heap.heap_flags == flags)
    then (heap, none)
    else if ltb (started.capacity - started.size) num_descriptors
    then (started, none)
    else (
      record started {
        size = started.size + num_descriptors;
        completion_event = some event;
        head = started.head + num_descriptors;
      },
      some started.head,
    )

pub record DescriptorPool : Type 0 where
  pub heaps : List DescriptorHeap
  pub initial_heap_capacity : ℕ

abbrev pub new_heap : ℕ → ℕ → DescriptorHeap
new_heap num_descriptors flags = record {
  capacity = num_descriptors;
  size = 0;
  head = 0;
  heap_flags = flags;
  completion_event = none;
}

-- The loop over the heaps, with the range by the place of its heap and the start in it.
pub alloc_in : ℕ → ℕ → ℕ → GpuEvent → ℕ → List DescriptorHeap → List DescriptorHeap × Option (ℕ × ℕ)
unfolding try_alloc_descriptors
alloc_in index completed num_descriptors event flags [] = ([], none)
alloc_in index completed num_descriptors event flags (heap ∷ heaps) =
    let (tried, start) = try_alloc_descriptors completed num_descriptors event flags heap in
    let (others, range) = alloc_in (index + 1) completed num_descriptors event flags heaps in
    elim start [
      | some first ↦ (tried ∷ heaps, some (index, first))
      | none ↦ (tried ∷ others, range)
    ]

pub count_heaps : List DescriptorHeap → ℕ
count_heaps [] = 0
count_heaps (heap ∷ heaps) = count_heaps heaps + 1

-- What follows the loop: a new heap if no heap has given a range. `none` where CreateDescriptorHeap
-- fails, or where a range that the source asserts is missing.
pub alloc_after :
    (ℕ → Bool)
    → ℕ
    → ℕ
    → GpuEvent
    → ℕ
    → DescriptorPool
    → List DescriptorHeap × Option (ℕ × ℕ)
    → DescriptorPool × Option (ℕ × ℕ)
unfolding count_heaps
alloc_after grants completed num_descriptors event flags pool (heaps, some found) =
    (record pool { heaps = heaps }, some found)
alloc_after grants completed num_descriptors event flags pool (heaps, none) =
    let new_heap_capacity = max num_descriptors pool.initial_heap_capacity in
    let (created, start) =
      try_alloc_descriptors completed num_descriptors event flags
        (new_heap new_heap_capacity flags) in
    if grants new_heap_capacity
    then (
      record pool { heaps = heaps ++ created ∷ [] },
      elim start [ some first ↦ some (count_heaps heaps, first) | none ↦ none ],
    )
    else (record pool { heaps = heaps }, none)

pub alloc_descriptors :
    (ℕ → Bool) → ℕ → ℕ → GpuEvent → ℕ → DescriptorPool → DescriptorPool × Option (ℕ × ℕ)
unfolding alloc_after
alloc_descriptors grants completed num_descriptors event flags pool =
    alloc_after grants completed num_descriptors event flags pool
      (alloc_in 0 completed num_descriptors event flags pool.heaps)

-- A heap is dropped if it has no event or its event is signaled.
pub idle : ℕ → DescriptorHeap → Bool
idle completed heap = elim heap.completion_event [
  | none ↦ true
  | some event ↦ is_signaled completed event
]

pub pending_heaps : ℕ → List DescriptorHeap → List DescriptorHeap
unfolding idle
pending_heaps completed [] = []
pending_heaps completed (heap ∷ heaps) =
    let rest = pending_heaps completed heaps in if idle completed heap then rest else heap ∷ rest

pub trim : ℕ → DescriptorPool → DescriptorPool
unfolding pending_heaps
trim completed pool = record pool { heaps = pending_heaps completed pool.heaps }

-- `uint32_t` sums wrap.
pub total_capacity : ℕ → List DescriptorHeap → ℕ
total_capacity sum [] = sum
total_capacity sum (heap ∷ heaps) = total_capacity ((sum + heap.capacity) % 2 ^ 32) heaps
