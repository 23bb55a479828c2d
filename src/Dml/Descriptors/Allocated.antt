-- ===== src/Dml/Descriptors/Allocated.antt =====
-- The pool: AllocDescriptors gives a range unless the device refuses a heap.
use onnxruntime_genai_privat.Base.{
  ℕ, suc, ◌+◌, ◌-◌, ◌≤◌, ◌≡◌, ◌≢◌, inl, inr, refl, max, Bool, true, false, Option, none, some, List,
  [], ◌∷◌, ◌++◌, All, All-append, Bool-cases, get_elem?, ltb, ◌==◌, ==_iff, arith,
}
use onnxruntime_genai_privat.Dml.Fence.{GpuEvent}
use onnxruntime_genai_privat.Dml.Descriptors.{
  DescriptorHeap, DescriptorPool, restart, try_alloc_descriptors, new_heap, alloc_in, count_heaps,
  alloc_after, alloc_descriptors,
}
use onnxruntime_genai_privat.Dml.Descriptors.Pending.{
  Covers, Allocated, unfinished, try_alloc_descriptors-Allocated,
}

abbrev pub IsWhole : DescriptorHeap → Type 0
IsWhole heap = Covers heap []

-- A range of `count` descriptors from `start` on lies in a heap with these flags.
abbrev Lies : ℕ → ℕ → ℕ → DescriptorHeap → Type 0
Lies count flags start heap = (heap.heap_flags ≡ flags) × (start + count ≤ heap.capacity)

abbrev Tried : ℕ → ℕ → DescriptorHeap × Option ℕ → Type 0
Tried count flags (heap, none) = IsWhole heap
Tried count flags (heap, some start) = IsWhole heap × Lies count flags start heap

Tried-taken :
    (completed count flags : ℕ) (event : GpuEvent) (outcome : DescriptorHeap × Option ℕ)
    → (outcome.1 ≢ none → outcome.0.heap_flags ≡ flags)
    → Allocated completed count event [] outcome
    → Tried count flags outcome
unfolding unfinished
Tried-taken completed count flags event (heap, none) same h = h
Tried-taken completed count flags event (heap, some start) same h =
    (record { within = h.0.within; at_end = h.0.at_end; before = tt }, (same (λ e. cc e), h.2))

flags-try_alloc_descriptors :
    (completed count flags : ℕ) (event : GpuEvent) (heap : DescriptorHeap)
    → (try_alloc_descriptors completed count event flags heap).1 ≢ none
    → (try_alloc_descriptors completed count event flags heap).0.heap_flags ≡ flags
unfolding try_alloc_descriptors restart
flags-try_alloc_descriptors completed count flags event heap some_range =
    ground (arith, ==_iff heap.heap_flags flags)

try_alloc_descriptors-Tried :
    (completed count flags : ℕ) (event : GpuEvent) (heap : DescriptorHeap)
    → IsWhole heap
    → Tried count flags (try_alloc_descriptors completed count event flags heap)
try_alloc_descriptors-Tried completed count flags event heap h =
    Tried-taken completed count flags event _
      (flags-try_alloc_descriptors completed count flags event heap)
      (try_alloc_descriptors-Allocated completed count flags event heap [] h tt)

-- The range lies in the heap at its place.
abbrev Placed : ℕ → ℕ → ℕ → List DescriptorHeap × Option (ℕ × ℕ) → Type 0
Placed index count flags (heaps, none) = All IsWhole heaps
Placed index count flags (heaps, some (i, start)) =
    All IsWhole heaps
    × ((j : ℕ) × (i ≡ index + j)
        × ((heap : DescriptorHeap) × (get_elem? heaps j ≡ some heap) × Lies count flags start heap))

Placed-behind :
    (index count flags : ℕ) (tried : DescriptorHeap)
    (outcome : List DescriptorHeap × Option (ℕ × ℕ))
    → IsWhole tried
    → Placed (index + 1) count flags outcome
    → Placed index count flags (tried ∷ outcome.0, outcome.1)
Placed-behind index count flags tried (heaps, none) h k = (h, k)
Placed-behind index count flags tried (heaps, some (i, start)) h (all, (j, at, rest)) =
    ((h, all), (suc j, omega arith, rest))

alloc_in-cons :
    (index count flags : ℕ) (heap : DescriptorHeap) (heaps : List DescriptorHeap)
    (tried : DescriptorHeap × Option ℕ) (others : List DescriptorHeap × Option (ℕ × ℕ))
    → All IsWhole heaps
    → Tried count flags tried
    → Placed (index + 1) count flags others
    → Placed index count flags (elim tried.1 [
      | some first ↦ (tried.0 ∷ heaps, some (index, first))
      | none ↦ (tried.0 ∷ others.0, others.1)
    ])
alloc_in-cons index count flags heap heaps (tried, none) others h t k =
    Placed-behind index count flags tried others t k
alloc_in-cons index count flags heap heaps (tried, some first) others h t k =
    ((t.0, h), (0, omega arith, (tried, refl, t.1)))

alloc_in-Placed :
    (heaps : List DescriptorHeap) (index completed count flags : ℕ) (event : GpuEvent)
    → All IsWhole heaps
    → Placed index count flags (alloc_in index completed count event flags heaps)
unfolding alloc_in
alloc_in-Placed [] index completed count flags event h = tt
alloc_in-Placed (heap ∷ heaps) index completed count flags event h =
    alloc_in-cons index count flags heap heaps _ _ h.1
      (try_alloc_descriptors-Tried completed count flags event heap h.0)
      (alloc_in-Placed heaps (index + 1) completed count flags event h.1)

-- The pool is whole; without a range the device has refused a heap, and a range lies in the heap at
-- its place.
abbrev pub Served : (ℕ → Bool) → ℕ → ℕ → DescriptorPool × Option (ℕ × ℕ) → Type 0
Served grants count flags (pool, none) =
    All IsWhole pool.heaps × (grants (max count pool.initial_heap_capacity) ≡ false)
Served grants count flags (pool, some place) = Placed 0 count flags (pool.heaps, some place)

-- The first range of a new heap.
new_heap-try_alloc_descriptors :
    (completed count flags capacity : ℕ) (event : GpuEvent)
    → count ≤ capacity
    → try_alloc_descriptors completed count event flags (new_heap capacity flags) ≡ (
      record {
        capacity = capacity;
        size = 0 + count;
        head = 0 + count;
        heap_flags = flags;
        completion_event = some event;
      },
      some 0,
    )
unfolding try_alloc_descriptors restart
new_heap-try_alloc_descriptors completed count flags capacity event le =
    let same : (flags == flags) ≡ true = (==_iff flags flags).1 refl in
    let room : ltb (capacity - 0) count ≡ false = ground arith in rw (same, room)

get_elem?-last :
    (heaps : List DescriptorHeap) (heap : DescriptorHeap)
    → get_elem? (heaps ++ heap ∷ []) (count_heaps heaps) ≡ some heap
unfolding count_heaps
get_elem?-last [] heap = refl
get_elem?-last (x ∷ heaps) heap =
    let next : count_heaps heaps + 1 ≡ suc (count_heaps heaps) = omega arith in
    rw next (get_elem?-last heaps heap)

Placed-All :
    (index count flags : ℕ) (outcome : List DescriptorHeap × Option (ℕ × ℕ))
    → Placed index count flags outcome
    → All IsWhole outcome.0
Placed-All index count flags (heaps, none) h = h
Placed-All index count flags (heaps, some place) h = h.0

alloc_after-Served :
    (grants : ℕ → Bool) (completed count flags : ℕ) (event : GpuEvent) (pool : DescriptorPool)
    (found : List DescriptorHeap × Option (ℕ × ℕ))
    → Placed 0 count flags found
    → Served grants count flags (alloc_after grants completed count event flags pool found)
unfolding alloc_after
alloc_after-Served grants completed count flags event pool (heaps, some place) h = h
alloc_after-Served grants completed count flags event pool (heaps, none) h =
    let capacity = max count pool.initial_heap_capacity in
    rw (new_heap-try_alloc_descriptors completed count flags capacity event (omega arith))
      (elim (Bool-cases (grants capacity)) [
        | inr refused ↦ rw refused (h, refused)
        | inl granted ↦ rw granted (
          All-append IsWhole heaps _ h
              (record { within = omega arith; at_end = refl; before = tt }, tt),
          (count_heaps heaps, omega arith, (_, get_elem?-last heaps _, (refl, omega arith))),
        )
      ])

-- From a whole pool AllocDescriptors gives a range that lies in a heap with the wanted flags, unless
-- the device refuses a new heap.
pub alloc_descriptors-Served :
    (grants : ℕ → Bool) (completed count flags : ℕ) (event : GpuEvent) (pool : DescriptorPool)
    → All IsWhole pool.heaps
    → Served grants count flags (alloc_descriptors grants completed count event flags pool)
unfolding alloc_descriptors
alloc_descriptors-Served grants completed count flags event pool h =
    alloc_after-Served grants completed count flags event pool _
      (alloc_in-Placed pool.heaps 0 completed count flags event h)
