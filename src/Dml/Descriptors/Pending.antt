-- ===== src/Dml/Descriptors/Pending.antt =====
-- One heap: a new range does not meet those that the GPU may still use.
use onnxruntime_genai_privat.Base.{
  ℕ, ◌+◌, ◌-◌, ◌≤◌, ◌≡◌, inl, inr, refl, true, false, Option, none, some, List, [], ◌∷◌, All,
  All-imp, Bool-cases, ltb, ◌==◌, if◌then◌else◌, arith,
}
use onnxruntime_genai_privat.Dml.Fence.{GpuEvent, is_signaled}
use onnxruntime_genai_privat.Dml.Descriptors.{
  DescriptorHeap, event_signaled, restart, try_alloc_descriptors,
}

-- A range that was handed out.
pub record Range : Type 0 where
  pub start : ℕ
  pub count : ℕ
  pub event : GpuEvent

-- The ranges whose events the GPU has not signaled.
unfoldable pub unfinished : ℕ → List Range → List Range
unfinished completed [] = []
unfinished completed (r ∷ rs) =
    let rest = unfinished completed rs in if is_signaled completed r.event then rest else r ∷ rest

abbrev Before : DescriptorHeap → Range → Type 0
Before heap r =
    (r.start + r.count ≤ heap.size)
    × ((e : GpuEvent) × (heap.completion_event ≡ some e) × (r.event.fence_value ≤ e.fence_value))

-- The heap has no more than its capacity in use, its handles stand behind that, and so do all given
-- ranges, none of which is signaled later than the heap's own event.
pub record Covers (heap : DescriptorHeap) (given : List Range) : Type 0 where
  pub within : heap.size ≤ heap.capacity
  pub at_end : heap.head ≡ heap.size
  pub before : All (Before heap) given

-- Events are given in order.
abbrev pub InOrder : GpuEvent → List Range → Type 0
InOrder event given = All (λ r. r.event.fence_value ≤ event.fence_value) given

unfinished-All :
    (P : Range → Type 0) (completed : ℕ) (rs : List Range)
    → All P rs
    → All P (unfinished completed rs)
unfolding unfinished
unfinished-All P completed [] h = tt
unfinished-All P completed (r ∷ rs) h = elim (Bool-cases (is_signaled completed r.event)) [
  | inl e ↦ rw e (unfinished-All P completed rs h.1)
  | inr e ↦ rw e (h.0, unfinished-All P completed rs h.1)
]

-- If the heap's event is signaled, all its ranges are finished.
unfinished-restart :
    (completed : ℕ) (heap : DescriptorHeap) (rs : List Range)
    → event_signaled completed heap.completion_event ≡ true
    → All (Before heap) rs
    → unfinished completed rs ≡ []
unfolding unfinished
unfinished-restart completed heap [] signaled h = refl
unfinished-restart completed heap (r ∷ rs) signaled h =
    let (e, is, le) = h.0.1 in
    let done : event_signaled completed (some e) ≡ true = rw is at signaled in
    let over : is_signaled completed r.event ≡ true = ground arith in
    rw over (unfinished-restart completed heap rs signaled h.1)

restart-Covers :
    (completed : ℕ) (heap : DescriptorHeap) (given : List Range)
    → Covers heap given
    → Covers (restart completed heap) (unfinished completed given)
unfolding restart
restart-Covers completed heap given h =
    elim (Bool-cases (event_signaled completed heap.completion_event)) [
      | inl e ↦
          simp (e, unfinished-restart completed heap given e h.before)
            (record { within = omega arith; at_end = refl; before = tt })
      | inr e ↦ simp e (record {
        within = h.within;
        at_end = h.at_end;
        before = unfinished-All (Before heap) completed given h.before;
      })
    ]

All-both {ℓ κ μ} :
    {A : Type ℓ} (P : A → Type κ) (Q : A → Type μ) (xs : List A)
    → All P xs
    → All Q xs
    → All (λ x. P x × Q x) xs
All-both P Q [] h k = tt
All-both P Q (x ∷ xs) h k = ((h.0, k.0), All-both P Q xs h.1 k.1)

-- What TryAllocDescriptors may give: nothing, or a range behind all unfinished ones.
abbrev pub Allocated : ℕ → ℕ → GpuEvent → List Range → DescriptorHeap × Option ℕ → Type 0
Allocated completed count event given (heap, none) = Covers heap (unfinished completed given)
Allocated completed count event given (heap, some start) =
    Covers heap
      (record { start = start; count = count; event = event } ∷ unfinished completed given)
    × All (λ r. r.start + r.count ≤ start) (unfinished completed given)
    × (start + count ≤ heap.capacity)

taken :
    (completed count : ℕ) (event : GpuEvent) (heap : DescriptorHeap) (given : List Range)
    → Covers heap (unfinished completed given)
    → InOrder event (unfinished completed given)
    → ltb (heap.capacity - heap.size) count ≡ false
    → Allocated completed count event given (
      record heap {
        size = heap.size + count;
        completion_event = some event;
        head = heap.head + count;
      },
      some heap.head,
    )
taken completed count event heap given h in_order fits =
    let room : heap.size + count ≤ heap.capacity = ground (arith, h.within) in
    let both =
      All-both (Before heap) (λ r. r.event.fence_value ≤ event.fence_value)
        (unfinished completed given) h.before in_order in
    (
      record {
        within = room;
        at_end = omega (arith, h.at_end);
        before = (
          (omega (arith, h.at_end), (event, refl, omega arith)),
          All-imp (unfinished completed given)
              (λ r p. (let le = p.0.0 in omega (arith, le), (event, refl, p.1))) both,
        );
      },
      All-imp (unfinished completed given) (λ r p. let le = p.0 in omega (arith, le, h.at_end))
          h.before,
      omega (arith, h.at_end, room),
    )

-- From a heap that covers the given ranges, and with an event no earlier than theirs, what
-- TryAllocDescriptors gives lies in the heap behind all ranges that the GPU has not finished, and the
-- heap covers these and the new one.
pub try_alloc_descriptors-Allocated :
    (completed count flags : ℕ) (event : GpuEvent) (heap : DescriptorHeap) (given : List Range)
    → Covers heap given
    → InOrder event given
    → Allocated completed count event given (try_alloc_descriptors completed count event flags heap)
unfolding try_alloc_descriptors
try_alloc_descriptors-Allocated completed count flags event heap given h in_order =
    let started = restart-Covers completed heap given h in
    let still =
      unfinished-All (λ r. r.event.fence_value ≤ event.fence_value) completed given in_order in
    let refused : Covers heap (unfinished completed given) = record {
      within = h.within;
      at_end = h.at_end;
      before = unfinished-All (Before heap) completed given h.before;
    } in
    elim (Bool-cases (heap.heap_flags == flags)) [
      | inr other ↦ simp (other) refused
      | inl same ↦
          elim (Bool-cases
            (ltb ((restart completed heap).capacity - (restart completed heap).size) count)) [
              | inl full ↦ simp (same, full) started
              | inr fits ↦
                  simp (same, fits)
                    (taken completed count event (restart completed heap) given started still fits)
            ]
    ]
