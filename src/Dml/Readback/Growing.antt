-- ===== src/Dml/Readback/Growing.antt =====
-- The growth of the buffer: ComputeNewCapacity ends, with enough room and not too much.
use onnxruntime_genai_privat.Base.{
  ℕ, zero, suc, ◌*◌, ◌^◌, ◌≤◌, ◌<◌, ◌≡◌, ◌⊎◌, inl, inr, Bool, true, false, Bool-cases, ltb, leb,
  arith, le→leb, ltb→lt, refl, sym,
}
use native.Mathlib.Nat.{pow-succ', mul_assoc}
use onnxruntime_genai_privat.Dml.Readback.{
  Growth, running, out_of_memory, capacity, compute_new_capacity, ReadbackHeap, create_heap,
  ensure_readback_heap, initial_capacity,
}

-- What a run from `existing` for `desired` bytes may come to.
abbrev pub Grown : ℕ → ℕ → Growth → Type 0
Grown existing desired running = ⊥
Grown existing desired out_of_memory = 2 ^ 63 ≤ desired
Grown existing desired (capacity c) =
    (desired ≤ c) × (existing ≤ c) × ((c ≡ existing) ⊎ (c < 2 * desired))

Grown-double :
    (existing desired : ℕ) (growth : Growth)
    → existing < desired
    → Grown (existing * 2) desired growth
    → Grown existing desired growth
Grown-double existing desired running lt h = h
Grown-double existing desired out_of_memory lt h = h
Grown-double existing desired (capacity c) lt h = ground arith

doubled : (fuel existing : ℕ) → existing * 2 ^ suc fuel ≡ existing * 2 * 2 ^ fuel
doubled fuel existing = rw (pow-succ' 2 fuel) (sym (mul_assoc existing 2 (2 ^ fuel)))

-- With enough doublings as fuel the loop ends: with a capacity that is enough, not below the old
-- one and less than twice what is asked, or out of memory if 2^63 bytes are asked for.
ended :
    (existing desired : ℕ)
    → ltb existing desired ≡ false
    → (desired ≤ existing)
      × (existing ≤ existing)
      × ((existing ≡ existing) ⊎ (existing < 2 * desired))
ended existing desired e = (ground arith, omega arith, inl refl)

not_less :
    (existing desired : ℕ)
    → leb 9223372036854775807 existing ≡ true
    → existing < desired
    → 2 ^ 63 ≤ desired
not_less existing desired large lt = ground arith

pub compute_from :
    (fuel existing desired : ℕ)
    → 2 ^ 63 ≤ existing * 2 ^ fuel
    → 0 < existing
    → Grown existing desired (compute_new_capacity (suc fuel) existing desired)
unfolding compute_new_capacity
compute_from zero existing desired enough pos =
    let large : leb 9223372036854775807 existing ≡ true = le→leb _ _ (omega arith) in
    elim (Bool-cases (ltb existing desired)) [
      | inl e ↦ rw (e, large) (let lt = ltb→lt existing desired e in omega arith)
      | inr e ↦ rw e (ended existing desired e)
    ]
compute_from (suc fuel) existing desired enough pos = elim (Bool-cases (ltb existing desired)) [
  | inl e ↦
      let lt = ltb→lt existing desired e in
      elim (Bool-cases (leb 9223372036854775807 existing)) [
        | inl large ↦ rw (e, large) (not_less existing desired large lt)
        | inr small ↦
            rw (e, small)
              (Grown-double existing desired _ lt (
                compute_from fuel (existing * 2) desired (omega (arith, doubled fuel existing))
                  (omega arith)))
      ]
  | inr e ↦ rw e (ended existing desired e)
]

-- ComputeNewCapacity ends within 64 doublings from any capacity but 0: with room for what is asked
-- and less than twice of it if the capacity grew, or out of memory if 2^63 bytes or more are asked
-- for.
pub compute_new_capacity-Grown :
    (existing desired : ℕ)
    → 0 < existing
    → Grown existing desired (compute_new_capacity 65 existing desired)
compute_new_capacity-Grown existing desired pos =
    compute_from 64 existing desired (let big : 2 ^ 63 ≤ existing * 2 ^ 64 = omega arith in big) pos

-- A buffer that is there has a capacity.
abbrev pub IsReady : ReadbackHeap → Type 0
IsReady heap = heap.created ≡ true → 0 < heap.capacity_bytes

-- What a call of EnsureReadbackHeap leaves.
pub record Ensured (grants : ℕ → Bool) (size : ℕ) (heap : ReadbackHeap) (returned : Bool)
    : Type 0 where
  pub ready : IsReady heap
  pub room : returned ≡ true → (heap.created ≡ true) × (size ≤ heap.capacity_bytes)
  pub refused : returned ≡ false → (2 ^ 63 ≤ size) ⊎ ((bytes : ℕ) × (grants bytes ≡ false))

create_heap-Ensured :
    (grants : ℕ → Bool) (existing size : ℕ) (heap : ReadbackHeap) (growth : Growth)
    → IsReady heap
    → 0 < existing
    → Grown existing size growth
    → Ensured grants size (create_heap grants heap growth).0 (create_heap grants heap growth).1
unfolding create_heap
create_heap-Ensured grants existing size heap running ready pos h = absurd h
create_heap-Ensured grants existing size heap out_of_memory ready pos h = record {
  ready = ready;
  room = λ e. absurd cc;
  refused = λ e. inl h;
}
create_heap-Ensured grants existing size heap (capacity bytes) ready pos h = record {
  ready = λ e. omega (arith, h.1);
  room = λ e. (e, h.0);
  refused = λ e. inr (bytes, e);
}

-- A call of EnsureReadbackHeap that returns leaves a buffer with room for the bytes. One that throws
-- was asked for 2^63 bytes or more, or the device has refused a buffer.
pub ensure_readback_heap-Ensured :
    (grants : ℕ → Bool) (size : ℕ) (heap : ReadbackHeap)
    → IsReady heap
    → Ensured grants size
        (ensure_readback_heap grants size heap).0
        (ensure_readback_heap grants size heap).1
unfolding ensure_readback_heap
ensure_readback_heap-Ensured grants size heap ready = elim (Bool-cases heap.created) [
  | inr absent ↦ simp absent (
      create_heap-Ensured grants initial_capacity size heap _ ready (omega arith)
        (compute_new_capacity-Grown initial_capacity size (omega arith)))
  | inl there ↦ elim (Bool-cases (ltb heap.capacity_bytes size)) [
    | inl small ↦
        simp (there, small)
          (create_heap-Ensured grants heap.capacity_bytes size heap _ ready (ready there)
            (compute_new_capacity-Grown heap.capacity_bytes size (ready there)))
    | inr large ↦
        simp (there, large)
          (record {
            ready = ready;
            room = λ e. (there, (ended heap.capacity_bytes size large).0);
            refused = λ e. absurd cc;
          })
  ]
]
