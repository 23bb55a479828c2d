-- ===== src/Dml/Upload/Asserted.antt =====
-- AssertInvariants: the invariant of the heap gives all that it tests.
use onnxruntime_genai_privat.Base.{
  ℕ, ◌+◌, ◌%◌, ◌^◌, ◌≤◌, ◌<◌, ◌≡◌, ◌⊎◌, inl, inr, refl, Bool, true, false, not, Option, none, some,
  ◌&&◌, List, [], ◌∷◌, ◌++◌, All, All-imp, All-append, ==_iff, ltb, leb, ◌==◌, arith,
}
use onnxruntime_genai_privat.Std.{sort_by, adjacent, is_sorted}
use onnxruntime_genai_privat.Std.Sorted.{
  IsStrictWeak, IsSorted, AllPairs, sort_by-IsSorted, All-sort_by, AllPairs-sort_by,
}
use onnxruntime_genai_privat.Dml.Upload.{
  Allocation, Chunk, Heap, allocation_alignment, end_of, sum_capacity,
}
use onnxruntime_genai_privat.Dml.Upload.Ring.{IsRing, unused, around, Run, Run-high}
use onnxruntime_genai_privat.Dml.Upload.Kept.{fence_of, capacity_of, held, IsChunk, IsHeap}
use onnxruntime_genai_privat.Dml.Upload.Trimmed.{sum_capacity_lem}
use onnxruntime_genai_privat.Dml.Rising.{Rising}

all_of {ℓ} : {A : Type ℓ} → (A → Bool) → List A → Bool
all_of test [] = true
all_of test (x ∷ xs) = test x && all_of test xs

abbrev less_by {ℓ} : {A : Type ℓ} → (A → ℕ) → A → A → Bool
less_by measure a b = ltb (measure a) (measure b)

abbrev offset_of : Allocation → ℕ
offset_of a = a.offset_in_chunk

less_by-order : IsStrictWeak (less_by offset_of)
less_by-order = record { asymm = λ a b h. ground arith; not_trans = λ a b c h k. ground arith }

fits_in : ℕ → Allocation → Bool
fits_in capacity a = leb (end_of a) capacity && (a.offset_in_chunk % allocation_alignment == 0)

-- `chunk.resource` is there, and as wide as the capacity says.
is_whole : ℕ → Option ℕ → Bool
is_whole capacity none = false
is_whole capacity (some width) = capacity == width

pub assert_chunk : Chunk → Bool
unfolding is_sorted sort_by adjacent all_of fits_in is_whole
assert_chunk chunk =
    is_sorted (less_by fence_of) chunk.allocations
    && is_whole chunk.capacity_in_bytes chunk.resource
    && all_of (fits_in chunk.capacity_in_bytes) chunk.allocations
    && adjacent (λ a next. leb (end_of a) next.offset_in_chunk)
        (sort_by (less_by offset_of) chunk.allocations)

pub assert_invariants : Heap → Bool
unfolding is_sorted all_of assert_chunk sum_capacity
assert_invariants heap =
    is_sorted (less_by capacity_of) heap.chunks
    && all_of assert_chunk heap.chunks
    && (sum_capacity 0 heap.chunks == heap.total_capacity)

-- The source runs the tests chunk by chunk only within each of its loops; all of them are tested.
both : (a b : Bool) → a ≡ true → b ≡ true → (a && b) ≡ true
both a b h k = rw h k

all_of-true {ℓ} :
    {A : Type ℓ} (test : A → Bool) (xs : List A)
    → All (λ x. test x ≡ true) xs
    → all_of test xs ≡ true
unfolding all_of
all_of-true test [] h = refl
all_of-true test (x ∷ xs) h = both (test x) (all_of test xs) h.0 (all_of-true test xs h.1)

Rising-is_sorted {ℓ} :
    {A : Type ℓ} (measure : A → ℕ) (xs : List A) (low high : ℕ)
    → Rising measure low xs high
    → is_sorted (less_by measure) xs ≡ true
unfolding is_sorted adjacent
Rising-is_sorted measure [] low high h = refl
Rising-is_sorted measure (x ∷ []) low high h = refl
Rising-is_sorted measure (x ∷ y ∷ rest) low high h =
    both _ _ (in_order (measure x) (measure y) h.1.0)
      (Rising-is_sorted measure (y ∷ rest) (measure x) high h.1)
  where
    in_order : (a b : ℕ) → a ≤ b → not (ltb b a) ≡ true
    in_order a b le = ground arith

-- Within a capacity, aligned and not empty.
Placed : ℕ → Allocation → Type 0
Placed capacity a =
    (0 < a.size_in_bytes)
    × (a.offset_in_chunk + a.size_in_bytes ≤ capacity)
    × (a.offset_in_chunk % allocation_alignment ≡ 0)

Apart : Allocation → Allocation → Type 0
Apart a b =
    (a.offset_in_chunk + a.size_in_bytes ≤ b.offset_in_chunk)
    ⊎ (b.offset_in_chunk + b.size_in_bytes ≤ a.offset_in_chunk)

Apart-flip : (a b : Allocation) → Apart a b → Apart b a
unfolding Apart
Apart-flip a b (inl h) = inr h
Apart-flip a b (inr h) = inl h

Within : ℕ → ℕ → Allocation → Type 0
Within low high a =
    (low ≤ a.offset_in_chunk)
    × (0 < a.size_in_bytes)
    × (a.offset_in_chunk + a.size_in_bytes ≤ high)
    × (a.offset_in_chunk % allocation_alignment ≡ 0)

Run-Within : (xs : List Allocation) (low high : ℕ) → Run low xs high → All (Within low high) xs
unfolding Within
Run-Within [] low high h = tt
Run-Within (a ∷ rest) low high h =
    let behind = Run-Within rest _ high h.3 in
    let top = Run-high rest _ high h.3 in
    ((h.0, h.1, top, h.2), All-imp rest (λ b w. (omega (arith, w.0, h.0), w.1, w.2, w.3)) behind)

Run-AllPairs : (xs : List Allocation) (low high : ℕ) → Run low xs high → AllPairs Apart xs
unfolding Within Apart
Run-AllPairs [] low high h = tt
Run-AllPairs (a ∷ rest) low high h =
    (All-imp rest (λ b w. inl w.0) (Run-Within rest _ high h.3), Run-AllPairs rest _ high h.3)

low_of :
    (a b : Allocation) (middle capacity : ℕ)
    → Within 0 middle a
    → Within middle capacity b
    → Apart b a
unfolding Within Apart
low_of a b middle capacity h k = inr (omega (arith, h.2, k.0))

AllPairs-append {ℓ κ} :
    {A : Type ℓ} (R : A → A → Type κ) (xs ys : List A)
    → AllPairs R xs
    → AllPairs R ys
    → All (λ x. All (R x) ys) xs
    → AllPairs R (xs ++ ys)
AllPairs-append R [] ys h k c = k
AllPairs-append R (x ∷ xs) ys h k c =
    (All-append (R x) xs ys h.0 c.0, AllPairs-append R xs ys h.1 k c.1)

-- The allocations of a ring lie in the chunk, apart from each other.
IsRing-Placed :
    (capacity : ℕ) (xs : List Allocation)
    → IsRing capacity xs
    → All (Placed capacity) xs × AllPairs Apart xs
unfolding Within Placed
IsRing-Placed capacity xs (unused e) = rw e (tt, tt)
IsRing-Placed capacity xs (around first older newer e high low) =
    let older_within = Run-Within (first ∷ older) _ capacity high in
    let newer_within = Run-Within newer 0 _ low in
    let top = Run-high (first ∷ older) _ capacity high in
    let placed : All (Placed capacity) (first ∷ older ++ newer) =
      All-append (Placed capacity) (first ∷ older) newer
        (All-imp (first ∷ older) (λ a w. (w.1, w.2, w.3)) older_within)
        (All-imp newer (λ a w. (w.1, omega (arith, w.2, top), w.3)) newer_within) in
    let apart : AllPairs Apart (first ∷ older ++ newer) =
      AllPairs-append Apart (first ∷ older) newer (Run-AllPairs (first ∷ older) _ capacity high)
        (Run-AllPairs newer 0 _ low)
        (All-imp (first ∷ older)
          (λ b w. All-imp newer (λ a v. low_of a b first.offset_in_chunk capacity v w) newer_within)
          older_within) in
    rw e (placed, apart)

-- In order of their offsets, each ends before the next begins.
sorted-Apart :
    (capacity : ℕ) (xs : List Allocation)
    → capacity ≤ 2 ^ 63
    → All (Placed capacity) xs
    → IsSorted (less_by offset_of) xs
    → AllPairs Apart xs
    → adjacent (λ a next. leb (end_of a) next.offset_in_chunk) xs ≡ true
unfolding adjacent Placed Apart
sorted-Apart capacity [] cap placed order apart = refl
sorted-Apart capacity (x ∷ []) cap placed order apart = refl
sorted-Apart capacity (x ∷ y ∷ rest) cap placed order apart =
    both _ _ (next_behind apart.0.0) (sorted-Apart capacity (y ∷ rest) cap placed.1 order.1 apart.1)
  where
    next_behind : Apart x y → leb (end_of x) y.offset_in_chunk ≡ true
    next_behind (inl h) = ground (arith, placed.0)
    next_behind (inr h) = ground (arith, placed.0, placed.1.0, order.0.0)

chunk_asserted :
    (latest : ℕ) (chunk : Chunk)
    → chunk.capacity_in_bytes ≤ 2 ^ 63
    → IsChunk latest chunk
    → assert_chunk chunk ≡ true
unfolding assert_chunk fits_in is_whole Placed
chunk_asserted latest chunk cap h =
    let (placed, apart) = IsRing-Placed chunk.capacity_in_bytes chunk.allocations h.ring in
    let in_order = Rising-is_sorted fence_of chunk.allocations 0 latest h.in_order in
    let fits =
      all_of-true (fits_in chunk.capacity_in_bytes) chunk.allocations
        (All-imp chunk.allocations (λ a p. ground (arith, p, cap)) placed) in
    let behind =
      sorted-Apart chunk.capacity_in_bytes (sort_by (less_by offset_of) chunk.allocations) cap
        (All-sort_by (less_by offset_of) (Placed chunk.capacity_in_bytes) chunk.allocations placed)
        (sort_by-IsSorted (less_by offset_of) less_by-order chunk.allocations)
        (AllPairs-sort_by (less_by offset_of) Apart Apart-flip chunk.allocations apart) in
    let resource : is_whole chunk.capacity_in_bytes chunk.resource ≡ true =
      rw h.whole ((==_iff chunk.capacity_in_bytes chunk.capacity_in_bytes).1 refl) in
    rw (in_order, resource, fits, behind)

chunks_asserted :
    (latest : ℕ) (chunks : List Chunk)
    → held chunks ≤ 2 ^ 63
    → All (IsChunk latest) chunks
    → all_of assert_chunk chunks ≡ true
unfolding all_of held
chunks_asserted latest [] cap h = refl
chunks_asserted latest (chunk ∷ chunks) cap h =
    both _ _ (chunk_asserted latest chunk (omega arith) h.0)
      (chunks_asserted latest chunks (omega arith) h.1)

-- A heap that meets the invariant passes all tests of AssertInvariants.
pub assert_invariants-true :
    (latest : ℕ) (heap : Heap) → IsHeap latest heap → assert_invariants heap ≡ true
unfolding assert_invariants
assert_invariants-true latest heap h =
    let sorted = Rising-is_sorted capacity_of heap.chunks 0 _ h.ascending in
    let each = chunks_asserted latest heap.chunks h.addressable h.each in
    let sum = sum_capacity_lem heap.chunks 0 (omega (arith, h.addressable)) in
    let total : (sum_capacity 0 heap.chunks == heap.total_capacity) ≡ true =
      (==_iff _ _).1 (omega (arith, sum, h.total)) in
    rw (sorted, each, total)
