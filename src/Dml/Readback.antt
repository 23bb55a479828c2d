-- ===== src/Dml/Readback.antt =====
-- src/dml/dml_readback_heap.cpp: a buffer that grows by doubling, through which the bytes of GPU
-- resources are read back.
pub mod Growing
pub mod Copied
use onnxruntime_genai_privat.Base.{
  ℕ, zero, suc, ◌+◌, ◌-◌, ◌*◌, ◌/◌, ◌%◌, ◌^◌, ◌≤◌, ◌<◌, ◌≡◌, ◌⊎◌, inl, inr, Bool, true, false, not,
  ◌&&◌, Option, none, some, List, [], ◌∷◌, Bool-cases, ltb, leb, if◌then◌else◌, take, subspan,
  write_at, arith,
}

abbrev pub initial_capacity : ℕ
initial_capacity = 1024 * 1024

-- What the loop of ComputeNewCapacity comes to: a capacity, or E_OUTOFMEMORY.
pub data Growth : Type 0 where
  running out_of_memory : Growth
  capacity : ℕ → Growth

pub compute_new_capacity : ℕ → ℕ → ℕ → Growth
compute_new_capacity zero new_capacity desired = running
compute_new_capacity (suc fuel) new_capacity desired =
    let rest = compute_new_capacity fuel (new_capacity * 2) desired in
    if ltb new_capacity desired
    then if leb ((2 ^ 64 - 1) / 2) new_capacity then out_of_memory else rest
    else capacity new_capacity

-- `capacity_`, and whether `readback_heap_` is there.
pub record ReadbackHeap : Type 0 where
  pub capacity_bytes : ℕ
  pub created : Bool

-- `CreateReadbackHeap` with the device's answer; a failure throws, with the old buffer gone.
pub create_heap : (ℕ → Bool) → ReadbackHeap → Growth → ReadbackHeap × Bool
create_heap grants heap (capacity bytes) =
    (record { capacity_bytes = bytes; created = grants bytes }, grants bytes)
create_heap grants heap running = (heap, false)
create_heap grants heap out_of_memory = (heap, false)

-- The flag says that the call returns. 64 doublings are enough for each capacity.
pub ensure_readback_heap : (ℕ → Bool) → ℕ → ReadbackHeap → ReadbackHeap × Bool
unfolding create_heap
ensure_readback_heap grants size heap =
    if not heap.created
    then create_heap grants heap (compute_new_capacity 65 initial_capacity size)
    else if ltb heap.capacity_bytes size
    then create_heap grants heap (compute_new_capacity 65 heap.capacity_bytes size)
    else (heap, true)

-- `uint32_t` addition.
abbrev pub add_uint32 : ℕ → ℕ → ℕ
add_uint32 a b = (a + b) % 2 ^ 32

-- A source resource, by its bytes, with the number of them that is read.
pub record Source : Type 0 where
  pub bytes : List ℕ
  pub size : ℕ

pub total_size : ℕ → List Source → ℕ
total_size total [] = total
total_size total (source ∷ sources) = total_size (add_uint32 total source.size) sources

pub copy_sources : List ℕ → ℕ → List Source → List ℕ
copy_sources buffer offset [] = buffer
copy_sources buffer offset (source ∷ sources) =
    copy_sources (write_at buffer offset (take source.size source.bytes))
      (add_uint32 offset source.size) sources

pub copy_results : List ℕ → ℕ → List Source → List (List ℕ)
copy_results buffer offset [] = []
copy_results buffer offset (source ∷ sources) =
    subspan buffer offset source.size ∷ copy_results buffer (add_uint32 offset source.size) sources

-- What the device does during a call: whether it gives a buffer of a size, whether the copies of so
-- many sources are recorded without an exception, whether the flush and the wait end without one,
-- whether `Map` succeeds, and the bytes that a buffer of a capacity holds before.
pub record Device : Type 0 where
  pub grants : ℕ → Bool
  pub copies : ℕ → Bool
  pub flushes : Bool
  pub maps : Bool
  pub content : ℕ → List ℕ

-- The loop over the copies throws at the first that fails.
pub all_copied : (ℕ → Bool) → ℕ → List Source → Bool
all_copied copies i [] = true
all_copied copies i (source ∷ sources) =
    let rest = all_copied copies (i + 1) sources in if copies i then rest else false

-- ReadbackFromGpu for several resources: what each destination gets; `none` is an exception, after
-- which the buffer that was made stays.
pub readback_from_gpu : Device → List Source → ReadbackHeap → ReadbackHeap × Option (List (List ℕ))
unfolding all_copied
readback_from_gpu device [] heap = (heap, some [])
readback_from_gpu device (source ∷ sources) heap =
    let (ready, returned) =
      ensure_readback_heap device.grants (total_size 0 (source ∷ sources)) heap in
    let buffer = copy_sources (device.content ready.capacity_bytes) 0 (source ∷ sources) in
    let copied = all_copied device.copies 0 (source ∷ sources) in
    if returned && copied && device.flushes && device.maps
    then (ready, some (copy_results buffer 0 (source ∷ sources)))
    else (ready, none)
