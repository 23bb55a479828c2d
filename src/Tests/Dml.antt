-- ===== src/Tests/Dml.antt =====
-- The theorems on DirectML execution at concrete inputs, and runs of the code.
use onnxruntime_genai_privat.Base.{
  ℕ, ◌+◌, ◌*◌, ◌^◌, ◌<◌, ◌≡◌, refl, true, false, List, [], ◌∷◌, leb, replicate, length-replicate,
  some, arith,
}
use onnxruntime_genai_privat.Dml.Fence.{GpuEvent}
use onnxruntime_genai_privat.Dml.Upload.{Allocation, Chunk, Heap, Device, begin_upload_to_gpu, trim}
use onnxruntime_genai_privat.Dml.Upload.Ring.{around}
use onnxruntime_genai_privat.Dml.Upload.Kept.{IsHeap, Bounded, begin_upload_to_gpu-IsHeap, held}
use onnxruntime_genai_privat.Dml.Upload.Trimmed.{trim-all}
use onnxruntime_genai_privat.Dml.Upload.Asserted.{assert_invariants, assert_invariants-true}
use onnxruntime_genai_privat.Dml.Readback
use onnxruntime_genai_privat.Dml.Readback.{
  Source, ReadbackHeap, readback_from_gpu, compute_new_capacity,
}
use onnxruntime_genai_privat.Dml.Readback.Growing.{Grown, compute_new_capacity-Grown}
use onnxruntime_genai_privat.Dml.Readback.Copied.{read, bytes_of, readback_from_gpu-results}
use onnxruntime_genai_privat.Dml.Queue.{release_completed_references, new_queue}
use onnxruntime_genai_privat.Dml.Queue.Held.{Call, Released, calls, release-calls}
use onnxruntime_genai_privat.Dml.Descriptors.{
  DescriptorHeap, DescriptorPool, try_alloc_descriptors, alloc_descriptors,
}
use onnxruntime_genai_privat.Dml.Descriptors.Pending.{
  Range, Covers, Allocated, try_alloc_descriptors-Allocated,
}
use onnxruntime_genai_privat.Dml.Descriptors.Allocated.{Served, alloc_descriptors-Served}

-- A device with 2^63 bytes of upload memory, before the first fence value is completed.
abbrev half_device : Device
half_device = record {
  completed = 0;
  grants = λ bytes size. leb (bytes + size) (2 ^ 63);
  maps = true;
  next_value = 2;
}

half_device-Bounded : Bounded half_device
half_device-Bounded bytes size granted = ground arith

-- One chunk with an allocation of 700 bytes that is still in use.
abbrev used : Allocation
used = record { size_in_bytes = 700; offset_in_chunk = 0; done_event = record { fence_value = 1 } }

abbrev one_chunk : Chunk
one_chunk = record {
  resource = some (1024 * 1024);
  capacity_in_bytes = 1024 * 1024;
  allocations = used ∷ [];
}

abbrev one_heap : Heap
one_heap = record { chunks = one_chunk ∷ []; total_capacity = 1024 * 1024 }

one_heap-IsHeap : IsHeap 1 one_heap
unfolding held
one_heap-IsHeap = record {
  each = (
    record {
      ring = around used [] [] refl (ground arith) (ground arith);
      in_order = ground arith;
      whole = refl;
    },
    tt,
  );
  ascending = ground arith;
  total = refl;
  addressable = omega arith;
}

begin_upload_to_gpu-IsHeap_example : IsHeap 2 (begin_upload_to_gpu half_device 100 one_heap).0
begin_upload_to_gpu-IsHeap_example =
    begin_upload_to_gpu-IsHeap half_device 1 100 one_heap half_device-Bounded (omega arith)
      (omega arith) one_heap-IsHeap

assert_invariants-true_example : assert_invariants one_heap ≡ true
assert_invariants-true_example = assert_invariants-true 1 one_heap one_heap-IsHeap

trim-all_example : trim 1 one_heap ≡ record { chunks = []; total_capacity = 0 }
trim-all_example = trim-all 1 1 one_heap one_heap-IsHeap (omega arith)

compute_new_capacity-Grown_example : Grown 1048576 3000000 (compute_new_capacity 65 1048576 3000000)
compute_new_capacity-Grown_example = compute_new_capacity-Grown 1048576 3000000 (omega arith)

-- Two resources, of which three and two bytes are read.
abbrev two_sources : List Source
two_sources =
    record { bytes = 10 ∷ 11 ∷ 12 ∷ 13 ∷ []; size = 3 }
    ∷ record { bytes = 20 ∷ 21 ∷ []; size = 2 }
    ∷ []

abbrev small_heap : ReadbackHeap
small_heap = record { capacity_bytes = 8; created = true }

abbrev zeros : ℕ → List ℕ
zeros bytes = replicate bytes 0

few_bytes : bytes_of two_sources < 2 ^ 32
unfolding bytes_of
few_bytes = omega arith

abbrev working : Readback.Device
working = record {
  grants = λ _. true;
  copies = λ _. true;
  flushes = true;
  maps = true;
  content = zeros;
}

readback_from_gpu-results_example :
    (readback_from_gpu working two_sources small_heap).1
    ≡ some ((10 ∷ 11 ∷ 12 ∷ []) ∷ (20 ∷ 21 ∷ []) ∷ [])
unfolding read
readback_from_gpu-results_example =
    readback_from_gpu-results working two_sources small_heap
      (record {
        grants = λ _. refl;
        copies = λ _. refl;
        flushes = refl;
        maps = refl;
        sized = λ bytes. length-replicate bytes 0;
      })
      (λ _. omega arith) ((omega arith), ((omega arith), tt)) few_bytes

abbrev some_calls : List Call
some_calls =
    Call.referenced 7 true
    ∷ Call.executed true
    ∷ Call.referenced 8 false
    ∷ Call.referenced 9 true
    ∷ []

release-calls_example :
    Released 1
      (calls some_calls new_queue).queued_references
      (release_completed_references 1 (calls some_calls new_queue)).queued_references
    × ((calls some_calls new_queue).last_fence_value < 1
        → (release_completed_references 1 (calls some_calls new_queue)).queued_references ≡ [])
release-calls_example = release-calls some_calls 1

-- A heap of ten descriptors, four of which are in use until fence value 3.
abbrev event : ℕ → GpuEvent
event value = record { fence_value = value }

abbrev ten : DescriptorHeap
ten = record {
  capacity = 10;
  size = 4;
  head = 4;
  heap_flags = 1;
  completion_event = some (event 3);
}

abbrev four : Range
four = record { start = 0; count = 4; event = event 3 }

ten-Covers : Covers ten (four ∷ [])
ten-Covers = record {
  within = omega arith;
  at_end = refl;
  before = ((omega arith, (event 3, refl, omega arith)), tt);
}

try_alloc_descriptors-Allocated_example :
    Allocated 2 5 (event 4) (four ∷ []) (try_alloc_descriptors 2 5 (event 4) 1 ten)
try_alloc_descriptors-Allocated_example =
    try_alloc_descriptors-Allocated 2 5 1 (event 4) ten (four ∷ []) ten-Covers ((omega arith), tt)

abbrev one_pool : DescriptorPool
one_pool = record { heaps = ten ∷ []; initial_heap_capacity = 16 }

alloc_descriptors-Served_example :
    Served (λ _. true) 7 1 (alloc_descriptors (λ _. true) 2 7 (event 4) 1 one_pool)
alloc_descriptors-Served_example =
    alloc_descriptors-Served (λ _. true) 2 7 1 (event 4) one_pool
      (record { within = omega arith; at_end = refl; before = tt }, tt)
