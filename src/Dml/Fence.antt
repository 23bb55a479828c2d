-- ===== src/Dml/Fence.antt =====
-- src/dml/dml_gpu_event.h: an event is a value of the queue's fence, and is signaled when the value
-- that the GPU has completed reaches it. Arithmetic on `size_t`.
use onnxruntime_genai_privat.Base.{ℕ, ◌+◌, ◌%◌, ◌^◌, Bool, leb}

pub record GpuEvent : Type 0 where
  pub fence_value : ℕ

-- `GetCompletedValue()` of the fence is the first argument.
abbrev pub is_signaled : ℕ → GpuEvent → Bool
is_signaled completed event = leb event.fence_value completed

abbrev pub add_size : ℕ → ℕ → ℕ
add_size a b = (a + b) % 2 ^ 64
