-- ===== src/Dml/Queue.antt =====
-- src/dml/dml_command_queue.cpp: the fence values of a queue and the references that it keeps until
-- the GPU has done the work that uses them. Objects are numbers; `none` is a failed call of D3D12.
pub mod Held
use onnxruntime_genai_privat.Base.{
  ℕ, zero, suc, ◌+◌, ◌≤◌, ◌<◌, ◌≡◌, Bool, true, false, Option, none, some, List, [], ◌∷◌, ◌++◌, All,
  All-imp, All-append, Bool-cases, leb, ltb, if◌then◌else◌, arith,
}
use onnxruntime_genai_privat.Dml.Fence.{GpuEvent, is_signaled}
use onnxruntime_genai_privat.Dml.Rising.{Rising, Rising-from, Rising-to, Rising-push}

pub record QueuedReference : Type 0 where
  pub fence_value : ℕ
  pub object : ℕ

pub record CommandQueue : Type 0 where
  pub queued_references : List QueuedReference
  pub last_fence_value : ℕ
  pub closing : Bool

abbrev pub new_queue : CommandQueue
new_queue = record { queued_references = []; last_fence_value = 0; closing = false }

-- `++last_fence_value_`, then `Signal`, which may fail.
pub execute_command_lists : Bool → CommandQueue → CommandQueue × Bool
execute_command_lists signals queue =
    (record queue { last_fence_value = queue.last_fence_value + 1 }, signals)

-- A failed `Wait` of the queue throws before the value is counted up.
pub wait : Bool → Bool → CommandQueue → CommandQueue × Bool
wait waits signals queue =
    if waits
    then (record queue { last_fence_value = queue.last_fence_value + 1 }, signals)
    else (queue, false)

pub get_current_completion_event : CommandQueue → GpuEvent
get_current_completion_event queue = record { fence_value = queue.last_fence_value }

pub get_next_completion_event : CommandQueue → GpuEvent
get_next_completion_event queue = record { fence_value = queue.last_fence_value + 1 }

pub queue_reference : ℕ → Bool → CommandQueue → CommandQueue
queue_reference object wait_for_unsubmitted_work queue =
    if queue.closing then queue else record queue {
      queued_references =
          queue.queued_references
          ++ record {
            fence_value =
                if wait_for_unsubmitted_work
                then queue.last_fence_value + 1
                else queue.last_fence_value;
            object = object;
          }
            ∷ [];
    }

-- Close waits for the last value and drops all references. The destructors of the objects run with
-- `closing_` set, so what they queue is not kept.
pub queue_all : List ℕ → CommandQueue → CommandQueue
unfolding queue_reference
queue_all [] queue = queue
queue_all (object ∷ objects) queue = queue_all objects (queue_reference object true queue)

pub close : List ℕ → CommandQueue → CommandQueue
unfolding queue_all
close queued_by_destructors queue =
    let closed =
      queue_all queued_by_destructors (record queue { queued_references = []; closing = true }) in
    record closed { closing = false }

pub release_completed : ℕ → List QueuedReference → List QueuedReference
release_completed completed [] = []
release_completed completed (first ∷ rest) =
    let released = release_completed completed rest in
    if leb first.fence_value completed then released else first ∷ rest

pub release_completed_references : ℕ → CommandQueue → CommandQueue
unfolding release_completed
release_completed_references completed queue = record queue {
  queued_references = release_completed completed queue.queued_references;
}
