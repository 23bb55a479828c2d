-- ===== src/Dml/Queue/Held.antt =====
-- References are held until the GPU is done with them, and no longer than that needs.
use onnxruntime_genai_privat.Base.{
  ℕ, ◌+◌, ◌≤◌, ◌<◌, ◌≡◌, refl, ap, inl, inr, Bool, true, false, List, [], ◌∷◌, ◌++◌, All, All-imp,
  All-append, Bool-cases, leb, le→leb, if◌then◌else◌, arith,
}
use onnxruntime_genai_privat.Dml.Queue.{
  QueuedReference, CommandQueue, execute_command_lists, wait, queue_reference, queue_all, close,
  release_completed, release_completed_references, new_queue,
}

-- The calls of a client, with what D3D12 answers and what the destructors of dropped objects queue.
pub data Call : Type 0 where
  executed : Bool → Call
  waited : Bool → Bool → Call
  referenced : ℕ → Bool → Call
  closed : List ℕ → Call
  released : ℕ → Call

pub call : Call → CommandQueue → CommandQueue
unfolding execute_command_lists wait queue_reference close release_completed_references
call (executed signals) queue = (execute_command_lists signals queue).0
call (waited waits signals) queue = (wait waits signals queue).0
call (referenced object unsubmitted) queue = queue_reference object unsubmitted queue
call (closed objects) queue = close objects queue
call (released completed) queue = release_completed_references completed queue

-- Every reference waits for work that is submitted or recorded, and no Close is under way.
pub record IsBounded (queue : CommandQueue) : Type 0 where
  pub bounded : All (λ r. r.fence_value ≤ queue.last_fence_value + 1) queue.queued_references
  pub open_queue : queue.closing ≡ false

-- A call of ReleaseCompletedReferences drops references from the front.
pub record Released (completed : ℕ) (before after : List QueuedReference) : Type 0 where
  pub dropped : List QueuedReference
  pub split : before ≡ dropped ++ after
  pub done : All (λ r. r.fence_value ≤ completed) dropped

release_completed-Released :
    (completed : ℕ) (xs : List QueuedReference)
    → Released completed xs (release_completed completed xs)
unfolding release_completed
release_completed-Released completed [] = record { dropped = []; split = refl; done = tt }
release_completed-Released completed (x ∷ xs) = elim (Bool-cases (leb x.fence_value completed)) [
  | inr e ↦ rw e (record { dropped = []; split = refl; done = tt })
  | inl e ↦
      let rest = release_completed-Released completed xs in
      rw e (record {
        dropped = x ∷ rest.dropped;
        split = ap (λ (l : List QueuedReference). x ∷ l) rest.split;
        done = (ground arith, rest.done);
      })
]

release_completed-All :
    (P : QueuedReference → Type 0) (completed : ℕ) (xs : List QueuedReference)
    → All P xs
    → All P (release_completed completed xs)
unfolding release_completed
release_completed-All P completed [] h = h
release_completed-All P completed (x ∷ xs) h = elim (Bool-cases (leb x.fence_value completed)) [
  | inl e ↦ rw e (release_completed-All P completed xs h.1)
  | inr e ↦ rw e h
]

release_completed-all :
    (completed : ℕ) (xs : List QueuedReference)
    → All (λ r. r.fence_value ≤ completed) xs
    → release_completed completed xs ≡ []
unfolding release_completed
release_completed-all completed [] h = refl
release_completed-all completed (x ∷ xs) h =
    rw (le→leb x.fence_value completed h.0) (release_completed-all completed xs h.1)

-- While the queue is closing nothing is queued.
queue_all-closing :
    (objects : List ℕ) (queue : CommandQueue)
    → queue.closing ≡ true
    → queue_all objects queue ≡ queue
unfolding queue_all queue_reference
queue_all-closing [] queue e = refl
queue_all-closing (object ∷ objects) queue e =
    let same : queue_reference object true queue ≡ queue = ground arith in
    rw same (queue_all-closing objects queue e)

grown :
    (queue : CommandQueue)
    → IsBounded queue
    → IsBounded (record queue { last_fence_value = queue.last_fence_value + 1 })
grown queue h = record {
  bounded = All-imp queue.queued_references (λ r p. omega arith) h.bounded;
  open_queue = h.open_queue;
}

-- Any call keeps the bound, and the values that the fence is signaled with never fall.
pub call-IsBounded :
    (c : Call) (queue : CommandQueue)
    → IsBounded queue
    → IsBounded (call c queue) × (queue.last_fence_value ≤ (call c queue).last_fence_value)
unfolding call queue_reference close
call-IsBounded (executed signals) queue h = (grown queue h, omega arith)
call-IsBounded (waited true signals) queue h = (grown queue h, omega arith)
call-IsBounded (waited false signals) queue h = (h, omega arith)
call-IsBounded (referenced object unsubmitted) queue h =
    let reference : QueuedReference = record {
      fence_value = if unsubmitted then queue.last_fence_value + 1 else queue.last_fence_value;
      object = object;
    } in
    let new : reference.fence_value ≤ queue.last_fence_value + 1 = ground arith in
    let all =
      All-append (λ r. r.fence_value ≤ queue.last_fence_value + 1) queue.queued_references
        (reference ∷ []) h.bounded (new, tt) in
    simp h.open_queue (record { bounded = all; open_queue = refl }, omega arith)
call-IsBounded (closed objects) queue h =
    rw (queue_all-closing objects (record queue { queued_references = []; closing = true }) refl)
      (record { bounded = tt; open_queue = refl }, omega arith)
call-IsBounded (released completed) queue h = (
  record {
    bounded = release_completed-All _ completed queue.queued_references h.bounded;
    open_queue = h.open_queue;
  },
  omega arith,
)

pub calls : List Call → CommandQueue → CommandQueue
unfolding call
calls [] queue = queue
calls (c ∷ cs) queue = calls cs (call c queue)

calls-IsBounded :
    (cs : List Call) (queue : CommandQueue) → IsBounded queue → IsBounded (calls cs queue)
unfolding calls
calls-IsBounded [] queue h = h
calls-IsBounded (c ∷ cs) queue h = calls-IsBounded cs (call c queue) (call-IsBounded c queue h).0

-- After any calls from a new queue, releasing drops only references whose work the GPU has done,
-- and all of them once the next fence value is completed.
pub release-calls :
    (cs : List Call) (completed : ℕ)
    → Released completed
        (calls cs new_queue).queued_references
        (release_completed_references completed (calls cs new_queue)).queued_references
      × ((calls cs new_queue).last_fence_value < completed
          → (release_completed_references completed (calls cs new_queue)).queued_references ≡ [])
unfolding release_completed_references
release-calls cs completed =
    let bounded =
      (calls-IsBounded cs new_queue (record { bounded = tt; open_queue = refl })).bounded in
    (
      release_completed-Released completed _,
      λ done. release_completed-all completed _ (All-imp _ (λ r p. omega arith) bounded),
    )
