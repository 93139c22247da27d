-- ===== src/Queue/Ops.antt =====
-- hermes_agent_a2a/task_queue.py: the operations of `TaskQueue` that change it, each as the block
-- that runs under the queue's lock. The metrics that they record are in Runtime.
use hermes_agent_a2a.Prelude.{
  ℕ, suc, ◌+◌, ◌-◌, String, Bool, true, false, ◌||◌, Option, none, some, List, [], ◌∷◌, min, ltb,
  leb, if◌then◌else◌, length, contains, add, discard,
}
use hermes_agent_a2a.Dict.{Dict, get, has, put, remove}
use hermes_agent_a2a.Json.{Fields}
use hermes_agent_a2a.Queue.State.{
  TaskState, submitted, working, auth_required, authenticated, completed, failed, canceled,
  rejected, same_state, Ref, PendingTask, new_task, TaskQueue, task_cache_max, max_pending, update,
  answer, min_created, is_oldest,
}
use hermes_agent_a2a.Queue.Evict.{evict}

unfoldable pub set_auth_required : String → TaskQueue → TaskQueue
set_auth_required task_id q = record q { states = put task_id auth_required q.states }

unfoldable pub set_authenticated : String → TaskQueue → TaskQueue
set_authenticated task_id q = record q { states = put task_id authenticated q.states }

-- `_TRANSITIONS`; a state that is no key of it has no successor
unfoldable pub transitions : TaskState → List TaskState
transitions submitted = working ∷ completed ∷ failed ∷ canceled ∷ []
transitions working = completed ∷ failed ∷ canceled ∷ []
transitions auth_required = authenticated ∷ rejected ∷ []
transitions authenticated = working ∷ failed ∷ []
transitions _ = []

unfoldable pub allowed : TaskState → List TaskState → Bool
allowed s [] = false
allowed s (t ∷ ts) = same_state s t || allowed s ts

-- self._states.get(task_id, default)
abbrev pub state_or : TaskState → Option TaskState → TaskState
state_or default none = default
state_or default (some s) = s

-- With `return_error` a refusal is (False, -38003) and a success (True, None), so the Boolean says all.
unfoldable pub transition : String → TaskState → TaskQueue → TaskQueue × Bool
unfolding transitions allowed
transition task_id to_state q =
    let from_state = state_or submitted (get task_id q.states) in
    if allowed to_state (transitions from_state)
    then (record q { states = put task_id to_state q.states }, true)
    else (q, false)

abbrev pub older : Option ℕ → ℕ → Option ℕ
older none now = some now
older (some t) now = some (min t now)

-- The queue once the new task is in it, before the eviction loop.
unfoldable pub admit : ℕ → String → String → Fields → Option String → TaskQueue → TaskQueue
admit now task_id text metadata context_id q = record q {
  objects = update q.objects q.next (new_task now task_id text metadata context_id);
  next = suc q.next;
  pending = put task_id q.next q.pending;
  states = put task_id submitted q.states;
  oldest_pending_time = older q.oldest_pending_time now;
}

-- `self._enqueue_count += 1 - evicted`: `evicted` is 0 (Evict), so `-` is exact.
unfoldable pub count_enqueued : TaskQueue × ℕ → TaskQueue
count_enqueued (q, evicted) = record q { enqueue_count = q.enqueue_count + 1 - evicted }

unfoldable pub enqueue :
    ℕ → String → String → Fields → Option String → TaskQueue → TaskQueue × Option Ref
enqueue now task_id text metadata context_id q =
    if leb max_pending (length q.pending)
    then (q, none)
    else if has task_id q.pending
    then (q, none)
    else (let q' = admit now task_id text metadata context_id q in
        (count_enqueued (evict (length q'.pending) q' 0), some q.next))

-- The loop of `requeue_tasks`.
unfoldable pub requeue_tasks : List Ref → TaskQueue → TaskQueue
requeue_tasks [] q = q
requeue_tasks (r ∷ tasks) q =
    let tid = (q.objects r).task_id in
    requeue_tasks tasks (
      if has tid q.pending || contains tid q.processing
      then q
      else record q { pending = put tid r q.pending; enqueue_count = q.enqueue_count + 1 })

unfoldable pub mark_processing : String → TaskQueue → TaskQueue
mark_processing task_id q =
    if has task_id q.pending then record q { processing = add task_id q.processing } else q

-- `while len(self._completed) > _TASK_CACHE_MAX: self._completed.popitem(last=False)`
unfoldable pub trim_completed : Dict Ref → Dict Ref
trim_completed [] = []
trim_completed (e ∷ d) =
    let rest = trim_completed d in if ltb task_cache_max (length (e ∷ d)) then rest else e ∷ d

-- The oldest time once the object at `r` has left the dictionary.
abbrev pub oldest_after : (Ref → PendingTask) → Ref → Dict Ref → Option ℕ → Option ℕ
oldest_after objects r pending oldest =
    if is_oldest (objects r).created_at oldest then min_created objects pending else oldest

-- What `complete` does with the object that it has popped.
unfoldable pub finish : String → String → Ref → TaskQueue → TaskQueue
finish task_id response r q =
    let t = q.objects r in
    let objects' = update q.objects r (if t.returned then t else answer response t) in
    let pending' = remove task_id q.pending in
    record q {
      objects = objects';
      pending = pending';
      completed = trim_completed (put task_id r q.completed);
      complete_count = q.complete_count + 1;
      states = put task_id completed q.states;
      oldest_pending_time = oldest_after objects' r pending' q.oldest_pending_time;
    }

abbrev pub drop_processing : String → TaskQueue → TaskQueue
drop_processing task_id q = record q { processing = discard task_id q.processing }

unfoldable pub complete : String → String → TaskQueue → TaskQueue
complete task_id response q = elim (get task_id q.pending) [
  | none ↦ drop_processing task_id q
  | some r ↦ finish task_id response r (drop_processing task_id q)
]

-- What `cancel` does with the object that it has popped.
unfoldable pub retire : String → Ref → TaskQueue → TaskQueue
retire task_id r q =
    let objects' = update q.objects r (answer "(canceled)" (q.objects r)) in
    let pending' = remove task_id q.pending in
    record q {
      objects = objects';
      pending = pending';
      completed = put task_id r q.completed;
      cancel_count = q.cancel_count + 1;
      states = put task_id canceled q.states;
      oldest_pending_time = oldest_after objects' r pending' q.oldest_pending_time;
    }

unfoldable pub cancel : String → TaskQueue → TaskQueue
cancel task_id q = elim (get task_id q.pending) [
  | none ↦ drop_processing task_id q
  | some r ↦ retire task_id r (drop_processing task_id q)
]
