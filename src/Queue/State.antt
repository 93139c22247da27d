-- ===== src/Queue/State.antt =====
-- hermes_agent_a2a/task_queue.py: task states, task objects and the fields of `TaskQueue`.
-- Task objects are shared between the queue and the request threads that wait on them, so they lie
-- on a heap: `objects` gives the object at each reference, and `next` is the first free one.
-- Times are ticks of `time.time()`, as numbers.
use hermes_agent_a2a.Prelude.{
  ℕ, String, Bool, true, false, Option, none, some, List, [], ◌∷◌, eqb, if◌then◌else◌, min,
}
use hermes_agent_a2a.Dict.{Dict}
use hermes_agent_a2a.Json.{Fields}

-- The state texts that the program uses, with `unknown`, the answer for an id never seen.
pub data TaskState : Type 0 where
  submitted working input_required auth_required authenticated : TaskState
  completed failed canceled rejected unknown : TaskState

abbrev tag : TaskState → ℕ
tag submitted = 0
tag working = 1
tag input_required = 2
tag auth_required = 3
tag authenticated = 4
tag completed = 5
tag failed = 6
tag canceled = 7
tag rejected = 8
tag unknown = 9

-- s == t, on the state texts
abbrev pub same_state : TaskState → TaskState → Bool
same_state s t = eqb (tag s) (tag t)

abbrev pub Ref : Type 0
Ref = ℕ

pub record PendingTask : Type 0 where
  pub task_id : String
  pub text : String
  pub metadata : Fields
  pub response : Option String
  pub ready : Bool
  pub created_at : ℕ
  pub context_id : Option String
  pub returned : Bool

-- `_PendingTask(task_id, text, metadata, context_id)` at the time `now`
abbrev pub new_task : ℕ → String → String → Fields → Option String → PendingTask
new_task now task_id text metadata context_id = record {
  task_id = task_id;
  text = text;
  metadata = metadata;
  response = none;
  ready = false;
  created_at = now;
  context_id = context_id;
  returned = false;
}

pub record TaskQueue : Type 0 where
  pub objects : Ref → PendingTask
  pub next : Ref
  pub pending : Dict Ref
  pub completed : Dict Ref
  pub processing : List String
  pub enqueue_count : ℕ
  pub complete_count : ℕ
  pub cancel_count : ℕ
  pub states : Dict TaskState
  pub oldest_pending_time : Option ℕ

abbrev pub task_cache_max : ℕ
task_cache_max = 100000

abbrev pub max_pending : ℕ
max_pending = 100000

abbrev blank : PendingTask
blank = new_task 0 "" "" Fields.end none

-- `TaskQueue()`; no object is on the heap yet, and what `objects` gives there is never read.
unfoldable pub init : TaskQueue
init = record {
  objects = λ r. blank;
  next = 0;
  pending = [];
  completed = [];
  processing = [];
  enqueue_count = 0;
  complete_count = 0;
  cancel_count = 0;
  states = [];
  oldest_pending_time = none;
}

-- a write to the object at a reference
abbrev pub update : (Ref → PendingTask) → Ref → PendingTask → Ref → PendingTask
update objects r t s = if eqb s r then t else objects s

-- task.response = response; task.ready.set()
abbrev pub answer : String → PendingTask → PendingTask
answer response t = record t { response = some response; ready = true }

-- min((t.created_at for t in self._pending.values()), default=None)
abbrev pub min_with : ℕ → Option ℕ → Option ℕ
min_with t none = some t
min_with t (some u) = some (min t u)

unfoldable pub min_created : (Ref → PendingTask) → Dict Ref → Option ℕ
min_created objects [] = none
min_created objects ((k, r) ∷ d) = min_with (objects r).created_at (min_created objects d)

-- The test `created_at == self._oldest_pending_time`.
abbrev pub is_oldest : ℕ → Option ℕ → Bool
is_oldest t none = false
is_oldest t (some u) = eqb t u
