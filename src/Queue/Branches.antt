-- ===== src/Queue/Branches.antt =====
-- hermes_agent_a2a/task_queue.py: `complete` and `cancel`, with and without a pending task.
use hermes_agent_a2a.Prelude.{String, ◌≡◌, none, some}
use hermes_agent_a2a.Dict.{get}
use hermes_agent_a2a.Queue.State.{Ref, TaskQueue}
use hermes_agent_a2a.Queue.Ops.{finish, complete, retire, cancel, drop_processing}

module _ (k response : String) (r : Ref) (q : TaskQueue) where
  pub complete_found :
      get k q.pending ≡ some r → complete k response q ≡ finish k response r (drop_processing k q)
  unfolding complete
  complete_found h = rw (h, complete)

module _ (k : String) (r : Ref) (q : TaskQueue) where
  pub cancel_found : get k q.pending ≡ some r → cancel k q ≡ retire k r (drop_processing k q)
  unfolding cancel
  cancel_found h = rw (h, cancel)

pub complete_missing :
    (k response : String) (q : TaskQueue)
    → get k q.pending ≡ none
    → complete k response q ≡ drop_processing k q
unfolding complete
complete_missing k response q h = rw (h, complete)

pub cancel_missing :
    (k : String) (q : TaskQueue) → get k q.pending ≡ none → cancel k q ≡ drop_processing k q
unfolding cancel
cancel_missing k q h = rw (h, cancel)
