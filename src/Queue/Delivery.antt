-- ===== src/Queue/Delivery.antt =====
-- hermes_agent_a2a/task_queue.py: how a response reaches the thread that waits on a task object.
use hermes_agent_a2a.Prelude.{
  String, ◌≡◌, ◌≢◌, refl, ap, ◌∙◌, contains, contains-discard, true, false, none, some, [], ◌∷◌,
  arith, eq_iff, Option-cases, inl, inr,
}
use hermes_agent_a2a.Dict.{get}
use hermes_agent_a2a.Dict.Laws.{get-put, get-remove}
use hermes_agent_a2a.Queue.State.{Ref, TaskQueue, canceled, completed}
use hermes_agent_a2a.Queue.Ops.{requeue_tasks, finish, complete, retire, cancel}
use hermes_agent_a2a.Queue.Waiters.{wake, await_response}
use hermes_agent_a2a.Queue.Branches.{complete_found, complete_missing, cancel_found, cancel_missing}

module _ (k response : String) (r : Ref) (q : TaskQueue) (pending : get k q.pending ≡ some r) where
  -- Completing a pending task whose caller has not given up sets its event, so the waiting caller is
  -- released, without a timeout, with exactly that response;
  -- the task leaves the pending tasks with the state "completed".
  pub complete_delivers :
      (q.objects r).returned ≡ false
      → ((wake r (complete k response q)).1 ≡ some response)
        × (((complete k response q).objects r).ready ≡ true)
        × (await_response false r (complete k response q)
            ≡ some (complete k response q, some response))
        × (get k (complete k response q).pending ≡ none)
        × (get k (complete k response q).states ≡ some completed)
  unfolding finish await_response
  complete_delivers waiting = rw (complete_found k response r q pending) (
    ground arith,
    ground arith,
    ground arith,
    ground (arith, get-remove k k q.pending, eq_iff k k),
    ground (arith, get-put k k completed q.states, eq_iff k k),
  )

  -- Once the caller of a pending task has timed out, a late completion leaves the task object as it is.
  pub complete_late :
      (q.objects r).returned ≡ true → (complete k response q).objects r ≡ q.objects r
  unfolding finish
  complete_late late = rw (complete_found k response r q pending) (ground arith)

-- Neither `complete` nor `cancel` writes to any object but that of the pending task which it names.
pub others_untouched :
    (k response : String) (q : TaskQueue) (s : Ref)
    → get k q.pending ≢ some s
    → ((complete k response q).objects s ≡ q.objects s) × ((cancel k q).objects s ≡ q.objects s)
unfolding finish retire
others_untouched k response q s other = elim (Option-cases (get k q.pending)) [
  | inl missing ↦
      rw (complete_missing k response q missing, cancel_missing k q missing) (refl, refl)
  | inr (r, found) ↦
      rw (complete_found k response r q found, cancel_found k r q found)
        (ground (arith, other), ground (arith, other))
]

-- A task that is neither pending nor being processed goes back into the queue, its state unchanged.
requeue_absent :
    (k : String) (r : Ref) (q : TaskQueue)
    → (q.objects r).task_id ≡ k
    → get k q.pending ≡ none
    → contains k q.processing ≡ false
    → (get k (requeue_tasks (r ∷ []) q).pending ≡ some r)
      × ((requeue_tasks (r ∷ []) q).states ≡ q.states)
unfolding requeue_tasks
requeue_absent k r q named gone idle =
    (ground (arith, get-put k k r q.pending, eq_iff k k), ground arith)

-- What `complete` and `cancel` leave of a pending task.
pub complete_leaves :
    (k response : String) (r : Ref) (q : TaskQueue)
    → get k q.pending ≡ some r
    → let q' = complete k response q in
      ((q'.objects r).task_id ≡ (q.objects r).task_id)
      × (get k q'.pending ≡ none)
      × (contains k q'.processing ≡ false)
      × (get k q'.states ≡ some completed)
unfolding finish
complete_leaves k response r q pending = rw (complete_found k response r q pending) (
  ground arith,
  ground (arith, get-remove k k q.pending, eq_iff k k),
  ground (arith, contains-discard k k q.processing, eq_iff k k),
  ground (arith, get-put k k completed q.states, eq_iff k k),
)

pub cancel_leaves :
    (k : String) (r : Ref) (q : TaskQueue)
    → get k q.pending ≡ some r
    → let q' = cancel k q in
      ((q'.objects r).task_id ≡ (q.objects r).task_id)
      × (get k q'.pending ≡ none)
      × (contains k q'.processing ≡ false)
      × (get k q'.states ≡ some canceled)
unfolding retire
cancel_leaves k r q pending = rw (cancel_found k r q pending) (
  ground arith,
  ground (arith, get-remove k k q.pending, eq_iff k k),
  ground (arith, contains-discard k k q.processing, eq_iff k k),
  ground (arith, get-put k k canceled q.states, eq_iff k k),
)

-- A task that was drained, and then completed or canceled by another thread before `requeue_tasks`,
-- is put back among the pending tasks, although its state stays "completed" or "canceled".
pub requeue_revives :
    (k response : String) (r : Ref) (q : TaskQueue)
    → get k q.pending ≡ some r
    → (q.objects r).task_id ≡ k
    → (get k (requeue_tasks (r ∷ []) (complete k response q)).pending ≡ some r)
      × (get k (requeue_tasks (r ∷ []) (complete k response q)).states ≡ some completed)
      × (get k (requeue_tasks (r ∷ []) (cancel k q)).pending ≡ some r)
      × (get k (requeue_tasks (r ∷ []) (cancel k q)).states ≡ some canceled)
requeue_revives k response r q pending named =
    let (id, gone, idle, state) = complete_leaves k response r q pending in
    let (back, same) = requeue_absent k r (complete k response q) (id ∙ named) gone idle in
    let (id', gone', idle', state') = cancel_leaves k r q pending in
    let (back', same') = requeue_absent k r (cancel k q) (id' ∙ named) gone' idle' in
    (back, ap (get k) same ∙ state, back', ap (get k) same' ∙ state')
