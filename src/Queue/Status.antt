-- ===== src/Queue/Status.antt =====
-- hermes_agent_a2a/task_queue.py: what `get_status` and `drain_pending` answer.
use hermes_agent_a2a.Prelude.{
  String, ◌≡◌, refl, inl, inr, Bool, true, false, none, some, arith, eq_iff, ◌==◌, if◌then◌else◌,
  Option-cases,
}
use hermes_agent_a2a.Dict.{get, has, put}
use hermes_agent_a2a.Dict.Laws.{get-put, put-IsDistinct}
use hermes_agent_a2a.Queue.State.{
  TaskState, Ref, TaskQueue, init, canceled, completed, working, unknown,
}
use hermes_agent_a2a.Queue.Ops.{finish, complete, retire, cancel, state_or, trim_completed}
use hermes_agent_a2a.Queue.Reads.{get_status, only_state, is_text}
use hermes_agent_a2a.Queue.Branches.{complete_found, cancel_found}
use hermes_agent_a2a.Queue.Delivery.{complete_leaves, cancel_leaves}
use hermes_agent_a2a.Queue.WellFormed.{IsWellFormed, init-IsWellFormed}
use hermes_agent_a2a.Queue.WellFormed.Complete.{get-trim_completed}
use hermes_agent_a2a.Queue.Steps.{Reach, Reach-IsWellFormed}

-- A completed task has a state on record.
completed_has_state :
    (k : String) (r : Ref) {q : TaskQueue}
    → IsWellFormed q
    → get k q.completed ≡ some r
    → has k q.states ≡ true
completed_has_state k r {q} w there =
    ground (arith, w.completed_named k r there, w.stated r (w.completed_fresh k r there))

well_formed_status :
    (f : String → String) (k : String) (q : TaskQueue)
    → IsWellFormed q
    → (s : TaskState) × (get_status f k q ≡ some (only_state s))
unfolding get_status
well_formed_status f k q w = elim (Option-cases (get k q.pending)) [
  | inr (r, there) ↦ (state_or working (get k q.states), ground arith)
  | inl gone ↦ elim (Option-cases (get k q.completed)) [
    | inl never ↦ (state_or unknown (get k q.states), ground arith)
    | inr (r, done) ↦ (
      if is_text (q.objects r).response "(canceled)"
          then canceled
          else state_or unknown (get k q.states),
      ground (arith, completed_has_state k r w done),
    )
  ]
]

-- In every queue that the threads can reach from a new one, `get_status` raises no exception, and
-- its answer never holds a response: not even for a completed task, whose state is always on record.
pub status_without_response :
    {requeues : Bool} (filter_outbound : String → String) (k : String) (q : TaskQueue)
    → Reach requeues init q
    → (s : TaskState) × (get_status filter_outbound k q ≡ some (only_state s))
status_without_response f k q reached =
    well_formed_status f k q (Reach-IsWellFormed init-IsWellFormed reached)

-- The three answers about a task that is no longer pending.
module _ (f : String → String) (k : String) (s : TaskState) (q : TaskQueue)
    (gone : get k q.pending ≡ none) where
  status_of_completed :
      (r : Ref)
      → get k q.completed ≡ some r
      → is_text (q.objects r).response "(canceled)" ≡ false
      → get k q.states ≡ some s
      → get_status f k q ≡ some (only_state s)
  unfolding get_status
  status_of_completed r there other known = ground arith

  status_of_canceled :
      (r : Ref)
      → get k q.completed ≡ some r
      → is_text (q.objects r).response "(canceled)" ≡ true
      → get_status f k q ≡ some (only_state canceled)
  unfolding get_status
  status_of_canceled r there same = ground arith

  status_of_trimmed :
      get k q.completed ≡ none → get k q.states ≡ some s → get_status f k q ≡ some (only_state s)
  unfolding get_status
  status_of_trimmed absent known = ground arith

-- In a well-formed queue, after a completion that reaches its caller, with a response other than
-- "(canceled)", the status of the task is "completed".
pub status_after_complete :
    (filter_outbound : String → String) (k response : String) (r : Ref) (q : TaskQueue)
    → IsWellFormed q
    → get k q.pending ≡ some r
    → (q.objects r).returned ≡ false
    → (response == "(canceled)") ≡ false
    → get_status filter_outbound k (complete k response q) ≡ some (only_state completed)
unfolding finish
status_after_complete f k response r q w pending waiting other =
    let (id, gone, idle, known) = complete_leaves k response r q pending in
    let d = put k r q.completed in
    let u = put-IsDistinct k r q.completed w.completed_distinct in
    let moved : (complete k response q).completed ≡ trim_completed d =
      rw (complete_found k response r q pending) refl in
    let said : ((complete k response q).objects r).response ≡ some response =
      rw (complete_found k response r q pending) (ground arith) in
    elim (Option-cases (get k (trim_completed d))) [
      | inl out ↦ status_of_trimmed f k completed _ gone (rw moved out) known
      | inr (s, kept) ↦
          let here : get k (complete k response q).completed ≡ some r = rw moved (
            ground (
              arith,
              kept,
              get-trim_completed k d s u kept,
              get-put k k r q.completed,
              eq_iff k k,
            )) in
          status_of_completed f k completed _ gone r here (rw said other) known
    ]

-- After a cancellation of a pending task its status is "canceled".
pub status_after_cancel :
    (filter_outbound : String → String) (k : String) (r : Ref) (q : TaskQueue)
    → get k q.pending ≡ some r
    → get_status filter_outbound k (cancel k q) ≡ some (only_state canceled)
unfolding retire
status_after_cancel f k r q pending =
    let (id, gone, idle, known) = cancel_leaves k r q pending in
    let here : get k (cancel k q).completed ≡ some r =
      rw (cancel_found k r q pending) (ground (arith, get-put k k r q.completed, eq_iff k k)) in
    let said : ((cancel k q).objects r).response ≡ some "(canceled)" =
      rw (cancel_found k r q pending) (ground arith) in
    status_of_canceled f k canceled _ gone r here (rw said refl)
