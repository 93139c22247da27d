-- ===== src/Http/Tasks/Cancel.antt =====
-- hermes_agent_a2a/server.py: CancelTask, and what the task's caller, GetTask and a second CancelTask see
-- of it.
use hermes_agent_a2a.Prelude.{String, ◌≡◌, refl, Bool, false, none, some, List, arith}
use hermes_agent_a2a.Dict.{get}
use hermes_agent_a2a.Json.{Json}
use hermes_agent_a2a.Queue.State.{TaskState, working, canceled, unknown, same_state, Ref}
use hermes_agent_a2a.Queue.Ops.{cancel, retire, state_or}
use hermes_agent_a2a.Queue.Reads.{get_status, only_state}
use hermes_agent_a2a.Queue.Waiters.{wake}
use hermes_agent_a2a.Queue.Branches.{cancel_found}
use hermes_agent_a2a.Queue.Status.{status_after_cancel}
use hermes_agent_a2a.Workers.{cancel_worker, Signal}
use hermes_agent_a2a.Protocol.{Draws, build_task_object}
use hermes_agent_a2a.Http.{Env, App}
use hermes_agent_a2a.Http.Tasks.{
  Core, object, get_task_core, is_settled, not_cancelable, cancel_task_core, with_queue, status_of,
  after_worker,
}

module _ (e : Env) (k : String) where
  pending_status :
      (a : App) (r : Ref)
      → get k a.server.queue.pending ≡ some r
      → status_of e k a ≡ some (only_state (state_or working (get k a.server.queue.states)))
  unfolding get_status
  pending_status a r there = ground (arith, there)

  cancel_open :
      (d : Draws) (rpc : Json) (a : App) (s : TaskState) (w : List Signal × Bool)
      → status_of e k a ≡ some (only_state s)
      → same_state s unknown ≡ false
      → is_settled s ≡ false
      → cancel_worker e.finished e.obeys e.dies k a.processes ≡ some w
      → cancel_task_core e d k rpc a ≡ after_worker e d k a (some w)
  unfolding cancel_task_core
  cancel_open d rpc a s w known seen still worker = rw (known, seen, still, worker) refl

  get_canceled :
      (d : Draws) (rpc : Json) (a : App)
      → status_of e k a ≡ some (only_state canceled)
      → get_task_core e d k rpc a
        ≡ object (build_task_object e.filter_outbound e.isoformat d k canceled none none none)
  unfolding get_task_core
  get_canceled d rpc a known = rw known refl

  cancel_canceled :
      (d : Draws) (rpc : Json) (a : App)
      → status_of e k a ≡ some (only_state canceled)
      → cancel_task_core e d k rpc a ≡ (a, not_cancelable canceled rpc)
  unfolding cancel_task_core
  cancel_canceled d rpc a known = rw known refl

  wake_canceled :
      (a : App) (r : Ref)
      → get k a.server.queue.pending ≡ some r
      → (wake r (cancel k a.server.queue)).1 ≡ some "(canceled)"
  unfolding wake retire
  wake_canceled a r there = rw (cancel_found k r a.server.queue there) (ground arith)

-- CancelTask of a pending task whose state on record is neither unknown nor final, when its worker can be
-- stopped: the answer is a task object that is canceled, the task's waiting caller is answered
-- "(canceled)", GetTask then answers that the task is canceled, and a second CancelTask is refused with a
-- 409 and changes nothing.
pub cancel_pending :
    (e : Env) (d d' : Draws) (k : String) (rpc rpc' : Json) (a : App) (r : Ref)
    (w : List Signal × Bool)
    → get k a.server.queue.pending ≡ some r
    → same_state (state_or working (get k a.server.queue.states)) unknown ≡ false
    → is_settled (state_or working (get k a.server.queue.states)) ≡ false
    → cancel_worker e.finished e.obeys e.dies k a.processes ≡ some w
    → let canceled_task : Draws → Core =
        λ x. object (build_task_object e.filter_outbound e.isoformat x k canceled none none none) in
      let a' = with_queue (cancel k a.server.queue) a in
      (cancel_task_core e d k rpc a ≡ (a', canceled_task d))
      × ((wake r a'.server.queue).1 ≡ some "(canceled)")
      × (get_task_core e d' k rpc' a' ≡ canceled_task d')
      × (cancel_task_core e d' k rpc' a' ≡ (a', not_cancelable canceled rpc'))
cancel_pending e d d' k rpc rpc' a r w there seen still worker =
    let a' : App = with_queue (cancel k a.server.queue) a in
    let known = status_after_cancel e.filter_outbound k r a.server.queue there in
    (
      cancel_open e k d rpc a _ w (pending_status e k a r there) seen still worker,
      wake_canceled e k a r there,
      get_canceled e k d' rpc' a' known,
      cancel_canceled e k d' rpc' a' known,
    )
