-- ===== src/Tests/Queue.antt =====
-- hermes_agent_a2a/task_queue.py and server.py: the theorems on the queue, at concrete queues.
use hermes_agent_a2a.Queue.State.{
  rejected, TaskState, working, auth_required, authenticated, completed, canceled, TaskQueue, init,
  max_pending,
}
use hermes_agent_a2a.Prelude.{
  sym, ◌∙◌, inl, ◌-◌, ◌*◌, ◌<◌, ◌≤◌, String, ◌≡◌, ◌≢◌, refl, ◌⊎◌, true, false, none, some, [], ◌∷◌,
  arith, length,
}
use mathlib.Core.List.{Memᴰ}
use hermes_agent_a2a.Queue.Machine.{
  auth_gate, terminal_absorbs, IsTerminal, transition_all, state_of,
}
use hermes_agent_a2a.Dict.{get, has, put}
use hermes_agent_a2a.Json.{end}
use hermes_agent_a2a.Queue.Evict.{evict}
use hermes_agent_a2a.Queue.Ops.{
  set_auth_required, transition, admit, count_enqueued, enqueue, requeue_tasks, finish, complete,
  cancel, trim_completed,
}
use hermes_agent_a2a.Queue.Reads.{pending_count, get_status, only_state}
use hermes_agent_a2a.Queue.Waiters.{wake, watchdog, orphan_scan, write, await_response}
use hermes_agent_a2a.Queue.WellFormed.{IsWellFormed, init-IsWellFormed}
use hermes_agent_a2a.Queue.Steps.{Step, Reach, Reach-IsWellFormed, pending_count_exact}
use hermes_agent_a2a.Queue.Delivery.{complete_delivers, requeue_revives}
use hermes_agent_a2a.Queue.Status.{status_without_response}
use hermes_agent_a2a.Queue.Arrival.{enqueue_bounded}
use hermes_agent_a2a.Queue.Watchdog.{watchdog_shortcut, watchdog_releases}

-- A queue with one task, "t1", that arrived at the time 5.
abbrev one_task : TaskQueue
one_task = (enqueue 5 "t1" "hello" end none init).0

abbrev identity : String → String
identity s = s

-- The caller of "t1" has timed out.
abbrev given_up : TaskQueue
given_up = write 0 (record (one_task.objects 0) { returned = true }) one_task

abbrev gated : TaskQueue
gated = set_auth_required "t1" init

Reach-one_task : Reach false init one_task
Reach-one_task = Reach.next Reach.here (Step.arrive 5 "t1" "hello" end none)

one_IsWellFormed : IsWellFormed one_task
one_IsWellFormed = Reach-IsWellFormed init-IsWellFormed Reach-one_task

pending_t1 : get "t1" one_task.pending ≡ some 0
unfolding enqueue admit count_enqueued evict get put init
pending_t1 = refl

runs : pending_count one_task ≡ 1
unfolding pending_count enqueue admit count_enqueued evict get put init
runs = refl

Reach-IsWellFormed_example : IsWellFormed one_task
Reach-IsWellFormed_example = Reach-IsWellFormed init-IsWellFormed Reach-one_task

pending_count_exact_example : pending_count one_task ≡ length one_task.pending
pending_count_exact_example = pending_count_exact one_task Reach-one_task

complete_delivers_example :
    ((wake 0 (complete "t1" "hi" one_task)).1 ≡ some "hi")
    × (((complete "t1" "hi" one_task).objects 0).ready ≡ true)
    × (await_response false 0 (complete "t1" "hi" one_task)
        ≡ some (complete "t1" "hi" one_task, some "hi"))
    × (get "t1" (complete "t1" "hi" one_task).pending ≡ none)
    × (get "t1" (complete "t1" "hi" one_task).states ≡ some completed)
unfolding enqueue admit count_enqueued evict get put init
complete_delivers_example = complete_delivers "t1" "hi" 0 one_task pending_t1 refl

pending_no_1 : get "t1" one_task.pending ≢ some 1
unfolding enqueue admit count_enqueued evict get put init
pending_no_1 e = ground (arith, e)

requeue_revives_example :
    (get "t1" (requeue_tasks (0 ∷ []) (complete "t1" "hi" one_task)).pending ≡ some 0)
    × (get "t1" (requeue_tasks (0 ∷ []) (complete "t1" "hi" one_task)).states ≡ some completed)
    × (get "t1" (requeue_tasks (0 ∷ []) (cancel "t1" one_task)).pending ≡ some 0)
    × (get "t1" (requeue_tasks (0 ∷ []) (cancel "t1" one_task)).states ≡ some canceled)
unfolding enqueue admit count_enqueued evict get put init
requeue_revives_example = requeue_revives "t1" "hi" 0 one_task pending_t1 refl

done_IsTerminal : IsTerminal (state_of "t1" (complete "t1" "hi" one_task))
unfolding complete finish trim_completed enqueue admit count_enqueued evict get put init
done_IsTerminal = inl refl

gated_state : state_of "t1" gated ≡ auth_required
unfolding set_auth_required get put init
gated_state = refl

gated_moves :
    state_of "t1" (transition_all "t1" (working ∷ authenticated ∷ working ∷ []) gated) ≡ working
unfolding transition set_auth_required get put init
gated_moves = refl

status_without_response_example :
    (s : TaskState) × (get_status identity "t1" one_task ≡ some (only_state s))
status_without_response_example = status_without_response identity "t1" one_task Reach-one_task

room : length one_task.pending < max_pending
unfolding enqueue admit count_enqueued evict get put init
room = omega arith

absent_t2 : get "t2" one_task.pending ≡ none
unfolding enqueue admit count_enqueued evict get put init
absent_t2 = refl

within : length one_task.pending ≤ max_pending
within = omega (arith, room)

enqueue_bounded_example :
    (length (enqueue 6 "t1" "bye" end none one_task).0.pending ≤ max_pending)
    × ((enqueue 6 "t1" "bye" end none one_task).1 ≡ none
        → (enqueue 6 "t1" "bye" end none one_task).0 ≡ one_task)
    × ((max_pending ≤ length one_task.pending) ⊎ (has "t1" one_task.pending ≡ true)
        → (enqueue 6 "t1" "bye" end none one_task).1 ≡ none)
enqueue_bounded_example = enqueue_bounded 6 "t1" "bye" end none one_task within

watchdog_shortcut_example :
    (watchdog 300 1000 one_task).objects 0 ≡ (orphan_scan (1000 - 2 * 300) one_task).objects 0
watchdog_shortcut_example = watchdog_shortcut 300 1000 one_task 0 Reach-one_task

-- A second task, "t2", that arrived at the time 900.
abbrev two_tasks : TaskQueue
two_tasks = (enqueue 900 "t2" "hello" end none one_task).0

Reach-two_tasks : Reach false init two_tasks
Reach-two_tasks = Reach.next Reach-one_task (Step.arrive 900 "t2" "hello" end none)

pending_of_two : get "t1" two_tasks.pending ≡ some 0
unfolding enqueue admit count_enqueued evict get put init
pending_of_two = refl

created_early : (two_tasks.objects 0).created_at < 1000 - 2 * 300
unfolding enqueue admit count_enqueued evict get put init
created_early = omega arith

created_late : 1000 - 2 * 300 ≤ (two_tasks.objects 1).created_at
unfolding enqueue admit count_enqueued evict get put init
created_late = omega arith

silent : (two_tasks.objects 0).response ≡ none
unfolding enqueue admit count_enqueued evict get put init
silent = refl

watchdog_releases_example :
    (((watchdog 300 1000 two_tasks).objects 0).ready ≡ true)
    × (await_response false 0 (watchdog 300 1000 two_tasks)
        ≡ some (watchdog 300 1000 two_tasks, some "(orphaned — no response)"))
    × ((watchdog 300 1000 two_tasks).objects 1 ≡ two_tasks.objects 1)
watchdog_releases_example =
    watchdog_releases 300 1000 two_tasks "t1" 0 1 Reach-two_tasks pending_of_two created_early
      silent (inl created_late)

terminal_absorbs_example :
    transition_all "t1" (working ∷ canceled ∷ []) (complete "t1" "hi" one_task)
    ≡ complete "t1" "hi" one_task
terminal_absorbs_example =
    terminal_absorbs "t1" (working ∷ canceled ∷ []) (complete "t1" "hi" one_task) done_IsTerminal

working_not_auth_required : working ≢ auth_required
working_not_auth_required h = ground (arith, h)

working_not_rejected : working ≢ rejected
working_not_rejected h = ground (arith, h)

auth_gate_example : Memᴰ authenticated (working ∷ authenticated ∷ working ∷ [])
auth_gate_example =
    auth_gate "t1" (working ∷ authenticated ∷ working ∷ []) gated (inl gated_state)
      (λ h. working_not_auth_required (sym gated_moves ∙ h))
      (λ h. working_not_rejected (sym gated_moves ∙ h))
