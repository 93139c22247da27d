-- ===== src/Hooks/Turn.antt =====
-- hermes_agent_a2a/hooks.py: a turn of the model takes up one task, and answers one.
use mathlib.Core.List.{Memᴰ}
use hermes_agent_a2a.Prelude.{
  String, ◌≡◌, refl, ap, ◌∙◌, ◌⊎◌, inl, inr, true, false, Option, none, some, List, [], ◌∷◌, arith,
  eq_refl, ◌==◌, contains, contains-add, Bool-cases, is_some,
}
use hermes_agent_a2a.Dict.{Dict, get, has}
use hermes_agent_a2a.Json.{Json}
use hermes_agent_a2a.Queue.State.{
  TaskState, submitted, working, completed, Ref, PendingTask, TaskQueue,
}
use hermes_agent_a2a.Queue.Ops.{
  transitions, allowed, state_or, transition, mark_processing, requeue_tasks, complete,
}
use hermes_agent_a2a.Queue.Reads.{
  Status, only_state, get_processing_tasks, drain_pending, get_status,
}
use hermes_agent_a2a.Queue.WellFormed.{IsWellFormed}
use hermes_agent_a2a.Queue.Waiters.{wake}
use hermes_agent_a2a.Queue.Delivery.{complete_delivers}
use hermes_agent_a2a.Queue.Drain.{drain_pending_exact}
use hermes_agent_a2a.Hooks.{
  Injection, Change, take_up, pre_llm_call, context_of, truthy, first, target_or, respond,
  post_llm_call,
}

-- Tasks that are pending are not put back: `drain_pending` takes nothing out of the queue.
requeue_pending :
    (tasks : List Ref) (q : TaskQueue)
    → ((r : Ref) → Memᴰ r tasks → has (q.objects r).task_id q.pending ≡ true)
    → requeue_tasks tasks q ≡ q
unfolding requeue_tasks
requeue_pending [] q h = refl
requeue_pending (r ∷ tasks) q h =
    let rest = requeue_pending tasks q (λ s m. h s (Memᴰ.tail m)) in rw (h r (Memᴰ.head refl)) rest

transition_keeps :
    (k : String) (s : TaskState) (q : TaskQueue)
    → ((transition k s q).0.pending ≡ q.pending) × ((transition k s q).0.objects ≡ q.objects)
unfolding transition
transition_keeps k s q =
    elim (Bool-cases (allowed s (transitions (state_or submitted (get k q.states))))) [
      | inl yes_edge ↦ rw yes_edge (refl, refl)
      | inr no_edge ↦ rw no_edge (refl, refl)
    ]

mark_keeps :
    (k : String) (q : TaskQueue)
    → ((mark_processing k q).pending ≡ q.pending)
      × ((mark_processing k q).objects ≡ q.objects)
      × (has k q.pending ≡ true → contains k (mark_processing k q).processing ≡ true)
unfolding mark_processing
mark_keeps k q = elim (Bool-cases (has k q.pending)) [
  | inl there ↦ rw there (refl, refl, λ h. ground (arith, contains-add k k q.processing, eq_refl k))
  | inr gone ↦ rw gone (refl, refl, λ h. absurd (ground (arith, h, gone)))
]

abbrev pub started : String → TaskQueue → TaskQueue
started k q = mark_processing k (transition k working q).0

started_keeps :
    (k : String) (q : TaskQueue)
    → has k q.pending ≡ true
    → ((started k q).pending ≡ q.pending)
      × ((started k q).objects ≡ q.objects)
      × (contains k (started k q).processing ≡ true)
started_keeps k q h =
    let (p, o) = transition_keeps k working q in
    let (p', o', c) = mark_keeps k (transition k working q).0 in
    (p' ∙ p, o' ∙ o, c (ap (λ (d : Dict Ref). has k d) p ∙ h))

-- What a turn does with the tasks that it drained.
abbrev pub IsTurn : (Json → String) → List Ref → TaskQueue → TaskQueue × Option Injection → Type 0
IsTurn py_str tasks q x =
    ((tasks ≡ []) × (x.0 ≡ q) × (x.1 ≡ none))
    ⊎ ((r : Ref) × Memᴰ r tasks
        × (x.0.pending ≡ q.pending)
        × (x.0.objects ≡ q.objects)
        × (contains (q.objects r).task_id x.0.processing ≡ true)
        × (x.1
            ≡ some (record {
              context = context_of py_str (q.objects r);
              change = record {
                task_id = (q.objects r).task_id;
                old_state = submitted;
                new_state = working;
                context_id = (q.objects r).context_id;
              };
            })))

taken :
    (py_str : Json → String) (tasks : List Ref) (q : TaskQueue)
    → ((s : Ref) → Memᴰ s tasks → has (q.objects s).task_id q.pending ≡ true)
    → IsTurn py_str tasks q (take_up py_str tasks q)
unfolding take_up
taken py_str [] q h = inl (refl, refl, refl)
taken py_str (r ∷ rest) q h =
    let k : String = (q.objects r).task_id in
    let (p, o, c) = started_keeps k q (h r (Memᴰ.head refl)) in
    let same : requeue_tasks rest (started k q) ≡ started k q =
      requeue_pending rest (started k q) (λ s m.
        ap (λ (objects : Ref → PendingTask). has (objects s).task_id (started k q).pending) o
        ∙ ap (λ (d : Dict Ref). has (q.objects s).task_id d) p
        ∙ h s (Memᴰ.tail m)) in
    inr (
      r,
      Memᴰ.head refl,
      ap (λ (x : TaskQueue). x.pending) same ∙ p,
      ap (λ (x : TaskQueue). x.objects) same ∙ o,
      ap (λ (x : TaskQueue). contains k x.processing) same ∙ c,
      refl,
    )

-- In a well-formed queue a turn of the model leaves the queue alone if no task is idle; otherwise it
-- hands out one of the idle tasks and marks it as being processed. No task enters or leaves the
-- pending tasks, no object is written, and so no other drained task is lost.
pub pre_llm_call-IsTurn :
    (py_str : Json → String) (q : TaskQueue)
    → IsWellFormed q
    → IsTurn py_str (drain_pending [] q) q (pre_llm_call py_str q)
unfolding pre_llm_call
pre_llm_call-IsTurn py_str q w =
    taken py_str (drain_pending [] q) q
      (λ s m. let there = ((drain_pending_exact [] q s w).0 m).0 in ap is_some there)

-- The status of a pending task raises nothing.
status_of_pending :
    (f : String → String) (k : String) (r : Ref) (q : TaskQueue)
    → get k q.pending ≡ some r
    → get_status f k q ≡ some (only_state (state_or working (get k q.states)))
unfolding get_status
status_of_pending f k r q there = rw there refl

-- A response of the model to a pending task wakes the caller that still waits on it with exactly that
-- text, raises nothing, and announces the change of the task to "completed". The text and the id
-- are not empty.
pub post_llm_call_wakes :
    (filter_outbound : String → String) (k response : String) (r : Ref) (q : TaskQueue)
    → (k == "") ≡ false
    → (response == "") ≡ false
    → get k q.pending ≡ some r
    → (q.objects r).returned ≡ false
    → (q' : TaskQueue) × (ch : Change) × (post_llm_call filter_outbound (some response) (some k) q
        ≡ some (q', some ch))
      × ((wake r q').1 ≡ some response)
      × (ch.task_id ≡ k)
      × (ch.new_state ≡ completed)
unfolding post_llm_call respond
post_llm_call_wakes filter_outbound k response r q named said there waiting =
    let st : Status = only_state (state_or working (get k q.states)) in
    let known = status_of_pending filter_outbound k r q there in
    let ch : Change = record {
      task_id = k;
      old_state = st.state;
      new_state = completed;
      context_id = some k;
    } in
    let responded : respond filter_outbound k response q ≡ some (complete k response q, some ch) =
      rw (known, respond) refl in
    (
      complete k response q,
      ch,
      ap (λ (o : Option String). answer_of filter_outbound (some k) q o) (truthy_text response said)
          ∙ ap (λ (o : Option String). target_of filter_outbound response q o) (truthy_text k named)
          ∙ responded,
      (complete_delivers k response r q there waiting).0,
      refl,
      refl,
    )
  where
    truthy_text : (s : String) → (s == "") ≡ false → truthy (some s) ≡ some s
    truthy_text s h = ground (arith, h)

    target_of :
        (String → String) → String → TaskQueue → Option String → Option (TaskQueue × Option Change)
    target_of f response q o = elim (target_or o (first (get_processing_tasks q))) [
      | some target ↦ respond f target response q
      | none ↦ elim (first (get_processing_tasks q)) [
        | some target ↦ respond f target response q
        | none ↦ some (q, none)
      ]
    ]

    answer_of :
        (String → String)
        → Option String
        → TaskQueue
        → Option String
        → Option (TaskQueue × Option Change)
    answer_of f key q o = elim o [
      | none ↦ some (q, none)
      | some response ↦ target_of f response q (truthy key)
    ]
