-- ===== src/Queue/WellFormed/Enqueue.antt =====
-- hermes_agent_a2a/task_queue.py: `enqueue`, `requeue_tasks` and `mark_processing` keep the queue
-- well-formed, and `enqueue` never evicts.
use hermes_agent_a2a.Prelude.{
  ℕ, ◌+◌, ◌<◌, ◌≤◌, String, ◌≡◌, ◌⊎◌, true, ◌||◌, Option, none, some, List, [], ◌∷◌, arith, eq_iff,
  leb, length, contains, contains-add, Option-cases, inl, inr, Bool-cases,
}
use hermes_agent_a2a.Dict.{get, has, put}
use hermes_agent_a2a.Dict.Laws.{get-put, put_absent, put-IsDistinct}
use hermes_agent_a2a.Json.{Fields}
use hermes_agent_a2a.Queue.State.{TaskState, Ref, TaskQueue}
use hermes_agent_a2a.Queue.Evict.{evict_within}
use hermes_agent_a2a.Queue.Ops.{admit, count_enqueued, enqueue, requeue_tasks, mark_processing}
use hermes_agent_a2a.Queue.WellFormed.{IsWellFormed}

-- The queue after a successful `enqueue`.
enqueued-IsWellFormed :
    (now : ℕ) (k text : String) (m : Fields) (c : Option String) {q : TaskQueue}
    → IsWellFormed q
    → get k q.pending ≡ none
    → IsWellFormed (count_enqueued (admit now k text m c q, 0))
unfolding admit count_enqueued
enqueued-IsWellFormed now k text m c {q} w new = record {
  pending_distinct = put-IsDistinct k q.next q.pending w.pending_distinct;
  completed_distinct = w.completed_distinct;
  counted = omega (arith, w.counted, put_absent k q.next q.pending new);
  processing_pending =
      λ j h. ground (arith, get-put k j q.next q.pending, w.processing_pending j h);
  pending_named = λ j r h.
      ground
        (arith, get-put k j q.next q.pending, eq_iff k j, w.pending_named j r, w.pending_fresh j r);
  pending_fresh =
      λ j r h. ground (arith, get-put k j q.next q.pending, eq_iff k j, w.pending_fresh j r);
  completed_named = λ j r h. ground (arith, w.completed_named j r h, w.completed_fresh j r h);
  completed_fresh = λ j r h. omega (arith, w.completed_fresh j r h);
  stated = λ r h. ground (
    arith,
    get-put k (q.objects r).task_id TaskState.submitted q.states,
    get-put k k TaskState.submitted q.states,
    eq_iff k k,
    w.stated r,
  );
}

-- Within the bound `enqueue` admits a new task and evicts none.
pub enqueue_admits :
    (now : ℕ) (k text : String) (m : Fields) (c : Option String) (q : TaskQueue)
    → length q.pending < 100000
    → get k q.pending ≡ none
    → enqueue now k text m c q ≡ (count_enqueued (admit now k text m c q, 0), some q.next)
unfolding enqueue
enqueue_admits now k text m c q room new =
    let q' = admit now k text m c q in
    let small : length q'.pending ≤ 100000 =
      unfold admit in omega (arith, put_absent k q.next q.pending new) in
    ground (arith, evict_within (length q'.pending) q' 0 small)

-- Otherwise it changes nothing and answers None.
pub enqueue_refuses :
    (now : ℕ) (k text : String) (m : Fields) (c : Option String) (q : TaskQueue)
    → (100000 ≤ length q.pending) ⊎ (has k q.pending ≡ true)
    → enqueue now k text m c q ≡ (q, none)
unfolding enqueue
enqueue_refuses now k text m c q h = ground arith

pub enqueue-cases :
    (now : ℕ) (k text : String) (m : Fields) (c : Option String) (q : TaskQueue)
    → ((length q.pending < 100000)
        × (get k q.pending ≡ none)
        × (enqueue now k text m c q ≡ (count_enqueued (admit now k text m c q, 0), some q.next)))
      ⊎ (enqueue now k text m c q ≡ (q, none))
enqueue-cases now k text m c q = elim (Bool-cases (leb 100000 (length q.pending))) [
  | inl full ↦ inr (enqueue_refuses now k text m c q (inl (ground arith)))
  | inr room ↦ elim (Option-cases (get k q.pending)) [
    | inl new ↦ inl (ground arith, new, enqueue_admits now k text m c q (ground arith) new)
    | inr (r, old) ↦ inr (enqueue_refuses now k text m c q (inr (ground arith)))
  ]
]

pub enqueue-IsWellFormed :
    (now : ℕ) (k text : String) (m : Fields) (c : Option String) {q : TaskQueue}
    → IsWellFormed q
    → IsWellFormed (enqueue now k text m c q).0
enqueue-IsWellFormed now k text m c {q} w = elim (enqueue-cases now k text m c q) [
  | inl (room, new, e) ↦ rw e (enqueued-IsWellFormed now k text m c w new)
  | inr e ↦ rw e w
]

pub mark_processing-IsWellFormed :
    (k : String) {q : TaskQueue} → IsWellFormed q → IsWellFormed (mark_processing k q)
unfolding mark_processing
mark_processing-IsWellFormed k {q} w = elim (Bool-cases (has k q.pending)) [
  | inl there ↦ rw there (record {
    pending_distinct = w.pending_distinct;
    completed_distinct = w.completed_distinct;
    counted = w.counted;
    processing_pending =
        λ j h. ground (arith, contains-add k j q.processing, eq_iff k j, w.processing_pending j);
    pending_named = w.pending_named;
    pending_fresh = w.pending_fresh;
    completed_named = w.completed_named;
    completed_fresh = w.completed_fresh;
    stated = w.stated;
  })
  | inr absent ↦ rw absent w
]

-- One round of `requeue_tasks`, for a task that is neither pending nor being processed.
requeued-IsWellFormed :
    (r : Ref) {q : TaskQueue}
    → IsWellFormed q
    → r < q.next
    → get (q.objects r).task_id q.pending ≡ none
    → IsWellFormed (record q {
      pending = put (q.objects r).task_id r q.pending;
      enqueue_count = q.enqueue_count + 1;
    })
requeued-IsWellFormed r {q} w old new =
    let k = (q.objects r).task_id in
    record {
      pending_distinct = put-IsDistinct k r q.pending w.pending_distinct;
      completed_distinct = w.completed_distinct;
      counted = omega (arith, w.counted, put_absent k r q.pending new);
      processing_pending = λ j h. ground (arith, get-put k j r q.pending, w.processing_pending j h);
      pending_named =
          λ j s h. ground (arith, get-put k j r q.pending, eq_iff k j, w.pending_named j s);
      pending_fresh = λ j s h. ground (arith, get-put k j r q.pending, w.pending_fresh j s);
      completed_named = w.completed_named;
      completed_fresh = w.completed_fresh;
      stated = w.stated;
    }

-- The references that `requeue_tasks` takes are objects on the heap.
abbrev pub AllBelow : ℕ → List Ref → Type 0
AllBelow n [] = Unit {0}
AllBelow n (r ∷ rs) = (r < n) × AllBelow n rs

pub requeue_tasks-IsWellFormed :
    (tasks : List Ref) {q : TaskQueue}
    → AllBelow q.next tasks
    → IsWellFormed q
    → IsWellFormed (requeue_tasks tasks q)
unfolding requeue_tasks
requeue_tasks-IsWellFormed [] b w = w
requeue_tasks-IsWellFormed (r ∷ tasks) {q} (b, bs) w =
    elim (Bool-cases
      (has (q.objects r).task_id q.pending || contains (q.objects r).task_id q.processing)) [
        | inl skip ↦ rw skip (requeue_tasks-IsWellFormed tasks bs w)
        | inr new ↦
            rw new
              (requeue_tasks-IsWellFormed tasks bs (requeued-IsWellFormed r w b (ground arith)))
      ]
