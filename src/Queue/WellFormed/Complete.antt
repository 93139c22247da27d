-- ===== src/Queue/WellFormed/Complete.antt =====
-- hermes_agent_a2a/task_queue.py: `complete` and `cancel` keep the queue well-formed.
use hermes_agent_a2a.Prelude.{
  ◌+◌, String, ◌≡◌, refl, true, false, some, [], ◌∷◌, arith, eq_iff, contains, discard,
  contains-discard, Option-cases, inl, inr,
}
use hermes_agent_a2a.Dict.{Dict, get, has, put, remove, IsDistinct}
use hermes_agent_a2a.Dict.Laws.{
  get-put, get-remove, length-remove, put-IsDistinct, remove-IsDistinct,
}
use hermes_agent_a2a.Queue.State.{TaskState, Ref, PendingTask, TaskQueue, update}
use hermes_agent_a2a.Queue.Ops.{trim_completed, finish, complete, retire, cancel, drop_processing}
use hermes_agent_a2a.Queue.Branches.{complete_found, complete_missing, cancel_found, cancel_missing}
use hermes_agent_a2a.Queue.WellFormed.{IsWellFormed, has-put_grows}

-- Trimming drops entries from the front.
pub get-trim_completed :
    (k : String) (d : Dict Ref) (r : Ref)
    → IsDistinct d
    → get k (trim_completed d) ≡ some r
    → get k d ≡ some r
unfolding trim_completed get IsDistinct
get-trim_completed k [] r u h = h
get-trim_completed k ((j, s) ∷ d) r u h = ground (arith, get-trim_completed k d r u.1, eq_iff j k)

pub trim_completed-IsDistinct : (d : Dict Ref) → IsDistinct d → IsDistinct (trim_completed d)
unfolding trim_completed IsDistinct
trim_completed-IsDistinct [] u = u
trim_completed-IsDistinct ((j, s) ∷ d) u = ground (arith, trim_completed-IsDistinct d u.1)

drop_processing-IsWellFormed :
    (k : String) {q : TaskQueue} → IsWellFormed q → IsWellFormed (drop_processing k q)
drop_processing-IsWellFormed k {q} w = record {
  pending_distinct = w.pending_distinct;
  completed_distinct = w.completed_distinct;
  counted = w.counted;
  processing_pending =
      λ j h. ground (arith, contains-discard k j q.processing, w.processing_pending j);
  pending_named = w.pending_named;
  pending_fresh = w.pending_fresh;
  completed_named = w.completed_named;
  completed_fresh = w.completed_fresh;
  stated = w.stated;
}

-- The common shape of `complete` and `cancel`: the object at `r` is written, its entry moves.
record Moved (k : String) (r : Ref) (q q' : TaskQueue) : Type 0 where
  same_id : (s : Ref) → (q'.objects s).task_id ≡ (q.objects s).task_id
  same_next : q'.next ≡ q.next
  left : q'.pending ≡ remove k q.pending
  same_processing : q'.processing ≡ q.processing
  entered :
      (j : String) (s : Ref) → get j q'.completed ≡ some s → get j (put k r q.completed) ≡ some s
  distinct : IsDistinct q'.completed
  grown : (j : String) → has j q.states ≡ true → has j q'.states ≡ true
  balance : q'.complete_count + q'.cancel_count ≡ q.complete_count + q.cancel_count + 1
  same_enqueued : q'.enqueue_count ≡ q.enqueue_count

Moved-IsWellFormed :
    (k : String) (r : Ref) {q q' : TaskQueue}
    → IsWellFormed q
    → get k q.pending ≡ some r
    → contains k q.processing ≡ false
    → Moved k r q q'
    → IsWellFormed q'
Moved-IsWellFormed k r {q} {q'} w there idle m = record {
  pending_distinct = rw m.left (remove-IsDistinct k q.pending w.pending_distinct);
  completed_distinct = m.distinct;
  counted = rw m.left (
      omega (
        arith,
        m.balance,
        m.same_enqueued,
        w.counted,
        length-remove k q.pending r w.pending_distinct there,
      ));
  processing_pending = λ j h. rw m.left (
      ground
        (arith, get-remove k j q.pending, eq_iff k j, w.processing_pending j, m.same_processing));
  pending_named =
      λ j s h. ground (arith, m.left, get-remove k j q.pending, w.pending_named j s, m.same_id s);
  pending_fresh =
      λ j s h. ground (arith, m.left, get-remove k j q.pending, w.pending_fresh j s, m.same_next);
  completed_named = λ j s h. ground (
    arith,
    m.entered j s h,
    get-put k j r q.completed,
    eq_iff k j,
    w.completed_named j s,
    w.pending_named k r there,
    m.same_id s,
  );
  completed_fresh = λ j s h. ground (
    arith,
    m.entered j s h,
    get-put k j r q.completed,
    w.completed_fresh j s,
    w.pending_fresh k r there,
    m.same_next,
  );
  stated = λ s h.
      rw (m.same_id s) (m.grown (q.objects s).task_id (w.stated s (ground (arith, m.same_next))));
}

pub task_id-update :
    (objects : Ref → PendingTask) (r s : Ref) (t : PendingTask)
    → t.task_id ≡ (objects r).task_id
    → (update objects r t s).task_id ≡ (objects s).task_id
task_id-update objects r s t h = ground arith

finish-Moved :
    (k response : String) (r : Ref) (q : TaskQueue)
    → IsWellFormed q
    → Moved k r q (finish k response r q)
unfolding finish
finish-Moved k response r q w =
    let u = put-IsDistinct k r q.completed w.completed_distinct in
    record {
      same_id = λ s. task_id-update q.objects r s _ (ground arith);
      same_next = refl;
      left = refl;
      same_processing = refl;
      entered = λ j s h. get-trim_completed j (put k r q.completed) s u h;
      distinct = trim_completed-IsDistinct (put k r q.completed) u;
      grown = λ j h. has-put_grows k j TaskState.completed q.states h;
      balance = omega arith;
      same_enqueued = refl;
    }

retire-Moved : (k : String) (r : Ref) (q : TaskQueue) → IsWellFormed q → Moved k r q (retire k r q)
unfolding retire
retire-Moved k r q w = record {
  same_id = λ s. task_id-update q.objects r s _ refl;
  same_next = refl;
  left = refl;
  same_processing = refl;
  entered = λ j s h. h;
  distinct = put-IsDistinct k r q.completed w.completed_distinct;
  grown = λ j h. has-put_grows k j TaskState.canceled q.states h;
  balance = omega arith;
  same_enqueued = refl;
}

idle_after_drop : (k : String) (q : TaskQueue) → contains k (discard k q.processing) ≡ false
idle_after_drop k q = ground (arith, contains-discard k k q.processing, eq_iff k k)

pub complete-IsWellFormed :
    (k response : String) {q : TaskQueue} → IsWellFormed q → IsWellFormed (complete k response q)
complete-IsWellFormed k response {q} w =
    let q' = drop_processing k q in
    let w' = drop_processing-IsWellFormed k w in
    elim (Option-cases (get k q.pending)) [
      | inl none_there ↦ rw (complete_missing k response q none_there) w'
      | inr (r, there) ↦
          rw (complete_found k response r q there) (
            Moved-IsWellFormed k r w' there (idle_after_drop k q) (finish-Moved k response r q' w'))
    ]

pub cancel-IsWellFormed : (k : String) {q : TaskQueue} → IsWellFormed q → IsWellFormed (cancel k q)
cancel-IsWellFormed k {q} w =
    let q' = drop_processing k q in
    let w' = drop_processing-IsWellFormed k w in
    elim (Option-cases (get k q.pending)) [
      | inl none_there ↦ rw (cancel_missing k q none_there) w'
      | inr (r, there) ↦
          rw (cancel_found k r q there)
            (Moved-IsWellFormed k r w' there (idle_after_drop k q) (retire-Moved k r q' w'))
    ]
