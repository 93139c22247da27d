-- ===== src/Queue/Oldest.antt =====
-- hermes_agent_a2a/task_queue.py and the watchdog of hermes_agent_a2a/server.py: the recorded oldest
-- time is exact as long as no task is put back by `requeue_tasks`, so the watchdog may skip its scan.
use hermes_agent_a2a.Prelude.{
  ℕ, ◌≤◌, String, ◌≡◌, ◌≢◌, refl, sym, ◌∙◌, false, Option, none, some, [], ◌∷◌, arith, eq_iff, ◌==◌,
  Option-cases, Bool-cases, inl, inr,
}
use hermes_agent_a2a.Dict.{Dict, get, put, remove, IsDistinct}
use hermes_agent_a2a.Dict.Laws.{remove_absent}
use hermes_agent_a2a.Queue.State.{
  Ref, PendingTask, TaskQueue, update, min_created, is_oldest, new_task,
}
use hermes_agent_a2a.Queue.Ops.{older, admit, oldest_after, count_enqueued}
use hermes_agent_a2a.Json.{Fields}
use hermes_agent_a2a.Queue.WellFormed.{IsWellFormed}

-- The minimum depends only on the times.
min_created-same :
    (f g : Ref → PendingTask) (d : Dict Ref)
    → ((k : String) (r : Ref) → get k d ≡ some r → (f r).created_at ≡ (g r).created_at)
    → IsDistinct d
    → min_created f d ≡ min_created g d
unfolding min_created get IsDistinct
min_created-same f g [] same u = refl
min_created-same f g ((k, r) ∷ d) same u =
    let tail = min_created-same f g d (λ j s h. same j s (ground (arith, eq_iff k j, u.0))) u.1 in
    ground (arith, same k r (ground (arith, eq_iff k k)), tail)

min_created-put :
    (f : Ref → PendingTask) (k : String) (r : Ref) (d : Dict Ref)
    → get k d ≡ none
    → min_created f (put k r d) ≡ older (min_created f d) (f r).created_at
unfolding min_created get put
min_created-put f k r [] h = refl
min_created-put f k r ((j, s) ∷ d) h = ground (arith, min_created-put f k r d)

some_min :
    (f : Ref → PendingTask) (k : String) (r : Ref) (d : Dict Ref)
    → get k d ≡ some r
    → min_created f d ≢ none
unfolding min_created get
some_min f k r [] h = cc
some_min f k r ((j, s) ∷ d) h = ground arith

pub min_created-le :
    (f : Ref → PendingTask) (k : String) (r : Ref) (d : Dict Ref) (t : ℕ)
    → get k d ≡ some r
    → min_created f d ≡ some t
    → t ≤ (f r).created_at
unfolding min_created get
min_created-le f k r [] t h m = cc
min_created-le f k r ((j, s) ∷ d) t h m = elim (Option-cases (min_created f d)) [
  | inl e ↦ ground (arith, e, some_min f k r d)
  | inr (u, e) ↦ ground (arith, e, min_created-le f k r d u)
]

empty_min :
    (f : Ref → PendingTask) (k : String) (d : Dict Ref)
    → min_created f d ≡ none
    → min_created f (remove k d) ≡ none
unfolding min_created remove
empty_min f k [] h = h
empty_min f k ((j, s) ∷ d) h = ground arith

-- Removing an entry does not lower the minimum.
min_created-remove-le :
    (f : Ref → PendingTask) (k : String) (d : Dict Ref) (t u : ℕ)
    → min_created f d ≡ some t
    → min_created f (remove k d) ≡ some u
    → t ≤ u
unfolding min_created remove
min_created-remove-le f k [] t u m m' = cc
min_created-remove-le f k ((j, s) ∷ d) t u m m' = elim (Bool-cases (j == k)) [
  | inl here ↦ elim (Option-cases (min_created f d)) [
    | inl e ↦ ground (arith, e, empty_min f k d e)
    | inr (v, e) ↦ ground (arith, e, min_created-remove-le f k d v u e)
  ]
  | inr there ↦ elim (Option-cases (min_created f d)) [
    | inl e ↦ ground (arith, e, there, empty_min f k d e)
    | inr (v, e) ↦ elim (Option-cases (min_created f (remove k d))) [
      | inl e' ↦ ground (arith, e, e', there)
      | inr (v', e') ↦ ground (arith, e, e', there, min_created-remove-le f k d v v' e e')
    ]
  ]
]

-- Without an entry whose time is not the minimum, the minimum stays.
min_created-remove :
    (f : Ref → PendingTask) (k : String) (r : Ref) (d : Dict Ref)
    → IsDistinct d
    → get k d ≡ some r
    → is_oldest (f r).created_at (min_created f d) ≡ false
    → min_created f (remove k d) ≡ min_created f d
unfolding min_created get remove IsDistinct
min_created-remove f k r [] u h ne = cc
min_created-remove f k r ((j, s) ∷ d) u h ne = elim (Bool-cases (j == k)) [
  | inl here ↦ ground (arith, here, remove_absent k d, eq_iff j k)
  | inr there ↦ elim (Option-cases (min_created f d)) [
    | inl e ↦ ground (arith, e, there, some_min f k r d)
    | inr (v, e) ↦ elim (Option-cases (min_created f (remove k d))) [
      | inl e' ↦ ground (arith, e, e', there, min_created-remove f k r d u.1)
      | inr (v', e') ↦ ground (
        arith,
        e,
        e',
        there,
        min_created-remove f k r d u.1,
        min_created-remove-le f k d v v' e e',
      )
    ]
  ]
]

-- The recorded time is the time of the oldest pending task.
abbrev pub IsOldest : TaskQueue → Type 0
IsOldest q = q.oldest_pending_time ≡ min_created q.objects q.pending

-- A write that keeps the times of the pending tasks.
pub retimed-IsOldest :
    {q : TaskQueue} (objects : Ref → PendingTask)
    → ((s : Ref) → (objects s).created_at ≡ (q.objects s).created_at)
    → IsWellFormed q
    → IsOldest q
    → IsOldest (record q { objects = objects })
retimed-IsOldest {q} objects same w h =
    h ∙ sym (min_created-same objects q.objects q.pending (λ k r _. same r) w.pending_distinct)

pub created_at-update :
    (objects : Ref → PendingTask) (r s : Ref) (t : PendingTask)
    → t.created_at ≡ (objects r).created_at
    → (update objects r t s).created_at ≡ (objects s).created_at
created_at-update objects r s t h = ground arith

pub admit-IsOldest :
    (now : ℕ) (k text : String) (m : Fields) (c : Option String) {q : TaskQueue}
    → IsWellFormed q
    → get k q.pending ≡ none
    → IsOldest q
    → IsOldest (count_enqueued (admit now k text m c q, 0))
unfolding admit count_enqueued
admit-IsOldest now k text m c {q} w new h =
    let f = update q.objects q.next (new_task now k text m c) in
    let old : min_created f q.pending ≡ min_created q.objects q.pending =
      min_created-same f q.objects q.pending
        (λ j r there. ground (arith, w.pending_fresh j r there)) w.pending_distinct in
    ground (arith, old, h, min_created-put f k q.next q.pending new)

-- Popping a pending task, its object rewritten with the same time, keeps the oldest time exact.
pub popped-IsOldest :
    (k : String) (r : Ref) (t : PendingTask) {q : TaskQueue}
    → IsWellFormed q
    → get k q.pending ≡ some r
    → t.created_at ≡ (q.objects r).created_at
    → IsOldest q
    → oldest_after (update q.objects r t) r (remove k q.pending) q.oldest_pending_time
      ≡ min_created (update q.objects r t) (remove k q.pending)
popped-IsOldest k r t {q} w there same h =
    let f = update q.objects r t in
    let old : min_created f q.pending ≡ min_created q.objects q.pending =
      min_created-same f q.objects q.pending (λ j s _. created_at-update q.objects r s t same)
        w.pending_distinct in
    elim (Bool-cases (is_oldest (f r).created_at q.oldest_pending_time)) [
      | inl gone ↦ rw gone refl
      | inr stays ↦ rw stays (
          h
          ∙ sym old
          ∙ sym (
              min_created-remove f k r q.pending w.pending_distinct there
                (ground (arith, old, h, stays))))
    ]
