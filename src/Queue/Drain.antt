-- ===== src/Queue/Drain.antt =====
-- hermes_agent_a2a/task_queue.py: which tasks `drain_pending` hands out.
use hermes_agent_a2a.Prelude.{
  String, ◌≡◌, refl, ◌↔◌, ◌⊎◌, Bool, false, ◌||◌, some, List, [], ◌∷◌, arith, eq_iff, ◌==◌,
  contains, contains-add, Bool-cases, inl, inr,
}
use mathlib.Core.List.{Memᴰ}
use hermes_agent_a2a.Dict.{Dict, get, IsDistinct}
use hermes_agent_a2a.Queue.State.{Ref, PendingTask, TaskQueue}
use hermes_agent_a2a.Queue.Ops.{mark_processing}
use hermes_agent_a2a.Queue.Reads.{idle_tasks, drain_pending}
use hermes_agent_a2a.Queue.WellFormed.{IsWellFormed}
use hermes_agent_a2a.Queue.WellFormed.Enqueue.{mark_processing-IsWellFormed}

-- The test of the comprehension, on a task id.
abbrev skipped : List String → List String → String → Bool
skipped exclude processing tid = contains tid exclude || contains tid processing

mem_cons_cases : {r s : Ref} {rs : List Ref} → Memᴰ r (s ∷ rs) → (r ≡ s) ⊎ Memᴰ r rs
mem_cons_cases (Memᴰ.head e) = inl e
mem_cons_cases (Memᴰ.tail m) = inr m

drained_entry :
    (f : Ref → PendingTask) (exclude processing : List String) (d : Dict Ref) (r : Ref)
    → IsDistinct d
    → ((k : String) (s : Ref) → get k d ≡ some s → (f s).task_id ≡ k)
    → Memᴰ r (idle_tasks f exclude processing d)
    → (get (f r).task_id d ≡ some r) × (skipped exclude processing (f r).task_id ≡ false)
unfolding idle_tasks get IsDistinct
drained_entry f exclude processing [] r u named m = elim m [ ]
drained_entry f exclude processing ((k, s) ∷ d) r u named m =
    let later : Memᴰ r (idle_tasks f exclude processing d)
        → (get {V = Ref} (f r).task_id ((k, s) ∷ d) ≡ some r)
          × (skipped exclude processing (f r).task_id ≡ false) =
      λ m'.
        let (there, idle) =
          drained_entry f exclude processing d r u.1
            (λ j t h. named j t (ground (arith, eq_iff k j, u.0, h))) m' in
        (ground (arith, eq_iff k (f r).task_id, u.0, there), idle) in
    elim (Bool-cases (skipped exclude processing (f s).task_id)) [
      | inl skip ↦ later (rw skip at m)
      | inr idle ↦ elim (mem_cons_cases (rw idle at m)) [
        | inl e ↦
            rw e
              (ground (arith, named k s (ground (arith, eq_iff k k)), eq_iff k (f s).task_id), idle)
        | inr m' ↦ later m'
      ]
    ]

entry_drained :
    (f : Ref → PendingTask) (exclude processing : List String) (d : Dict Ref) (k : String) (r : Ref)
    → get k d ≡ some r
    → skipped exclude processing (f r).task_id ≡ false
    → Memᴰ r (idle_tasks f exclude processing d)
unfolding idle_tasks get
entry_drained f exclude processing [] k r h idle = cc
entry_drained f exclude processing ((j, s) ∷ d) k r h idle = elim (Bool-cases (j == k)) [
  | inl here ↦ let same : s ≡ r = ground (arith, h, here) in rw same (rw idle (Memᴰ.head refl))
  | inr there ↦
      let m = entry_drained f exclude processing d k r (ground (arith, h, there)) idle in
      elim (Bool-cases (skipped exclude processing (f s).task_id)) [
        | inl skip ↦ rw skip m
        | inr kept ↦ rw kept (Memᴰ.tail m)
      ]
]

-- In a well-formed queue `drain_pending` hands out exactly the objects that are pending under their
-- ids, are not excluded and are not being processed.
pub drain_pending_exact :
    (exclude : List String) (q : TaskQueue) (r : Ref)
    → IsWellFormed q
    → Memᴰ r (drain_pending exclude q) ↔ (
        (get (q.objects r).task_id q.pending ≡ some r)
        × (contains (q.objects r).task_id exclude ≡ false)
        × (contains (q.objects r).task_id q.processing ≡ false))
unfolding drain_pending
drain_pending_exact exclude q r w = (
  λ m.
      let (there, idle) =
        drained_entry q.objects exclude q.processing q.pending r w.pending_distinct w.pending_named
          m in
      (there, ground arith, ground arith),
  λ h.
      entry_drained q.objects exclude q.processing q.pending (q.objects r).task_id r h.0
        (ground (arith, h)),
)

-- A pending task that is marked as being processed is handed out by no later drain of that queue.
pub mark_processing_hides :
    (exclude : List String) (q : TaskQueue) (k : String) (r : Ref)
    → IsWellFormed q
    → get k q.pending ≡ some r
    → ¬ Memᴰ r (drain_pending exclude (mark_processing k q))
unfolding mark_processing
mark_processing_hides exclude q k r w there m =
    let (_, _, idle) =
      (drain_pending_exact exclude (mark_processing k q) r (mark_processing-IsWellFormed k w)).0
        m in
    ground (arith, idle, w.pending_named k r there, contains-add k k q.processing, eq_iff k k)
