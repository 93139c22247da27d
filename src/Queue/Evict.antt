-- ===== src/Queue/Evict.antt =====
-- hermes_agent_a2a/task_queue.py: the eviction loop inside `TaskQueue.enqueue`.
use hermes_agent_a2a.Prelude.{
  ℕ, zero, suc, ◌+◌, ◌≤◌, String, ◌≡◌, refl, true, false, Option, none, some, List, [], ◌∷◌, ltb,
  if◌then◌else◌, length, contains, arith,
}
use hermes_agent_a2a.Dict.{Dict, remove}
use hermes_agent_a2a.Queue.State.{
  Ref, TaskQueue, task_cache_max, update, answer, min_created, is_oldest,
}

-- `for tid, old_task in ...: if tid not in self._processing`: the first entry not being processed
unfoldable pub first_idle : List String → Dict Ref → Option (String × Ref)
first_idle processing [] = none
first_idle processing ((tid, r) ∷ d) =
    let rest = first_idle processing d in if contains tid processing then rest else some (tid, r)

-- The body of that loop: the entry is dropped and its waiter is answered.
unfoldable pub evict_entry : TaskQueue → String → Ref → TaskQueue
evict_entry q tid r =
    let pending' = remove tid q.pending in
    let objects' = update q.objects r (answer "(dropped — queue overflow)" (q.objects r)) in
    record q {
      pending = pending';
      objects = objects';
      oldest_pending_time =
          if is_oldest (q.objects r).created_at q.oldest_pending_time
          then min_created objects' pending'
          else q.oldest_pending_time;
    }

-- `while len(self._pending) > _TASK_CACHE_MAX`, with the count `evicted`. A round takes one entry
-- away or breaks, so as many rounds as there are entries are enough.
unfoldable pub evict : ℕ → TaskQueue → ℕ → TaskQueue × ℕ
evict zero q evicted = (q, evicted)
evict (suc fuel) q evicted = elim (ltb task_cache_max (length q.pending)) [
  | false ↦ (q, evicted)
  | true ↦ elim (first_idle q.processing q.pending) [
    | none ↦ (q, evicted)
    | some (tid, r) ↦ evict fuel (evict_entry q tid r) (evicted + 1)
  ]
]

-- A queue within the bound is left alone.
pub evict_within :
    (fuel : ℕ) (q : TaskQueue) (n : ℕ) → length q.pending ≤ task_cache_max → evict fuel q n ≡ (q, n)
unfolding evict
evict_within zero q n h = refl
evict_within (suc fuel) q n h = ground arith
