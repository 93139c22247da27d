-- ===== src/Workers.antt =====
-- hermes_agent_a2a/worker_registry.py: the registry of worker processes by task id. A process is a
-- number; `finished p` says whether `p.poll() is not None` at the time of the call.
pub mod Registry
use hermes_agent_a2a.Prelude.{
  ℕ, String, Bool, true, false, Option, none, some, List, [], ◌∷◌, if◌then◌else◌, length,
}
use hermes_agent_a2a.Dict.{Dict, get, put, remove}
use hermes_agent_a2a.Dict.Sweep.{keys_where, remove_all}

abbrev pub Process : Type 0
Process = ℕ

abbrev pub Processes : Type 0
Processes = Dict Process

module _ (finished : Process → Bool) where
  -- The zombie entry that `register_worker` drops first.
  unfoldable pub drop_zombie : String → Processes → Processes
  drop_zombie task_id ps = elim (get task_id ps) [
    | none ↦ ps
    | some p ↦ if finished p then remove task_id ps else ps
  ]

  unfoldable pub register_worker : String → Process → Processes → Processes
  unfolding drop_zombie
  register_worker task_id process ps = put task_id process (drop_zombie task_id ps)

  -- The registry, and how many entries were cleaned up.
  unfoldable pub cleanup_zombie_processes : Processes → Processes × ℕ
  cleanup_zombie_processes ps =
      let zombie_ids = keys_where finished ps in (remove_all zombie_ids ps, length zombie_ids)

unfoldable pub unregister_worker : String → Processes → Processes
unregister_worker task_id ps = remove task_id ps

-- What `cancel_worker` does to the process that it finds.
pub data Signal : Type 0 where
  terminate : Process → Signal
  kill : Process → Signal

-- The signals that `cancel_worker` sends, and its answer. `obeys p` says whether the process ends
-- within the timeout of the first wait; one that outlives the second raises, which is `none`.
unfoldable pub cancel_worker :
    (Process → Bool)
    → (Process → Bool)
    → (Process → Bool)
    → String
    → Processes
    → Option (List Signal × Bool)
cancel_worker finished obeys dies task_id ps = elim (get task_id ps) [
  | none ↦ some ([], false)
  | some p ↦
      if finished p
      then some ([], false)
      else if obeys p
      then some (terminate p ∷ [], true)
      else if dies p
      then some (terminate p ∷ kill p ∷ [], true)
      else none
]
