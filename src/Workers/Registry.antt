-- ===== src/Workers/Registry.antt =====
-- hermes_agent_a2a/worker_registry.py: what the registry holds after its operations.
use hermes_agent_a2a.Prelude.{
  String, ◌≡◌, Bool, none, some, arith, ◌==◌, if◌then◌else◌, Bool-cases, Option-cases, inl, inr,
}
use hermes_agent_a2a.Dict.{get, remove, IsDistinct}
use hermes_agent_a2a.Dict.Laws.{get-put, get-remove}
use hermes_agent_a2a.Dict.Sweep.{get-sweep}
use hermes_agent_a2a.Workers.{
  Process, Processes, drop_zombie, register_worker, cleanup_zombie_processes,
}

-- Registering puts the process under its task, and touches no other task.
pub get-register_worker :
    (finished : Process → Bool) (k j : String) (p : Process) (ps : Processes)
    → get j (register_worker finished k p ps) ≡ (if k == j then some p else get j ps)
unfolding register_worker drop_zombie
get-register_worker finished k j p ps = elim (Option-cases (get k ps)) [
  | inl absent ↦ ground (arith, absent, get-put k j p ps)
  | inr (q, there) ↦ elim (Bool-cases (finished q)) [
    | inl dead ↦ ground (arith, there, dead, get-put k j p (remove k ps), get-remove k j ps)
    | inr alive ↦ ground (arith, there, alive, get-put k j p ps)
  ]
]

-- The cleanup drops the finished processes and no other: where every task has one entry, what a task
-- has afterwards is its process, unless that has finished.
pub cleanup_exact :
    (finished : Process → Bool) (j : String) (ps : Processes)
    → IsDistinct ps
    → get j (cleanup_zombie_processes finished ps).0
      ≡ elim (get j ps) [ none ↦ none | some p ↦ if finished p then none else some p ]
unfolding cleanup_zombie_processes
cleanup_exact finished j ps u = get-sweep finished j ps u
