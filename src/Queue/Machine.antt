-- ===== src/Queue/Machine.antt =====
-- hermes_agent_a2a/task_queue.py: where `transition` can bring a task, step by step.
use hermes_agent_a2a.Prelude.{
  String, ◌≡◌, ◌≢◌, refl, sym, List, [], ◌∷◌, arith, ◌⊎◌, inl, inr, eq_iff,
}
use mathlib.Core.List.{Memᴰ}
use hermes_agent_a2a.Dict.{get}
use hermes_agent_a2a.Dict.Laws.{get-put}
use hermes_agent_a2a.Queue.State.{
  TaskState, submitted, auth_required, authenticated, completed, failed, canceled, rejected,
  TaskQueue,
}
use hermes_agent_a2a.Queue.Ops.{transition, transitions, allowed, state_or}

-- The state of a task, as `transition` reads it.
abbrev pub state_of : String → TaskQueue → TaskState
state_of k q = state_or submitted (get k q.states)

-- `transition` along a list of target states
abbrev pub transition_all : String → List TaskState → TaskQueue → TaskQueue
transition_all k [] q = q
transition_all k (s ∷ ss) q = transition_all k ss (transition k s q).0

abbrev pub IsTerminal : TaskState → Type 0
IsTerminal s = (s ≡ completed) ⊎ (s ≡ failed) ⊎ (s ≡ canceled) ⊎ (s ≡ rejected)

transition_of_IsTerminal :
    (k : String) (s : TaskState) (q : TaskQueue)
    → IsTerminal (state_of k q)
    → (transition k s q).0 ≡ q
unfolding transition transitions allowed
transition_of_IsTerminal k s q h = ground arith

-- A task in a terminal state is never moved again by `transition`, whatever the targets.
pub terminal_absorbs :
    (k : String) (targets : List TaskState) (q : TaskQueue)
    → IsTerminal (state_of k q)
    → transition_all k targets q ≡ q
terminal_absorbs k [] q h = refl
terminal_absorbs k (s ∷ ss) q h = rw (transition_of_IsTerminal k s q h) (terminal_absorbs k ss q h)

gate_step :
    (k : String) (s : TaskState) (q : TaskQueue)
    → (state_of k q ≡ auth_required) ⊎ (state_of k q ≡ rejected)
    → (s ≡ authenticated)
      ⊎ (state_of k (transition k s q).0 ≡ auth_required)
      ⊎ (state_of k (transition k s q).0 ≡ rejected)
unfolding transition transitions allowed
gate_step k s q h = ground (arith, get-put k k s q.states, eq_iff k k)

-- A task that requires authentication is brought to another state than "auth_required" and
-- "rejected" by `transition` only along a list of targets that has "authenticated" in it.
pub auth_gate :
    (k : String) (targets : List TaskState) (q : TaskQueue)
    → (state_of k q ≡ auth_required) ⊎ (state_of k q ≡ rejected)
    → state_of k (transition_all k targets q) ≢ auth_required
    → state_of k (transition_all k targets q) ≢ rejected
    → Memᴰ authenticated targets
auth_gate k [] q h a r = ground (arith, a, r)
auth_gate k (s ∷ ss) q h a r = elim (gate_step k s q h) [
  | inl here ↦ Memᴰ.head (sym here)
  | inr there ↦ Memᴰ.tail (auth_gate k ss (transition k s q).0 there a r)
]
