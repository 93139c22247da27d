-- ===== src/Queue/Watchdog.antt =====
-- hermes_agent_a2a/server.py: the watchdog's shortcut by the recorded oldest time, and what a round
-- does for the waiting callers.
use hermes_agent_a2a.Prelude.{
  is_some, ◌⊎◌, ℕ, ◌-◌, ◌*◌, ◌<◌, ◌≤◌, String, ◌≡◌, refl, sym, ◌∙◌, ap, true, false, none, some,
  List, [], ◌∷◌, arith, eqb, Option-cases, Bool-cases, inl, inr,
}
use mathlib.Core.Path.{fun_ext}
use hermes_agent_a2a.Dict.{Dict, get, values}
use hermes_agent_a2a.Queue.State.{Ref, PendingTask, TaskQueue, init, update, min_created}
use hermes_agent_a2a.Queue.Ops.{
  set_auth_required, set_authenticated, transition, mark_processing, finish, complete, retire,
  cancel,
}
use hermes_agent_a2a.Queue.Reads.{find_task_by_id}
use hermes_agent_a2a.Queue.Waiters.{
  webhook_failure, wake, mark_returned, write_answer, orphan, orphan_all, orphan_scan, is_young,
  watchdog, await_response,
}
use hermes_agent_a2a.Queue.Branches.{complete_found, complete_missing, cancel_found, cancel_missing}
use hermes_agent_a2a.Queue.WellFormed.{IsWellFormed, init-IsWellFormed}
use hermes_agent_a2a.Queue.WellFormed.Enqueue.{enqueue-cases}
use hermes_agent_a2a.Queue.Oldest.{
  IsOldest, retimed-IsOldest, created_at-update, admit-IsOldest, popped-IsOldest,
}
use hermes_agent_a2a.Queue.Steps.{
  Step, Reach, Reach-IsWellFormed, require_auth, authenticate, move, arrive, requeue, start,
  respond, withdraw, lose, await, give_up, overwrite, watch, here, next,
}

complete-IsOldest :
    (k response : String) {q : TaskQueue}
    → IsWellFormed q
    → IsOldest q
    → IsOldest (complete k response q)
unfolding finish
complete-IsOldest k response {q} w h = elim (Option-cases (get k q.pending)) [
  | inl gone ↦ rw (complete_missing k response q gone) h
  | inr (r, there) ↦
      rw (complete_found k response r q there) (popped-IsOldest k r _ w there (ground arith) h)
]

cancel-IsOldest : (k : String) {q : TaskQueue} → IsWellFormed q → IsOldest q → IsOldest (cancel k q)
unfolding retire
cancel-IsOldest k {q} w h = elim (Option-cases (get k q.pending)) [
  | inl gone ↦ rw (cancel_missing k q gone) h
  | inr (r, there) ↦ rw (cancel_found k r q there) (popped-IsOldest k r _ w there refl h)
]

webhook_failure-IsOldest :
    (k : String) {q : TaskQueue} → IsWellFormed q → IsOldest q → IsOldest (webhook_failure k q)
webhook_failure-IsOldest k {q} w h = elim (Option-cases (find_task_by_id k q)) [
  | inl lost ↦ unfold webhook_failure in rw (lost, webhook_failure) h
  | inr (r, found) ↦
      unfold webhook_failure in
      rw (found, webhook_failure) (retimed-IsOldest _ (λ s. ground arith) w h)
]

wake-IsOldest : (r : Ref) {q : TaskQueue} → IsWellFormed q → IsOldest q → IsOldest (wake r q).0
wake-IsOldest r {q} w h = elim (Option-cases (q.objects r).response) [
  | inl silent ↦ unfold wake in rw (silent, wake) (retimed-IsOldest _ (λ s. ground arith) w h)
  | inr (s, answered) ↦ unfold wake in rw (answered, wake) h
]

mark_returned-IsOldest :
    (r : Ref) {q : TaskQueue} → IsWellFormed q → IsOldest q → IsOldest (mark_returned r q)
unfolding mark_returned
mark_returned-IsOldest r w h = retimed-IsOldest _ (λ s. ground arith) w h

write_answer-IsOldest :
    (r : Ref) (text : String) {q : TaskQueue}
    → IsWellFormed q
    → IsOldest q
    → IsOldest (write_answer r text q)
unfolding write_answer
write_answer-IsOldest r text w h = retimed-IsOldest _ (λ s. ground arith) w h

created_at-orphan : (cutoff : ℕ) (t : PendingTask) → (orphan cutoff t).created_at ≡ t.created_at
created_at-orphan cutoff t = ground arith

created_at-orphan_all :
    (cutoff : ℕ) (rs : List Ref) (objects : Ref → PendingTask) (s : Ref)
    → (orphan_all cutoff rs objects s).created_at ≡ (objects s).created_at
unfolding orphan_all
created_at-orphan_all cutoff [] objects s = refl
created_at-orphan_all cutoff (r ∷ rs) objects s =
    created_at-orphan_all cutoff rs (update objects r (orphan cutoff (objects r))) s
    ∙ created_at-update objects r s _ (created_at-orphan cutoff (objects r))

watchdog-IsOldest :
    (timeout now : ℕ) {q : TaskQueue}
    → IsWellFormed q
    → IsOldest q
    → IsOldest (watchdog timeout now q)
unfolding watchdog orphan_scan
watchdog-IsOldest timeout now {q} w h =
    elim (Bool-cases (is_young (now - 2 * timeout) q.oldest_pending_time)) [
      | inl young ↦ rw young h
      | inr old ↦ rw old (
          retimed-IsOldest _
            (created_at-orphan_all (now - 2 * timeout) (values q.pending) q.objects) w h)
    ]

Step-IsOldest : {q q' : TaskQueue} → Step false q q' → IsWellFormed q → IsOldest q → IsOldest q'
unfolding set_auth_required set_authenticated transition mark_processing
Step-IsOldest (require_auth k) w h = h
Step-IsOldest (authenticate k) w h = h
Step-IsOldest (move k s) w h = ground arith
Step-IsOldest (arrive {q} now k text m c) w h = elim (enqueue-cases now k text m c q) [
  | inl (room, new, e) ↦ rw e (admit-IsOldest now k text m c w new h)
  | inr e ↦ rw e h
]
Step-IsOldest (requeue tasks never _) w h = cc
Step-IsOldest (start k) w h = ground arith
Step-IsOldest (respond k response) w h = complete-IsOldest k response w h
Step-IsOldest (withdraw k) w h = cancel-IsOldest k w h
Step-IsOldest (lose k) w h = webhook_failure-IsOldest k w h
Step-IsOldest (await r) w h = wake-IsOldest r w h
Step-IsOldest (give_up r) w h = mark_returned-IsOldest r w h
Step-IsOldest (overwrite r text) w h = write_answer-IsOldest r text w h
Step-IsOldest (watch timeout now) w h = watchdog-IsOldest timeout now w h

Reach-IsOldest : {q : TaskQueue} → Reach false init q → IsOldest q
unfolding init min_created
Reach-IsOldest here = refl
Reach-IsOldest (next r st) =
    Step-IsOldest st (Reach-IsWellFormed init-IsWellFormed r) (Reach-IsOldest r)

-- Every entry is as young as the cutoff asks.
abbrev AllYoung : ℕ → (Ref → PendingTask) → Dict Ref → Type 0
AllYoung cutoff f [] = Unit {0}
AllYoung cutoff f ((k, r) ∷ d) = (cutoff ≤ (f r).created_at) × AllYoung cutoff f d

none_young :
    (cutoff : ℕ) (f : Ref → PendingTask) (d : Dict Ref)
    → min_created f d ≡ none
    → AllYoung cutoff f d
unfolding min_created
none_young cutoff f [] h = tt
none_young cutoff f ((k, r) ∷ d) h = absurd (ground arith)

young_of_min :
    (cutoff : ℕ) (f : Ref → PendingTask) (d : Dict Ref)
    → is_young cutoff (min_created f d) ≡ true
    → AllYoung cutoff f d
unfolding min_created
young_of_min cutoff f [] h = tt
young_of_min cutoff f ((k, r) ∷ d) h = elim (Option-cases (min_created f d)) [
  | inl e ↦ (ground (arith, e), none_young cutoff f d e)
  | inr (t, e) ↦ (ground (arith, e), young_of_min cutoff f d (ground (arith, e)))
]

orphan_all_young :
    (cutoff : ℕ) (f : Ref → PendingTask) (d : Dict Ref) (s : Ref)
    → AllYoung cutoff f d
    → orphan_all cutoff (values d) f s ≡ f s
unfolding orphan_all values
orphan_all_young cutoff f [] s h = refl
orphan_all_young cutoff f ((k, r) ∷ d) s h =
    let e : update f r (orphan cutoff (f r)) ≡ f = fun_ext (λ x. ground (arith, h.0)) in
    ap (λ (g : Ref → PendingTask). orphan_all cutoff (values d) g s) e
    ∙ orphan_all_young cutoff f d s h.1

orphan_twice : (cutoff : ℕ) (t : PendingTask) → orphan cutoff (orphan cutoff t) ≡ orphan cutoff t
orphan_twice cutoff t = ground arith

-- The scan writes to an object at most what one visit writes to it.
orphan_all-cases :
    (cutoff : ℕ) (rs : List Ref) (f : Ref → PendingTask) (s : Ref)
    → (orphan_all cutoff rs f s ≡ f s) ⊎ (orphan_all cutoff rs f s ≡ orphan cutoff (f s))
unfolding orphan_all
orphan_all-cases cutoff [] f s = inl refl
orphan_all-cases cutoff (r ∷ rs) f s =
    let g : Ref → PendingTask = update f r (orphan cutoff (f r)) in
    elim (Bool-cases (eqb r s)) [
      | inl same ↦ ground (arith, same, orphan_all-cases cutoff rs g s, orphan_twice cutoff (f s))
      | inr other ↦ ground (arith, other, orphan_all-cases cutoff rs g s)
    ]

orphan_all_pending :
    (cutoff : ℕ) (d : Dict Ref) (f : Ref → PendingTask) (k : String) (r : Ref)
    → get k d ≡ some r
    → orphan_all cutoff (values d) f r ≡ orphan cutoff (f r)
unfolding orphan_all values get
orphan_all_pending cutoff [] f k r h = cc
orphan_all_pending cutoff ((j, s) ∷ d) f k r h =
    let g : Ref → PendingTask = update f s (orphan cutoff (f s)) in
    elim (Bool-cases (eqb s r)) [
      | inl same ↦
          ground (arith, same, orphan_all-cases cutoff (values d) g r, orphan_twice cutoff (f r))
      | inr other ↦
          ground (arith, other, orphan_all_pending cutoff d g k r (ground (arith, other, h)))
    ]

-- As long as no thread calls `requeue_tasks`, the watchdog's round does to every task object what a
-- scan without the shortcut by the oldest time does.
pub watchdog_shortcut :
    (timeout now : ℕ) (q : TaskQueue) (s : Ref)
    → Reach false init q
    → (watchdog timeout now q).objects s ≡ (orphan_scan (now - 2 * timeout) q).objects s
unfolding watchdog orphan_scan
watchdog_shortcut timeout now q s reached =
    let cutoff = now - 2 * timeout in
    elim (Bool-cases (is_young cutoff q.oldest_pending_time)) [
      | inl young ↦
          let all : AllYoung cutoff q.objects q.pending =
            young_of_min cutoff q.objects q.pending
              (ap (is_young cutoff) (sym (Reach-IsOldest reached)) ∙ young) in
          rw young (sym (orphan_all_young cutoff q.objects q.pending s all))
      | inr old ↦ rw old refl
    ]

-- As long as no thread calls `requeue_tasks`, a round of the watchdog answers a pending task that is
-- older than twice the timeout and has no response: its event is set, and a wait on it is over at once,
-- without a timeout, with the orphan's response. The same round leaves alone any object that is younger
-- than that or has a response.
pub watchdog_releases :
    (timeout now : ℕ) (q : TaskQueue) (k : String) (r s : Ref)
    → Reach false init q
    → get k q.pending ≡ some r
    → (q.objects r).created_at < now - 2 * timeout
    → (q.objects r).response ≡ none
    → (now - 2 * timeout ≤ (q.objects s).created_at) ⊎ (is_some (q.objects s).response ≡ true)
    → ((watchdog timeout now q).objects r).ready ≡ true
      × (await_response false r (watchdog timeout now q)
          ≡ some (watchdog timeout now q, some "(orphaned — no response)"))
      × ((watchdog timeout now q).objects s ≡ q.objects s)
unfolding await_response orphan_scan
watchdog_releases timeout now q k r s reached there old silent kept =
    let cutoff = now - 2 * timeout in
    let seen : (watchdog timeout now q).objects r ≡ orphan cutoff (q.objects r) =
      watchdog_shortcut timeout now q r reached
      ∙ orphan_all_pending cutoff q.pending q.objects k r there in
    let spared : orphan cutoff (q.objects s) ≡ q.objects s = ground (arith, kept) in
    (
      ground (arith, seen, old, silent),
      ground (arith, seen, old, silent),
      watchdog_shortcut timeout now q s reached
          ∙ ground (arith, spared, orphan_all-cases cutoff (values q.pending) q.objects s),
    )
