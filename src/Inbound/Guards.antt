-- ===== src/Inbound/Guards.antt =====
-- hermes_agent_a2a/server.py: every request that `_prepare_and_enqueue` lets in is a fresh task.
use hermes_agent_a2a.Prelude.{
  ℕ, String, ◌≡◌, ◌≢◌, refl, ◌⊎◌, inl, inr, Bool, true, false, Option, none, some, arith, eq_refl,
  Option-cases,
}
use hermes_agent_a2a.Dict.{get}
use hermes_agent_a2a.Json.{Fields, str, assign}
use hermes_agent_a2a.Queue.State.{Ref, PendingTask, TaskQueue, new_task}
use hermes_agent_a2a.Queue.Ops.{enqueue}
use hermes_agent_a2a.Queue.Reads.{find_task_by_id}
use hermes_agent_a2a.Queue.WellFormed.Enqueue.{enqueue-cases}
use hermes_agent_a2a.Queue.Arrival.{enqueue_accepts}
use hermes_agent_a2a.Idempotency.{IdempotencyStore, replay, check_conflict}
use hermes_agent_a2a.Inbound.{
  Server, Request, Times, Outcome, conflict, busy, replayed, enqueued, truthy, of_enqueue, admit,
  after_lookup, after_check, prepare_and_enqueue,
}

conflict_no_task : (a b : ℕ) (m : String) (r : Ref) → conflict a b m ≢ enqueued r
conflict_no_task a b m r e = ground (arith, e)

busy_no_task : (a b : ℕ) (m : String) (r : Ref) → busy a b m ≢ enqueued r
busy_no_task a b m r e = ground (arith, e)

replayed_no_task : (fs : Fields) (r : Ref) → replayed fs ≢ enqueued r
replayed_no_task fs r e = ground (arith, e)

module _ (sanitize : String → String) (hash : Fields → String) where
  -- The task that a request becomes.
  abbrev pub task_of : Times → Request → PendingTask
  task_of t req =
      new_task t.created req.task_id (sanitize req.user_text)
        (assign "_a2a_origin" (str "peer") req.metadata) req.context_id

  -- A fresh task, filed under an id that no task of the queue had; or an untouched queue and no task.
  abbrev pub IsGuarded : Times → Request → Server → Server × Outcome → Type 0
  IsGuarded t req s x =
      ((x.1 ≡ enqueued s.queue.next)
        × (find_task_by_id req.task_id s.queue ≡ none)
        × (get req.task_id x.0.queue.pending ≡ some s.queue.next)
        × (x.0.queue.objects s.queue.next ≡ task_of t req))
      ⊎ ((x.0.queue ≡ s.queue) × ((r : Ref) → x.1 ≢ enqueued r))

  not_pending : (k : String) (q : TaskQueue) → find_task_by_id k q ≡ none → get k q.pending ≡ none
  unfolding find_task_by_id
  not_pending k q h = elim (Option-cases (get k q.pending)) [
    | inl e ↦ e
    | inr (r, e) ↦ absurd (ground (arith, h, e))
  ]

  of_accepted :
      (s : Server) (x : TaskQueue × Option Ref) (r : Ref)
      → x.1 ≡ some r
      → of_enqueue sanitize hash s x ≡ (record s { queue = x.0 }, enqueued r)
  of_accepted s (q, o) r h = rw h refl

  admit-IsGuarded :
      (t : Times) (req : Request) (s : Server) → IsGuarded t req s (admit sanitize hash t req s)
  unfolding admit
  admit-IsGuarded t req s =
      let text = sanitize req.user_text in
      let meta : Fields = assign "_a2a_origin" (str "peer") req.metadata in
      elim (Option-cases (find_task_by_id req.task_id s.queue)) [
        | inr (r, found) ↦ rw found (inr (refl, conflict_no_task _ _ _))
        | inl absent ↦ elim (enqueue-cases t.created req.task_id text meta req.context_id s.queue) [
          | inr refused ↦ rw (absent, refused) (inr (refl, busy_no_task _ _ _))
          | inl (room, new, e) ↦
              let acc =
                enqueue_accepts t.created req.task_id text meta req.context_id s.queue room new in
              rw
                (
                  absent,
                  of_accepted s (enqueue t.created req.task_id text meta req.context_id s.queue)
                      s.queue.next acc.0,
                )
                (inl (refl, refl, ground (arith, acc.2 req.task_id, eq_refl req.task_id), acc.1))
        ]
      ]

  -- A request that is let in becomes a fresh task with its filtered text and the peer as its origin,
  -- pending under an id that no pending or completed task had; otherwise no task is made, and the
  -- queue stays as it is.
  pub prepare-IsGuarded :
      (t : Times) (req : Request) (s : Server)
      → IsGuarded t req s (prepare_and_enqueue sanitize hash t req s)
  unfolding prepare_and_enqueue
  prepare-IsGuarded t req s = with_key (truthy req.idem_key)
    where
      looked_up :
          (store : IdempotencyStore) (x : IdempotencyStore × Option (String × Fields))
          → IsGuarded t req s
              (after_lookup sanitize hash t req (record s { idempotency = store }) x)
      looked_up store (store', none) = admit-IsGuarded t req (record s { idempotency = store' })
      looked_up store (store', some (id, result)) = inr (refl, replayed_no_task result)

      checked :
          (key : String) (x : IdempotencyStore × Bool × Option String)
          → IsGuarded t req s (after_check sanitize hash t req key s x)
      checked key (store, true, id) = inr (refl, conflict_no_task _ _ _)
      checked key (store, false, id) = looked_up store (replay t.looked_up key store)

      with_key :
          (o : Option String)
          → IsGuarded t req s (elim o [
            | none ↦ admit sanitize hash t req s
            | some key ↦
                after_check sanitize hash t req key s
                  (check_conflict hash t.checked key req.idem_payload s.idempotency)
          ])
      with_key none = admit-IsGuarded t req s
      with_key (some key) =
          checked key (check_conflict hash t.checked key req.idem_payload s.idempotency)
