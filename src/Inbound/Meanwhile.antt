-- ===== src/Inbound/Meanwhile.antt =====
-- hermes_agent_a2a/server.py and persistence.py: what other requests and the cleanup do to the entry of
-- an idempotency key.
use hermes_agent_a2a.Prelude.{
  is_some, ℕ, ◌+◌, ◌≤◌, String, ◌≡◌, ◌≢◌, refl, sym, ap, ◌∙◌, true, false, Bool, Option, none, some,
  ◌==◌, arith, eq_iff, Bool-cases, Option-cases, inl, inr,
}
use hermes_agent_a2a.Json.{assign, str, Fields}
use hermes_agent_a2a.Queue.Reads.{find_task_by_id}
use hermes_agent_a2a.Queue.Ops.{enqueue}
use hermes_agent_a2a.Dict.{get, remove, IsDistinct}
use hermes_agent_a2a.Dict.Laws.{get-put, get-remove, remove-IsDistinct, put-IsDistinct}
use hermes_agent_a2a.Dict.Sweep.{get-sweep, remove_all-IsDistinct, keys_where}
use hermes_agent_a2a.Queue.State.{Ref, TaskQueue}
use hermes_agent_a2a.Idempotency.{
  Entry, IdempotencyStore, is_expired, replay, check_conflict, record_result, evict_expired,
}
use mathlib.Core.Path.{subst}
use hermes_agent_a2a.Queue.Waiters.{wake}
use hermes_agent_a2a.Inbound.{
  Server, Request, Times, truthy, admit, after_lookup, after_check, prepare_and_enqueue,
  keep_result, after_wake, finish_wait, of_enqueue,
}

-- The key has this entry, and no key is stored twice.
pub record Holds (key : String) (e : Entry) (s : IdempotencyStore) : Type 0 where
  pub there : get key s ≡ some e
  pub distinct : IsDistinct s

module _ (key : String) (e : Entry) where
  -- An entry that is dropped as expired is that of another key.
  drop-Holds :
      (now : ℕ) (k : String) (f : Entry) (s : IdempotencyStore)
      → now ≤ e.expires_at
      → get k s ≡ some f
      → is_expired now f ≡ true
      → Holds key e s
      → Holds key e (remove k s)
  drop-Holds now k f s early at_k late h = record {
    there = elim (Bool-cases (k == key)) [
      | inl same ↦
          let at_key : get key s ≡ some f =
            subst (λ j. get j s ≡ some f) ((eq_iff k key).0 same) at_k in
          absurd (ground (arith, at_key, h.there, late, early))
      | inr other ↦ ground (arith, get-remove k key s, other, h.there)
    ];
    distinct = remove-IsDistinct k s h.distinct;
  }

  replay-Holds :
      (now : ℕ) (k : String) (s : IdempotencyStore)
      → now ≤ e.expires_at
      → Holds key e s
      → Holds key e (replay now k s).0
  unfolding replay
  replay-Holds now k s early h = elim (Option-cases (get k s)) [
    | inl absent ↦ rw (absent, replay) h
    | inr (f, at_k) ↦ elim (Bool-cases (is_expired now f)) [
      | inl late ↦ rw (at_k, late, replay) (drop-Holds now k f s early at_k late h)
      | inr fresh ↦ rw (at_k, fresh, replay) h
    ]
  ]

  check-Holds :
      (hash : Fields → String) (now : ℕ) (k : String) (payload : Fields) (s : IdempotencyStore)
      → now ≤ e.expires_at
      → Holds key e s
      → Holds key e (check_conflict hash now k payload s).0
  unfolding check_conflict
  check-Holds hash now k payload s early h = elim (Option-cases (get k s)) [
    | inl absent ↦ rw (absent, check_conflict) h
    | inr (f, at_k) ↦ elim (Bool-cases (is_expired now f)) [
      | inl late ↦ rw (at_k, late, check_conflict) (drop-Holds now k f s early at_k late h)
      | inr fresh ↦ rw (at_k, fresh, check_conflict) h
    ]
  ]

  sweep-Holds :
      (now : ℕ) (s : IdempotencyStore)
      → now ≤ e.expires_at
      → Holds key e s
      → Holds key e (evict_expired now s).0
  unfolding evict_expired
  sweep-Holds now s early h = record {
    there = ground (arith, get-sweep (is_expired now) key s h.distinct, h.there, early);
    distinct = remove_all-IsDistinct (keys_where (is_expired now) s) s h.distinct;
  }

  record-Holds :
      (hash : Fields → String) (ttl now : ℕ) (k task_id : String) (payload result : Fields)
      (s : IdempotencyStore)
      → k ≢ key
      → Holds key e s
      → Holds key e (record_result hash ttl now k task_id payload result s)
  unfolding record_result
  record-Holds hash ttl now k task_id payload result s other h =
      let new : Entry = record {
        task_id = task_id;
        payload_hash = hash payload;
        result = result;
        expires_at = now + ttl;
      } in
      record {
        there = ground (arith, get-put k key new s, eq_iff k key, other, h.there);
        distinct = put-IsDistinct k new s h.distinct;
      }

module _ (sanitize : String → String) (hash : Fields → String) (filter : String → String)
    (build : String → Option String → String → Fields) (ttl : ℕ) where
  -- What can happen to the server until a time: anything to the queue, requests with any key that are
  -- taken in, requests without this key that get their result, and rounds of the cleanup.
  pub data Meanwhile (key : String) (until : ℕ) (s : Server) : Server → Type 0 where
    nothing : Meanwhile key until s s
    queue_moves :
        {s' : Server} (q : TaskQueue)
        → Meanwhile key until s s'
        → Meanwhile key until s (record s' { queue = q })
    takes_in :
        {s' : Server} (t : Times) (req : Request)
        → t.checked ≤ until
        → t.looked_up ≤ until
        → Meanwhile key until s s'
        → Meanwhile key until s (prepare_and_enqueue sanitize hash t req s').0
    answers :
        {s' : Server} (now : ℕ) (req : Request) (r : Ref)
        → truthy req.idem_key ≢ some key
        → Meanwhile key until s s'
        → Meanwhile key until s (finish_wait sanitize hash filter build ttl now req r s').0
    cleanup :
        {s' : Server} (now : ℕ)
        → now ≤ until
        → Meanwhile key until s s'
        → Meanwhile key until s (record s' { idempotency = (evict_expired now s'.idempotency).0 })

  module _ (key : String) (e : Entry) where
    enqueue-keeps :
        (s : Server) (x : TaskQueue × Option Ref)
        → (of_enqueue sanitize hash s x).0.idempotency ≡ s.idempotency
    enqueue-keeps s (q, none) = refl
    enqueue-keeps s (q, some r) = refl

    admit-Holds :
        (t : Times) (req : Request) (s : Server)
        → Holds key e s.idempotency
        → Holds key e (admit sanitize hash t req s).0.idempotency
    unfolding admit
    admit-Holds t req s h = elim (Bool-cases (is_some (find_task_by_id req.task_id s.queue))) [
      | inl used ↦ rw (used, admit) h
      | inr free ↦
          rw (free, admit)
            (subst (Holds key e)
              (sym (
                enqueue-keeps s (
                  enqueue t.created req.task_id (sanitize req.user_text)
                    (assign "_a2a_origin" (str "peer") req.metadata) req.context_id s.queue)))
              h)
    ]

    lookup-Holds :
        (t : Times) (req : Request) (s : Server) (x : IdempotencyStore × Option (String × Fields))
        → Holds key e x.0
        → Holds key e (after_lookup sanitize hash t req s x).0.idempotency
    lookup-Holds t req s (store, none) h = admit-Holds t req (record s { idempotency = store }) h
    lookup-Holds t req s (store, some (task_id, res)) h = h

    after_check-Holds :
        (t : Times) (req : Request) (k : String) (s : Server)
        (x : IdempotencyStore × Bool × Option String)
        → t.looked_up ≤ e.expires_at
        → Holds key e x.0
        → Holds key e (after_check sanitize hash t req k s x).0.idempotency
    after_check-Holds t req k s (store, true, o) early h = h
    after_check-Holds t req k s (store, false, o) early h =
        lookup-Holds t req (record s { idempotency = store }) (replay t.looked_up k store)
          (replay-Holds key e t.looked_up k store early h)

    prepare-Holds :
        (t : Times) (req : Request) (s : Server)
        → t.checked ≤ e.expires_at
        → t.looked_up ≤ e.expires_at
        → Holds key e s.idempotency
        → Holds key e (prepare_and_enqueue sanitize hash t req s).0.idempotency
    unfolding prepare_and_enqueue
    prepare-Holds t req s early early' h = elim (Option-cases (truthy req.idem_key)) [
      | inl keyless ↦ rw (keyless, prepare_and_enqueue) (admit-Holds t req s h)
      | inr (k, keyed) ↦
          rw (keyed, prepare_and_enqueue)
            (after_check-Holds t req k s
              (check_conflict hash t.checked k req.idem_payload s.idempotency) early'
              (check-Holds key e hash t.checked k req.idem_payload s.idempotency early h))
    ]

    keep-Holds :
        (now : ℕ) (req : Request) (res : Fields) (s : Server)
        → truthy req.idem_key ≢ some key
        → Holds key e s.idempotency
        → Holds key e (keep_result sanitize hash filter build ttl now req res s).idempotency
    keep-Holds now req res s other h = elim (Option-cases (truthy req.idem_key)) [
      | inl keyless ↦ rw (keyless, keep_result) h
      | inr (k, keyed) ↦
          rw (keyed, keep_result)
            (record-Holds key e hash ttl now k req.task_id req.idem_payload res s.idempotency
              (λ same. other (keyed ∙ ap (λ x. some x) same)) h)
    ]

    wake-Holds :
        (now : ℕ) (req : Request) (r : Ref) (s : Server) (x : TaskQueue × Option String)
        → truthy req.idem_key ≢ some key
        → Holds key e s.idempotency
        → Holds key e (after_wake sanitize hash filter build ttl now req r s x).0.idempotency
    wake-Holds now req r s (q, none) other h = h
    wake-Holds now req r s (q, some response) other h =
        keep-Holds now req (build req.task_id (q.objects r).context_id (filter response))
          (record s { queue = q }) other h

    -- None of this touches the entry of the key until it expires.
    pub Meanwhile-Holds :
        {s s' : Server}
        → Meanwhile key e.expires_at s s'
        → Holds key e s.idempotency
        → Holds key e s'.idempotency
    unfolding finish_wait
    Meanwhile-Holds nothing h = h
    Meanwhile-Holds (queue_moves q m) h = Meanwhile-Holds m h
    Meanwhile-Holds (takes_in {s'} t req early early' m) h =
        prepare-Holds t req s' early early' (Meanwhile-Holds m h)
    Meanwhile-Holds (answers {s'} now req r other m) h =
        wake-Holds now req r s' (wake r s'.queue) other (Meanwhile-Holds m h)
    Meanwhile-Holds (cleanup {s'} now early m) h =
        sweep-Holds key e now s'.idempotency early (Meanwhile-Holds m h)
