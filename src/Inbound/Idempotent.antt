-- ===== src/Inbound/Idempotent.antt =====
-- hermes_agent_a2a/server.py: a repeated request with the idempotency key of one that was answered.
use mathlib.Core.Path.{subst}
use hermes_agent_a2a.Prelude.{
  eq_refl, arith, sym, ℕ, ◌+◌, ◌≤◌, String, ◌≡◌, refl, ap, ◌∙◌, inl, inr, not, Option, none, some,
  ◌==◌, if◌then◌else◌, Bool-cases,
}
use hermes_agent_a2a.Idempotency.{Entry, IdempotencyStore, replay, check_conflict, record_result}
use hermes_agent_a2a.Dict.Laws.{get-put, put-IsDistinct}
use hermes_agent_a2a.Dict.{IsDistinct}
use hermes_agent_a2a.Inbound.Meanwhile.{Holds, Meanwhile, Meanwhile-Holds}
use hermes_agent_a2a.Json.{Fields}
use hermes_agent_a2a.Queue.State.{Ref, TaskQueue}
use hermes_agent_a2a.Queue.Waiters.{wake}
use hermes_agent_a2a.Inbound.{
  Server, Request, Times, replayed, key_conflict, truthy, after_lookup, after_check,
  prepare_and_enqueue, keep_result, after_wake, finish_wait,
}

module _ (sanitize : String → String) (hash : Fields → String) (filter : String → String)
    (build : String → Option String → String → Fields) (ttl : ℕ) where
  abbrev store_after : Server × Option Fields → IdempotencyStore
  store_after (s, o) = s.idempotency

  some-inj : {x y : Fields} → some x ≡ some y → x ≡ y
  some-inj h = cc

  -- What a wait that ends with a result leaves in the idempotency store.
  finish_keeps :
      (now : ℕ) (req : Request) (r : Ref) (s : Server) (key : String) (result : Fields)
      → truthy req.idem_key ≡ some key
      → (finish_wait sanitize hash filter build ttl now req r s).1 ≡ some result
      → (finish_wait sanitize hash filter build ttl now req r s).0.idempotency
        ≡ record_result hash ttl now key req.task_id req.idem_payload result s.idempotency
  unfolding finish_wait
  finish_keeps now req r s key result keyed = after (wake r s.queue)
    where
      after :
          (x : TaskQueue × Option String)
          → (after_wake sanitize hash filter build ttl now req r s x).1 ≡ some result
          → (after_wake sanitize hash filter build ttl now req r s x).0.idempotency
            ≡ record_result hash ttl now key req.task_id req.idem_payload result s.idempotency
      after (q, none) h = cc
      after (q, some response) h =
          rw (keyed, keep_result)
            (ap
              (λ (x : Fields).
                record_result hash ttl now key req.task_id req.idem_payload x s.idempotency)
              (some-inj h))

  abbrev kept_entry : ℕ → Request → Fields → Entry
  kept_entry now req result = record {
    task_id = req.task_id;
    payload_hash = hash req.idem_payload;
    result = result;
    expires_at = now + ttl;
  }

  kept-Holds :
      (now : ℕ) (req : Request) (key : String) (result : Fields) (s : IdempotencyStore)
      → IsDistinct s
      → Holds key
          (kept_entry now req result)
          (record_result hash ttl now key req.task_id req.idem_payload result s)
  unfolding record_result
  kept-Holds now req key result s u = record {
    there = ground (arith, get-put key key (kept_entry now req result) s, eq_refl key);
    distinct = put-IsDistinct key (kept_entry now req result) s u;
  }

  -- What a request finds under a key that holds an entry which has not expired.
  held_is_replayed :
      (key : String) (e : Entry) (again : Request) (s : Server) (t : Times)
      → Holds key e s.idempotency
      → truthy again.idem_key ≡ some key
      → t.checked ≤ e.expires_at
      → t.looked_up ≤ e.expires_at
      → prepare_and_enqueue sanitize hash t again s ≡ (
        s,
        if hash again.idem_payload == e.payload_hash then replayed e.result else key_conflict key,
      )
  unfolding prepare_and_enqueue replay check_conflict
  held_is_replayed key e again s t h keyed early early' =
      let check : check_conflict hash t.checked key again.idem_payload s.idempotency
          ≡ (s.idempotency, not (hash again.idem_payload == e.payload_hash), some e.task_id) =
        ground (arith, h.there, early) in
      let find : replay t.looked_up key s.idempotency
          ≡ (s.idempotency, some (e.task_id, e.result)) =
        ground (arith, h.there, early') in
      let opened : prepare_and_enqueue sanitize hash t again s
          ≡ after_check sanitize hash t again key s
              (check_conflict hash t.checked key again.idem_payload s.idempotency) =
        rw (keyed, prepare_and_enqueue) refl in
      opened
      ∙ ap (after_check sanitize hash t again key s) check
      ∙ elim (Bool-cases (hash again.idem_payload == e.payload_hash)) [
        | inl same ↦ rw same (ap (after_lookup sanitize hash t again s) find)
        | inr differs ↦ rw differs refl
      ]

  -- A request with an idempotency key was answered with a result, which is kept for `ttl`. Until then,
  -- and as long as no other request with the key gets its own result, whatever happens to the queue,
  -- whatever requests are taken in, other keys' results and rounds of the cleanup change nothing for the
  -- key: a request with it gets the same result back if its payload hashes the same, and the conflict
  -- error if not; it makes no task and changes nothing.
  pub repeat_is_replayed :
      (now : ℕ) (req again : Request) (r : Ref) (s s' : Server) (key : String) (result : Fields)
      (t : Times)
      → IsDistinct s.idempotency
      → truthy req.idem_key ≡ some key
      → truthy again.idem_key ≡ some key
      → (finish_wait sanitize hash filter build ttl now req r s).1 ≡ some result
      → Meanwhile sanitize hash filter build ttl key
          (now + ttl)
          (finish_wait sanitize hash filter build ttl now req r s).0
          s'
      → t.checked ≤ now + ttl
      → t.looked_up ≤ now + ttl
      → prepare_and_enqueue sanitize hash t again s' ≡ (
        s',
        if hash again.idem_payload == hash req.idem_payload
            then replayed result
            else key_conflict key,
      )
  repeat_is_replayed now req again r s s' key result t u keyed keyed' answered meanwhile early
        early' =
      let e : Entry = kept_entry now req result in
      let first : Holds key e
          (finish_wait sanitize hash filter build ttl now req r s).0.idempotency =
        subst (Holds key e) (sym (finish_keeps now req r s key result keyed answered))
          (kept-Holds now req key result s.idempotency u) in
      held_is_replayed key e again s' t
        (Meanwhile-Holds sanitize hash filter build ttl key e meanwhile first) keyed' early early'
