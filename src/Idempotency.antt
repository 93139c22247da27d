-- ===== src/Idempotency.antt =====
-- hermes_agent_a2a/persistence.py: `IdempotencyStore`, which caches the result of a request under its
-- idempotency key. Each call is the block under the lock, with the clock read once. The hash of the
-- payload (SHA-256 of the sorted JSON) is a parameter.
pub mod Replay
use hermes_agent_a2a.Prelude.{
  ℕ, ◌+◌, String, Bool, true, false, not, Option, none, some, ltb, ◌==◌, if◌then◌else◌, length,
}
use hermes_agent_a2a.Dict.{Dict, get, put, remove}
use hermes_agent_a2a.Dict.Sweep.{keys_where, remove_all}
use hermes_agent_a2a.Json.{Fields}

-- (task_id, payload_hash, result, expires_at)
pub record Entry : Type 0 where
  pub task_id : String
  pub payload_hash : String
  pub result : Fields
  pub expires_at : ℕ

abbrev pub IdempotencyStore : Type 0
IdempotencyStore = Dict Entry

abbrev pub is_expired : ℕ → Entry → Bool
is_expired now e = ltb e.expires_at now

-- `get(idempotency_key)`
unfoldable pub replay : ℕ → String → IdempotencyStore → IdempotencyStore × Option (String × Fields)
replay now key s = elim (get key s) [
  | none ↦ (s, none)
  | some e ↦ if is_expired now e then (remove key s, none) else (s, some (e.task_id, e.result))
]

module _ (hash : Fields → String) where
  unfoldable pub check_conflict :
      ℕ → String → Fields → IdempotencyStore → IdempotencyStore × Bool × Option String
  check_conflict now key payload s = elim (get key s) [
    | none ↦ (s, false, none)
    | some e ↦
        if is_expired now e
        then (remove key s, false, none)
        else (s, not (hash payload == e.payload_hash), some e.task_id)
  ]

  -- `set(idempotency_key, task_id, payload, result)`
  unfoldable pub record_result :
      ℕ → ℕ → String → String → Fields → Fields → IdempotencyStore → IdempotencyStore
  record_result ttl now key task_id payload result s =
      put key
        (record {
          task_id = task_id;
          payload_hash = hash payload;
          result = result;
          expires_at = now + ttl;
        })
        s

-- The store, and the number of entries evicted.
unfoldable pub evict_expired : ℕ → IdempotencyStore → IdempotencyStore × ℕ
evict_expired now s =
    let expired = keys_where (is_expired now) s in (remove_all expired s, length expired)
