-- ===== src/Idempotency/Replay.antt =====
-- hermes_agent_a2a/persistence.py: what a later request with the same idempotency key finds.
use hermes_agent_a2a.Prelude.{
  ℕ, ◌+◌, ◌≤◌, ◌<◌, String, ◌≡◌, true, false, not, none, some, arith, eq_refl, ◌==◌, Bool-cases,
  Option-cases, inl, inr,
}
use hermes_agent_a2a.Dict.{get, put, remove, IsDistinct}
use hermes_agent_a2a.Dict.Laws.{get-put}
use hermes_agent_a2a.Dict.Sweep.{get-sweep}
use hermes_agent_a2a.Json.{Fields}
use hermes_agent_a2a.Idempotency.{
  Entry, IdempotencyStore, is_expired, replay, check_conflict, record_result, evict_expired,
}

-- Until the entry of a key expires, a replay of the key has the stored task and result, and a request
-- with the key conflicts exactly if its payload hashes differently; neither changes the store. Later
-- both find the key free, and drop it.
pub replay_after_set :
    (hash : Fields → String) (ttl stored_at now : ℕ) (key task_id : String)
    (payload incoming result : Fields) (s : IdempotencyStore)
    → let s' = record_result hash ttl stored_at key task_id payload result s in
      (now ≤ stored_at + ttl
        → (replay now key s' ≡ (s', some (task_id, result)))
          × (check_conflict hash now key incoming s'
              ≡ (s', not (hash incoming == hash payload), some task_id)))
      × (stored_at + ttl < now
          → (replay now key s' ≡ (remove key s', none))
            × (check_conflict hash now key incoming s' ≡ (remove key s', false, none)))
unfolding record_result replay check_conflict
replay_after_set hash ttl stored_at now key task_id payload incoming result s =
    let e : Entry = record {
      task_id = task_id;
      payload_hash = hash payload;
      result = result;
      expires_at = stored_at + ttl;
    } in
    let found : get key (put key e s) ≡ some e = ground (arith, get-put key key e s, eq_refl key) in
    (
      λ h.
          let fresh : is_expired now e ≡ false = ground (arith, h) in
          (ground (arith, found, fresh), ground (arith, found, fresh)),
      λ h.
          let late : is_expired now e ≡ true = ground (arith, h) in
          (ground (arith, found, late), ground (arith, found, late)),
    )

-- Eviction is not seen: a replay of any key, at the time of the eviction or later, answers the same
-- with and without it. No key is stored twice.
pub evict_unseen :
    (now later : ℕ) (key : String) (s : IdempotencyStore)
    → IsDistinct s
    → now ≤ later
    → (replay later key (evict_expired now s).0).1 ≡ (replay later key s).1
unfolding replay evict_expired
evict_unseen now later key s u h = elim (Option-cases (get key s)) [
  | inl absent ↦ ground (arith, get-sweep (is_expired now) key s u, absent)
  | inr (e, there) ↦ elim (Bool-cases (is_expired now e)) [
    | inl expired ↦ ground (arith, get-sweep (is_expired now) key s u, there, expired)
    | inr fresh ↦ ground (arith, get-sweep (is_expired now) key s u, there, fresh)
  ]
]
