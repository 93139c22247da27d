-- ===== src/Lib.antt =====
-- Verification of hermes-agent-a2a, the plugin that lets an agent serve the A2A protocol over HTTP.
--
-- The program. Request threads of the HTTP server (hermes_agent_a2a/server.py) put tasks into a queue
-- (task_queue.py) and wait on the task objects; the gateway's hooks drain the queue, and complete or
-- cancel the tasks; a watchdog answers callers whose task was forgotten. A rate limiter
-- (rate_limiter.py) stands before the handlers; an idempotency store (persistence.py) answers repeated
-- requests; state changes go out to event streams (sse_handler.py) and to webhooks, whose addresses
-- are in two stores (subscription_store.py, push_delivery.py). Worker processes are registered by task
-- (worker_registry.py).
--
-- The files, with the code that each is about (paths below hermes_agent_a2a/):
--   Prelude, Dict, Json, Int   shared names; Python's dict in insertion order, and the loop that collects
--                              keys and deletes them (Dict/Sweep); JSON values; integers
--   Queue/State, Evict, Ops, Reads   task_queue.py: `_PendingTask`, `TaskQueue` and its operations, which
--                              keep their names. Task objects are shared by reference, so they lie
--                              on a heap, `objects`, and the dictionaries hold references
--   Queue/Waiters              server.py: `_on_webhook_failure`, the end of the wait in
--                              `_enqueue_and_await_task` (`await_response`, `wake`), `_start_orphaned_task_watchdog`
--   Queue/WellFormed, Steps    the invariant of a queue, and the threads as steps in any order
--   Queue/Delivery, Machine, Status, Arrival, Drain, Oldest, Watchdog   the queue's behaviour, by subject
--   RateLimiter                rate_limiter.py: `allow`, `_evict_oldest`, `_cleanup_sweep`; the proofs in
--                              Tokens, Calls, Admission, Retry, Oldest, Entries and Sweep
--   Idempotency                persistence.py: `IdempotencyStore`; `replay` is its `get`, `record_result` its
--                              `set`
--   Workers                    worker_registry.py
--   Push                       push_delivery.py, and two classes of a2a_spec/push.py
--   Subscriptions              subscription_store.py; the operations carry `_subscription(s)` in their names
--   Sse                        sse_handler.py
--   Webhook                    webhook_delivery.py: `trigger`, `trigger_async`
--   Inbound                    server.py: `_prepare_and_enqueue`, and the end of `_enqueue_and_await_task`
--                              (`finish_wait`), over the queue and the idempotency store; Inbound/Meanwhile is
--                              what happens between a request and its repetition
--   Hooks                      hooks.py: `pre_llm_call`, `post_llm_call`, `TaskStateChangeHook`
--   Runtime                    runtime_state.py: the counters of `A2AMetrics`, and which operations move them
--   Urls                       security.py: the private networks (Urls/Private) and the checks of URLs
--                              (Urls/Safe); the server and the deliveries take the check as a parameter
--   Boot                       validators.py, and `_from_env` and `_from_explicit_config` of identity.py; a
--                              refusal is a value, and `broken` is any other exception
--   Text                       Python's `str` methods on texts as characters, and `int` (Text/Number)
--   Protocol                   payloads.py; Protocol/Parse is a2a_spec/tasks.py
--   Http                       server.py, `A2ARequestHandler`: Access (`_check_auth`, `_check_hmac_push`, the
--                              guards of a POST), Routes, Tasks (get, cancel, list), PushConfigs,
--                              Subscribe (Subscribe/Outside with the check of Urls), Messages and
--                              Artifacts (what goes in and out of a message), Send (SendMessage in two
--                              steps, before and after its wait), Stream (the SSE endpoints; Stream/Cached
--                              for an earlier result) and Dispatch (`do_GET`, `do_POST`, `do_DELETE`,
--                              `_do_json_rpc`)
--   Tests                      the theorems at concrete inputs
--
-- Conventions. Each operation is the block that runs under the component's lock, so a run of the threads
-- is a sequence of operations. A thread that tests a task object and then writes to it without the lock
-- is one step where nothing comes between; Queue/Steps has its write as a step of its own too, at any
-- later time. The clock, UUIDs, HTTP, JSON text, hashes and signatures are arguments. Times are whole
-- ticks; the limiter counts tokens in a unit in which all its quantities are whole numbers, so rounding
-- of floats is not modelled. Python's sets are lists; only the choice of `post_llm_call` among the
-- processing tasks looks at the order. A division by zero is `none`. Inbound and Hooks run the blocks of
-- one request or turn one after the other. A handler of Http is a function from the stores to the stores
-- and the replies; one that waits is two functions, and a poll loop takes the list of what other threads
-- do between its polls. What `str.isdigit` and `int` accept as digits is a parameter, since it goes
-- beyond ASCII. Fields of JSON bodies are read at the types that the protocol gives them.
--
-- Bounds and fuel. The eviction loop of `enqueue` runs on as many rounds as there are entries, which is
-- enough since each round takes one away or stops (Queue/Evict). All other loops are recursions on
-- lists or on the number of attempts left.
--
-- Not modelled: the agent cards of server.py, the text filters, JWT and audit log of security.py,
-- `pre_gateway_dispatch` of hooks.py, the vault files of identity.py, the agent card of a2a_spec, the
-- tool handlers, the singletons, file and network I/O, and the threads that only repeat a modelled
-- round.
pub mod Prelude
pub mod Dict
pub mod Text
pub mod Json
pub mod Int
pub mod Queue
pub mod RateLimiter
pub mod Idempotency
pub mod Workers
pub mod Push
pub mod Subscriptions
pub mod Sse
pub mod Webhook
pub mod Inbound
pub mod Hooks
pub mod Runtime
pub mod Urls
pub mod Boot
pub mod Protocol
pub mod Http
pub mod Tests
