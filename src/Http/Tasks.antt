-- ===== src/Http/Tasks.antt =====
-- hermes_agent_a2a/server.py: getting, cancelling and listing tasks, for JSON-RPC and REST alike. The
-- signals that a cancelled worker gets are those of Workers; the draws of the clock and of `uuid4` come in.
pub mod Cancel
pub mod Pages
use Prim.Native.String.{◌++◌ as append}
use hermes_agent_a2a.Prelude.{
  ℕ, zero, suc, ◌+◌, max, min, String, Bool, true, false, Option, none, some, List, [], ◌∷◌, ◌++◌,
  map, length, take, drop, ltb, leb, ◌==◌, if◌then◌else◌,
}
use hermes_agent_a2a.Int.{ℤ, pos, negsuc, sub_ℕ}
use hermes_agent_a2a.Json.{Json, Fields, null, bool, num, neg, str, arr, obj, dict, array, lookup}
use hermes_agent_a2a.Text.{filled}
use hermes_agent_a2a.Text.Number.{parse_int, int_of}
use hermes_agent_a2a.Queue.State.{
  TaskState, completed, failed, canceled, unknown, same_state, Ref, TaskQueue,
}
use hermes_agent_a2a.Queue.Ops.{cancel}
use hermes_agent_a2a.Queue.Reads.{Status, get_status, snapshot}
use hermes_agent_a2a.Workers.{cancel_worker, Signal}
use hermes_agent_a2a.Hooks.{state_text}
use hermes_agent_a2a.Protocol.{Draws, build_task_object, build_task_list_item}
use hermes_agent_a2a.Http.{Env, App, Reply, json, rpc_error}

-- What a core function leaves to its caller: nothing, since it has sent the reply of an error; a task
-- object; or an exception.
pub data Core : Type 0 where
  sent : Reply → Core
  object : Fields → Core
  broken : Core

abbrev pub not_found : String → Json → Core
not_found task_id rpc_id =
    sent (json 404 (rpc_error 38000 (append "Task not found: " task_id) rpc_id null))

abbrev pub with_queue : TaskQueue → App → App
with_queue q a = record a { server = record a.server { queue = q } }

-- `_load_task_or_404`: on a task that is known, the rest of the handler.
abbrev pub load_task {ℓ} :
    {A : Type ℓ} → String → Json → (Core → A) → (Status → A) → Option Status → A
load_task task_id rpc_id fail rest none = fail broken
load_task task_id rpc_id fail rest (some s) =
    if same_state s.state unknown then fail (not_found task_id rpc_id) else rest s

-- status["state"] in ("completed", "failed", "canceled")
unfoldable pub is_settled : TaskState → Bool
is_settled completed = true
is_settled failed = true
is_settled canceled = true
is_settled _ = false

abbrev pub not_cancelable : TaskState → Json → Core
not_cancelable s rpc_id =
    sent (
      json 409
        (rpc_error 38001 (append "Task not cancelable: task is " (state_text s)) rpc_id null))

module _ (e : Env) where
  abbrev pub status_of : String → App → Option Status
  status_of task_id a = get_status e.filter_outbound task_id a.server.queue

  unfoldable pub get_task_core : Draws → String → Json → App → Core
  unfolding build_task_object get_status
  get_task_core d task_id rpc_id a =
      load_task task_id rpc_id (λ c. c)
        (λ s.
          object (
            build_task_object e.filter_outbound e.isoformat d task_id s.state none s.response none))
        (status_of task_id a)

  abbrev pub after_worker : Draws → String → App → Option (List Signal × Bool) → App × Core
  after_worker d task_id a none = (a, broken)
  after_worker d task_id a (some _) = (
    with_queue (cancel task_id a.server.queue) a,
    object (build_task_object e.filter_outbound e.isoformat d task_id canceled none none none),
  )

  unfoldable pub cancel_task_core : Draws → String → Json → App → App × Core
  unfolding is_settled get_status
  cancel_task_core d task_id rpc_id a =
      load_task task_id rpc_id (λ c. (a, c))
        (λ s.
          if is_settled s.state
          then (a, not_cancelable s.state rpc_id)
          else after_worker d task_id a
              (cancel_worker e.finished e.obeys e.dies task_id a.processes))
        (status_of task_id a)

abbrev pub Entry : Type 0
Entry = ℕ × Ref × TaskState

-- all_tasks.sort(key=lambda x: x[0], reverse=True), which keeps the order of equal keys
unfoldable pub insert_entry : Entry → List Entry → List Entry
insert_entry x [] = x ∷ []
insert_entry x (y ∷ ys) =
    let rest = insert_entry x ys in if leb y.0 x.0 then x ∷ y ∷ ys else y ∷ rest

unfoldable pub sort_entries : List Entry → List Entry
unfolding insert_entry
sort_entries [] = []
sort_entries (x ∷ xs) = insert_entry x (sort_entries xs)

pub record TaskPage : Type 0 where
  pub task : List Json
  pub page_size : ℕ
  pub total_size : ℕ
  pub next_page_token : String

-- max(0, offset)
abbrev pub at_least_zero : Option ℤ → ℕ
at_least_zero (some (pos n)) = n
at_least_zero _ = 0

-- max(1, min(n, 100))
unfoldable pub clamp : ℤ → ℕ
clamp (negsuc n) = 1
clamp (pos n) = max 1 (min n 100)

-- A token that is no text makes `b64decode` raise, so the offset is 0, as for none.
abbrev pub token_of : Option Json → Option String
token_of (some (str s)) = some s
token_of _ = none

module _ (e : Env) where
  abbrev pub offset_of : Option String → ℕ
  offset_of token = elim (filled token) [ none ↦ 0 | some t ↦ at_least_zero (e.decode_offset t) ]

  -- Each item has its own draws.
  abbrev pub item_of : (Ref → Draws) → TaskQueue → Entry → Json
  item_of draws q (created_at, r, state) =
      obj (build_task_list_item e.filter_outbound e.isoformat (draws r) (q.objects r) state)

  unfoldable pub task_page : (Ref → Draws) → ℕ → Option String → TaskQueue → TaskPage
  unfolding sort_entries build_task_list_item snapshot
  task_page draws page_size token q =
      let all_tasks = sort_entries (snapshot q) in
      let offset = offset_of token in
      let next_offset = offset + page_size in
      record {
        task = map (item_of draws q) (take page_size (drop offset all_tasks));
        page_size = page_size;
        total_size = length all_tasks;
        next_page_token =
            if ltb next_offset (length all_tasks) then e.encode_offset next_offset else "";
      }

  unfoldable pub build_paginated_task_list : (Ref → Draws) → ℕ → Option String → TaskQueue → Fields
  unfolding task_page
  build_paginated_task_list draws page_size token q =
      let p = task_page draws page_size token q in
      dict (
        ("task", arr (array p.task))
        ∷ ("pageSize", num p.page_size)
        ∷ ("totalSize", num p.total_size)
        ∷ ("nextPageToken", str p.next_page_token)
        ∷ [])

  -- The page of `GET /tasks`: `page_size` and `continuation_token` are the first values of the query.
  unfoldable pub rest_list_tasks :
      (Ref → Draws) → Option String → Option String → TaskQueue → Fields
  unfolding build_paginated_task_list clamp parse_int
  rest_list_tasks draws page_size token q =
      let size : ℕ = elim page_size [
        | none ↦ 20
        | some s ↦ elim (parse_int e.digit_value s) [ none ↦ 20 | some n ↦ clamp n ]
      ] in
      build_paginated_task_list draws size token q

  unfoldable pub rpc_list_tasks : (Ref → Draws) → Fields → TaskQueue → Option Fields
  unfolding build_paginated_task_list clamp int_of
  rpc_list_tasks draws params q =
      let size : Option ℤ = elim (lookup "pageSize" params) [
        | none ↦ some (pos 20)
        | some v ↦ int_of e.digit_value v
      ] in
      elim size [
        | none ↦ none
        | some n ↦ some (
            build_paginated_task_list draws (clamp n) (token_of (lookup "continuationToken" params))
              q)
      ]
