-- ===== src/Http/Send/Answered.antt =====
-- hermes_agent_a2a/server.py: from a message that is taken in to the answer that its caller gets.
use mathlib.Core.Path.{subst}
use hermes_agent_a2a.Http.Send.{
  rpc_say, after_wait, context_id_of, task_object, processing, request_of, Begun, remote, early,
  waiting, begin_task_send, send_text, submit, after_prepare, is_remote, end_wait, built,
}
use hermes_agent_a2a.Inbound.{
  after_wake, Server, Request, Outcome, conflict, busy, replayed, enqueued, prepare_and_enqueue,
  finish_wait,
}
use hermes_agent_a2a.Http.Messages.{extract_text_parts, or_end}
use hermes_agent_a2a.Prelude.{
  ℕ, String, ◌≡◌, refl, ap, sym, ◌∙◌, inl, inr, Bool, true, false, Option, none, some, arith,
  if◌then◌else◌, ◌==◌,
}
use hermes_agent_a2a.Dict.{get}
use hermes_agent_a2a.Queue.State.{failed, working, Ref, PendingTask, TaskQueue, answer}
use hermes_agent_a2a.Json.{bool, get_or, text_at, fields_at, Json, Fields, is_truthy}
use hermes_agent_a2a.Text.{strip}
use hermes_agent_a2a.Queue.Ops.{complete, finish}
use hermes_agent_a2a.Queue.Waiters.{wake}
use hermes_agent_a2a.Queue.Branches.{complete_found}
use hermes_agent_a2a.Inbound.Guards.{prepare-IsGuarded, IsGuarded, task_of}
use hermes_agent_a2a.Protocol.{Draws}
use hermes_agent_a2a.Http.{Env, App, Moment}
use hermes_agent_a2a.Http.Tasks.{with_queue}

-- The first step ends in a wait only for a task that the queue has just taken in.
abbrev pub TookIn : Env → Moment → App → App × Begun → Type 0
TookIn e m a (a1, waiting req r) =
    prepare_and_enqueue e.sanitize_inbound e.hash m.times req a.server ≡ (a1.server, enqueued r)
TookIn e m a (a1, _) = Unit

module _ (e : Env) (m : Moment) (rpc_id : Json) (a : App) where
  after_prepare-TookIn :
      (req : Request) (x : Server × Outcome)
      → prepare_and_enqueue e.sanitize_inbound e.hash m.times req a.server ≡ x
      → TookIn e m a (after_prepare e (rpc_say rpc_id) req a x)
  after_prepare-TookIn req (s, conflict code status message) h = tt
  after_prepare-TookIn req (s, busy code status message) h = tt
  after_prepare-TookIn req (s, replayed fs) h = tt
  after_prepare-TookIn req (s, enqueued r) h = h

  submit-TookIn : (req : Request) → TookIn e m a (submit e m (rpc_say rpc_id) req a)
  submit-TookIn req =
      after_prepare-TookIn req (prepare_and_enqueue e.sanitize_inbound e.hash m.times req a.server)
        refl

  choice-TookIn :
      (blank elsewhere now : Bool) (empty later : Fields) (req : Request)
      → TookIn e m a (
          if blank
          then (a, early empty)
          else if elsewhere
          then (a, remote)
          else if now
          then (a, early later)
          else submit e m (rpc_say rpc_id) req a)
  choice-TookIn true elsewhere now empty later req = tt
  choice-TookIn false true now empty later req = tt
  choice-TookIn false false true empty later req = tt
  choice-TookIn false false false empty later req = submit-TookIn req

  send_text-TookIn :
      (client_ip : String) (params : Fields) (o : Option String)
      → TookIn e m a (send_text e m client_ip params rpc_id a o)
  send_text-TookIn client_ip params none = tt
  send_text-TookIn client_ip params (some text) =
      let task_id : String = elim (text_at "id" params) [ some i ↦ i | none ↦ m.task_uuid ] in
      let message = or_end (fields_at "message" params) in
      let metadata = or_end (fields_at "metadata" message) in
      let context_id = context_id_of params metadata task_id in
      choice-TookIn (strip text == "") (is_remote e metadata)
        (is_truthy
          (get_or "return_immediately" (bool false) (or_end (fields_at "configuration" params))))
        (task_object e m.draws task_id failed none "Empty message")
        (task_object e m.draws task_id working (some context_id) processing)
        (request_of e client_ip task_id text metadata params context_id)

  begin-TookIn :
      (client_ip : String) (params : Fields)
      → TookIn e m a (begin_task_send e m client_ip params rpc_id a)
  unfolding begin_task_send
  begin-TookIn client_ip params =
      send_text-TookIn client_ip params (extract_text_parts (or_end (fields_at "message" params)))

wake_said :
    (r : Ref) (q : TaskQueue) (response : String)
    → (q.objects r).response ≡ some response
    → wake r q ≡ (q, some response)
unfolding wake
wake_said r q response said = ground (arith, said)

module _ (e : Env) where
  end_wait_answered :
      (ttl now : ℕ) (d : Draws) (req : Request) (r : Ref) (response : String) (a : App)
      → (a.server.queue.objects r).response ≡ some response
      → (end_wait e ttl now d req r a).1
        ≡ some (
            built e d req.task_id
              (a.server.queue.objects r).context_id
              (e.filter_outbound response))
  unfolding end_wait finish_wait wake
  end_wait_answered ttl now d req r response a said =
      ap
        (λ (x : TaskQueue × Option String).
          (after_wait e a (
            after_wake e.sanitize_inbound e.hash e.filter_outbound (built e d) ttl now req r
              a.server x)).1)
        (wake_said r a.server.queue response said)

module _ (k response : String) (r : Ref) (q : TaskQueue) where
  complete_says :
      get k q.pending ≡ some r
      → (q.objects r).returned ≡ false
      → (complete k response q).objects r ≡ answer response (q.objects r)
  unfolding finish
  complete_says pending waiting_still = rw (complete_found k response r q pending) (ground arith)

ref_of : (r r' : Ref) → enqueued r ≡ enqueued r' → r ≡ r'
ref_of r r' h = ground (arith, h)

fresh_task :
    (e : Env) (m : Moment) (a : App) (req : Request) (s : Server) (r : Ref)
    → prepare_and_enqueue e.sanitize_inbound e.hash m.times req a.server ≡ (s, enqueued r)
    → (get req.task_id s.queue.pending ≡ some r)
      × (s.queue.objects r ≡ task_of e.sanitize_inbound e.hash m.times req)
fresh_task e m a req s r taken =
    elim (subst (IsGuarded e.sanitize_inbound e.hash m.times req a.server) taken
      (prepare-IsGuarded e.sanitize_inbound e.hash m.times req a.server)) [
        | inr (same, never) ↦ absurd (never r refl)
        | inl (here, absent, pending, task) ↦
            let same : r ≡ a.server.queue.next = ref_of r a.server.queue.next here in
            (pending ∙ ap some (sym same), ap s.queue.objects same ∙ task)
      ]

-- A message that is taken in and waits, in a queue where the agent then completes its task: the caller's
-- result is a completed task object under the request's id and context with the filtered response.
pub send_answered :
    (e : Env) (m : Moment) (client_ip : String) (params : Fields) (rpc_id : Json) (a a1 : App)
    (req : Request) (r : Ref) (response : String) (ttl now : ℕ) (d : Draws)
    → begin_task_send e m client_ip params rpc_id a ≡ (a1, waiting req r)
    → (end_wait e ttl now d req r (with_queue (complete req.task_id response a1.server.queue) a1)).1
      ≡ some (built e d req.task_id req.context_id (e.filter_outbound response))
send_answered e m client_ip params rpc_id a a1 req r response ttl now d begun =
    let taken : prepare_and_enqueue e.sanitize_inbound e.hash m.times req a.server
        ≡ (a1.server, enqueued r) =
      subst (TookIn e m a) begun (begin-TookIn e m rpc_id a client_ip params) in
    let q' = complete req.task_id response a1.server.queue in
    let (pending, task) = fresh_task e m a req a1.server r taken in
    let said : q'.objects r ≡ answer response (a1.server.queue.objects r) =
      complete_says req.task_id response r a1.server.queue pending
        (ap (λ (t : PendingTask). t.returned) task) in
    end_wait_answered e ttl now d req r response (with_queue q' a1)
      (ap (λ (t : PendingTask). t.response) said)
    ∙ ap (λ (c : Option String). some (built e d req.task_id c (e.filter_outbound response)))
        (ap (λ (t : PendingTask). t.context_id) said ∙ ap (λ (t : PendingTask). t.context_id) task)
