-- ===== src/Http/Artifacts.antt =====
-- hermes_agent_a2a/server.py: the artifact events that go out on open streams when a result is sent, and
-- when a task is read over JSON-RPC.
use hermes_agent_a2a.Prelude.{String, none, some, List, [], ◌∷◌}
use hermes_agent_a2a.Int.{pos}
use hermes_agent_a2a.Json.{Json, Fields, null, arr, obj, dict, lookup, items, get_or}
use hermes_agent_a2a.Text.{or_text}
use hermes_agent_a2a.Queue.Reads.{find_task_by_id}
use hermes_agent_a2a.Sse.{SseStreamer, get_stream_ids_for_task, emit_artifact_event}
use hermes_agent_a2a.Hooks.{push_to_streams}
use hermes_agent_a2a.Http.{Env, App, Moment}

module _ (e : Env) where
  -- The events for a result's artifacts, on the streams that are open for the task.
  abbrev pub artifact_event :
      String → String → Fields → SseStreamer → Moment → List String → SseStreamer
  artifact_event task_id context_id artifact s m ids =
      push_to_streams e.dumps (λ n. e.show (pos n)) m.emitted m.draws.stamp ids
        (emit_artifact_event task_id context_id artifact
          (some (dict (("index", get_or "index" null artifact) ∷ []))))
        s

  unfoldable pub emit_artifacts :
      Moment → String → String → List String → List Json → SseStreamer → SseStreamer
  unfolding push_to_streams
  emit_artifacts m task_id context_id ids [] s = s
  emit_artifacts m task_id context_id ids (obj artifact ∷ js) s =
      emit_artifacts m task_id context_id ids js
        (artifact_event task_id context_id artifact s m ids)
  emit_artifacts m task_id context_id ids (_ ∷ js) s = s

  abbrev pub artifact_list : Fields → List Json
  artifact_list answer = elim (lookup "artifacts" answer) [ some (arr js) ↦ items js | _ ↦ [] ]

  unfoldable pub emit_result : Moment → String → String → Fields → App → App
  unfolding emit_artifacts get_stream_ids_for_task
  emit_result m task_id context_id answer a = record a {
    streamer =
        emit_artifacts m task_id context_id (get_stream_ids_for_task task_id a.streamer)
          (artifact_list answer) a.streamer;
  }

  -- The task's own context id, or its id if the queue has no such task.
  unfoldable pub emit_get_task_artifacts : Moment → String → Fields → App → App
  unfolding emit_result find_task_by_id
  emit_get_task_artifacts m task_id answer a =
      let context_id : String = elim (find_task_by_id task_id a.server.queue) [
        | none ↦ task_id
        | some r ↦ or_text (a.server.queue.objects r).context_id task_id
      ] in
      emit_result m task_id context_id answer a
