-- ===== src/Http/Send/Lost.antt =====
-- hermes_agent_a2a/server.py: the text of a REST answer.
use hermes_agent_a2a.Prelude.{String, ◌≡◌, refl, ap, Option, none, some, [], ◌∷◌}
use hermes_agent_a2a.Json.{dict, Json, lookup, assign, as_text}
use hermes_agent_a2a.Queue.State.{completed}
use hermes_agent_a2a.Protocol.{Draws, build_task_object, with_artifacts}
use hermes_agent_a2a.Http.{Env, json}
use hermes_agent_a2a.Http.Send.{built, rest_send_reply, rest_body}

no_response :
    (d : Draws) (o : Option String) (id context_id status : Json)
    → lookup "response" (
        with_artifacts d o
          (dict (("id", id) ∷ ("context_id", context_id) ∷ ("status", status) ∷ [])))
      ≡ none
unfolding lookup assign
no_response d none id context_id status = refl
no_response d (some t) id context_id status = refl

abbrev text_or_none : Option Json → Option String
text_or_none none = none
text_or_none (some v) = as_text v

abbrev text_or_empty : Option Json → String
text_or_empty o = elim (text_or_none o) [ none ↦ "" | some t ↦ t ]

built-lacks_response :
    (e : Env) (d : Draws) (k answer : String) (context_id : Option String)
    → lookup "response" (built e d k context_id answer) ≡ none
unfolding build_task_object
built-lacks_response e d k answer context_id = no_response d _ _ _ _

-- The result that a wait for an answer ends with never has a "response", so whatever the agent answered,
-- the REST reply to the message says "completed" with an empty text.
pub rest_reply_empty :
    (e : Env) (d : Draws) (k answer : String) (context_id : Option String)
    → rest_send_reply e k (some (built e d k context_id answer))
      ≡ json 200 (rest_body e k completed "")
unfolding rest_send_reply
rest_reply_empty e d k answer context_id =
    ap (λ (o : Option Json). json 200 (rest_body e k completed (text_or_empty o)))
      (built-lacks_response e d k answer context_id)
