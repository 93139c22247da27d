-- ===== src/Http/Routes/RoundTrip.antt =====
-- hermes_agent_a2a/server.py: the paths of the REST interface, and that `do_GET` takes each one to its own
-- handler, with the ids that stand in it.
use Prim.Native.Char.{char}
use Prim.Native.String.{String, ◌++◌ as append}
use text.Mathlib.TextLemmas.{nil-append, cons-append, append_assoc, append-nil}
use hermes_agent_a2a.Prelude.{
  none, some, Option, ◌≡◌, refl, ap, sym, ◌∙◌, true, false, List, [], ◌∷◌, arith,
}
use hermes_agent_a2a.Text.{starts_with, occurs, before, split, join}
use hermes_agent_a2a.Text.Laws.{AllLack, split-join, starts_with-append}
use hermes_agent_a2a.Text.Barrier.{
  occurs-barrier, before-barrier, occurs_last, occurs-append, before_absent, before_first,
}
use hermes_agent_a2a.Http.Routes.{
  GetRoute, subscribe_to_task, get_config, list_configs, get_task, extended_agent_card, list_tasks,
  agent_json, health, not_found, path_of, plain_route, get_route, config_or, third, config_path,
  Option, some,
}

-- The path that asks for a route; every path but these is not found.
abbrev pub url : GetRoute → String
url (subscribe_to_task task_id) = join "/" ("" ∷ "tasks" ∷ append task_id ":subscribe" ∷ [])
url (get_config task_id config_id) =
    join "/" ("" ∷ "tasks" ∷ task_id ∷ "pushNotificationConfigs" ∷ config_id ∷ [])
url (list_configs task_id) = join "/" ("" ∷ "tasks" ∷ task_id ∷ "pushNotificationConfigs" ∷ [])
url (get_task task_id) = join "/" ("" ∷ "tasks" ∷ task_id ∷ [])
url extended_agent_card = "/extendedAgentCard"
url list_tasks = "/tasks"
url agent_json = "/.well-known/agent.json"
url health = "/health"
url not_found = "/"

-- An id that can stand in a path.
abbrev pub IsPlain : String → Type 0
IsPlain i = (occurs "/" i ≡ false) × (occurs "?" i ≡ false) × (occurs ":subscribe" i ≡ false)

abbrev pub IsAddressed : GetRoute → Type 0
IsAddressed (subscribe_to_task task_id) = IsPlain task_id
IsAddressed (get_config task_id config_id) = IsPlain task_id × IsPlain config_id
IsAddressed (list_configs task_id) = IsPlain task_id
IsAddressed (get_task task_id) = IsPlain task_id
IsAddressed _ = Unit

slashed : (b : String) → append "/" b ≡ String.◌∷◌ (char 47 tt) b
slashed b =
    cons-append (char 47 tt) "" b ∙ ap (λ (s : String). String.◌∷◌ (char 47 tt) s) (nil-append b)

module _ (c : Prim.Native.Char.Char) (p : String)
    (clean : occurs "/" (String.◌∷◌ c p) ≡ false) where
  occurs-join :
      (x : String) (xs : List String)
      → AllLack (String.◌∷◌ c p) (x ∷ xs)
      → occurs (String.◌∷◌ c p) (join "/" (x ∷ xs)) ≡ false
  unfolding join
  occurs-join x [] h = h.0
  occurs-join x (y ∷ ys) h =
      rw (slashed (join "/" (y ∷ ys))) (
        ground (arith, occurs-barrier (char 47 tt) c p x (join "/" (y ∷ ys)), occurs-join y ys h.1))

spelled : (b : String) → append "" (append "/" (append "tasks" (append "/" b))) ≡ append "/tasks/" b
spelled b =
    nil-append (append "/" (append "tasks" (append "/" b)))
    ∙ ap (append "/") (sym (append_assoc "tasks" "/" b))
    ∙ sym (append_assoc "/" "tasks/" b)

under_tasks :
    (x : String) (xs : List String)
    → starts_with "/tasks/" (join "/" ("" ∷ "tasks" ∷ x ∷ xs)) ≡ true
unfolding join
under_tasks x xs =
    ap (starts_with "/tasks/") (spelled (join "/" (x ∷ xs)))
    ∙ starts_with-append "/tasks/" (join "/" (x ∷ xs))

module _ (p : String) (segments : List String) where
  routed :
      split 47 p ≡ segments
      → starts_with "/tasks/" p ≡ true
      → occurs ":subscribe" p ≡ false
      → get_route p ≡ config_or p segments (config_path segments)
  unfolding get_route
  routed e s o = rw (s, o, e) refl

  subscribed :
      split 47 p ≡ segments
      → starts_with "/tasks/" p ≡ true
      → occurs ":subscribe" p ≡ true
      → get_route p ≡ subscribe_to_task (before ":subscribe" (third segments))
  unfolding get_route
  subscribed e s o = rw (s, o, e) refl

task_route :
    (x : String) (xs : List String)
    → AllLack "/" (x ∷ xs)
    → AllLack ":subscribe" (x ∷ xs)
    → let segments = "" ∷ "tasks" ∷ x ∷ xs in
      let p = join "/" segments in get_route p ≡ config_or p segments (config_path segments)
unfolding occurs
task_route x xs h k =
    let segments : List String = "" ∷ "tasks" ∷ x ∷ xs in
    routed (join "/" segments) segments (split-join "" ("tasks" ∷ x ∷ xs) (refl, (refl, h)))
      (under_tasks x xs)
      (occurs-join (char 58 tt) "subscribe" refl "" ("tasks" ∷ x ∷ xs) (refl, (refl, k)))

subscribe_route :
    (x : String) → IsPlain x → get_route (url (subscribe_to_task x)) ≡ subscribe_to_task x
unfolding occurs join
subscribe_route x h =
    let y = append x ":subscribe" in
    let segments : List String = "" ∷ "tasks" ∷ y ∷ [] in
    subscribed (join "/" segments) segments
      (split-join "" ("tasks" ∷ y ∷ []) (
        refl,
        (
          refl,
          (ground (arith, h.0, occurs-barrier (char 58 tt) (char 47 tt) "" x "subscribe" refl), tt),
        ),
      ))
      (under_tasks y [])
      (ap (occurs ":subscribe") (spelled y)
        ∙ occurs-append ":subscribe" "/tasks/" y (occurs_last ":subscribe" x))
    ∙ ap subscribe_to_task (before-barrier (char 58 tt) "subscribe" x refl h.2)

plain_task :
    (x : String)
    → plain_route (join "/" ("" ∷ "tasks" ∷ x ∷ [])) ("" ∷ "tasks" ∷ x ∷ []) ≡ get_task x
unfolding plain_route
plain_task x = rw (under_tasks x []) refl

get_route-url : (r : GetRoute) → IsAddressed r → get_route (url r) ≡ r
unfolding get_route
get_route-url (subscribe_to_task x) h = subscribe_route x h
get_route-url (get_config x y) (h, k) =
    task_route x ("pushNotificationConfigs" ∷ y ∷ []) (h.0, (refl, (k.0, tt)))
      (h.2, (refl, (k.2, tt)))
get_route-url (list_configs x) h =
    task_route x ("pushNotificationConfigs" ∷ []) (h.0, (refl, tt)) (h.2, (refl, tt))
get_route-url (get_task x) h = task_route x [] (h.0, tt) (h.2, tt) ∙ plain_task x
get_route-url extended_agent_card h = refl
get_route-url list_tasks h = refl
get_route-url agent_json h = refl
get_route-url health h = refl
get_route-url not_found h = refl

url_without_query : (r : GetRoute) → IsAddressed r → occurs "?" (url r) ≡ false
unfolding occurs
url_without_query (subscribe_to_task x) h =
    occurs-join (char 63 tt) "" refl "" ("tasks" ∷ append x ":subscribe" ∷ []) (
      refl,
      (
        refl,
        (ground (arith, h.1, occurs-barrier (char 58 tt) (char 63 tt) "" x "subscribe" refl), tt),
      ),
    )
url_without_query (get_config x y) (h, k) =
    occurs-join (char 63 tt) "" refl "" ("tasks" ∷ x ∷ "pushNotificationConfigs" ∷ y ∷ [])
      (refl, (refl, (h.1, (refl, (k.1, tt)))))
url_without_query (list_configs x) h =
    occurs-join (char 63 tt) "" refl "" ("tasks" ∷ x ∷ "pushNotificationConfigs" ∷ [])
      (refl, (refl, (h.1, (refl, tt))))
url_without_query (get_task x) h =
    occurs-join (char 63 tt) "" refl "" ("tasks" ∷ x ∷ []) (refl, (refl, (h.1, tt)))
url_without_query extended_agent_card h = refl
url_without_query list_tasks h = refl
url_without_query agent_json h = refl
url_without_query health h = refl
url_without_query not_found h = refl

abbrev pub query_part : Option String → String
query_part none = ""
query_part (some query) = append "?" query

path_of-url :
    (u : String) (q : Option String) → occurs "?" u ≡ false → path_of (append u (query_part q)) ≡ u
unfolding path_of
path_of-url u none h = ap (before "?") (append-nil u) ∙ before_absent "?" u h
path_of-url u (some q) h =
    ap (λ (s : String). before "?" (append u s))
      (cons-append (char 63 tt) "" q
        ∙ ap (λ (s : String). String.◌∷◌ (char 63 tt) s) (nil-append q))
    ∙ before_first (char 63 tt) u q h

-- `do_GET` takes the path of each endpoint, with or without a query, to the handler of that endpoint with
-- the ids in the path, if no id contains "/", "?" or ":subscribe".
pub get_route-address :
    (r : GetRoute) (query : Option String)
    → IsAddressed r
    → get_route (path_of (append (url r) (query_part query))) ≡ r
get_route-address r query h =
    ap get_route (path_of-url (url r) query (url_without_query r h)) ∙ get_route-url r h
