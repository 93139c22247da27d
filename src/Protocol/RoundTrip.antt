-- ===== src/Protocol/RoundTrip.antt =====
-- hermes_agent_a2a/payloads.py and hermes_agent_a2a/a2a_spec/tasks.py together: what a client reads in a
-- task object that the server built.
use Prim.Native.String.{◌++◌ as append}
use hermes_agent_a2a.Prelude.{
  ℕ, String, ◌≡◌, refl, ap, ◌∙◌, sym, Bool, true, false, Option, none, some, List, [], ◌∷◌, inl,
  inr, arith, ◌==◌, if◌then◌else◌, Bool-cases, eq_iff,
}
use hermes_agent_a2a.Json.{
  Json, Fields, str, obj, arr, dict, array, nil, is_truthy, lookup, items, assign, as_dict, as_text,
}
use hermes_agent_a2a.Text.{strip, join, filled, or_text}
use hermes_agent_a2a.Text.Laws.{strip_idem, strip-twice}
use hermes_agent_a2a.Queue.State.{TaskState}
use hermes_agent_a2a.Hooks.{state_text}
use hermes_agent_a2a.Protocol.{
  Draws, build_task_object, filtered, with_artifacts, stamped, build_task_status,
  build_message_object,
}
use hermes_agent_a2a.Protocol.Parse.{
  result_of, parse_task_result, part_texts, elements, extract_text_from_parts, artifact_chunks,
  add_chunk, chunk_of,
}

-- A text as the client shows it, which comes twice: in the artifact and in the status message.
abbrev pub shown : String → String
shown t = if t == "" then "" else append t (append "\n" t)

-- The status that says `text`, if there is one.
abbrev status_with : Draws → TaskState → Option String → Fields
status_with d state text =
    let status : Fields =
      dict (("state", str (state_text state)) ∷ ("timestamp", str (or_text none d.stamp)) ∷ []) in
    elim text [
      | none ↦ status
      | some t ↦ assign "message" (obj (build_message_object d t 2 none)) status
    ]

abbrev pub read_back : Option String → String
read_back none = ""
read_back (some text) = shown (strip text)

abbrev pub answer_of : Fields → Json
answer_of task = obj (dict (("task", obj task) ∷ []))

strip_empty : strip "" ≡ ""
unfolding strip
strip_empty = refl

strip_two :
    (t : String)
    → strip t ≡ t
    → (t == "") ≡ false
    → strip (append t (append "\n" t)) ≡ append t (append "\n" t)
strip_two t h e = cc (h, strip-twice t "\n" (λ k. ground (arith, (eq_iff t "").1 (sym h ∙ k))))

-- What two equal chunks come to.
two_chunks :
    (t : String)
    → strip t ≡ t
    → strip (
        join "\n" (
          let rest : List String = if t == "" then [] else t ∷ [] in
          if t == "" then rest else t ∷ rest))
      ≡ shown t
unfolding join
two_chunks t h = elim (Bool-cases (t == "")) [
  | inl e ↦ rw e strip_empty
  | inr e ↦ rw e (strip_two t h e)
]

parts_text :
    (x : String) (b : Bool)
    → (x == "") ≡ b
    → extract_text_from_parts
        (arr (if b then nil else array (obj (dict (("text", str x) ∷ [])) ∷ [])))
      ≡ some (strip x)
unfolding as_dict as_text lookup extract_text_from_parts elements items part_texts join
parts_text x true h = rw ((eq_iff x "").0 h) refl
parts_text x false h = refl

message_chunk :
    (d : Draws) (x : String) (chunks : Option (List String))
    → chunk_of (obj (build_message_object d x 2 none)) chunks ≡ add_chunk (some (strip x)) chunks
unfolding build_message_object as_dict lookup
message_chunk d x chunks =
    ap (λ (o : Option String). add_chunk o chunks) (parts_text x (x == "") refl)

-- The chunks of a task object that says x, in its artifact and in its status message.
answered :
    (task_id : String) (state : TaskState) (raw : Json) (d : Draws) (x : String)
    → result_of
        (str task_id)
        (str (state_text state))
        raw
        (add_chunk (some (strip x)) (chunk_of (obj (build_message_object d x 2 none)) (some [])))
      ≡ some (record {
        task_id = str task_id;
        state = str (state_text state);
        response = shown (strip x);
        raw_result = raw;
      })
answered task_id state raw d x =
    ap
      (λ (c : Option (List String)).
        result_of (str task_id) (str (state_text state)) raw (add_chunk (some (strip x)) c))
      (message_chunk d x (some []))
    ∙ ap
        (λ (r : String). some (record {
          task_id = str task_id;
          state = str (state_text state);
          response = r;
          raw_result = raw;
        }))
        (two_chunks (strip x) (strip_idem x))

module _ (filter_outbound : String → String) (isoformat : ℕ → String) where
  -- The task object with `text` as its filtered response, once the empty text is told apart.
  abbrev task_with : Draws → String → TaskState → Option String → Option String → Option ℕ → Fields
  task_with d task_id state context_id text created_at = with_artifacts d text (
      dict (
        ("id", str task_id)
        ∷ ("context_id", str (or_text context_id task_id))
        ∷ ("status", obj (stamped filter_outbound isoformat created_at (status_with d state text)))
        ∷ []))

  read_task :
      (d : Draws) (task_id default_id : String) (state : TaskState)
      (context_id text : Option String) (created_at : Option ℕ)
      → let task = task_with d task_id state context_id text created_at in
        parse_task_result default_id (answer_of task)
        ≡ some (record {
          task_id = str task_id;
          state = str (state_text state);
          response = read_back text;
          raw_result = answer_of task;
        })
  unfolding parse_task_result is_truthy lookup elements artifact_chunks extract_text_from_parts
      as_dict as_text items part_texts assign join strip
  read_task d task_id default_id state context_id none none = refl
  read_task d task_id default_id state context_id none (some t) = refl
  read_task d task_id default_id state context_id (some x) none =
      answered task_id state (answer_of (task_with d task_id state context_id (some x) none)) d x
  read_task d task_id default_id state context_id (some x) (some t) =
      answered task_id state (answer_of (task_with d task_id state context_id (some x) (some t))) d
        x

  -- A client that parses the task object the server built reads the id, the state's text and, where there
  -- is a response, its filtered text: stripped, and twice, since the object carries it in an artifact and
  -- in its status message. A missing, empty or blank response is read as the empty text.
  pub parse-build :
      (d : Draws) (task_id default_id : String) (state : TaskState)
      (context_id response : Option String) (created_at : Option ℕ)
      → let task =
          build_task_object filter_outbound isoformat d task_id state context_id response
            created_at in
        parse_task_result default_id (answer_of task)
        ≡ some (record {
          task_id = str task_id;
          state = str (state_text state);
          response = read_back (filled (filtered filter_outbound response));
          raw_result = answer_of task;
        })
  unfolding build_task_object build_task_status
  parse-build d task_id default_id state context_id response created_at =
      read_task d task_id default_id state context_id (filled (filtered filter_outbound response))
        created_at
