-- ===== src/TraceTree/Played.antt =====
-- shared/lib/trace_tree.py: every event leaves a forest.
use agentic_ops_platform.Prelude.{
  ℕ, suc, refl, ◌||◌, String, Option, none, some, List, [], ◌∷◌, str_eq, or_else,
}
use agentic_ops_platform.Py.Text.{strip}
use agentic_ops_platform.Py.Json.{
  Items, Dict, nil, cons, null, flag, num, float, text, arr, obj, as_dict, get,
}
use agentic_ops_platform.TraceTree.{Builder, new_node, text_at, current_parent}
use agentic_ops_platform.TraceTree.Previews.{Readers, else_try}
use agentic_ops_platform.TraceTree.Messages.{items_of}
use agentic_ops_platform.TraceTree.Turns.{handle_message}
use agentic_ops_platform.TraceTree.Grows.{
  Wooded, as_before, either_way, appended-Wooded, changed-Wooded,
}
use agentic_ops_platform.TraceTree.Turned.{handle_message-Wooded}
use agentic_ops_platform.TraceTree.Events.{
  Event, named_agent, prompt_body, session_start, is_silent, session_phase, run_messages,
  conversation_batch, target, finished, put_result, full_result, session_complete, error_node,
  hook_label, hook_body, is_hook, handle_event, run_events,
}

session_start-Wooded :
    (prompt : Option String) (payload : Dict) (t : Builder)
    → Wooded t
    → Wooded (session_start prompt payload t)
unfolding session_start named_agent
session_start-Wooded prompt payload t h =
    let agent = strip (or_else (text_at "agent" payload) "") in
    appended-Wooded 0 (new_node "lifecycle" "" (prompt_body prompt payload) (obj payload))
      (named_agent agent t) refl
      (either_way (str_eq agent "") t _ h
        (as_before _ _ refl (changed-Wooded 0 (λ n. record n { label = agent }) t (λ n. refl) h)))

session_phase-Wooded : (payload : Dict) (t : Builder) → Wooded t → Wooded (session_phase payload t)
unfolding session_phase
session_phase-Wooded payload t h =
    let phase = or_else (text_at "phase" payload) "unknown" in
    either_way (is_silent phase) t _ h
      (appended-Wooded (current_parent t) (new_node "lifecycle" phase none (obj payload)) t refl h)

run_messages-Wooded :
    (rd : Readers) (event_id : String) (i : ℕ) (msgs : Items) (t : Builder)
    → Wooded t
    → Wooded (run_messages rd event_id i msgs t)
unfolding run_messages
run_messages-Wooded rd event_id i nil t h = h
run_messages-Wooded rd event_id i (cons (obj msg) rest) t h =
    run_messages-Wooded rd event_id (suc i) rest (handle_message rd event_id i msg t)
      (handle_message-Wooded rd event_id i msg t h)
run_messages-Wooded rd event_id i (cons null rest) t h =
    run_messages-Wooded rd event_id (suc i) rest t h
run_messages-Wooded rd event_id i (cons (flag b) rest) t h =
    run_messages-Wooded rd event_id (suc i) rest t h
run_messages-Wooded rd event_id i (cons (num n) rest) t h =
    run_messages-Wooded rd event_id (suc i) rest t h
run_messages-Wooded rd event_id i (cons (float n) rest) t h =
    run_messages-Wooded rd event_id (suc i) rest t h
run_messages-Wooded rd event_id i (cons (text s) rest) t h =
    run_messages-Wooded rd event_id (suc i) rest t h
run_messages-Wooded rd event_id i (cons (arr xs) rest) t h =
    run_messages-Wooded rd event_id (suc i) rest t h

put_result-Wooded :
    (s : String) (payload : Dict) (o : Option ℕ) (t : Builder)
    → Wooded t
    → Wooded (put_result s payload o t)
unfolding put_result
put_result-Wooded s payload none t h = appended-Wooded 0 _ t refl h
put_result-Wooded s payload (some k) t h = changed-Wooded k (finished s) t (λ n. refl) h

full_result-Wooded :
    (o : Option String) (payload : Dict) (t : Builder) → Wooded t → Wooded (full_result o payload t)
unfolding full_result
full_result-Wooded none payload t h = h
full_result-Wooded (some s) payload t h =
    either_way (str_eq s "") t _ h (put_result-Wooded s payload (target t) t h)

session_complete-Wooded :
    (payload : Dict) (t : Builder) → Wooded t → Wooded (session_complete payload t)
unfolding session_complete
session_complete-Wooded payload t h = as_before _ _ refl (
    full_result-Wooded (else_try (text_at "result" payload) (text_at "result_preview" payload))
      payload t h)

handle_event-Wooded :
    (rd : Readers) (prompt : Option String) (e : Event) (t : Builder)
    → Wooded t
    → Wooded (handle_event rd prompt e t)
unfolding handle_event conversation_batch
handle_event-Wooded rd prompt e t h =
    let payload = as_dict e.payload in
    let kind = e.event_type in
    either_way (str_eq kind "heartbeat") _ _ (as_before t _ refl h) (
      either_way (str_eq kind "session_start") _ _ (session_start-Wooded prompt payload t h) (
        either_way (str_eq kind "session_phase") _ _ (session_phase-Wooded payload t h) (
          either_way (str_eq kind "conversation_batch") _ _
            (run_messages-Wooded rd e.id 0 (items_of (get "messages" payload)) t h)
            (either_way (str_eq kind "session_complete") _ _ (session_complete-Wooded payload t h) (
              either_way (str_eq kind "session_error" || str_eq kind "session_timeout") _ _
                (appended-Wooded 0 (error_node kind payload) t refl h)
                (either_way (is_hook kind) _ t
                  (appended-Wooded (current_parent t)
                    (new_node "hook" (hook_label rd kind payload) (hook_body kind payload)
                      (obj payload))
                    t refl h)
                  h))))))

pub run_events-Wooded :
    (rd : Readers) (prompt : Option String) (es : List Event) (t : Builder)
    → Wooded t
    → Wooded (run_events rd prompt es t)
unfolding run_events
run_events-Wooded rd prompt [] t h = h
run_events-Wooded rd prompt (e ∷ es) t h =
    run_events-Wooded rd prompt es (handle_event rd prompt e t)
      (handle_event-Wooded rd prompt e t h)
