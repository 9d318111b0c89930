-- ===== src/Examples/Traces.antt =====
-- The theorem on the trace tree, applied to the events of a session with one subagent, whose
-- findings come twice.
use agentic_ops_platform.Prelude.{none, List, [], ◌∷◌}
use agentic_ops_platform.Py.Json.{Json, null, text, arr, obj, nil, cons, empty, entry}
use agentic_ops_platform.TraceTree.Previews.{Readers}
use agentic_ops_platform.TraceTree.Events.{Event}
use agentic_ops_platform.TraceTree.Passes.{build_trace_tree}
use agentic_ops_platform.TraceTree.Forest.{IsForest}
use agentic_ops_platform.TraceTree.Built.{build_trace_tree-IsForest}

-- No text is read as JSON, and no pattern is found.
abbrev plain : Readers
plain = record {
  loads = λ s. none;
  dumps = λ v. "";
  search = λ pattern s. none;
  replace = λ s old new. s;
  repr_result = λ s. none;
}

abbrev agent_call : Json
agent_call =
    obj
      (entry "type" (text "tool_use") (entry "id" (text "t1") (entry "name" (text "Agent") empty)))

abbrev words : Json
words = obj (entry "type" (text "text") (entry "text" (text "It is up.") empty))

abbrev spawning : Json
spawning = obj (entry "type" (text "assistant") (entry "content" (arr (cons agent_call nil)) empty))

abbrev saying : Json
saying = obj (
    entry "type" (text "assistant")
      (entry "parent_tool_use_id" (text "t1") (entry "content" (arr (cons words nil)) empty)))

abbrev returning : Json
returning = obj (
    entry "type" (text "system") (
      entry "subtype" (text "task_notification") (
        entry "data"
          (obj (
            entry "tool_use_id" (text "t1")
              (entry "status" (text "completed") (entry "summary" (text "It is up.") empty))))
          empty)))

abbrev session : List Event
session =
    record { id = "1"; event_type = "session_start"; payload = null }
    ∷ record {
      id = "2";
      event_type = "conversation_batch";
      payload = obj (
          entry "messages" (arr (cons spawning (cons returning (cons saying (cons returning nil)))))
            empty);
    }
    ∷ []

build_trace_tree-IsForest_example : IsForest (build_trace_tree plain none session).nodes
build_trace_tree-IsForest_example = build_trace_tree-IsForest plain none session
