-- ===== src/TraceTree/Events.antt =====
-- shared/lib/trace_tree.py: the events of a session.
use Prim.Native.String.{◌++◌ as ◌+++◌}
use agentic_ops_platform.Prelude.{
  ℕ, suc, ◌+◌, ltb, String, Bool, true, false, ◌||◌, Option, none, some, List, [], ◌∷◌, str_eq,
  if◌then◌else◌, or_else,
}
use agentic_ops_platform.Py.Text.{strip, text_length}
use agentic_ops_platform.Py.Json.{Json, Items, Dict, flag, num, obj, nil, cons, get, as_dict}
use agentic_ops_platform.TraceTree.{
  Node, Builder, node_at, changed, appended, new_node, text_at, current_parent,
}
use agentic_ops_platform.TraceTree.Previews.{Readers, else_try}
use agentic_ops_platform.TraceTree.Messages.{items_of, nonblank}
use agentic_ops_platform.TraceTree.Turns.{handle_message, children_of}

pub record Event : Type 0 where
  pub id : String
  pub event_type : String
  pub payload : Json

-- The root takes the name of the agent.
unfoldable pub named_agent : String → Builder → Builder
named_agent agent t =
    if str_eq agent ""
    then t
    else record (changed 0 (λ n. record n { label = agent }) t) { default_agent = some agent }

-- full_prompt.strip(), or the preview
unfoldable pub prompt_body : Option String → Dict → Option String
unfolding strip text_at
prompt_body prompt payload =
    else_try (nonblank (some (strip (or_else prompt "")))) (text_at "prompt_preview" payload)

unfoldable pub session_start : Option String → Dict → Builder → Builder
unfolding named_agent strip text_at prompt_body
session_start prompt payload t =
    appended 0 (new_node "lifecycle" "" (prompt_body prompt payload) (obj payload))
      (named_agent (strip (or_else (text_at "agent" payload) "")) t)

abbrev pub is_silent : String → Bool
is_silent phase =
    str_eq phase "first_sdk_message"
    || str_eq phase "claude_query_complete"
    || str_eq phase "claude_query_start"

unfoldable pub session_phase : Dict → Builder → Builder
unfolding text_at
session_phase payload t =
    let phase = or_else (text_at "phase" payload) "unknown" in
    if is_silent phase
    then t
    else appended (current_parent t) (new_node "lifecycle" phase none (obj payload)) t

-- for i, msg in enumerate(messages); what is no dict is skipped
unfoldable pub run_messages : Readers → String → ℕ → Items → Builder → Builder
unfolding handle_message
run_messages rd event_id i nil t = t
run_messages rd event_id i (cons (obj msg) rest) t =
    run_messages rd event_id (suc i) rest (handle_message rd event_id i msg t)
run_messages rd event_id i (cons _ rest) t = run_messages rd event_id (suc i) rest t

unfoldable pub conversation_batch : Readers → String → Dict → Builder → Builder
unfolding run_messages get
conversation_batch rd event_id payload t =
    run_messages rd event_id 0 (items_of (get "messages" payload)) t

-- The last child of the root that is a result.
abbrev pub is_result : Node → Bool
is_result n = str_eq n.kind "result"

unfoldable pub last_where : (Node → Bool) → List ℕ → List Node → Option ℕ
unfolding node_at
last_where p [] nodes = none
last_where p (c ∷ cs) nodes = elim (last_where p cs nodes) [
  | some d ↦ some d
  | none ↦ elim (node_at c nodes) [ none ↦ none | some n ↦ if p n then some c else none ]
]

abbrev pub target : Builder → Option ℕ
target t = elim t.results [
  | r ∷ rs ↦ some r
  | [] ↦ last_where is_result (children_of 0 t.nodes) t.nodes
]

abbrev pub finished : String → Node → Node
finished s n = record n {
  kind = "result";
  label = "Final";
  body = if ltb (text_length (or_else n.body "")) (text_length s) then some s else n.body;
}

unfoldable pub put_result : String → Dict → Option ℕ → Builder → Builder
put_result s payload (some k) t = changed k (finished s) t
put_result s payload none t =
    appended 0
      (record (new_node "result" "Final" (some s) (obj payload)) {
        meta = ("result_role", "session_result") ∷ [];
      })
      t

unfoldable pub full_result : Option String → Dict → Builder → Builder
unfolding put_result last_where node_at
full_result none payload t = t
full_result (some s) payload t = if str_eq s "" then t else put_result s payload (target t) t

-- an `int` replaces the count
count_or : Json → ℕ → ℕ
count_or (num n) old = n
count_or (flag true) old = 1
count_or (flag false) old = 0
count_or _ old = old

unfoldable pub session_complete : Dict → Builder → Builder
unfolding full_result text_at count_or get
session_complete payload t =
    let done =
      full_result (else_try (text_at "result" payload) (text_at "result_preview" payload)) payload
        t in
    record done {
      stats = record done.stats {
        tokens_in = count_or (get "input_tokens" payload) done.stats.tokens_in;
        tokens_out = count_or (get "output_tokens" payload) done.stats.tokens_out;
      };
    }

abbrev pub error_node : String → Dict → Node
error_node event_type payload =
    record (new_node "error"
      (if str_eq event_type "session_error" then "Session Error" else "Session Timeout")
      (text_at "error" payload) (obj payload)) { is_error = true }

unfoldable pub hook_label : Readers → String → Dict → String
unfolding text_at
hook_label rd event_type payload =
    if str_eq event_type "hook_event"
    then ◌+++◌ (or_else (text_at "hook_name" payload) "hook")
        (◌+++◌ " · " (or_else (text_at "status" payload) "unknown"))
    else rd.replace event_type "_" " "

unfoldable pub hook_body : String → Dict → Option String
unfolding text_at
hook_body event_type payload =
    if str_eq event_type "hook_event" then text_at "detail" payload else none

abbrev pub is_hook : String → Bool
is_hook event_type =
    str_eq event_type "approval_requested"
    || str_eq event_type "permission_callback"
    || str_eq event_type "user_question_requested"
    || str_eq event_type "hook_event"

unfoldable pub handle_event : Readers → Option String → Event → Builder → Builder
unfolding session_start session_phase conversation_batch session_complete text_at hook_label
    hook_body
handle_event rd prompt e t =
    let payload = as_dict e.payload in
    if str_eq e.event_type "heartbeat"
    then record t { heartbeats = t.heartbeats + 1 }
    else if str_eq e.event_type "session_start"
    then session_start prompt payload t
    else if str_eq e.event_type "session_phase"
    then session_phase payload t
    else if str_eq e.event_type "conversation_batch"
    then conversation_batch rd e.id payload t
    else if str_eq e.event_type "session_complete"
    then session_complete payload t
    else if str_eq e.event_type "session_error" || str_eq e.event_type "session_timeout"
    then appended 0 (error_node e.event_type payload) t
    else if is_hook e.event_type
    then appended (current_parent t)
        (new_node "hook" (hook_label rd e.event_type payload) (hook_body e.event_type payload)
          (obj payload))
        t
    else t

unfoldable pub run_events : Readers → Option String → List Event → Builder → Builder
unfolding handle_event
run_events rd prompt [] t = t
run_events rd prompt (e ∷ es) t = run_events rd prompt es (handle_event rd prompt e t)
