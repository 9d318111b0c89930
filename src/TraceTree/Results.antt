-- ===== src/TraceTree/Results.antt =====
-- shared/lib/trace_tree.py: the results of tools.
use agentic_ops_platform.Prelude.{
  ℕ, ◌+◌, String, Bool, not, ◌&&◌, Option, none, some, [], ◌∷◌, any, str_eq, if◌then◌else◌, or_else,
}
use agentic_ops_platform.Py.Json.{Json, Dict, obj, get, truthy}
use agentic_ops_platform.TraceTree.{
  set_at, look_up, drop_key, Node, Builder, node_at, changed, appended, new_node, text_at,
  resolve_msg_parent,
}
use agentic_ops_platform.TraceTree.Previews.{Readers, group, format_trace_body}

abbrev pub result_node : Readers → String → Bool → String → Json → Node
result_node rd tool_use_id is_err body raw =
    record (new_node "tool_result" "" (some (format_trace_body rd body)) raw) {
      is_error = is_err;
      meta = ("tool_use_id", tool_use_id) ∷ [];
    }

abbrev pub count_error : Bool → Builder → Builder
count_error is_err t =
    if is_err
    then record t { stats = record t.stats { tool_errors = t.stats.tool_errors + 1 } }
    else t

abbrev pub append_if : Bool → ℕ → Node → Builder → Builder
append_if b parent n t = if b then appended parent n t else t

abbrev pub no_longer_pending : String → Builder → Builder
no_longer_pending tool_use_id t = record t { pending = drop_key tool_use_id t.pending }

-- The agent whose id the result of its call shows.
abbrev pub learn_agent : Option String → ℕ → String → Builder → Builder
learn_agent none k label t = t
learn_agent (some agent_id) k label t =
    changed k (λ n. record n { meta = set_at "agent_id" agent_id n.meta })
      (record t { agent_names = set_at agent_id label t.agent_names })

-- The call that the result belongs to; `shown` is the text that may show an agent's id.
unfoldable pub settle_call :
    Readers → Option String → String → Bool → Node → ℕ → Node → Builder → Builder
unfolding set_at drop_key
settle_call rd shown tool_use_id is_err result k call t = no_longer_pending tool_use_id (
    if str_eq call.kind "messaging"
    then append_if is_err k result t
    else if str_eq call.kind "subagent"
    then append_if is_err k result (learn_agent shown k call.label t)
    else appended k result t)

-- A result without a pending call stands under the message's parent.
unfoldable pub with_call :
    Readers → Option String → String → Bool → Dict → Node → Option ℕ → Builder → Builder
unfolding settle_call node_at resolve_msg_parent
with_call rd shown tool_use_id is_err msg result none t =
    appended (resolve_msg_parent msg t) result t
with_call rd shown tool_use_id is_err msg result (some k) t = elim (node_at k t.nodes) [
  | none ↦ t
  | some call ↦ settle_call rd shown tool_use_id is_err result k call t
]

unfoldable pub handle_result :
    Readers → Option String → String → Bool → Dict → String → Builder → Builder
unfolding with_call look_up drop_key
handle_result rd shown tool_use_id is_err msg body t =
    if not is_err && any (λ s. str_eq s tool_use_id) t.message_tools
    then no_longer_pending tool_use_id t
    else with_call rd shown tool_use_id is_err msg
        (result_node rd tool_use_id is_err body (obj msg)) (look_up tool_use_id t.pending) t

unfoldable pub tool_result : Readers → Dict → Builder → Builder
unfolding handle_result text_at truthy get
tool_result rd msg t =
    let body = or_else (text_at "content_preview" msg) "" in
    let is_err = truthy (get "is_error" msg) in
    handle_result rd (group (rd.search "agentId:\\s*['\\\"]?([\\w-]+)" body))
      (or_else (text_at "tool_use_id" msg) "") is_err msg body (count_error is_err t)

-- The `repr` of a tool result shows no agent's id to the source.
unfoldable pub unknown_result : Readers → Dict → Option (String × Bool × String) → Builder → Builder
unfolding handle_result
unknown_result rd msg none t = t
unknown_result rd msg (some (tool_use_id, is_err, body)) t =
    handle_result rd none tool_use_id is_err msg body (count_error is_err t)
