-- ===== src/TraceTree/Messages.antt =====
-- shared/lib/trace_tree.py: the messages of a batch. `i` is the place of a message in its batch.
use Prim.Native.Char.{code}
use Prim.Native.String.{[] as ε, ◌∷◌ as ◌▹◌, ◌++◌ as ◌+++◌}
use agentic_ops_platform.Prelude.{
  ℕ, ◌+◌, String, Bool, not, ◌&&◌, ◌||◌, ◌==◌, Option, none, some, List, [], ◌∷◌, length, str_eq,
  if◌then◌else◌, or_else,
}
use agentic_ops_platform.Py.Text.{strip, decimal}
use agentic_ops_platform.Py.Slices.{starts_with, drop_text, join}
use agentic_ops_platform.Py.Json.{Json, Items, Dict, arr, obj, nil, cons, get}
use agentic_ops_platform.TraceTree.{
  Table, set_at, add_to, Node, Builder, node_at, appended, new_node, text_at, resolve_msg_parent,
}
use agentic_ops_platform.TraceTree.Previews.{
  Readers, format_trace_body, flat_text, parse_agent_preview, parse_skill_preview,
  parse_send_message_preview,
}

abbrev pub items_of : Json → Items
items_of (arr xs) = xs
items_of _ = nil

-- if text: ... append(TraceNodeResponse(...))
unfoldable pub appended_text : ℕ → String → String → String → Json → Builder → Builder
appended_text parent kind label s raw t =
    if str_eq s "" then t else appended parent (new_node kind label (some s) raw) t

unfoldable pub user_message : Dict → Builder → Builder
unfolding flat_text resolve_msg_parent get appended_text
user_message msg t =
    appended_text (resolve_msg_parent msg t) "user" "User"
      (flat_text (items_of (get "content" msg))) (obj msg) t

is_type : String → Dict → Bool
unfolding text_at
is_type s b = str_eq (or_else (text_at "type" b) "") s

unfoldable pub previews_of : Items → List String
unfolding is_type text_at
previews_of nil = []
previews_of (cons (obj b) rest) =
    elim (if is_type "thinking" b then text_at "preview" b else none) [
      | none ↦ previews_of rest
      | some s ↦ s ∷ previews_of rest
    ]
previews_of (cons _ rest) = previews_of rest

unfoldable pub tool_blocks : Items → List Dict
unfolding is_type
tool_blocks nil = []
tool_blocks (cons (obj b) rest) =
    let later = tool_blocks rest in if is_type "tool_use" b then b ∷ later else later
tool_blocks (cons _ rest) = tool_blocks rest

unfoldable pub count_message : String → Builder → Builder
count_message s t =
    if str_eq s ""
    then t
    else record t { stats = record t.stats { assistant_messages = t.stats.assistant_messages + 1 } }

-- What is read of a tool call before its node is made.
pub record Call : Type 0 where
  pub tool_id : String
  pub name : String
  pub preview : Option String
  pub skill : Option String
  pub recipient : Option String
  pub message : Option String

-- s if s else None
abbrev pub nonblank : Option String → Option String
nonblank none = none
nonblank (some s) = if str_eq s "" then none else some s

stripped : Option String → Option String
unfolding strip
stripped none = none
stripped (some s) = nonblank (some (strip s))

skill_of : Readers → String → Option String → Option String
unfolding parse_skill_preview
skill_of rd name none = none
skill_of rd name (some s) =
    if str_eq name "Skill" then nonblank (parse_skill_preview rd s) else none

message_of : Readers → String → Option String → Option String × Option String
unfolding parse_send_message_preview
message_of rd name none = (none, none)
message_of rd name (some s) =
    if str_eq name "SendMessage" then parse_send_message_preview rd s else (none, none)

unfoldable pub call_of : Readers → String → ℕ → Dict → Call
unfolding text_at decimal skill_of message_of stripped
call_of rd event_id i block =
    let name = or_else (text_at "name" block) "unknown_tool" in
    let preview = text_at "input_preview" block in
    let info = message_of rd name preview in
    record {
      tool_id = or_else (text_at "id" block) (◌+++◌ event_id (◌+++◌ "-" (◌+++◌ (decimal i) "-tc")));
      name = name;
      preview = preview;
      skill = skill_of rd name preview;
      recipient = stripped info.0;
      message = stripped info.1;
    }

-- name.split("__")[1], of what stands behind the first "__"
until_dunder : String → String
until_dunder ε = ε
until_dunder (◌▹◌ c ε) = ◌▹◌ c ε
until_dunder (◌▹◌ c (◌▹◌ d s)) =
    let rest = until_dunder (◌▹◌ d s) in if code c == 95 && code d == 95 then ε else ◌▹◌ c rest

unfoldable pub add_server : String → List String → List String
unfolding add_to starts_with drop_text until_dunder
add_server name mcps =
    if starts_with name "mcp__" && not (str_eq (until_dunder (drop_text 5 name)) "")
    then add_to (until_dunder (drop_text 5 name)) mcps
    else mcps

abbrev add_skill : Option String → List String → List String
add_skill none skills = skills
add_skill (some s) skills = add_to s skills

-- The sets and counters that every call changes.
unfoldable pub noted_call : Call → Builder → Builder
unfolding add_to add_server
noted_call c t = record t {
  skills = add_skill c.skill t.skills;
  mcps = add_server c.name t.mcps;
  message_tools =
      if str_eq c.name "SendMessage" then add_to c.tool_id t.message_tools else t.message_tools;
  stats = record t.stats { tool_calls = t.stats.tool_calls + 1 };
}

-- The label of an MCP tool shows its server.
trace_tool_name : Option (List String) → Call → String
trace_tool_name (some (server ∷ tool ∷ [])) c = ◌+++◌ server (◌+++◌ " · " tool)
trace_tool_name _ c = or_else c.skill c.name

abbrev label_at : ℕ → Builder → String
label_at k t = elim (node_at k t.nodes) [ none ↦ "" | some n ↦ n.label ]

sender_of : ℕ → Builder → String
unfolding node_at
sender_of parent t =
    if parent == 0 then or_else t.default_agent "Coordinator" else label_at parent t

entry_of : String → Option String → Table String → Table String
unfolding set_at
entry_of k none meta = meta
entry_of k (some v) meta = set_at k v meta

unfoldable pub tool_node : Readers → Call → Json → ℕ → Builder → Node
unfolding format_trace_body trace_tool_name sender_of entry_of
tool_node rd c raw parent t =
    if str_eq c.name "SendMessage"
    then record (new_node "messaging"
        (◌+++◌ (sender_of parent t) (◌+++◌ " -> " (or_else c.recipient ""))) c.message raw) {
          meta = entry_of "recipient_id" c.recipient (("tool_use_id", c.tool_id) ∷ []);
        }
    else record (new_node "tool_call" (trace_tool_name (rd.search "^mcp__([^_]+)__(.+)$" c.name) c)
        (elim c.skill [
          | some s ↦ none
          | none ↦ elim c.preview [ none ↦ none | some p ↦ some (format_trace_body rd p) ]
        ])
        raw) { meta = entry_of "skill" c.skill (("tool_use_id", c.tool_id) ∷ []) }

abbrev agent_name : Readers → Option String → String
agent_name rd none = "subagent"
agent_name rd (some p) = parse_agent_preview rd p

abbrev pub spawned : Readers → Call → Json → ℕ → Builder → Builder
spawned rd c raw parent t =
    let node = record (new_node "subagent" (agent_name rd c.preview) none raw) {
      meta = ("tool_use_id", c.tool_id) ∷ [];
    } in
    record (appended parent node t) {
      active = some (length t.nodes);
      by_tool = set_at c.tool_id (length t.nodes) t.by_tool;
      pending = set_at c.tool_id (length t.nodes) t.pending;
      stats = record t.stats { subagent_spawns = t.stats.subagent_spawns + 1 };
    }

abbrev pub called_tool : Readers → Call → Json → ℕ → Builder → Builder
called_tool rd c raw parent t = record (appended parent (tool_node rd c raw parent t) t) {
  pending = set_at c.tool_id (length t.nodes) t.pending;
}

-- A message without a text or a recipient has no node.
unfoldable pub tool_use : Readers → Call → Dict → Dict → Builder → Builder
unfolding tool_node set_at parse_agent_preview resolve_msg_parent
tool_use rd c msg block t =
    if str_eq c.name "SendMessage"
      && (str_eq (or_else c.message "") "" || str_eq (or_else c.recipient "") "")
    then t
    else if str_eq c.name "Agent"
    then spawned rd c (obj block) (resolve_msg_parent msg t) t
    else called_tool rd c (obj block) (resolve_msg_parent msg t) t

unfoldable pub tool_uses : Readers → String → ℕ → Dict → List Dict → Builder → Builder
unfolding call_of noted_call tool_use
tool_uses rd event_id i msg [] t = t
tool_uses rd event_id i msg (block ∷ rest) t =
    let c = call_of rd event_id i block in
    tool_uses rd event_id i msg rest (tool_use rd c msg block (noted_call c t))

unfoldable pub assistant_message : Readers → String → ℕ → Dict → Builder → Builder
unfolding flat_text strip join previews_of tool_blocks tool_uses resolve_msg_parent get
    appended_text count_message
assistant_message rd event_id i msg t =
    let content = items_of (get "content" msg) in
    let said = flat_text content in
    let thought = strip (join "\n\n" (previews_of content)) in
    let parent = resolve_msg_parent msg t in
    tool_uses rd event_id i msg (tool_blocks content) (
      appended_text parent "thinking" "Reasoning" thought (obj msg)
        (appended_text parent "assistant" "" said (obj msg) (count_message said t)))
