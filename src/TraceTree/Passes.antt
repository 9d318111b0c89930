-- ===== src/TraceTree/Passes.antt =====
-- shared/lib/trace_tree.py: the last passes over the tree, and all that is built.
use agentic_ops_platform.Prelude.{
  ℕ, String, Bool, true, not, ◌&&◌, ◌||◌, ◌==◌, Option, none, some, List, [], ◌∷◌, ◌++◌, map,
  select_where, str_eq, if◌then◌else◌,
}
use agentic_ops_platform.Py.Json.{null}
use agentic_ops_platform.TraceTree.{
  Table, set_at, look_up, Node, Builder, node_at, changed, new_node,
}
use agentic_ops_platform.TraceTree.Previews.{Readers, is_duplicate_narrative}
use agentic_ops_platform.TraceTree.Messages.{nonblank}
use agentic_ops_platform.TraceTree.Turns.{child_where, children_of, is_return}
use agentic_ops_platform.TraceTree.Events.{Event, run_events}

-- A child is kept in front of the returned findings, unless it tells the same.
unfoldable pub keeps_child : Option String → List Node → ℕ → Bool
unfolding node_at is_duplicate_narrative
keeps_child body nodes c = elim (node_at c nodes) [
  | none ↦ true
  | some n ↦ not (str_eq n.kind "assistant") || not (is_duplicate_narrative n.body body)
]

abbrev pub body_at : ℕ → List Node → Option String
body_at k nodes = elim (node_at k nodes) [ none ↦ none | some n ↦ n.body ]

-- The findings `r` stand last among the children.
abbrev pub reordered : ℕ → List Node → Node → Node
reordered r nodes n = record n {
  children =
      select_where (λ c. not (c == r) && keeps_child (body_at r nodes) nodes c) n.children
      ++ r ∷ [];
}

unfoldable pub reorder_by : ℕ → Option ℕ → Builder → Builder
unfolding keeps_child
reorder_by k none t = t
reorder_by k (some r) t = changed k (reordered r t.nodes) t

unfoldable pub reorder_returns : Table ℕ → Builder → Builder
unfolding reorder_by child_where
reorder_returns [] t = t
reorder_returns ((tool_id, k) ∷ rest) t =
    reorder_returns rest (reorder_by k (child_where is_return (children_of k t.nodes) t.nodes) t)

abbrev pub called : Readers → Node → String → Option String → Node
called rd n id none = n
called rd n id (some name) = record n {
  label = rd.replace n.label id name;
  meta = set_at "recipient" name n.meta;
}

abbrev pub with_recipient : Readers → Table String → Node → Option String → Node
with_recipient rd names n none = n
with_recipient rd names n (some id) = called rd n id (nonblank (look_up id names))

-- The recipient's name stands for its id.
unfoldable pub renamed : Readers → Table String → Node → Node
unfolding look_up set_at
renamed rd names n =
    if str_eq n.kind "messaging"
    then with_recipient rd names n (look_up "recipient_id" n.meta)
    else n

-- The source walks down from the root; a node that has left the tree is seen by nobody.
unfoldable pub replace_recipient_ids : Readers → Builder → Builder
unfolding renamed
replace_recipient_ids rd t = record t { nodes = map (renamed rd t.agent_names) t.nodes }

abbrev pub empty_builder : Builder
empty_builder = record {
  nodes = new_node "session" "Trace" none null ∷ [];
  heartbeats = 0;
  pending = [];
  message_tools = [];
  by_task = [];
  by_tool = [];
  agent_names = [];
  results = [];
  skills = [];
  mcps = [];
  default_agent = none;
  active = none;
  stats = record {
    tool_calls = 0;
    tool_errors = 0;
    assistant_messages = 0;
    subagent_spawns = 0;
    total_turns = 0;
    tokens_in = 0;
    tokens_out = 0;
  };
}

unfoldable pub build_trace_tree : Readers → Option String → List Event → Builder
unfolding run_events reorder_returns replace_recipient_ids
build_trace_tree rd prompt events =
    let t = run_events rd prompt events empty_builder in
    replace_recipient_ids rd (reorder_returns t.by_tool t)
