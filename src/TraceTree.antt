-- ===== src/TraceTree.antt =====
-- shared/lib/trace_tree.py: the tree of a session's events for the user interface. The nodes are
-- shared and changed in place, so they stand in a store, and a node is named by its place in it;
-- the root is 0. What only the eye reads of a node (id, timestamp, detail, badge) is left out.
pub mod Previews
pub mod Messages
pub mod Results
pub mod Turns
pub mod Events
pub mod Passes
pub mod Forest
pub mod Grows
pub mod Turned
pub mod Played
pub mod Built
use agentic_ops_platform.Prelude.{
  ℕ, zero, suc, ◌+◌, String, Bool, true, false, Option, none, some, List, [], ◌∷◌, ◌++◌, length,
  str_eq, if◌then◌else◌, or_else,
}
use agentic_ops_platform.Py.Json.{Json, Dict, null, text, get}

-- d[k] = v and d.get(k), of a dict with text keys
abbrev pub Table : Type 0 → Type 0
Table A = List (String × A)

unfoldable pub set_at : {A : Type 0} → String → A → Table A → Table A
set_at k v [] = (k, v) ∷ []
set_at k v ((j, w) ∷ rest) =
    let later = set_at k v rest in if str_eq j k then (k, v) ∷ rest else (j, w) ∷ later

unfoldable pub look_up : {A : Type 0} → String → Table A → Option A
look_up k [] = none
look_up k ((j, w) ∷ rest) = let later = look_up k rest in if str_eq j k then some w else later

-- d.pop(k, None)
unfoldable pub drop_key : {A : Type 0} → String → Table A → Table A
drop_key k [] = []
drop_key k ((j, w) ∷ rest) =
    let later = drop_key k rest in if str_eq j k then rest else (j, w) ∷ later

-- s.add(x)
unfoldable pub add_to : String → List String → List String
add_to x [] = x ∷ []
add_to x (y ∷ ys) = let rest = add_to x ys in if str_eq y x then y ∷ ys else y ∷ rest

pub record Node : Type 0 where
  pub kind : String
  pub label : String
  pub body : Option String
  pub is_error : Bool
  pub raw : Json
  pub meta : Table String
  pub children : List ℕ

pub record Stats : Type 0 where
  pub tool_calls : ℕ
  pub tool_errors : ℕ
  pub assistant_messages : ℕ
  pub subagent_spawns : ℕ
  pub total_turns : ℕ
  pub tokens_in : ℕ
  pub tokens_out : ℕ

-- The variables of `build_trace_tree`; `results` has the newest node first.
pub record Builder : Type 0 where
  pub nodes : List Node
  pub heartbeats : ℕ
  pub pending : Table ℕ
  pub message_tools : List String
  pub by_task : Table ℕ
  pub by_tool : Table ℕ
  pub agent_names : Table String
  pub results : List ℕ
  pub skills : List String
  pub mcps : List String
  pub default_agent : Option String
  pub active : Option ℕ
  pub stats : Stats

unfoldable pub node_at : ℕ → List Node → Option Node
node_at k [] = none
node_at zero (n ∷ ns) = some n
node_at (suc k) (n ∷ ns) = node_at k ns

unfoldable pub change_at : ℕ → (Node → Node) → List Node → List Node
change_at k f [] = []
change_at zero f (n ∷ ns) = f n ∷ ns
change_at (suc k) f (n ∷ ns) = n ∷ change_at k f ns

abbrev pub with_child : ℕ → Node → Node
with_child c n = record n { children = n.children ++ c ∷ [] }

-- parent.children.append(TraceNodeResponse(...)); the new node is the last of the store.
unfoldable pub append_child : ℕ → Node → List Node → List Node
unfolding change_at
append_child parent n nodes = change_at parent (with_child (length nodes)) nodes ++ n ∷ []

abbrev pub changed : ℕ → (Node → Node) → Builder → Builder
changed k f t = record t { nodes = change_at k f t.nodes }

abbrev pub appended : ℕ → Node → Builder → Builder
appended parent n t = record t { nodes = append_child parent n t.nodes }

abbrev pub new_node : String → String → Option String → Json → Node
new_node kind label body raw = record {
  kind = kind;
  label = label;
  body = body;
  is_error = false;
  raw = raw;
  meta = [];
  children = [];
}

-- v if isinstance(v, str) else None
abbrev pub text_of : Json → Option String
text_of (text s) = some s
text_of _ = none

unfoldable pub text_at : String → Dict → Option String
unfolding get
text_at k d = text_of (get k d)

abbrev pub current_parent : Builder → ℕ
current_parent t = or_else t.active 0

-- The subagent whose call the message names, or the root.
resolved : Option String → Table ℕ → ℕ
unfolding look_up
resolved none by_tool = 0
resolved (some pid) by_tool = if str_eq pid "" then 0 else or_else (look_up pid by_tool) 0

unfoldable pub resolve_msg_parent : Dict → Builder → ℕ
unfolding resolved text_at
resolve_msg_parent msg t = resolved (text_at "parent_tool_use_id" msg) t.by_tool
