-- ===== src/TraceTree/Turns.antt =====
-- shared/lib/trace_tree.py: the notices of the system, and the result of the session, as messages of
-- a batch.
use agentic_ops_platform.Prelude.{
  ℕ, String, Bool, true, false, not, ◌&&◌, ◌==◌, Option, none, some, List, [], ◌∷◌, any, length,
  str_eq, if◌then◌else◌, or_else,
}
use agentic_ops_platform.Py.Text.{strip, decimal}
use agentic_ops_platform.Py.Json.{Json, Dict, flag, num, obj, get, truthy, as_dict}
use agentic_ops_platform.TraceTree.{
  Table, set_at, look_up, Node, Builder, node_at, changed, appended, new_node, text_at,
  current_parent,
}
use agentic_ops_platform.TraceTree.Previews.{Readers, is_duplicate_narrative}
use agentic_ops_platform.TraceTree.Messages.{user_message, assistant_message}
use agentic_ops_platform.TraceTree.Results.{tool_result, unknown_result}

-- d.get(k) if k else None, of an optional text
unfoldable pub found_at : Option String → Table ℕ → Option ℕ
unfolding look_up
found_at none table = none
found_at (some k) table = if str_eq k "" then none else look_up k table

abbrev pub first_of : Option ℕ → Option ℕ → Option ℕ
first_of none b = b
first_of (some a) b = some a

abbrev remember_task : Option String → ℕ → Table ℕ → Table ℕ
remember_task none k by_task = by_task
remember_task (some s) k by_task = if str_eq s "" then by_task else set_at s k by_task

abbrev pub is_return : Node → Bool
is_return n = str_eq (or_else (look_up "result_role" n.meta) "") "subagent_return"

unfoldable pub child_or : (Node → Bool) → ℕ → Option Node → Option ℕ → Option ℕ
child_or p c none rest = rest
child_or p c (some n) rest = if p n then some c else rest

-- The first child that passes the test.
unfoldable pub child_where : (Node → Bool) → List ℕ → List Node → Option ℕ
unfolding node_at child_or
child_where p [] nodes = none
child_where p (c ∷ cs) nodes = child_or p c (node_at c nodes) (child_where p cs nodes)

abbrev pub children_in : Option Node → List ℕ
children_in none = []
children_in (some n) = n.children

abbrev pub children_of : ℕ → List Node → List ℕ
children_of k nodes = children_in (node_at k nodes)

unfoldable pub put_return : ℕ → String → Dict → Option ℕ → Builder → Builder
put_return k summary msg (some c) t =
    changed c (λ n. record n { body = some summary; raw = obj msg }) t
put_return k summary msg none t =
    appended k
      (record (new_node "result" "Branch findings" (some summary) (obj msg)) {
        meta = ("result_role", "subagent_return") ∷ [];
      })
      t

unfoldable pub returned : Option ℕ → Dict → Dict → Builder → Builder
unfolding text_at strip put_return child_where node_at look_up set_at
returned none info msg t = t
returned (some k) info msg t =
    if str_eq (or_else (text_at "status" info) "") "completed"
      && not (str_eq (strip (or_else (text_at "summary" info) "")) "")
    then put_return k (or_else (text_at "summary" info) "") msg
        (child_where is_return (children_of k t.nodes) t.nodes)
        (record t { by_task = remember_task (text_at "task_id" info) k t.by_task })
    else t

unfoldable pub task_notification : Dict → Dict → Builder → Builder
unfolding returned found_at text_at
task_notification info msg t =
    returned
      (first_of (found_at (text_at "task_id" info) t.by_task)
        (found_at (text_at "tool_use_id" info) t.by_tool))
      info msg t

-- The label of a node that has no better one, and the task of a subagent that runs now.
unfoldable pub start_task : Option ℕ → Dict → Builder → Builder
unfolding text_at set_at node_at
start_task none info t = t
start_task (some k) info t =
    if str_eq (elim (node_at k t.nodes) [ none ↦ "" | some n ↦ n.kind ]) "subagent"
    then record (changed k
        (λ n. record n {
          label =
              if str_eq n.label "subagent"
              then or_else (text_at "description" info) "Subagent task started"
              else n.label;
          meta = elim (text_at "task_id" info) [
            | none ↦ n.meta
            | some s ↦ if str_eq s "" then n.meta else set_at "task_id" s n.meta
          ];
        })
        t) { by_task = remember_task (text_at "task_id" info) k t.by_task; active = some k }
    else t

abbrev pub is_skipped : String → Bool
is_skipped s =
    any (λ x. str_eq x s)
      ("thinking_tokens" ∷ "init" ∷ "status" ∷ "hook_started" ∷ "hook_response" ∷ "compact_boundary"
        ∷ "task_updated" ∷ "task_progress" ∷ [])

unfoldable pub system_message : Dict → Builder → Builder
unfolding text_at get as_dict task_notification start_task found_at
system_message msg t =
    let subtype = or_else (text_at "subtype" msg) "system" in
    let info = as_dict (get "data" msg) in
    if str_eq subtype "task_notification"
    then task_notification info msg t
    else if is_skipped subtype
    then t
    else if str_eq subtype "task_started"
    then start_task
        (first_of (found_at (text_at "tool_use_id" info) t.by_tool)
          (found_at (text_at "tool_use_id" info) t.pending))
        info t
    else appended (current_parent t) (new_node "lifecycle" subtype none (obj msg)) t

-- children[-1] and children.pop()
unfoldable pub last_of : List ℕ → Option ℕ
last_of [] = none
last_of (c ∷ []) = some c
last_of (c ∷ d ∷ cs) = last_of (d ∷ cs)

unfoldable pub without_last : List ℕ → List ℕ
without_last [] = []
without_last (c ∷ []) = []
without_last (c ∷ d ∷ cs) = c ∷ without_last (d ∷ cs)

is_repeated : String → Option Node → Bool
unfolding is_duplicate_narrative truthy get as_dict
is_repeated preview none = false
is_repeated preview (some n) =
    str_eq n.kind "assistant"
    && not (truthy (get "parent_tool_use_id" (as_dict n.raw)))
    && is_duplicate_narrative n.body (some preview)

abbrev last_node : Builder → Option Node
last_node t = elim (last_of (children_of 0 t.nodes)) [ none ↦ none | some c ↦ node_at c t.nodes ]

-- the number of turns, where True counts as 1
turns_of : Json → ℕ
turns_of (num n) = n
turns_of (flag true) = 1
turns_of _ = 0

abbrev pub pop_last : Bool → Builder → Builder
pop_last b t = if b then changed 0 (λ n. record n { children = without_last n.children }) t else t

unfoldable pub session_result : Dict → Builder → Builder
unfolding text_at turns_of get is_repeated last_of node_at without_last decimal
session_result msg t =
    let preview = or_else (text_at "result_preview" msg) "" in
    let turns = turns_of (get "num_turns" msg) in
    let cut = pop_last (is_repeated preview (last_node t)) t in
    record (appended 0
      (record (new_node "assistant" "" (some preview) (obj msg)) {
        meta =
            ("result_role", "session_result")
            ∷ (if turns == 0 then [] else ("turns", decimal turns) ∷ []);
      })
      cut) {
        results = length cut.nodes ∷ t.results;
        stats = record t.stats { total_turns = turns };
      }

abbrev pub repr_of : Readers → Dict → Option (String × Bool × String)
repr_of rd msg = elim (text_at "repr" msg) [ none ↦ none | some s ↦ rd.repr_result s ]

unfoldable pub handle_message : Readers → String → ℕ → Dict → Builder → Builder
unfolding user_message assistant_message tool_result unknown_result system_message session_result
    text_at
handle_message rd event_id i msg t =
    let kind = or_else (text_at "type" msg) "" in
    if str_eq kind "user"
    then user_message msg t
    else if str_eq kind "assistant"
    then assistant_message rd event_id i msg t
    else if str_eq kind "tool_result"
    then tool_result rd msg t
    else if str_eq kind "unknown"
    then unknown_result rd msg (repr_of rd msg) t
    else if str_eq kind "system"
    then system_message msg t
    else if str_eq kind "result"
    then session_result msg t
    else t
