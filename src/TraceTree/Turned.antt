-- ===== src/TraceTree/Turned.antt =====
-- shared/lib/trace_tree.py: every message leaves a forest.
use agentic_ops_platform.Prelude.{
  ℕ, ◌≤◌, ◌≡◌, refl, String, Bool, ◌==◌, Option, none, some, List, [], ◌∷◌, arith, str_eq, or_else,
  count_where,
}
use agentic_ops_platform.Py.Json.{Dict, obj, get, truthy, as_dict}
use agentic_ops_platform.TraceTree.{
  Node, Builder, node_at, appended, new_node, set_at, text_at, resolve_msg_parent, current_parent,
}
use agentic_ops_platform.TraceTree.Previews.{Readers}
use agentic_ops_platform.TraceTree.Turns.{
  repr_of, found_at, first_of, is_skipped, put_return, returned, task_notification, start_task,
  system_message, without_last, pop_last, session_result, handle_message, child_where, children_of,
}
use agentic_ops_platform.TraceTree.Results.{
  count_error, append_if, learn_agent, settle_call, with_call, handle_result, tool_result,
  unknown_result,
}
use agentic_ops_platform.TraceTree.Forest.{change_at-IsForest}
use agentic_ops_platform.TraceTree.Grows.{
  Wooded, as_before, with_child-Wooded, either_way, appended-Wooded, changed-Wooded,
  assistant_message-Wooded, user_message-Wooded,
}

append_if-Wooded :
    (b : Bool) (k : ℕ) (n : Node) (t : Builder)
    → n.children ≡ []
    → Wooded t
    → Wooded (append_if b k n t)
append_if-Wooded b k n t leaf h = either_way b (appended k n t) t (appended-Wooded k n t leaf h) h

learn_agent-Wooded :
    (shown : Option String) (k : ℕ) (label : String) (t : Builder)
    → Wooded t
    → Wooded (learn_agent shown k label t)
learn_agent-Wooded none k label t h = h
learn_agent-Wooded (some id) k label t h =
    let known = record t { agent_names = set_at id label t.agent_names } in
    changed-Wooded k _ known (λ n. refl) (as_before t known refl h)

settle_call-Wooded :
    (rd : Readers) (shown : Option String) (id : String) (is_err : Bool) (result : Node) (k : ℕ)
    (call : Node) (t : Builder)
    → result.children ≡ []
    → Wooded t
    → Wooded (settle_call rd shown id is_err result k call t)
unfolding settle_call
settle_call-Wooded rd shown id is_err result k call t leaf h = as_before _ _ refl (
    either_way (str_eq call.kind "messaging") _ _ (append_if-Wooded is_err k result t leaf h) (
      either_way (str_eq call.kind "subagent") _ _
        (append_if-Wooded is_err k result _ leaf (learn_agent-Wooded shown k call.label t h))
        (appended-Wooded k result t leaf h)))

with_call-Wooded :
    (rd : Readers) (shown : Option String) (id : String) (is_err : Bool) (msg : Dict)
    (result : Node) (o : Option ℕ) (t : Builder)
    → result.children ≡ []
    → Wooded t
    → Wooded (with_call rd shown id is_err msg result o t)
unfolding with_call
with_call-Wooded rd shown id is_err msg result none t leaf h =
    appended-Wooded (resolve_msg_parent msg t) result t leaf h
with_call-Wooded rd shown id is_err msg result (some k) t leaf h =
    elim (node_at k t.nodes)
      as (λ o.
        Wooded (elim o [ none ↦ t | some call ↦ settle_call rd shown id is_err result k call t ])) [
          | none ↦ h
          | some call ↦ settle_call-Wooded rd shown id is_err result k call t leaf h
        ]

handle_result-Wooded :
    (rd : Readers) (shown : Option String) (id : String) (is_err : Bool) (msg : Dict)
    (body : String) (t : Builder)
    → Wooded t
    → Wooded (handle_result rd shown id is_err msg body (count_error is_err t))
unfolding handle_result
handle_result-Wooded rd shown id is_err msg body t h =
    let counted = either_way is_err _ t (as_before t _ refl h) h in
    either_way _ _ _ (as_before (count_error is_err t) _ refl counted)
      (with_call-Wooded rd shown id is_err msg _ _ (count_error is_err t) refl counted)

unknown_result-Wooded :
    (rd : Readers) (msg : Dict) (o : Option (String × Bool × String)) (t : Builder)
    → Wooded t
    → Wooded (unknown_result rd msg o t)
unfolding unknown_result
unknown_result-Wooded rd msg none t h = h
unknown_result-Wooded rd msg (some (id, is_err, body)) t h =
    handle_result-Wooded rd none id is_err msg body t h

put_return-Wooded :
    (k : ℕ) (summary : String) (msg : Dict) (o : Option ℕ) (t : Builder)
    → Wooded t
    → Wooded (put_return k summary msg o t)
unfolding put_return
put_return-Wooded k summary msg none t h = appended-Wooded k _ t refl h
put_return-Wooded k summary msg (some c) t h = changed-Wooded c _ t (λ n. refl) h

returned-Wooded :
    (o : Option ℕ) (info msg : Dict) (t : Builder) → Wooded t → Wooded (returned o info msg t)
unfolding returned
returned-Wooded none info msg t h = h
returned-Wooded (some k) info msg t h =
    either_way _ _ t
      (put_return-Wooded k _ msg (child_where _ (children_of k t.nodes) t.nodes) _
        (as_before t _ refl h))
      h

start_task-Wooded :
    (o : Option ℕ) (info : Dict) (t : Builder) → Wooded t → Wooded (start_task o info t)
unfolding start_task
start_task-Wooded none info t h = h
start_task-Wooded (some k) info t h =
    either_way _ _ t (as_before _ _ refl (changed-Wooded k _ t (λ n. refl) h)) h

system_message-Wooded : (msg : Dict) (t : Builder) → Wooded t → Wooded (system_message msg t)
unfolding system_message task_notification
system_message-Wooded msg t h =
    let subtype = or_else (text_at "subtype" msg) "system" in
    let info = as_dict (get "data" msg) in
    either_way (str_eq subtype "task_notification") (task_notification info msg t) _
      (returned-Wooded _ info msg t h)
      (either_way (is_skipped subtype) t _ h (
        either_way (str_eq subtype "task_started") (start_task _ info t) _
          (start_task-Wooded
            (first_of (found_at (text_at "tool_use_id" info) t.by_tool)
              (found_at (text_at "tool_use_id" info) t.pending))
            info t h)
          (appended-Wooded (current_parent t) (new_node "lifecycle" subtype none (obj msg)) t refl
            h)))

without_last-le :
    (c : ℕ) (cs : List ℕ)
    → count_where (λ d. d == c) (without_last cs) ≤ count_where (λ d. d == c) cs
unfolding without_last
without_last-le c [] = omega arith
without_last-le c (x ∷ []) = omega arith
without_last-le c (x ∷ y ∷ ys) = omega (arith, without_last-le c (y ∷ ys))

pop_last-Wooded : (b : Bool) (t : Builder) → Wooded t → Wooded (pop_last b t)
pop_last-Wooded b t h =
    either_way b _ t
      (record {
        forest =
            change_at-IsForest (λ n. record n { children = without_last n.children }) 0 t.nodes
              (λ n there c. without_last-le c n.children) h.forest;
      })
      h

session_result-Wooded : (msg : Dict) (t : Builder) → Wooded t → Wooded (session_result msg t)
unfolding session_result
session_result-Wooded msg t h =
    with_child-Wooded 0 _ (pop_last _ t) _ refl refl (pop_last-Wooded _ t h)

tool_result-Wooded :
    (rd : Readers) (msg : Dict) (t : Builder) → Wooded t → Wooded (tool_result rd msg t)
unfolding tool_result
tool_result-Wooded rd msg t h =
    handle_result-Wooded rd _ _ (truthy (get "is_error" msg)) msg
      (or_else (text_at "content_preview" msg) "") t h

pub handle_message-Wooded :
    (rd : Readers) (event_id : String) (i : ℕ) (msg : Dict) (t : Builder)
    → Wooded t
    → Wooded (handle_message rd event_id i msg t)
unfolding handle_message
handle_message-Wooded rd event_id i msg t h =
    let kind = or_else (text_at "type" msg) "" in
    either_way (str_eq kind "user") _ _ (user_message-Wooded msg t h) (
      either_way (str_eq kind "assistant") _ _ (assistant_message-Wooded rd event_id i msg t h) (
        either_way (str_eq kind "tool_result") _ _ (tool_result-Wooded rd msg t h) (
          either_way (str_eq kind "unknown") _ _ (unknown_result-Wooded rd msg (repr_of rd msg) t h)
            (either_way (str_eq kind "system") _ _ (system_message-Wooded msg t h)
              (either_way (str_eq kind "result") _ t (session_result-Wooded msg t h) h)))))
