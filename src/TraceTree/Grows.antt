-- ===== src/TraceTree/Grows.antt =====
-- shared/lib/trace_tree.py: what a user and an assistant say leaves a forest.
use agentic_ops_platform.Prelude.{
  ℕ, ◌≡◌, refl, String, Bool, true, false, some, List, [], ◌∷◌, inl, inr, arith, Bool-cases, str_eq,
  if◌then◌else◌,
}
use agentic_ops_platform.Py.Text.{strip}
use agentic_ops_platform.Py.Slices.{join}
use agentic_ops_platform.Py.Json.{Json, Dict, obj, get}
use agentic_ops_platform.TraceTree.{
  Node, Builder, append_child, changed, appended, new_node, resolve_msg_parent,
}
use agentic_ops_platform.TraceTree.Previews.{Readers, flat_text}
use agentic_ops_platform.TraceTree.Messages.{
  appended_text, user_message, count_message, Call, noted_call, tool_node, spawned, called_tool,
  tool_use, call_of, tool_uses, assistant_message, items_of, previews_of, tool_blocks,
}
use agentic_ops_platform.TraceTree.Forest.{IsForest, change_at-IsForest, append_child-IsForest}

-- The nodes of a builder are a forest.
pub record Wooded (t : Builder) : Type 0 where
  pub forest : IsForest t.nodes

-- A change of the other variables.
pub as_before : (t t' : Builder) → t'.nodes ≡ t.nodes → Wooded t → Wooded t'
as_before t t' same h = record { forest = rw same h.forest }

pub with_child-Wooded :
    (k : ℕ) (n : Node) (t t' : Builder)
    → n.children ≡ []
    → t'.nodes ≡ append_child k n t.nodes
    → Wooded t
    → Wooded t'
with_child-Wooded k n t t' leaf same h = record {
  forest = rw same (append_child-IsForest k n t.nodes leaf h.forest);
}

pub either_way : (b : Bool) (x y : Builder) → Wooded x → Wooded y → Wooded (if b then x else y)
either_way true x y p q = p
either_way false x y p q = q

pub appended-Wooded :
    (k : ℕ) (n : Node) (t : Builder) → n.children ≡ [] → Wooded t → Wooded (appended k n t)
appended-Wooded k n t leaf h = with_child-Wooded k n t (appended k n t) leaf refl h

pub changed-Wooded :
    (k : ℕ) (f : Node → Node) (t : Builder)
    → ((n : Node) → (f n).children ≡ n.children)
    → Wooded t
    → Wooded (changed k f t)
changed-Wooded k f t keeps h = record {
  forest = change_at-IsForest f k t.nodes (λ n there c. rw (keeps n) (omega arith)) h.forest;
}

pub appended_text-Wooded :
    (k : ℕ) (kind label s : String) (raw : Json) (t : Builder)
    → Wooded t
    → Wooded (appended_text k kind label s raw t)
unfolding appended_text
appended_text-Wooded k kind label s raw t h =
    either_way (str_eq s "") t (appended k (new_node kind label (some s) raw) t) h
      (appended-Wooded k (new_node kind label (some s) raw) t refl h)

pub tool_node-leaf :
    (rd : Readers) (c : Call) (raw : Json) (k : ℕ) (t : Builder)
    → (tool_node rd c raw k t).children ≡ []
unfolding tool_node
tool_node-leaf rd c raw k t = elim (Bool-cases (str_eq c.name "SendMessage")) [
  | inl e ↦ rw e refl
  | inr e ↦ rw e refl
]

pub tool_use-Wooded :
    (rd : Readers) (c : Call) (msg block : Dict) (t : Builder)
    → Wooded t
    → Wooded (tool_use rd c msg block t)
unfolding tool_use
tool_use-Wooded rd c msg block t h =
    let k = resolve_msg_parent msg t in
    either_way _ t _ h (
      either_way (str_eq c.name "Agent") (spawned rd c (obj block) k t)
        (called_tool rd c (obj block) k t) (with_child-Wooded k _ t _ refl refl h)
        (with_child-Wooded k (tool_node rd c (obj block) k t) t _
          (tool_node-leaf rd c (obj block) k t) refl h))

pub tool_uses-Wooded :
    (rd : Readers) (event_id : String) (i : ℕ) (msg : Dict) (blocks : List Dict) (t : Builder)
    → Wooded t
    → Wooded (tool_uses rd event_id i msg blocks t)
unfolding tool_uses noted_call
tool_uses-Wooded rd event_id i msg [] t h = h
tool_uses-Wooded rd event_id i msg (block ∷ rest) t h =
    let c = call_of rd event_id i block in
    tool_uses-Wooded rd event_id i msg rest (tool_use rd c msg block (noted_call c t))
      (tool_use-Wooded rd c msg block (noted_call c t) (as_before t (noted_call c t) refl h))

pub count_message-Wooded : (s : String) (t : Builder) → Wooded t → Wooded (count_message s t)
unfolding count_message
count_message-Wooded s t h = either_way (str_eq s "") t _ h (as_before t _ refl h)

pub assistant_message-Wooded :
    (rd : Readers) (event_id : String) (i : ℕ) (msg : Dict) (t : Builder)
    → Wooded t
    → Wooded (assistant_message rd event_id i msg t)
unfolding assistant_message
assistant_message-Wooded rd event_id i msg t h =
    let content = items_of (get "content" msg) in
    let said = flat_text content in
    let k = resolve_msg_parent msg t in
    tool_uses-Wooded rd event_id i msg (tool_blocks content) _ (
      appended_text-Wooded k "thinking" "Reasoning" (strip (join "\n\n" (previews_of content)))
        (obj msg) _
        (appended_text-Wooded k "assistant" "" said (obj msg) (count_message said t)
          (count_message-Wooded said t h)))

pub user_message-Wooded : (msg : Dict) (t : Builder) → Wooded t → Wooded (user_message msg t)
unfolding user_message
user_message-Wooded msg t h =
    appended_text-Wooded (resolve_msg_parent msg t) "user" "User"
      (flat_text (items_of (get "content" msg))) (obj msg) t h
