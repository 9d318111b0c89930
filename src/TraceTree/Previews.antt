-- ===== src/TraceTree/Previews.antt =====
-- shared/lib/trace_tree.py: what is read of the previews of tool calls and of texts. json.loads,
-- json.dumps with an indent, `re.search` with a pattern and `str.replace` are arguments.
use agentic_ops_platform.Prelude.{
  ℕ, String, Bool, true, false, ◌||◌, Option, none, some, List, [], ◌∷◌, str_eq, if◌then◌else◌,
  or_else, leb,
}
use agentic_ops_platform.Py.Text.{strip, text_length}
use agentic_ops_platform.Py.Slices.{take_text, join}
use agentic_ops_platform.Py.Json.{Json, Items, Dict, obj, nil, cons}
use agentic_ops_platform.TraceTree.{text_at}

pub record Readers : Type 0 where
  pub loads : String → Option Json
  pub dumps : Json → String
  -- the groups of the first match of a pattern
  pub search : String → String → Option (List String)
  pub replace : String → String → String → String
  -- the id, the error flag and the body that the `repr` of a tool result shows
  pub repr_result : String → Option (String × Bool × String)

abbrev pub group : Option (List String) → Option String
group (some (g ∷ gs)) = some g
group _ = none

unfoldable pub format_trace_body : Readers → String → String
format_trace_body rd s = elim (rd.loads s) [ none ↦ s | some v ↦ rd.dumps v ]

block_text : Json → Option String
unfolding text_at
block_text (obj b) = elim (text_at "type" b) [
  | none ↦ none
  | some t ↦ if str_eq t "text" then text_at "text" b else none
]
block_text _ = none

texts_of : Items → List String
unfolding block_text
texts_of nil = []
texts_of (cons b rest) = elim (block_text b) [ none ↦ texts_of rest | some s ↦ s ∷ texts_of rest ]

unfoldable pub flat_text : Items → String
unfolding texts_of strip join
flat_text content = strip (join "\n\n" (texts_of content))

-- a or b, of optional values
abbrev pub else_try : {A : Type 0} → Option A → Option A → Option A
else_try none b = b
else_try (some a) b = some a

dict_of : Option Json → Option Dict
dict_of (some (obj d)) = some d
dict_of _ = none

abbrev subagent_pattern : String
subagent_pattern = "\"subagent_type\"\\s*:\\s*\"([^\"]+)\""

abbrev description_pattern : String
description_pattern = "\"description\"\\s*:\\s*\"([^\"]+)\""

abbrev skill_pattern : String
skill_pattern = "\"skill\"\\s*:\\s*\"([^\"]+)\""

abbrev to_pattern : String
to_pattern = "\"(?:to|recipient)\"\\s*:\\s*\"([^\"]+)\""

abbrev message_pattern : String
message_pattern = "\"(?:message|content)\"\\s*:\\s*\"([^\"]+)\""

unfoldable pub parse_agent_preview : Readers → String → String
unfolding dict_of text_at
parse_agent_preview rd s = elim (dict_of (rd.loads s)) [
  | some d ↦ or_else (else_try (text_at "subagent_type" d) (text_at "description" d)) "subagent"
  | none ↦
      or_else
        (else_try (group (rd.search subagent_pattern s)) (group (rd.search description_pattern s)))
        "subagent"
]

unfoldable pub parse_skill_preview : Readers → String → Option String
unfolding dict_of text_at
parse_skill_preview rd s = elim (dict_of (rd.loads s)) [
  | some d ↦ else_try (text_at "skill" d) (group (rd.search skill_pattern s))
  | none ↦ group (rd.search skill_pattern s)
]

-- the recipient and the message
unfoldable pub parse_send_message_preview : Readers → String → Option String × Option String
unfolding dict_of text_at
parse_send_message_preview rd s = elim (dict_of (rd.loads s)) [
  | some d ↦ (
    else_try (text_at "to" d) (text_at "recipient" d),
    else_try (text_at "message" d) (text_at "content" d),
  )
  | none ↦ (group (rd.search to_pattern s), group (rd.search message_pattern s))
]

abbrev smaller : ℕ → ℕ → ℕ
smaller a b = if leb a b then a else b

unfoldable pub same_narrative : String → String → Bool
unfolding take_text
same_narrative l r =
    if str_eq l "" || str_eq r ""
    then false
    else if str_eq l r
    then true
    else let n = smaller (smaller (text_length l) (text_length r)) 280 in
      str_eq (take_text n l) (take_text n r)

unfoldable pub is_duplicate_narrative : Option String → Option String → Bool
unfolding same_narrative strip
is_duplicate_narrative left right =
    same_narrative (strip (or_else left "")) (strip (or_else right ""))
