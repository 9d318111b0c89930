-- ===== src/MessageIngress/PostText.antt =====
-- shared/lib/mattermost_api.py: the visible text of a post and of its attachments.
use Prim.Native.String.{◌++◌ as ◌+++◌}
use agentic_ops_platform.Prelude.{
  ℕ, String, Bool, true, false, leb, List, [], ◌∷◌, ◌++◌, if◌then◌else◌, str_eq,
}
use agentic_ops_platform.Py.Text.{strip, rstrip, text_length}
use agentic_ops_platform.Py.Slices.{take_text, join}
use agentic_ops_platform.Py.Json.{
  Json, Items, Dict, text, arr, obj, nil, cons, get, either, str, as_dict,
}
use agentic_ops_platform.MessageIngress.{is_in}

abbrev pub max_normalized_message_chars : ℕ
max_normalized_message_chars = 32000

abbrev attachment_text_fields : List String
attachment_text_fields =
    "fallback" ∷ "pretext" ∷ "author_name" ∷ "title" ∷ "text" ∷ "footer" ∷ "author_link"
    ∷ "title_link" ∷ []

-- if rendered not in values: values.append(rendered)
abbrev append_new : String → List String → List String
append_new s values = if is_in values s then values else values ++ s ∷ []

append_post_text : List String → Json → String → List String
unfolding strip
append_post_text values (text value) label =
    let trimmed = strip value in
    if str_eq trimmed ""
    then values
    else append_new (if str_eq label "" then trimmed else ◌+++◌ label (◌+++◌ ": " trimmed)) values
append_post_text values _ label = values

-- for field_name in _ATTACHMENT_TEXT_FIELDS
append_named : Dict → List String → List String → List String
unfolding append_post_text get
append_named attachment [] values = values
append_named attachment (name ∷ names) values =
    append_named attachment names (append_post_text values (get name attachment) "")

append_fields : Items → List String → List String
unfolding append_post_text get strip str either
append_fields nil values = values
append_fields (cons (obj field) fields) values = append_fields fields (
    append_post_text values (get "value" field)
      (strip (str (either (get "title" field) (text "")))))
append_fields (cons _ fields) values = append_fields fields values

append_attachment : Dict → List String → List String
unfolding append_named append_fields get
append_attachment attachment values =
    let named = append_named attachment attachment_text_fields values in
    elim (get "fields" attachment) [ arr fields ↦ append_fields fields named | _ ↦ named ]

append_attachments : Items → List String → List String
unfolding append_attachment
append_attachments nil values = values
append_attachments (cons (obj attachment) rest) values =
    append_attachments rest (append_attachment attachment values)
append_attachments (cons _ rest) values = append_attachments rest values

abbrev items_of : Json → Items
items_of (arr xs) = xs
items_of _ = nil

unfoldable pub visible_texts : Dict → List String
unfolding append_post_text append_attachments get as_dict
visible_texts post =
    append_attachments (items_of (get "attachments" (as_dict (get "props" post))))
      (append_post_text [] (get "message" post) "")

-- The text, and whether it was cut.
unfoldable pub bounded : String → String × Bool
unfolding rstrip take_text
bounded s =
    if leb (text_length s) max_normalized_message_chars
    then (s, false)
    else (rstrip (take_text max_normalized_message_chars s), true)

unfoldable pub normalize_post_text : Dict → String × Bool
unfolding visible_texts join bounded
normalize_post_text post = bounded (join "\n" (visible_texts post))
