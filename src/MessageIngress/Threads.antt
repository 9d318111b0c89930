-- ===== src/MessageIngress/Threads.antt =====
-- gateway/message_ingress.py: `_hydrate_thread_prompt`, which puts the conversation of a thread
-- before a request. The messages that the provider answers with are an argument.
use Prim.Native.String.{◌++◌ as ◌+++◌}
use agentic_ops_platform.Prelude.{
  ℕ, suc, ◌-◌, String, Bool, true, false, not, ◌&&◌, ltb, Option, none, some, List, [], ◌∷◌,
  if◌then◌else◌, str_eq, length, drop, select_where,
}
use agentic_ops_platform.Py.Text.{decimal, text_length, rstrip}
use agentic_ops_platform.Py.Slices.{take_text, join}
use agentic_ops_platform.Py.Json.{Json, Dict, text, empty, entry, get, put, either, str, truthy}
use agentic_ops_platform.MessageIngress.{InboundMessage, max_route_input_chars}

abbrev pub thread_context_message_limit : ℕ
thread_context_message_limit = 10

abbrev pub thread_context_prior_message_chars : ℕ
thread_context_prior_message_chars = 4000

-- item.get("message_id") == s
unfoldable pub is_message : String → Dict → Bool
unfolding get
is_message s item = elim (get "message_id" item) [ text k ↦ str_eq k s | _ ↦ false ]

unfoldable pub has_text : Dict → Bool
unfolding get truthy
has_text item = truthy (get "text" item)

-- message.username or message.user_id or author
author_or : InboundMessage → Json → Json
unfolding either
author_or m author = either (text m.username) (either (text m.user_id) author)

as_current : InboundMessage → String → Dict → Dict
unfolding put author_or either get
as_current m prompt item =
    put "text" (text prompt)
      (put "author" (author_or m (either (get "author" item) (text "unknown"))) item)

appended : InboundMessage → String → Dict
unfolding author_or
appended m prompt =
    entry "message_id" (text m.message_id)
      (entry "author" (author_or m (text "unknown")) (entry "text" (text prompt) empty))

-- The first message with the id of the current one is set; without one, it is appended.
unfoldable pub with_current : InboundMessage → String → List Dict → List Dict
unfolding is_message as_current appended
with_current m prompt [] = appended m prompt ∷ []
with_current m prompt (item ∷ items) =
    let rest = with_current m prompt items in
    if is_message m.message_id item then as_current m prompt item ∷ items else item ∷ rest

-- xs[-n:], for n above 0
abbrev pub last_of : ℕ → List Dict → List Dict
last_of n xs = drop (length xs - n) xs

shortened : ℕ → String → String
unfolding take_text rstrip
shortened max_chars s =
    if ltb max_chars (text_length s)
    then ◌+++◌ (rstrip (take_text max_chars s)) "\n[message truncated]"
    else s

is_last : List Dict → Bool
is_last [] = true
is_last (x ∷ xs) = false

render_items : ℕ → List Dict → List String
unfolding shortened is_last str get either decimal
render_items index [] = []
render_items index (item ∷ items) =
    let max_chars =
      if is_last items then max_route_input_chars else thread_context_prior_message_chars in
    ""
    ∷ ◌+++◌ "Message " (
        ◌+++◌ (decimal index)
          (◌+++◌ " from " (◌+++◌ (str (either (get "author" item) (text "unknown"))) ":")))
    ∷ shortened max_chars (str (get "text" item))
    ∷ render_items (suc index) items

unfoldable pub thread_messages : InboundMessage → String → List Dict → List Dict
unfolding with_current has_text
thread_messages m prompt items =
    last_of thread_context_message_limit (with_current m prompt (select_where has_text items))

unfoldable pub render_thread : InboundMessage → String → List Dict → String × ℕ
unfolding thread_messages render_items join
render_thread m prompt items = (
  join "\n" (
      "Thread conversation (oldest to newest; the final message is the task request):"
      ∷ render_items 1 (thread_messages m prompt items)),
  length (thread_messages m prompt items),
)

-- What a provider answers: the messages of the thread, or nothing where the call raises.
unfoldable pub from_answer : InboundMessage → String → Option (List Dict) → Option (String × ℕ)
unfolding render_thread
from_answer m prompt none = none
from_answer m prompt (some items) = some (render_thread m prompt items)

unfoldable pub hydrate_thread_prompt :
    (InboundMessage → Option (List Dict)) → InboundMessage → String → Option (String × ℕ)
unfolding from_answer
hydrate_thread_prompt fetch m prompt =
    if str_eq m.message_id m.thread_id
    then some (prompt, 0)
    else if not (str_eq m.provider "mattermost") && not (str_eq m.provider "slack")
    then some (prompt, 0)
    else from_answer m prompt (fetch m)
