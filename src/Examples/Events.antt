-- ===== src/Examples/Events.antt =====
-- The theorems on received events, applied to a question of one task.
use agentic_ops_platform.Prelude.{
  ℕ, String, ◌≡◌, refl, true, none, some, Option, List, [], str_eq, eq_iff, ◌<◌, Bool-cases, inl,
  inr, arith, if◌then◌else◌,
}
use agentic_ops_platform.Py.Text.{strip, text_length}
use agentic_ops_platform.Py.Json.{Json, text, num, empty, get, truthy, either, str}
use agentic_ops_platform.Py.Result.{ok, ends}
use agentic_ops_platform.Models.{Task, Db}
use agentic_ops_platform.Models.Status.{timed_out}
use agentic_ops_platform.Models.Store.{find_task, task_exists, add_session_event}
use agentic_ops_platform.Models.Sound.{IsSound}
use agentic_ops_platform.TaskQueue.Sweeps.{waiting_timeout_sweep}
use agentic_ops_platform.Approvals.{tool_name_of, apply_approval_event}
use agentic_ops_platform.Approvals.Open.{OnePending}
use agentic_ops_platform.ApprovalBroker.Prompt.{Post}
use agentic_ops_platform.EventCollector.{
  EventPayload, Context, task_update, prompt_if_asked, move_task, after_event, receive_at,
  receive_event,
}
use agentic_ops_platform.EventCollector.Tokens.{Parsers, coerce_within, coerce_total_tokens}
use agentic_ops_platform.EventCollector.Ends.{ReadsShorter, coerce_total_tokens-ends}
use agentic_ops_platform.EventCollector.Kept.{receive_event-keeps}
use agentic_ops_platform.EventCollector.Received.{IsTaskMove, receive_event-IsTaskMove}
use agentic_ops_platform.EventCollector.Waits.{receive_event-times_out}
use agentic_ops_platform.Examples.{some_db, some_db-IsSound}
use agentic_ops_platform.Examples.Decisions.{some_db-OnePending}
use agentic_ops_platform.Examples.Prompts.{mattermost, clients}

-- Of texts, the parsers read one that is quoted twice.
abbrev reads_quoted : String → Option Json
reads_quoted s =
    if str_eq s "\"'7'\"" then some (text "'7'") else if str_eq s "'7'" then some (num 7) else none

abbrev parsers : Parsers
parsers = record {
  json_loads = reads_quoted;
  literal_eval = reads_quoted;
  search_total = λ s. some 12;
}

abbrev context : Context
context = record {
  parse_uuid = λ s. if str_eq s "one" then some 1 else none;
  fromisoformat = λ s. some 45;
  parsers = parsers;
  clients = clients;
  settings = mattermost;
}

abbrev question : EventPayload
question = record {
  task_id = "one";
  event_type = "user_question_requested";
  timestamp = "now";
  payload = empty;
  new_event_id = 30;
  new_approval_id = 31;
}

abbrev received : Db × List Post
received = elim (receive_event context 50 question some_db) [ ok p ↦ p | _ ↦ (some_db, []) ]

receives : receive_event context 50 question some_db ≡ ok (received.0, received.1)
unfolding receive_event receive_at after_event move_task apply_approval_event task_update
    prompt_if_asked add_session_event tool_name_of strip str either get truthy
receives = refl

receive_event-IsTaskMove_example :
    (task_exists 1 some_db ≡ true) × IsTaskMove 1 50 some_db received.0
receive_event-IsTaskMove_example =
    receive_event-IsTaskMove context 50 1 question some_db received.0 received.1 refl receives

receive_event-keeps_example : IsSound received.0 × OnePending received.0
receive_event-keeps_example =
    receive_event-keeps context 50 1 question some_db received.0 received.1 refl some_db-IsSound
      some_db-OnePending receives

receive_event-times_out_example :
    (ids : List ℕ) × (left : Db) × (waiting_timeout_sweep 3700000000 received.0 ≡ ok (ids, left))
    × ((t : Task) × (find_task 1 left ≡ some t) × (t.status ≡ timed_out))
receive_event-times_out_example =
    receive_event-times_out context 50 3700000000 1 question some_db received.0 received.1 refl refl
      some_db-IsSound some_db-OnePending receives (omega arith)

reads_quoted-lt : (s t : String) → reads_quoted s ≡ some (text t) → text_length t < text_length s
reads_quoted-lt s t e = elim (Bool-cases (str_eq s "\"'7'\"")) [
  | inl twice ↦
      let is_s : s ≡ "\"'7'\"" = (eq_iff s "\"'7'\"").0 twice in
      let is_t : t ≡ "'7'" = cc (rw twice at e) in rw (is_s, is_t) (omega arith)
  | inr other ↦ elim (Bool-cases (str_eq s "'7'")) [
    | inl once ↦ cc (rw (other, once) at e)
    | inr never ↦ cc (rw (other, never) at e)
  ]
]

reads_quoted-ReadsShorter : ReadsShorter parsers
reads_quoted-ReadsShorter = record { loads = reads_quoted-lt; evals = reads_quoted-lt }

coerce_total_tokens-ends_example :
    (ends (coerce_total_tokens parsers (text "\"'7'\"")) ≡ true)
    × (coerce_within parsers 40 (text "\"'7'\"") ≡ coerce_total_tokens parsers (text "\"'7'\""))
coerce_total_tokens-ends_example =
    coerce_total_tokens-ends parsers (text "\"'7'\"") 40 reads_quoted-ReadsShorter (omega arith)
