-- ===== src/MessageIngress/Interactive.antt =====
-- gateway/message_ingress.py: `handle_event` and `_handle_interactive_action`, a click on a Slack
-- prompt. A click that was taken has updated the prompt with the message that is given.
use agentic_ops_platform.Prelude.{ℕ, String, not, ◌||◌, Option, none, some, if◌then◌else◌, str_eq}
use agentic_ops_platform.Py.Result.{Result, ok, raise, value_error}
use agentic_ops_platform.Models.{Task, Db}
use agentic_ops_platform.ApprovalBroker.Actions.{Action, Resolution, resolve_approval_action}
use agentic_ops_platform.MessageIngress.Providers.{InteractiveAction, MessageEvent, message, action}
use agentic_ops_platform.MessageIngress.Intake.{Ingress, NewIds, handle_message}

pub record ActionIds : Type 0 where
  pub action_event : ℕ
  pub event : ℕ
  pub wait_event : ℕ
  pub approval : ℕ

unfoldable pub action_of : ActionIds → InteractiveAction → Action
action_of ids a = record {
  context = a.context;
  user_id = a.user_id;
  post_id = a.post_id;
  channel_id = a.channel_id;
  source = "slack_interactive";
  action_event_id = ids.action_event;
  event_id = ids.event;
  wait_event_id = ids.wait_event;
  new_approval_id = ids.approval;
}

-- A ValueError is logged.
abbrev pub or_reject : Db → Result (Resolution × Db) → Result (Option String × Db)
or_reject db (ok p) = ok (some p.0.status_message, p.1)
or_reject db (raise (value_error s)) = ok (none, db)
or_reject db (raise e) = raise e

unfoldable pub handle_interactive_action :
    (String → Option ℕ) → ℕ → ActionIds → InteractiveAction → Db → Result (Option String × Db)
unfolding action_of resolve_approval_action
handle_interactive_action parse_uuid now ids a db =
    if not (str_eq a.provider "slack") || not (str_eq a.action_id "agentic_ops_approval")
    then ok (none, db)
    else or_reject db (resolve_approval_action parse_uuid now (action_of ids a) db)

-- What an event leaves, beside the database: a task, or a message for the prompt.
pub data EventOutcome : Type 0 where
  task_of : Option Task → EventOutcome
  prompt_of : Option String → EventOutcome

abbrev with_task_of : Result (Option Task × Db) → Result (EventOutcome × Db)
with_task_of (ok p) = ok (task_of p.0, p.1)
with_task_of (raise e) = raise e

abbrev with_prompt_of : Result (Option String × Db) → Result (EventOutcome × Db)
with_prompt_of (ok p) = ok (prompt_of p.0, p.1)
with_prompt_of (raise e) = raise e

unfoldable pub handle_event :
    Ingress
    → (String → Option ℕ)
    → ℕ
    → NewIds
    → ActionIds
    → MessageEvent
    → Db
    → Result (EventOutcome × Db)
unfolding handle_message handle_interactive_action
handle_event c parse_uuid now ids action_ids (message m) db =
    with_task_of (handle_message c now ids m db)
handle_event c parse_uuid now ids action_ids (action a) db =
    with_prompt_of (handle_interactive_action parse_uuid now action_ids a db)
