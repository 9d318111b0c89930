-- ===== src/Examples/Prompts.antt =====
-- The theorems on the prompt of an approval, applied to one prompt and to two clicks on it.
use agentic_ops_platform.Prelude.{
  ℕ, String, ◌≡◌, refl, false, true, none, some, Option, [], ◌∷◌, ◌⊎◌, str_eq, find_where,
  if◌then◌else◌,
}
use agentic_ops_platform.Prelude.Least.{least}
use agentic_ops_platform.Py.Text.{strip, lower}
use agentic_ops_platform.Py.Json.{
  text, empty, entry, get, get?, truthy, either, str, merge, put, as_dict,
}
use agentic_ops_platform.Py.Result.{ok}
use agentic_ops_platform.Models.{Task, Approval, Db}
use agentic_ops_platform.Models.Store.{has_approval_id, add_session_event}
use agentic_ops_platform.Settings.{Settings}
use agentic_ops_platform.Approvals.{
  find_open_approval, find_approval_by_request, text_or_none, nonempty_text,
  approval_status_from_result, insert_or_change, dispatch, on_approval_result, tool_name_of,
  apply_approval_event,
}
use agentic_ops_platform.ApprovalBroker.{
  record_approval_result, result_payload, resolved_or_fail, end_wait,
}
use agentic_ops_platform.ApprovalBroker.Prompt.{Clients, sent}
use agentic_ops_platform.ApprovalBroker.Delivery.{
  delivery_text, has_channel, prompt_post, post_id_of, deliver,
}
use agentic_ops_platform.ApprovalBroker.Once.{deliver-once}
use agentic_ops_platform.ApprovalBroker.Actions.{
  Action, Resolution, context_text, decision_of, stale_request, answer_of, resolution_of,
  answer_action, check_action, with_task, with_approval, with_id, resolve_approval_action,
}
use agentic_ops_platform.ApprovalBroker.Clicks.{resolve_approval_action-once}
use agentic_ops_platform.Examples.{running_ops}
use agentic_ops_platform.Examples.Decisions.{pending_row, asked_db, asked_db-OnePending}

abbrev pub mattermost : Settings
mattermost = record {
  provider = "mattermost";
  api_url = "http://chat";
  bot_token = "token";
  team_name = "team";
  action_callback_secret = "";
  gateway_public_base_url = "";
  gateway_port = 8080;
  control_plane_ui_url = "";
}

abbrev pub clients : Clients
clients = record {
  send = λ p. sent (entry "id" (text "p1") empty);
  dumps = λ d. "{}";
  sees_in_place = false;
}

abbrev pub ops_in_channel : Task
ops_in_channel = record running_ops { message_channel = some "ops" }

-- The ORM sees no change in place, and the prompt is sent twice.
deliver-once_example :
    ((deliver clients mattermost 55 ops_in_channel pending_row asked_db).posts
      ≡ prompt_post clients mattermost ops_in_channel pending_row ∷ [])
    × ((stored : Approval) × (find_where
            (has_approval_id 7)
            (deliver clients mattermost 55 ops_in_channel pending_row asked_db).left.approvals
          ≡ some stored)
        × ((false ≡ true)
              × ((deliver clients mattermost 65 ops_in_channel stored
                    (deliver clients mattermost 55 ops_in_channel pending_row asked_db).left).posts
                  ≡ [])
              × ((deliver clients mattermost 65 ops_in_channel stored
                    (deliver clients mattermost 55 ops_in_channel pending_row asked_db).left).left
                  ≡ (deliver clients mattermost 55 ops_in_channel pending_row asked_db).left)
            ⊎ (false ≡ false)
              × ((deliver clients mattermost 65 ops_in_channel stored
                    (deliver clients mattermost 55 ops_in_channel pending_row asked_db).left).posts
                  ≡ prompt_post clients mattermost ops_in_channel stored ∷ [])))
unfolding has_channel delivery_text post_id_of str either truthy get as_dict
deliver-once_example =
    deliver-once clients mattermost 55 65 ops_in_channel pending_row asked_db
      (entry "id" (text "p1") empty) refl refl refl refl refl refl refl

-- Only one identifier is read.
abbrev parse_uuid : String → Option ℕ
parse_uuid s = if str_eq s "seven" then some 7 else none

abbrev click : String → Action
click decision = record {
  context = entry "approval_id" (text "seven") (entry "decision" (text decision) empty);
  user_id = "ann";
  post_id = "";
  channel_id = "";
  source = "mattermost_action";
  action_event_id = 20;
  event_id = 21;
  wait_event_id = 22;
  new_approval_id = 23;
}

abbrev approves : Resolution × Db
approves = elim (resolve_approval_action parse_uuid 60 (click "approve") asked_db) [
  | ok p ↦ p
  | _ ↦ (record { approval = pending_row; approved = none; status_message = "" }, asked_db)
]

abbrev rejects : Resolution × Db
rejects = elim (resolve_approval_action parse_uuid 70 (click "reject") approves.1) [
  | ok p ↦ p
  | _ ↦ (record { approval = pending_row; approved = some true; status_message = "" }, asked_db)
]

resolve_approval_action-once_example : (rejects.0.approved ≡ none) × (rejects.1 ≡ approves.1)
unfolding resolve_approval_action with_id with_approval with_task check_action stale_request
    delivery_text answer_action answer_of decision_of context_text resolution_of
    find_approval_by_request record_approval_result add_session_event apply_approval_event
    result_payload end_wait resolved_or_fail dispatch on_approval_result strip lower str either get
    get? truthy tool_name_of find_open_approval least insert_or_change nonempty_text text_or_none
    approval_status_from_result merge put as_dict
resolve_approval_action-once_example =
    resolve_approval_action-once parse_uuid 60 70 7 (click "approve") (click "reject") pending_row
      asked_db approves.1 rejects.1 approves.0 rejects.0 asked_db-OnePending refl refl refl refl
      refl refl refl refl
