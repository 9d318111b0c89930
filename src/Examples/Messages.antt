-- ===== src/Examples/Messages.antt =====
-- The theorems on messages, applied to an alert that a webhook posts.
use agentic_ops_platform.Prelude.{◌≡◌, refl, true, false, none, some, Option, [], ◌∷◌, ◌⊎◌, is_some}
use agentic_ops_platform.Prelude.Least.{least}
use agentic_ops_platform.Py.Text.{strip, lower, decimal}
use agentic_ops_platform.Py.Slices.{take_text, drop_text, starts_with, join}
use agentic_ops_platform.Py.Json.{put}
use agentic_ops_platform.Py.Result.{ok}
use agentic_ops_platform.Models.{Task, Db}
use agentic_ops_platform.Models.Store.{add_task, add_task_event}
use agentic_ops_platform.TaskQueue.Create.{
  existing_task, insert_task, join_or_insert, normalize_message_route,
  workflow_default_message_channel, message_channel_from_config, create_task,
}
use agentic_ops_platform.MessageIngress.{
  InboundMessage, MessageRoute, Patterns, matches_route_constraints, matches_sender_trust,
  match_rule, match_route_prompt, same_identity, in_channel, prompt_for, set_default, add_match,
  collect, highest_priority, route_input, match_message_route,
}
use agentic_ops_platform.MessageIngress.Unique.{IsChosen, match_message_route-IsChosen}
use agentic_ops_platform.MessageIngress.Alerts.{
  AlertPatterns, as_metadata, canonical, envelope_key, parse_alert_envelope,
}
use agentic_ops_platform.MessageIngress.Threads.{hydrate_thread_prompt}
use agentic_ops_platform.MessageIngress.Trust.{IsAdmitted}
use agentic_ops_platform.MessageIngress.Intake.{
  Ingress, NewIds, record_question_reply, task_request, start_task, take_route, route_message,
  handle_message,
}
use agentic_ops_platform.MessageIngress.Handled.{handle_message-IsAdmitted}
use agentic_ops_platform.Examples.{some_db}

abbrev alert : InboundMessage
alert = record {
  provider = "mattermost";
  message_id = "m1";
  thread_id = "m1";
  channel_id = "c1";
  channel_name = "Alerts";
  team_id = "";
  team_name = "";
  user_id = "u1";
  username = "hook";
  body = "ALARM disk full";
  created_at_ms = 0;
  is_bot = false;
  is_webhook = true;
  webhook_id = "w1";
  webhook_name = "";
  text_truncated = false;
}

abbrev alarm_route : MessageRoute
alarm_route = record {
  workflow = "ops";
  channel = "alerts";
  trigger_words = [];
  rule_id = "disk";
  provider = "mattermost";
  priority = 1005;
  match_type = "prefix";
  pattern = "alarm";
  trusted_user_ids = "u1" ∷ [];
  trusted_webhook_ids = "w1" ∷ [];
  trusted_webhook_names = [];
  allow_bot = true;
  root_posts_only = true;
  preserve_full_body = false;
  allowed_accounts = [];
  allowed_environments = [];
  coalesce_window_sec = 300;
}

abbrev low_route : MessageRoute
low_route = record alarm_route { workflow = "dev"; priority = 1000 }

abbrev patterns : Patterns
patterns = record { find_accounts = λ s. []; find_environments = λ s. []; search_end = λ p s. none }

abbrev alert_patterns : AlertPatterns
alert_patterns = record {
  find_splunk = λ s. none;
  find_arn = λ s. none;
  find_name = λ s. some s;
  find_environment = λ s. none;
  find_status = λ s. none;
  sha256_hex = λ s. s;
}

abbrev ingress : Ingress
ingress = record {
  patterns = patterns;
  alert_patterns = alert_patterns;
  packages = λ name. none;
  fetch_thread = λ m. none;
  bot_user_id = "bot";
  routes = low_route ∷ alarm_route ∷ [];
}

abbrev new_ids : NewIds
new_ids = record { reply_event = 40; task = 41 }

match_message_route-IsChosen_example :
    IsChosen patterns alert
      (low_route ∷ alarm_route ∷ [])
      (record { route = alarm_route; prompt = "disk full" })
unfolding match_message_route route_input collect prompt_for in_channel match_route_prompt
    matches_sender_trust matches_route_constraints match_rule add_match set_default same_identity
    highest_priority strip lower take_text drop_text starts_with
match_message_route-IsChosen_example =
    match_message_route-IsChosen patterns alert (low_route ∷ alarm_route ∷ [])
      (record { route = alarm_route; prompt = "disk full" }) refl

abbrev handled : Option Task × Db
handled = elim (handle_message ingress 100 new_ids alert some_db) [ ok p ↦ p | _ ↦ (none, some_db) ]

handles : handle_message ingress 100 new_ids alert some_db ≡ ok (handled.0, handled.1)
unfolding handle_message record_question_reply route_message take_route start_task task_request
    match_message_route route_input collect prompt_for in_channel match_route_prompt
    matches_sender_trust matches_route_constraints match_rule add_match set_default same_identity
    highest_priority strip lower take_text drop_text starts_with hydrate_thread_prompt
    parse_alert_envelope as_metadata envelope_key canonical join decimal create_task existing_task
    least join_or_insert insert_task add_task add_task_event normalize_message_route
    workflow_default_message_channel message_channel_from_config put
handles = refl

handle_message-IsAdmitted_example :
    (handled.0 ≡ none) × (handled.1.tasks ≡ some_db.tasks)
    ⊎ ((t : Task) × (handled.0 ≡ some t) × IsAdmitted ingress alert)
handle_message-IsAdmitted_example =
    handle_message-IsAdmitted ingress 100 new_ids alert some_db handled.0 handled.1 handles

-- The alert has started a task.
starts_task : is_some handled.0 ≡ true
unfolding handle_message record_question_reply route_message take_route start_task task_request
    match_message_route route_input collect prompt_for in_channel match_route_prompt
    matches_sender_trust matches_route_constraints match_rule add_match set_default same_identity
    highest_priority strip lower take_text drop_text starts_with hydrate_thread_prompt
    parse_alert_envelope as_metadata envelope_key canonical join decimal create_task existing_task
    least join_or_insert insert_task add_task add_task_event normalize_message_route
    workflow_default_message_channel message_channel_from_config put
starts_task = refl
