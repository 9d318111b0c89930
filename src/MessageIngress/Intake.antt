-- ===== src/MessageIngress/Intake.antt =====
-- gateway/message_ingress.py: `_handle_message` and `_record_question_reply`. A call that gives a
-- task has posted an acknowledgement as well.
use agentic_ops_platform.Prelude.{
  ℕ, String, Bool, true, false, not, ◌&&◌, ◌||◌, Option, none, some, List, if◌then◌else◌, str_eq,
  find_where, some_and,
}
use agentic_ops_platform.Py.Json.{Dict, num, text, flag, obj, arr, cons, nil, empty, entry, put}
use agentic_ops_platform.Py.Result.{Result, ok, ◌>>=◌}
use agentic_ops_platform.Models.{Task, SessionEvent, Db}
use agentic_ops_platform.Models.Status.{TaskStatus, waiting_user_input}
use agentic_ops_platform.Models.Store.{add_session_event}
use agentic_ops_platform.TaskQueue.Create.{Packages, Request, create_task}
use agentic_ops_platform.ApprovalBroker.Prompt.{text_or}
use agentic_ops_platform.MessageIngress.{
  InboundMessage, MessageRoute, Patterns, Match, match_message_route,
}
use agentic_ops_platform.MessageIngress.Alerts.{
  AlertEnvelope, AlertPatterns, as_metadata, envelope_key, parse_alert_envelope,
}
use agentic_ops_platform.MessageIngress.Threads.{hydrate_thread_prompt}

-- What the listener calls, and the state that it keeps.
pub record Ingress : Type 0 where
  pub patterns : Patterns
  pub alert_patterns : AlertPatterns
  pub packages : Packages
  pub fetch_thread : InboundMessage → Option (List Dict)
  pub bot_user_id : String
  pub routes : List MessageRoute

-- The ids that the database chooses for new rows.
pub record NewIds : Type 0 where
  pub reply_event : ℕ
  pub task : ℕ

abbrev waits_for_user : TaskStatus → Bool
waits_for_user waiting_user_input = true
waits_for_user _ = false

abbrev is_text_of : String → Option String → Bool
is_text_of s o = some_and o (λ t. str_eq t s)

-- The task that waits for an answer in the thread.
abbrev pub awaits_reply : InboundMessage → Task → Bool
awaits_reply m t =
    waits_for_user t.status
    && is_text_of m.provider t.channel
    && is_text_of m.thread_id t.message_thread

abbrev pub reply_event : ℕ → ℕ → InboundMessage → Task → SessionEvent
reply_event id now m t = record {
  id = id;
  task_id = some t.id;
  event_type = "user_question_reply";
  timestamp = now;
  payload = obj (
      entry "message" (text m.body) (
        entry "message_id" (text m.message_id) (
          entry "provider" (text m.provider) (
            entry "user_id" (text m.user_id)
              (entry "username" (text m.username) (entry "thread_id" (text m.thread_id) empty))))));
  archived_at = none;
}

-- The database, if a task waits for the message.
unfoldable pub record_question_reply : ℕ → ℕ → InboundMessage → Db → Result (Option Db)
unfolding add_session_event
record_question_reply id now m db = elim (find_where (awaits_reply m) db.tasks) [
  | none ↦ ok none
  | some t ↦ add_session_event (reply_event id now m t) db >>= λ db'. ok (some db')
]

message_metadata : InboundMessage → MessageRoute → ℕ → Dict
message_metadata m route context_count = entry "source" (text m.provider) (
    entry "user" (text m.username) (
      entry "user_id" (text m.user_id) (
        entry "channel_id" (text m.channel_id) (
          entry "channel" (text m.channel_name) (
            entry "team_id" (text m.team_id) (
              entry "team_domain" (text m.team_name) (
                entry "is_bot" (flag m.is_bot) (
                  entry "is_webhook" (flag m.is_webhook) (
                    entry "webhook_id" (text m.webhook_id) (
                      entry "webhook_name" (text m.webhook_name) (
                        entry "text_truncated" (flag m.text_truncated) (
                          entry "message_id" (text m.message_id) (
                            entry "route_rule_id" (text route.rule_id)
                              (entry "thread_context_count" (num context_count) empty))))))))))))))

with_alert : InboundMessage → Option AlertEnvelope → Dict → Dict
unfolding as_metadata put
with_alert m none metadata = metadata
with_alert m (some a) metadata =
    put "alert_state_transitions"
      (arr (
        cons (obj (entry "state" (text a.state) (entry "message_id" (text m.message_id) empty)))
          nil))
      (put "alert_occurrence_count" (num 1) (put "alert_envelope" (obj (as_metadata a)) metadata))

abbrev key_of : AlertPatterns → String → Option AlertEnvelope → Option String
key_of p workflow none = none
key_of p workflow (some a) = some (envelope_key p a workflow)

unfoldable pub task_request :
    Ingress → ℕ → InboundMessage → MessageRoute → Option AlertEnvelope → String × ℕ → Request
unfolding message_metadata with_alert envelope_key
task_request c new_id m route envelope hydrated = record {
  workflow = route.workflow;
  prompt = hydrated.0;
  channel = some m.provider;
  metadata = with_alert m envelope (message_metadata m route hydrated.1);
  message_channel = some (text_or m.channel_name m.channel_id);
  message_thread = some m.thread_id;
  coalesce_key = key_of c.alert_patterns route.workflow envelope;
  coalesce_window_sec = route.coalesce_window_sec;
  new_id = new_id;
}

abbrev pub nothing : Db → Result (Option Task × Db)
nothing db = ok (none, db)

unfoldable pub start_task :
    Ingress
    → ℕ
    → ℕ
    → InboundMessage
    → MessageRoute
    → Option AlertEnvelope
    → Db
    → Option (String × ℕ)
    → Result (Option Task × Db)
unfolding task_request create_task
start_task c now new_id m route envelope db none = nothing db
start_task c now new_id m route envelope db (some hydrated) =
    create_task c.packages now (task_request c new_id m route envelope hydrated) db >>= λ p.
    ok (some p.0, p.1)

unfoldable pub take_route :
    Ingress → ℕ → ℕ → InboundMessage → Db → Option Match → Result (Option Task × Db)
unfolding parse_alert_envelope hydrate_thread_prompt start_task
take_route c now new_id m db none = nothing db
take_route c now new_id m db (some x) =
    let envelope =
      if str_eq x.route.rule_id "" then none else parse_alert_envelope c.alert_patterns x.prompt in
    start_task c now new_id m x.route envelope db (hydrate_thread_prompt c.fetch_thread m x.prompt)

-- Without a reply, the message may take a route.
unfoldable pub route_message :
    Ingress → ℕ → ℕ → InboundMessage → Db → Option Db → Result (Option Task × Db)
unfolding take_route match_message_route
route_message c now new_id m db (some replied) = nothing replied
route_message c now new_id m db none =
    take_route c now new_id m db (match_message_route c.patterns m c.routes)

unfoldable pub handle_message :
    Ingress → ℕ → NewIds → InboundMessage → Db → Result (Option Task × Db)
unfolding record_question_reply route_message
handle_message c now ids m db =
    if not (str_eq c.bot_user_id "") && str_eq m.user_id c.bot_user_id
    then nothing db
    else if str_eq m.body ""
    then nothing db
    else if m.is_bot || m.is_webhook
    then route_message c now ids.task m db none
    else (record_question_reply ids.reply_event now m db >>= λ replied.
        route_message c now ids.task m db replied)
