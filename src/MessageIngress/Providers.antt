-- ===== src/MessageIngress/Providers.antt =====
-- shared/lib/message_ingress.py: what the listeners make of the providers' events. `json.loads` is
-- an argument that gives nothing where it raises.
use agentic_ops_platform.Prelude.{
  String, Bool, false, not, ◌&&◌, ◌||◌, Option, none, some, if◌then◌else◌, str_eq,
}
use agentic_ops_platform.Py.Text.{strip, lower}
use agentic_ops_platform.Py.Number.{int_of}
use agentic_ops_platform.Py.Json.{
  Json, Dict, num, flag, text, arr, obj, cons, empty, get, either, str, truthy, as_dict,
}
use agentic_ops_platform.Py.Result.{Result, ok, ◌>>=◌}
use agentic_ops_platform.MessageIngress.{InboundMessage}
use agentic_ops_platform.MessageIngress.PostText.{normalize_post_text}

-- str(d.get(k) or "")
abbrev pub text_at : String → Dict → String
text_at k d = str (either (get k d) (text ""))

-- str(a.get(k) or b.get(j) or "")
abbrev pub text_at_or : String → Dict → String → Dict → String
text_at_or k a j b = str (either (get k a) (either (get j b) (text "")))

-- v == s, of a text s
abbrev pub equals : String → Json → Bool
equals s (text t) = str_eq t s
equals s _ = false

is_yes : String → Bool
is_yes s = str_eq s "1" || str_eq s "true" || str_eq s "yes"

unfoldable pub is_truthy : Json → Bool
unfolding strip lower str either is_yes
is_truthy (flag b) = b
is_truthy v = is_yes (lower (strip (str (either v (text "")))))

-- The post of an event: a dictionary, or the text of one.
abbrev post_of : (String → Option Json) → Json → Option Dict
post_of json_loads (obj post) = some post
post_of json_loads (text raw) = elim (json_loads raw) [ some (obj post) ↦ some post | _ ↦ none ]
post_of json_loads _ = none

mattermost_message : Dict → Dict → Dict → Result (Option InboundMessage)
unfolding normalize_post_text is_truthy int_of get str either as_dict strip
mattermost_message payload broadcast post =
    let message_id = text_at "id" post in
    let props = as_dict (get "props" post) in
    if str_eq message_id ""
    then ok none
    else (int_of (either (get "create_at" post) (num 0)) >>= λ created_at_ms. ok (
        some (record {
          provider = "mattermost";
          message_id = message_id;
          thread_id = str (either (get "root_id" post) (text message_id));
          channel_id = text_at_or "channel_id" post "channel_id" broadcast;
          channel_name = text_at "channel_name" payload;
          team_id = text_at_or "team_id" payload "team_id" broadcast;
          team_name = text_at "team_name" payload;
          user_id = text_at_or "user_id" post "user_id" broadcast;
          username = text_at "sender_name" payload;
          body = (normalize_post_text post).0;
          created_at_ms = created_at_ms;
          is_bot = is_truthy (get "from_bot" props);
          is_webhook = is_truthy (get "from_webhook" props);
          webhook_id = strip (text_at "webhook_id" props);
          webhook_name = strip (text_at_or "webhook_display_name" props "override_username" props);
          text_truncated = (normalize_post_text post).1;
        })))

with_post : Dict → Dict → Option Dict → Result (Option InboundMessage)
unfolding mattermost_message
with_post payload broadcast none = ok none
with_post payload broadcast (some post) = mattermost_message payload broadcast post

with_parts : (String → Option Json) → Json → Json → Result (Option InboundMessage)
unfolding with_post get
with_parts json_loads (obj payload) (obj broadcast) =
    with_post payload broadcast (post_of json_loads (get "post" payload))
with_parts json_loads _ _ = ok none

unfoldable pub parse_mattermost_websocket_event :
    (String → Option Json) → Dict → Result (Option InboundMessage)
unfolding with_parts get
parse_mattermost_websocket_event json_loads event =
    if equals "posted" (get "event" event)
    then with_parts json_loads (get "data" event) (get "broadcast" event)
    else ok none

pub record InteractiveAction : Type 0 where
  pub provider : String
  pub action_id : String
  pub context : Dict
  pub post_id : String
  pub channel_id : String
  pub team_id : String
  pub user_id : String
  pub username : String

pub data MessageEvent : Type 0 where
  message : InboundMessage → MessageEvent
  action : InteractiveAction → MessageEvent

slack_message : Dict → Dict → Option MessageEvent
unfolding strip get str either truthy
slack_message body event =
    let message_id = text_at "ts" event in
    if not (equals "message" (get "type" event)) || str_eq message_id ""
    then none
    else some (
        message (record {
          provider = "slack";
          message_id = message_id;
          thread_id = str (either (get "thread_ts" event) (text message_id));
          channel_id = text_at "channel" event;
          channel_name = text_at "channel" event;
          team_id = text_at "team_id" body;
          team_name = "";
          user_id = text_at "user" event;
          username = text_at "user" event;
          body = strip (text_at "text" event);
          created_at_ms = 0;
          is_bot = truthy (either (get "bot_id" event) (get "subtype" event));
          is_webhook = false;
          webhook_id = "";
          webhook_name = "";
          text_truncated = false;
        }))

-- The context of a button: a dictionary, or the text of one.
context_of : (String → Option Json) → Json → Dict
unfolding as_dict
context_of json_loads (text raw) = elim (json_loads raw) [ none ↦ empty | some v ↦ as_dict v ]
context_of json_loads v = as_dict v

slack_action : (String → Option Json) → Dict → Dict → MessageEvent
unfolding context_of get str either as_dict
slack_action json_loads body pressed =
    let user = as_dict (get "user" body) in
    action (record {
      provider = "slack";
      action_id = text_at "action_id" pressed;
      context = context_of json_loads (get "value" pressed);
      post_id = text_at "message_ts" (as_dict (get "container" body));
      channel_id = text_at "id" (as_dict (get "channel" body));
      team_id = text_at "id" (as_dict (get "team" body));
      user_id = text_at "id" user;
      username = str (
          either (get "username" user)
            (either (get "name" user) (either (get "id" user) (text ""))));
    })

first_action : (String → Option Json) → Dict → Json → Option MessageEvent
unfolding slack_action
first_action json_loads body (arr (cons (obj pressed) rest)) =
    some (slack_action json_loads body pressed)
first_action json_loads body _ = none

slack_event : Dict → Json → Option MessageEvent
unfolding slack_message
slack_event body (obj event) = slack_message body event
slack_event body _ = none

with_body : (String → Option Json) → String → Json → Option MessageEvent
unfolding slack_event first_action get
with_body json_loads kind (obj body) =
    if str_eq kind "events_api"
    then slack_event body (get "event" body)
    else if str_eq kind "interactive" && equals "block_actions" (get "type" body)
    then first_action json_loads body (get "actions" body)
    else none
with_body json_loads kind _ = none

unfoldable pub parse_slack_socket_envelope : (String → Option Json) → Dict → Option MessageEvent
unfolding with_body get str either
parse_slack_socket_envelope json_loads payload =
    with_body json_loads (text_at "type" payload) (get "payload" payload)
