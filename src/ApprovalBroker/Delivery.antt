-- ===== src/ApprovalBroker/Delivery.antt =====
-- gateway/approval_broker.py: `ensure_approval_prompt_posted`. The clients answer at once, and what
-- is sent is returned beside the database.
use agentic_ops_platform.Prelude.{
  ℕ, String, Bool, true, false, not, ◌||◌, str_eq, Option, none, some, List, [], ◌∷◌, if◌then◌else◌,
}
use agentic_ops_platform.Py.Clock.{isoformat}
use agentic_ops_platform.Py.Json.{
  Dict, text, obj, empty, entry, get, put, either, str, truthy, as_dict, is_empty,
}
use agentic_ops_platform.Models.{Task, Approval, Db}
use agentic_ops_platform.Models.Store.{update_approval}
use agentic_ops_platform.Settings.{Settings}
use agentic_ops_platform.ApprovalBroker.Prompt.{
  Clients, Post, Sent, sent, refused, text_or, or_empty, approval_post_text, approval_post_props,
  slack_approval_blocks,
}

metadata_text : String → Task → String
unfolding str either get
metadata_text k t = str (either (get k t.task_metadata) (text ""))

-- (metadata.get("gateway_delivery") or {}).get(k), as a text; the entry is a dict
unfoldable pub delivery_text : String → Approval → String
unfolding str either get as_dict
delivery_text k a =
    str (either (get k (as_dict (get "gateway_delivery" a.approval_metadata))) (text ""))

-- if not (task.message_channel or task.message_thread or task.task_metadata.get("channel_id"))
unfoldable pub has_channel : Task → Bool
unfolding truthy get
has_channel t =
    not (str_eq (or_empty t.message_channel) "")
    || not (str_eq (or_empty t.message_thread) "")
    || truthy (get "channel_id" t.task_metadata)

unfoldable pub prompt_post : Clients → Settings → Task → Approval → Post
unfolding metadata_text slack_approval_blocks approval_post_text approval_post_props
prompt_post c s t a =
    let channel_id = metadata_text "channel_id" t in
    let team_id = metadata_text "team_id" t in
    let team_name = text_or (metadata_text "team_domain" t) s.team_name in
    if str_eq s.provider "slack"
    then record {
      slack = true;
      body = approval_post_text s t a;
      buttons = slack_approval_blocks c s t a;
      channel_id = text_or channel_id (or_empty t.message_channel);
      channel_name = "";
      team_id = "";
      team_name = "";
      thread = or_empty t.message_thread;
    }
    else record {
      slack = false;
      body = approval_post_text s t a;
      buttons = approval_post_props s a;
      channel_id = channel_id;
      channel_name = or_empty t.message_channel;
      team_id = team_id;
      team_name = team_name;
      thread = or_empty t.message_thread;
    }

failed_delivery : ℕ → String → Dict
failed_delivery now error =
    entry "delivery_failed_at" (text (isoformat now)) (entry "error" (text error) empty)

-- str(post.get("id") or post.get("ts") or "")
unfoldable pub post_id_of : Dict → String
unfolding str either get
post_id_of post = str (either (get "id" post) (either (get "ts" post) (text "")))

unfoldable pub posted_delivery : ℕ → Task → Dict → Dict
unfolding str either get metadata_text post_id_of
posted_delivery now t post = entry "post_id" (text (post_id_of post)) (
    entry "root_id" (text (str (either (get "root_id" post) (text (or_empty t.message_thread))))) (
      entry "channel_id"
        (text (
          str (
            either (get "channel_id" post)
              (text (text_or (metadata_text "channel_id" t) (or_empty t.message_channel))))))
        (entry "posted_at" (text (isoformat now)) empty)))

-- The dictionary of the column is changed in place, unless it is empty, when a new one is set: the
-- row keeps the old column if such a change is not seen.
abbrev pub delivered : Bool → ℕ → Dict → Approval → Approval
delivered sees now delivery a = record a {
  approval_metadata =
      if sees || is_empty a.approval_metadata
      then put "gateway_delivery" (obj delivery) a.approval_metadata
      else a.approval_metadata;
  updated_at = now;
}

-- The approval in memory, the database, and the posts that were sent.
pub record Delivery : Type 0 where
  pub approval : Option Approval
  pub left : Db
  pub posts : List Post

abbrev write_delivery : Clients → ℕ → Dict → Approval → Db → List Post → Delivery
write_delivery c now delivery a db posts = record {
  approval = some (delivered true now delivery a);
  left = update_approval a.id (delivered c.sees_in_place now delivery) db;
  posts = posts;
}

unfoldable pub finish_delivery : Clients → ℕ → Task → Approval → Db → Post → Sent → Delivery
unfolding failed_delivery posted_delivery
finish_delivery c now t a db post (sent answer) =
    write_delivery c now (posted_delivery now t answer) a db (post ∷ [])
finish_delivery c now t a db post (refused error) =
    write_delivery c now (failed_delivery now error) a db (post ∷ [])

abbrev pub unchanged : Option Approval → Db → Delivery
unchanged a db = record { approval = a; left = db; posts = [] }

unfoldable pub deliver : Clients → Settings → ℕ → Task → Approval → Db → Delivery
unfolding delivery_text has_channel prompt_post finish_delivery failed_delivery
deliver c s now t a db =
    if not (str_eq a.status "pending") || not (str_eq (delivery_text "post_id" a) "")
    then unchanged (some a) db
    else if not (has_channel t)
    then write_delivery c now (failed_delivery now "Approval channel unavailable for this task") a
        db []
    else finish_delivery c now t a db (prompt_post c s t a) (c.send (prompt_post c s t a))

unfoldable pub ensure_approval_prompt_posted :
    Clients → Settings → ℕ → Option Task → Option Approval → Db → Delivery
unfolding deliver
ensure_approval_prompt_posted c s now (some t) (some a) db = deliver c s now t a db
ensure_approval_prompt_posted c s now none a db = unchanged a db
ensure_approval_prompt_posted c s now (some t) none db = unchanged none db
