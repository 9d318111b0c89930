-- ===== src/ApprovalBroker/Prompt.antt =====
-- gateway/approval_broker.py: the prompt that asks an operator, and its delivery. The clients of
-- Slack and Mattermost, `json.dumps`, and what SQLAlchemy takes for a change, are arguments.
use Prim.Native.String.{◌++◌ as ◌+++◌}
use agentic_ops_platform.Prelude.{
  ℕ, String, Bool, str_eq, Option, none, some, List, [], ◌∷◌, ◌++◌, if◌then◌else◌,
}
use agentic_ops_platform.Py.Text.{strip, decimal}
use agentic_ops_platform.Py.Slices.{take_text, rstrip_code, join}
use agentic_ops_platform.Py.Json.{
  Json, Dict, text, arr, obj, nil, cons, empty, entry, get, either, str, as_dict,
}
use agentic_ops_platform.Models.{Task, Approval}
use agentic_ops_platform.Settings.{Settings}

-- s or t
abbrev pub text_or : String → String → String
text_or s t = if str_eq s "" then t else s

-- s or "", of an optional text
abbrev pub or_empty : Option String → String
or_empty none = ""
or_empty (some s) = s

-- What is sent to the provider.
pub record Post : Type 0 where
  pub slack : Bool
  pub body : String
  pub buttons : Json
  pub channel_id : String
  pub channel_name : String
  pub team_id : String
  pub team_name : String
  pub thread : String

-- The provider's answer, or the text of the exception.
pub data Sent : Type 0 where
  sent : Dict → Sent
  refused : String → Sent

pub record Clients : Type 0 where
  pub send : Post → Sent
  pub dumps : Dict → String
  -- whether the ORM writes a column back whose dictionary was changed in place
  pub sees_in_place : Bool

unfoldable pub approval_callback_url : Settings → String
unfolding strip rstrip_code decimal
approval_callback_url s =
    let explicit = rstrip_code 47 (strip s.gateway_public_base_url) in
    if str_eq explicit ""
    then ◌+++◌ "http://gateway:"
        (◌+++◌ (decimal s.gateway_port) "/webhooks/message/actions/approval")
    else ◌+++◌ explicit "/webhooks/message/actions/approval"

session_details_url : Settings → ℕ → String
unfolding strip rstrip_code decimal
session_details_url s task_id =
    let base = rstrip_code 47 (strip s.control_plane_ui_url) in
    if str_eq base "" then "" else ◌+++◌ base (◌+++◌ "/sessions/" (decimal task_id))

requested_of : Approval → Dict
unfolding get as_dict
requested_of a = as_dict (get "approval_requested" a.approval_metadata)

-- with the token of the callback, if one is given
unfoldable pub approval_action_context : Approval → String → Option String → Dict
unfolding decimal str either get requested_of
approval_action_context a decision token = entry "approval_id" (text (decimal a.id)) (
    entry "task_id" (text (decimal a.task_id)) (
      entry "tool_name" (text a.tool_name) (
        entry "request_id" (text (str (either (get "request_id" (requested_of a)) (text "")))) (
          entry "decision" (text decision)
            (elim token [ none ↦ empty | some t ↦ entry "token" (text t) empty ])))))

-- the lines of `label` if the text is not empty
labelled : String → String → String → List String
labelled label close s = if str_eq s "" then [] else ◌+++◌ label (◌+++◌ s close) ∷ []

preview_lines : String → List String
unfolding take_text
preview_lines s =
    if str_eq s ""
    then []
    else "" ∷ "**Request Preview**:" ∷ ◌+++◌ "```\n" (◌+++◌ (take_text 1200 s) "\n```") ∷ []

unfoldable pub approval_post_text : Settings → Task → Approval → String
unfolding requested_of preview_lines labelled session_details_url join take_text decimal str either
    get
approval_post_text s task a =
    let issue =
      str
        (either (get "task_prompt_summary" (requested_of a)) (text (take_text 300 task.prompt))) in
    let action = text_or (or_empty a.request_preview) a.tool_name in
    join "\n" (
      ◌+++◌ ":warning: **Approval Required** (Task `" (◌+++◌ (take_text 8 (decimal task.id)) "`)")
      ∷ ""
      ∷ ◌+++◌ "**Tool**: `" (◌+++◌ a.tool_name "`")
      ∷ (preview_lines action
          ++ (labelled "**Workflow**: `" "`" (or_empty a.workflow)
              ++ (labelled "**Issue**: " "" issue
                  ++ (labelled "**Session**: [Open details](" ")" (session_details_url s task.id)
                      ++ "" ∷ "Use the buttons below to approve or reject this action." ∷ [])))))

mattermost_button : Settings → Approval → String → String → String → Json
unfolding approval_callback_url approval_action_context
mattermost_button s a decision name style = obj (
    entry "id" (text decision) (
      entry "type" (text "button") (
        entry "name" (text name) (
          entry "style" (text style) (
            entry "integration"
              (obj (
                entry "url" (text (approval_callback_url s)) (
                  entry "context"
                    (obj (approval_action_context a decision (some s.action_callback_secret)))
                    empty)))
              empty)))))

unfoldable pub approval_post_props : Settings → Approval → Json
unfolding mattermost_button
approval_post_props s a = obj (
    entry "attachments"
      (arr (
        cons
          (obj (
            entry "text" (text "Approve or reject this tool execution.") (
              entry "actions"
                (arr (
                  cons (mattermost_button s a "approve" "Approve" "success")
                    (cons (mattermost_button s a "reject" "Reject" "danger") nil)))
                empty)))
          nil))
      empty)

slack_button : Clients → Approval → String → String → String → Json
unfolding approval_action_context
slack_button c a decision name style = obj (
    entry "type" (text "button") (
      entry "text" (obj (entry "type" (text "plain_text") (entry "text" (text name) empty))) (
        entry "style" (text style) (
          entry "action_id" (text "agentic_ops_approval")
            (entry "value" (text (c.dumps (approval_action_context a decision none))) empty)))))

unfoldable pub slack_approval_blocks : Clients → Settings → Task → Approval → Json
unfolding slack_button approval_post_text
slack_approval_blocks c s task a = arr (
    cons
      (obj (
        entry "type" (text "section") (
          entry "text"
            (obj (
              entry "type" (text "mrkdwn")
                (entry "text" (text (approval_post_text s task a)) empty)))
            empty)))
      (cons
        (obj (
          entry "type" (text "actions") (
            entry "elements"
              (arr (
                cons (slack_button c a "approve" "Approve" "primary")
                  (cons (slack_button c a "reject" "Reject" "danger") nil)))
              empty)))
        nil))
