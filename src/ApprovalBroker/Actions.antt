-- ===== src/ApprovalBroker/Actions.antt =====
-- gateway/message.py: `resolve_approval_action`, a click on a button of the prompt. `UUID(s)` is an
-- argument.
use Prim.Native.String.{◌++◌ as ◌+++◌}
use agentic_ops_platform.Prelude.{
  ℕ, String, Bool, true, false, not, ◌&&◌, ◌==◌, str_eq, Option, none, some, if◌then◌else◌,
  find_where, or_else,
}
use agentic_ops_platform.Py.Text.{strip, lower, decimal}
use agentic_ops_platform.Py.Json.{Dict, text, empty, entry, get, either, str}
use agentic_ops_platform.Py.Result.{Result, ok, raise, value_error, ◌>>=◌}
use agentic_ops_platform.Models.{Task, Approval, Db}
use agentic_ops_platform.Models.Store.{has_approval_id, find_task, add_session_event}
use agentic_ops_platform.Approvals.{is_pending, find_approval_by_request}
use agentic_ops_platform.ApprovalBroker.{Answer, session_event, record_approval_result}
use agentic_ops_platform.ApprovalBroker.Prompt.{text_or}
use agentic_ops_platform.ApprovalBroker.Delivery.{delivery_text}

abbrev pub find_approval : ℕ → Db → Option Approval
find_approval k db = find_where (has_approval_id k) db.approvals

-- The arguments of the call, and the ids that the database chooses for new rows.
pub record Action : Type 0 where
  pub context : Dict
  pub user_id : String
  pub post_id : String
  pub channel_id : String
  pub source : String
  pub action_event_id : ℕ
  pub event_id : ℕ
  pub wait_event_id : ℕ
  pub new_approval_id : ℕ

pub record Resolution : Type 0 where
  pub approval : Approval
  pub approved : Option Bool
  pub status_message : String

-- str(context.get(k) or "")
unfoldable pub context_text : String → Action → String
unfolding str either get
context_text k e = str (either (get k e.context) (text ""))

unfoldable pub decision_of : Action → String
unfolding strip lower context_text
decision_of e = lower (strip (context_text "decision" e))

-- A value that the action has to match, where both are given.
abbrev pub mismatch : String → String → Bool
mismatch expected given =
    not (str_eq expected "") && not (str_eq given "") && not (str_eq expected given)

-- The request that the action names is no more the approval's.
unfoldable pub stale_request : Action → Approval → Db → Bool
unfolding find_approval_by_request context_text
stale_request e a db =
    let request_id = context_text "request_id" e in
    if str_eq request_id ""
    then false
    else elim (find_approval_by_request a.task_id a.tool_name request_id db) [
      | none ↦ true
      | some m ↦ not (m.id == a.id)
    ]

abbrev optional : String → Option String
optional s = if str_eq s "" then none else some s

unfoldable pub answer_of : Action → Bool → Answer
unfolding decision_of
answer_of e approved = record {
  approved = approved;
  reason =
      if approved
      then none
      else some (◌+++◌ "Approval rejected in message provider by " (text_or e.user_id "operator"));
  approved_by = optional e.user_id;
  approved_by_user_id = optional e.user_id;
  approval_reply = some (decision_of e);
  source = e.source;
  event_id = e.event_id;
  wait_event_id = e.wait_event_id;
  approval_id = e.new_approval_id;
}

abbrev pub action_payload : Action → Approval → Dict
action_payload e a = entry "approval_id" (text (decimal a.id)) (
    entry "tool_name" (text a.tool_name) (
      entry "decision" (text (decision_of e)) (
        entry "user_id" (text e.user_id)
          (entry "post_id" (text e.post_id) (entry "channel_id" (text e.channel_id) empty)))))

abbrev pub already : Approval → Resolution
already a = record {
  approval = a;
  approved = none;
  status_message = ◌+++◌ ":lock: Approval already resolved as **" (◌+++◌ a.status "**.");
}

status_label : Bool → String
status_label b = if b then "approved" else "rejected"

-- The object of the session: the row as it is now.
unfoldable pub resolution_of : Action → Approval → Bool → Db → Resolution
unfolding status_label
resolution_of e a approved db = record {
  approval = or_else (find_approval a.id db) a;
  approved = some approved;
  status_message = ◌+++◌ ":white_check_mark: Approval **" (
      ◌+++◌ (status_label approved) (
        ◌+++◌ "** for `"
          (◌+++◌ a.tool_name (◌+++◌ "` by @" (◌+++◌ (text_or e.user_id "operator") ".")))));
}

-- The answer of a pending approval is recorded.
unfoldable pub answer_action : ℕ → Action → Task → Approval → Db → Result (Resolution × Db)
unfolding add_session_event record_approval_result answer_of resolution_of
answer_action now e t a db =
    let approved = str_eq (decision_of e) "approve" in
    add_session_event (session_event e.action_event_id t "approval_action" now (action_payload e a))
      db
    >>= λ db1. record_approval_result now t a (answer_of e approved) db1 >>= λ p.
        ok (resolution_of e a approved p.1, p.1)

-- The checks of an action on an approval that was found, and its task.
unfoldable pub check_action : ℕ → Action → Task → Approval → Db → Result (Resolution × Db)
unfolding stale_request delivery_text answer_action
check_action now e t a db =
    if stale_request e a db
    then raise (value_error "Approval action no longer matches an open request")
    else if mismatch (delivery_text "post_id" a) e.post_id
    then raise (value_error "Approval action does not match the approval prompt")
    else if mismatch (delivery_text "channel_id" a) e.channel_id
    then raise (value_error "Approval action does not match the approval channel")
    else if not (is_pending a)
    then ok (already a, db)
    else answer_action now e t a db

unfoldable pub with_task : ℕ → Action → Approval → Db → Option Task → Result (Resolution × Db)
unfolding check_action
with_task now e a db none = raise (value_error "Associated task not found")
with_task now e a db (some t) = check_action now e t a db

unfoldable pub with_approval : ℕ → Action → Db → Option Approval → Result (Resolution × Db)
unfolding with_task
with_approval now e db none = raise (value_error "Approval not found")
with_approval now e db (some a) = with_task now e a db (find_task a.task_id db)

unfoldable pub with_id : ℕ → Action → Db → Option ℕ → Result (Resolution × Db)
unfolding with_approval
with_id now e db none = raise (value_error "Invalid approval identifier")
with_id now e db (some k) = with_approval now e db (find_approval k db)

unfoldable pub resolve_approval_action :
    (String → Option ℕ) → ℕ → Action → Db → Result (Resolution × Db)
unfolding decision_of context_text with_id
resolve_approval_action parse_uuid now e db =
    if not (str_eq (decision_of e) "approve") && not (str_eq (decision_of e) "reject")
    then raise (value_error "Unsupported approval action")
    else with_id now e db (parse_uuid (context_text "approval_id" e))
