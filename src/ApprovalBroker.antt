-- ===== src/ApprovalBroker.antt =====
-- gateway/approval_broker.py: `record_approval_result`, which the gateway calls when an operator
-- has answered. The prompt stands in Prompt and Delivery, a click on its buttons in Actions.
pub mod Decisions
pub mod Prompt
pub mod Delivery
pub mod Effects
pub mod Once
pub mod Actions
pub mod Clicks
use agentic_ops_platform.Prelude.{
  ℕ, String, Bool, true, false, Option, none, some, if◌then◌else◌, str_eq,
}
use agentic_ops_platform.Py.Json.{Json, Dict, text, flag, obj, empty, entry}
use agentic_ops_platform.Py.Result.{Result, ok, raise, assertion_error, ◌>>=◌}
use agentic_ops_platform.Models.{Task, SessionEvent, Approval, Db}
use agentic_ops_platform.Models.Status.{TaskStatus, waiting_approval}
use agentic_ops_platform.Models.Store.{add_session_event}
use agentic_ops_platform.Approvals.{apply_approval_event}

-- The arguments of the call, and the ids that the database chooses for new rows.
pub record Answer : Type 0 where
  pub approved : Bool
  pub reason : Option String
  pub approved_by : Option String
  pub approved_by_user_id : Option String
  pub approval_reply : Option String
  pub source : String
  pub event_id : ℕ
  pub wait_event_id : ℕ
  pub approval_id : ℕ

-- if value: payload[key] = value
abbrev with_text : String → Option String → Dict → Dict
with_text key none rest = rest
with_text key (some s) rest = if str_eq s "" then rest else entry key (text s) rest

unfoldable pub result_payload : Approval → Answer → Dict
result_payload approval r = entry "tool_name" (text approval.tool_name) (
    entry "approved" (flag r.approved) (
      entry "source" (text r.source) (
        with_text "reason" r.reason (
          with_text "approved_by" r.approved_by (
            with_text "approved_by_user_id" r.approved_by_user_id
              (with_text "approval_reply" r.approval_reply empty))))))

abbrev pub session_event : ℕ → Task → String → ℕ → Dict → SessionEvent
session_event id task event_type now payload = record {
  id = id;
  task_id = some task.id;
  event_type = event_type;
  timestamp = now;
  payload = obj payload;
  archived_at = none;
}

abbrev pub waits_for_approval : TaskStatus → Bool
waits_for_approval waiting_approval = true
waits_for_approval _ = false

-- assert resolved is not None
unfoldable pub resolved_or_fail : Option Approval → Db → Result (Approval × Db)
resolved_or_fail none db = raise assertion_error
resolved_or_fail (some a) db = ok (a, db)

abbrev pub wait_event : ℕ → Task → Approval → Answer → SessionEvent
wait_event now task approval r = session_event r.wait_event_id task "approval_wait_resolved" now (
    entry "tool_name" (text approval.tool_name)
      (entry "approved" (flag r.approved) (entry "source" (text r.source) empty)))

unfoldable pub end_wait : ℕ → Task → Approval → Answer → Db → Result Db
unfolding add_session_event
end_wait now task approval r db =
    if waits_for_approval task.status
    then add_session_event (wait_event now task approval r) db
    else ok db

unfoldable pub record_approval_result : ℕ → Task → Approval → Answer → Db → Result (Approval × Db)
unfolding add_session_event apply_approval_event result_payload end_wait resolved_or_fail
record_approval_result now task approval r db =
    let payload = result_payload approval r in
    add_session_event (session_event r.event_id task "approval_result" now payload) db >>= λ db1.
    apply_approval_event (some task) (some task.id) "approval_result" now payload r.approval_id now
      db1
    >>= λ p. end_wait now task approval r p.1 >>= λ db3. resolved_or_fail p.0 db3
