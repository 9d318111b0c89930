-- ===== src/Examples/Answers.antt =====
-- The theorem on `record_approval_result`, applied to a task that waits for an approval.
use agentic_ops_platform.Prelude.{◌≡◌, refl, false, none, some, [], ◌∷◌, count_where}
use agentic_ops_platform.Prelude.Least.{least}
use agentic_ops_platform.Py.Text.{strip}
use agentic_ops_platform.Py.Json.{
  Dict, text, flag, obj, empty, entry, get, get?, truthy, either, str, merge, put,
}
use agentic_ops_platform.Py.Result.{ok}
use agentic_ops_platform.Models.{Task, Approval, Db}
use agentic_ops_platform.Models.Status.{waiting_approval}
use agentic_ops_platform.Models.Store.{add_session_event}
use agentic_ops_platform.Approvals.{
  is_open, find_open_approval, text_or_none, nonempty_text, approval_status_from_result,
  insert_or_change, dispatch, on_approval_result, tool_name_of, apply_approval_event,
}
use agentic_ops_platform.ApprovalBroker.{
  Answer, session_event, wait_event, result_payload, resolved_or_fail, end_wait,
  record_approval_result,
}
use agentic_ops_platform.ApprovalBroker.Decisions.{record_approval_result-decides}
use agentic_ops_platform.Examples.{running_ops}
use agentic_ops_platform.Examples.Decisions.{asked, pending_row, asked_db, asked_db-OnePending}

abbrev waiting_ops : Task
waiting_ops = record running_ops { status = waiting_approval }

abbrev refusal : Answer
refusal = record {
  approved = false;
  reason = some "not now";
  approved_by = none;
  approved_by_user_id = none;
  approval_reply = none;
  source = "slack";
  event_id = 20;
  wait_event_id = 21;
  approval_id = 22;
}

abbrev refusal_payload : Dict
refusal_payload = entry "tool_name" (text "restart") (
    entry "approved" (flag false)
      (entry "source" (text "slack") (entry "reason" (text "not now") empty)))

abbrev rejected_row : Approval
rejected_row = record pending_row {
  status = "rejected";
  reason = some "not now";
  approval_metadata =
      entry "approval_requested" (obj asked) (entry "approval_result" (obj refusal_payload) empty);
  resolved_at = some 60;
  updated_at = 60;
}

abbrev rejected_db : Db
rejected_db = record asked_db {
  approvals = rejected_row ∷ [];
  session_events =
      session_event 20 waiting_ops "approval_result" 60 refusal_payload
      ∷ wait_event 60 waiting_ops pending_row refusal
      ∷ [];
}

refuses :
    record_approval_result 60 waiting_ops pending_row refusal asked_db
    ≡ ok (rejected_row, rejected_db)
unfolding record_approval_result add_session_event apply_approval_event result_payload end_wait
    resolved_or_fail dispatch on_approval_result strip str either get get? truthy tool_name_of
    find_open_approval least insert_or_change nonempty_text text_or_none approval_status_from_result
    merge put
refuses = refl

record_approval_result-decides_example :
    (rejected_row.status ≡ "rejected")
    × (rejected_row.resolved_at ≡ some 60)
    × (count_where (is_open 1 "restart") rejected_db.approvals ≡ 0)
unfolding tool_name_of result_payload strip str either get get? truthy
record_approval_result-decides_example =
    record_approval_result-decides 60 waiting_ops pending_row rejected_row refusal asked_db
      rejected_db asked_db-OnePending refl refuses
