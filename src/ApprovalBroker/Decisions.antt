-- ===== src/ApprovalBroker/Decisions.antt =====
-- What an operator's answer leaves.
use agentic_ops_platform.Prelude.{
  ℕ, ◌≡◌, refl, ◌∙◌, false, Option, none, some, if◌then◌else◌, str_eq, count_where, Bool-cases, inl,
  inr,
}
use agentic_ops_platform.Py.Json.{get, get?, truthy}
use agentic_ops_platform.Py.Result.{ok, >>=-eq-ok}
use agentic_ops_platform.Models.{Task, Approval, Db}
use agentic_ops_platform.Models.Store.{add_session_event}
use agentic_ops_platform.Models.Sound.{add_session_event-eq-ok}
use agentic_ops_platform.Approvals.{
  is_open, tool_name_of, apply_approval_event, approval_status_from_result,
}
use agentic_ops_platform.Approvals.Open.{OnePending}
use agentic_ops_platform.Approvals.Final.{apply_approval_event-IsResolved}
use agentic_ops_platform.ApprovalBroker.{
  Answer, session_event, wait_event, result_payload, waits_for_approval, resolved_or_fail, end_wait,
  record_approval_result,
}

payload-decision :
    (approval : Approval) (r : Answer)
    → approval_status_from_result (result_payload approval r)
      ≡ (if r.approved then "approved" else "rejected")
unfolding approval_status_from_result result_payload truthy get get?
payload-decision approval r = refl

pub end_wait-approvals :
    (now : ℕ) (task : Task) (approval : Approval) (r : Answer) (db : Db) {db' : Db}
    → end_wait now task approval r db ≡ ok db'
    → db'.approvals ≡ db.approvals
unfolding end_wait
end_wait-approvals now task approval r db h = elim (Bool-cases (waits_for_approval task.status)) [
  | inl waits ↦
      let (_, left) = add_session_event-eq-ok db (wait_event now task approval r) (rw waits at h) in
      rw left refl
  | inr other ↦ cc (rw other at h)
]

pub resolved_or_fail-eq-ok :
    (o : Option Approval) (db : Db) {a : Approval} {db' : Db}
    → resolved_or_fail o db ≡ ok (a, db')
    → (o ≡ some a) × (db ≡ db')
unfolding resolved_or_fail
resolved_or_fail-eq-ok none db h = cc
resolved_or_fail-eq-ok (some b) db h = (cc, cc)

-- If at most one approval of each task and tool is pending, then an operator's answer that is
-- recorded, about a tool with a name, returns an approval with that decision and its moment, and
-- leaves no pending approval of the task and the tool.
pub record_approval_result-decides :
    (now : ℕ) (task : Task) (approval a : Approval) (r : Answer) (db db' : Db)
    → OnePending db
    → str_eq (tool_name_of (result_payload approval r)) "" ≡ false
    → record_approval_result now task approval r db ≡ ok (a, db')
    → (a.status ≡ (if r.approved then "approved" else "rejected"))
      × (a.resolved_at ≡ some now)
      × (count_where (is_open task.id (tool_name_of (result_payload approval r))) db'.approvals ≡ 0)
unfolding record_approval_result
record_approval_result-decides now task approval a r db db' one named h =
    let payload = result_payload approval r in
    let event = session_event r.event_id task "approval_result" now payload in
    let (d1, logged, e1) = >>=-eq-ok (add_session_event event db) _ h in
    let (_, left1) = add_session_event-eq-ok db event logged in
    let one1 : OnePending d1 = rw left1 (record { one = one.one }) in
    let ((o, d2), applied, e2) =
      >>=-eq-ok
        (apply_approval_event (some task) (some task.id) "approval_result" now payload r.approval_id
          now d1)
        _ e1 in
    let (d3, ended, e3) = >>=-eq-ok (end_wait now task approval r d2) _ e2 in
    let (is_a, same) = resolved_or_fail-eq-ok o d3 e3 in
    let s =
      apply_approval_event-IsResolved (some task) task.id now payload r.approval_id now d1 d2 o one1
        named applied in
    let row : s.row ≡ a = cc (s.returned, is_a) in
    let approvals : db'.approvals ≡ d2.approvals =
      rw (← same) (end_wait-approvals now task approval r d2 ended) in
    (
      rw (← row) (s.decision ∙ payload-decision approval r),
      rw (← row) s.moment,
      rw approvals s.none_pending,
    )
