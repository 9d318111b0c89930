-- ===== src/ApprovalBroker/Clicks.antt =====
-- A prompt whose button is clicked twice.
use agentic_ops_platform.Prelude.{
  ℕ, String, ◌≡◌, refl, ◌∙◌, sym, ap, true, false, not, Option, none, some, ◌⊎◌, inl, inr, str_eq,
  eq_iff, is_some, ◌&&◌, Bool-cases, Option-cases, arith, ==_iff, ◌==◌, find_where, find-append,
  find-update_where_hit, find-update_where_kept, count_where, All-find, zero-All, ◌∷◌, [],
  find-passes,
}
use agentic_ops_platform.Py.Text.{strip}
use agentic_ops_platform.Py.Json.{get, get?, truthy, either, str}
use agentic_ops_platform.Py.Result.{ok, >>=-eq-ok}
use agentic_ops_platform.Models.{Task, Approval, Db}
use agentic_ops_platform.Models.Store.{has_approval_id, has_id, find_task, add_session_event}
use agentic_ops_platform.Models.Sound.{add_session_event-eq-ok, add_approval-eq-ok}
use agentic_ops_platform.Approvals.{is_pending, is_open, tool_name_of, apply_approval_event}
use agentic_ops_platform.Approvals.Steps.{
  Step, ignores, inserts, changes, apply_approval_event-Step,
}
use agentic_ops_platform.Approvals.Open.{OnePending}
use agentic_ops_platform.ApprovalBroker.{
  Answer, session_event, result_payload, record_approval_result, end_wait,
}
use agentic_ops_platform.ApprovalBroker.Decisions.{
  end_wait-approvals, resolved_or_fail-eq-ok, record_approval_result-decides,
}
use agentic_ops_platform.ApprovalBroker.Delivery.{delivery_text}
use agentic_ops_platform.ApprovalBroker.Actions.{
  Action, Resolution, find_approval, context_text, decision_of, mismatch, stale_request, answer_of,
  action_payload, already, answer_action, check_action, with_task, with_approval, with_id,
  resolve_approval_action,
}

-- A row of the same task and tool.
abbrev Alike : Approval → Approval → Type 0
Alike a a' = (a'.task_id ≡ a.task_id) × (a'.tool_name ≡ a.tool_name)

Step-Alike :
    (k : ℕ) (tool : String) (j : ℕ) (db db' : Db) (a : Approval)
    → find_where (has_approval_id j) db.approvals ≡ some a
    → Step k tool db db'
    → (a' : Approval) × (find_where (has_approval_id j) db'.approvals ≡ some a') × Alike a a'
Step-Alike k tool j db db' a there (ignores same) = (a, rw same there, (refl, refl))
Step-Alike k tool j db db' a there (inserts fresh e f none_yet added) =
    let (_, _, left) = add_approval-eq-ok db fresh added in
    (a, rw left (find-append (has_approval_id j) db.approvals (fresh ∷ []) a there), (refl, refl))
Step-Alike k tool j db db' a there (changes b f open_ keeps ends left) =
    elim (Bool-cases (has_approval_id b.id a)) [
      | inl hit ↦ (
        f a,
        rw left (
            find-update_where_hit (has_approval_id j) (has_approval_id b.id) f
              (λ x _. ap (λ i. i == j) (keeps.same_id x)) db.approvals a there hit),
        (keeps.same_task a, keeps.same_tool a),
      )
      | inr miss ↦ (
        a,
        rw left (
            find-update_where_kept (has_approval_id j) (has_approval_id b.id) f
              (λ x _. ap (λ i. i == j) (keeps.same_id x)) db.approvals a there miss),
        (refl, refl),
      )
    ]

record_approval_result-Alike :
    (now j : ℕ) (t : Task) (p a b : Approval) (r : Answer) (db db' : Db)
    → find_where (has_approval_id j) db.approvals ≡ some a
    → record_approval_result now t p r db ≡ ok (b, db')
    → (a' : Approval) × (find_where (has_approval_id j) db'.approvals ≡ some a') × Alike a a'
unfolding record_approval_result
record_approval_result-Alike now j t p a b r db db' there h =
    let payload = result_payload p r in
    let event = session_event r.event_id t "approval_result" now payload in
    let (d1, logged, e1) = >>=-eq-ok (add_session_event event db) _ h in
    let (_, left1) = add_session_event-eq-ok db event logged in
    let ((o, d2), applied, e2) =
      >>=-eq-ok
        (apply_approval_event (some t) (some t.id) "approval_result" now payload r.approval_id now
          d1)
        _ e1 in
    let (d3, ended, e3) = >>=-eq-ok (end_wait now t p r d2) _ e2 in
    let (_, same) = resolved_or_fail-eq-ok o d3 e3 in
    let (k, step) =
      apply_approval_event-Step (some t) (some t.id) "approval_result" now payload r.approval_id now
        d1 d2 o applied in
    let (a', found, alike) = Step-Alike k (tool_name_of payload) j d1 d2 a (rw left1 there) step in
    let approvals : db'.approvals ≡ d2.approvals =
      ap (λ d. d.approvals) (sym same) ∙ end_wait-approvals now t p r d2 ended in
    (a', ap (find_where (has_approval_id j)) approvals ∙ found, alike)

tool_name_of-result_payload :
    (a : Approval) (r : Answer)
    → str_eq a.tool_name "" ≡ false
    → tool_name_of (result_payload a r) ≡ strip a.tool_name
unfolding tool_name_of result_payload get get? either truthy str
tool_name_of-result_payload a r named = rw named refl

check_action-eq-ok :
    (now : ℕ) (e : Action) (t : Task) (a : Approval) (db : Db) {r : Resolution} {db' : Db}
    → check_action now e t a db ≡ ok (r, db')
    → (is_pending a ≡ false) × (r ≡ already a) × (db' ≡ db)
      ⊎ (is_pending a ≡ true) × (answer_action now e t a db ≡ ok (r, db'))
unfolding check_action
check_action-eq-ok now e t a db h = elim (Bool-cases (stale_request e a db)) [
  | inl stale ↦ cc (rw stale at h)
  | inr fits ↦ elim (Bool-cases (mismatch (delivery_text "post_id" a) e.post_id)) [
    | inl other ↦ cc (rw (fits, other) at h)
    | inr post ↦ elim (Bool-cases (mismatch (delivery_text "channel_id" a) e.channel_id)) [
      | inl other ↦ cc (rw (fits, post, other) at h)
      | inr channel ↦ elim (Bool-cases (is_pending a)) [
        | inl pending ↦ inr (pending, rw (fits, post, channel, pending) at h)
        | inr final ↦ let e2 = rw (fits, post, channel, final) at h in inl (final, cc, cc)
      ]
    ]
  ]
]

answer_action-eq-ok :
    (now : ℕ) (e : Action) (t : Task) (a : Approval) (db db' : Db) {r : Resolution}
    → answer_action now e t a db ≡ ok (r, db')
    → (d : Db) × (d.approvals ≡ db.approvals)
      × ((b : Approval) × (record_approval_result now t a
              (answer_of e (str_eq (decision_of e) "approve"))
              d
            ≡ ok (b, db')))
unfolding answer_action
answer_action-eq-ok now e t a db db' h =
    let event = session_event e.action_event_id t "approval_action" now (action_payload e a) in
    let (d, logged, e1) = >>=-eq-ok (add_session_event event db) _ h in
    let (_, left) = add_session_event-eq-ok db event logged in
    let ((b, d2), recorded, e2) =
      >>=-eq-ok (record_approval_result now t a (answer_of e (str_eq (decision_of e) "approve")) d)
        _ e1 in
    let same : d2 ≡ db' = cc in (d, rw left refl, (b, recorded ∙ ap (λ x. ok (b, x)) same))

resolve_approval_action-eq-ok :
    (parse_uuid : String → Option ℕ) (now k : ℕ) (e : Action) (a : Approval) (db : Db)
    {r : Resolution} {db' : Db}
    → find_approval k db ≡ some a
    → parse_uuid (context_text "approval_id" e) ≡ some k
    → resolve_approval_action parse_uuid now e db ≡ ok (r, db')
    → (t : Task) × (find_task a.task_id db ≡ some t) × (check_action now e t a db ≡ ok (r, db'))
unfolding resolve_approval_action with_id with_approval with_task
resolve_approval_action-eq-ok parse_uuid now k e a db found is_k h =
    elim (Bool-cases
      (not (str_eq (decision_of e) "approve") && not (str_eq (decision_of e) "reject"))) [
        | inl unknown ↦ cc (rw unknown at h)
        | inr known ↦
            let h1 = rw (known, is_k, found) at h in
            elim (Option-cases (find_task a.task_id db)) [
              | inl missing ↦ cc (rw missing at h1)
              | inr (t, task) ↦ (t, task, rw task at h1)
            ]
      ]

open_after :
    (k : ℕ) (tool : String) (j : ℕ) (db : Db) (a : Approval)
    → count_where (is_open k tool) db.approvals ≡ 0
    → find_where (has_approval_id j) db.approvals ≡ some a
    → a.task_id ≡ k
    → a.tool_name ≡ tool
    → is_pending a ≡ false
open_after k tool j db a none_left there same_task same_tool =
    let off =
      All-find (has_approval_id j) (λ x. is_open k tool x ≡ false) db.approvals a
        (zero-All (is_open k tool) db.approvals none_left) there in
    ground (arith, off, same_task, same_tool, eq_iff a.tool_name tool)

-- A click that decided an approval leaves it as a row that is not pending.
answer_action-final :
    (now k : ℕ) (e : Action) (t : Task) (a : Approval) (db db' : Db) {r : Resolution}
    → OnePending db
    → find_approval k db ≡ some a
    → str_eq a.tool_name "" ≡ false
    → strip a.tool_name ≡ a.tool_name
    → find_task a.task_id db ≡ some t
    → answer_action now e t a db ≡ ok (r, db')
    → (a' : Approval) × (find_approval k db' ≡ some a') × (is_pending a' ≡ false)
answer_action-final now k e t a db db' one there named bare task h =
    let (d, same, (b, recorded)) = answer_action-eq-ok now e t a db db' h in
    let answer = answer_of e (str_eq (decision_of e) "approve") in
    let there1 : find_approval k d ≡ some a = rw same there in
    let one1 : OnePending d = record { one = rw same one.one } in
    let (a', found, alike) =
      record_approval_result-Alike now k t a a b answer d db' there1 recorded in
    let tool = tool_name_of-result_payload a answer named in
    let (_, _, none_left) =
      record_approval_result-decides now t a b answer d db' one1 (rw (tool, bare) named) recorded in
    let is_t : t.id ≡ a.task_id =
      (==_iff t.id a.task_id).0 (find-passes (has_id a.task_id) db.tasks t task) in
    (
      a',
      found,
      open_after t.id (tool_name_of (result_payload a answer)) k db' a' none_left found
          (alike.0 ∙ sym is_t) (alike.1 ∙ sym (tool ∙ bare)),
    )

-- If at most one approval of each task and tool is pending, then after a click that decided an
-- approval, whose tool has a name without blanks around it, every later click on that approval that
-- raises no exception decides nothing: it reports no decision and leaves the database as it is.
pub resolve_approval_action-once :
    (parse_uuid : String → Option ℕ) (now now' k : ℕ) (e e' : Action) (a : Approval)
    (db db' db'' : Db) (r r' : Resolution)
    → OnePending db
    → find_approval k db ≡ some a
    → str_eq a.tool_name "" ≡ false
    → strip a.tool_name ≡ a.tool_name
    → parse_uuid (context_text "approval_id" e) ≡ some k
    → parse_uuid (context_text "approval_id" e') ≡ some k
    → resolve_approval_action parse_uuid now e db ≡ ok (r, db')
    → is_some r.approved ≡ true
    → resolve_approval_action parse_uuid now' e' db' ≡ ok (r', db'')
    → (r'.approved ≡ none) × (db'' ≡ db')
resolve_approval_action-once parse_uuid now now' k e e' a db db' db'' r r' one there named bare is_k
      is_k' first decided second =
    let (t, task, checked) =
      resolve_approval_action-eq-ok parse_uuid now k e a db there is_k first in
    elim (check_action-eq-ok now e t a db checked) [
      | inl (_, nothing, _) ↦ cc (rw nothing at decided)
      | inr (_, answered) ↦
          let (a', found, final) =
            answer_action-final now k e t a db db' one there named bare task answered in
          let (t', _, checked') =
            resolve_approval_action-eq-ok parse_uuid now' k e' a' db' found is_k' second in
          elim (check_action-eq-ok now' e' t' a' db' checked') [
            | inl (_, nothing, same) ↦ (ap (λ x. x.approved) nothing, same)
            | inr (pending, _) ↦ cc
          ]
    ]
