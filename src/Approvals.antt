-- ===== src/Approvals.antt =====
-- shared/lib/approvals.py: the row of an approval follows the events of a task.
pub mod Steps
pub mod Open
pub mod Final
pub mod Backfill
use agentic_ops_platform.Prelude.{
  ℕ, String, Bool, true, false, ◌&&◌, ltb, Option, none, some, List, [], ◌∷◌, ◌==◌, if◌then◌else◌,
  str_eq, least, select_where, find_where,
}
use agentic_ops_platform.Py.Text.{strip}
use agentic_ops_platform.Py.Json.{
  Dict, text, obj, empty, entry, get, merge, truthy, either, str, as_dict,
}
use agentic_ops_platform.Py.Result.{Result, ok, ◌>>=◌}
use agentic_ops_platform.Models.{Task, Approval, Db}
use agentic_ops_platform.Models.Store.{add_approval, update_approval}

-- .order_by(requested_at.desc(), created_at.desc())
abbrev pub newer : Approval → Approval → Bool
newer a b =
    if ltb b.requested_at a.requested_at
    then true
    else if ltb a.requested_at b.requested_at
    then false
    else ltb b.created_at a.created_at

abbrev pub is_for : ℕ → String → Approval → Bool
is_for task_id tool a = a.task_id == task_id && str_eq a.tool_name tool

abbrev pub is_pending : Approval → Bool
is_pending a = str_eq a.status "pending"

abbrev pub is_open : ℕ → String → Approval → Bool
is_open task_id tool a = is_for task_id tool a && is_pending a

unfoldable pub find_open_approval : ℕ → String → Db → Option Approval
find_open_approval task_id tool db = least newer (select_where (is_open task_id tool) db.approvals)

-- str(payload.get("approval_requested", {}).get("request_id") or ""), where the entry is a dict
unfoldable pub requested_id : Approval → String
unfolding str either get as_dict
requested_id a =
    str
      (either (get "request_id" (as_dict (get "approval_requested" a.approval_metadata))) (text ""))

-- insertion by the order above, of the rows of a query
insert_newest : Approval → List Approval → List Approval
insert_newest a [] = a ∷ []
insert_newest a (b ∷ bs) =
    let rest = insert_newest a bs in if newer b a then b ∷ rest else a ∷ b ∷ bs

newest_first : List Approval → List Approval
unfolding insert_newest
newest_first [] = []
newest_first (a ∷ as_) = insert_newest a (newest_first as_)

unfoldable pub find_approval_by_request : ℕ → String → String → Db → Option Approval
unfolding newest_first requested_id
find_approval_by_request task_id tool request_id db =
    find_where (λ a. str_eq (requested_id a) request_id)
      (newest_first (select_where (is_for task_id tool) db.approvals))

unfoldable pub approval_status_from_result : Dict → String
unfolding truthy get
approval_status_from_result payload =
    if truthy (get "approved" payload) then "approved" else "rejected"

-- str(v) if v else None, of the value of a key
unfoldable pub text_or_none : String → Dict → Option String
unfolding truthy get str
text_or_none k payload = if truthy (get k payload) then some (str (get k payload)) else none

-- str(payload.get(k) or "") or None
unfoldable pub nonempty_text : String → Dict → Option String
unfolding text_or_none
nonempty_text k payload = elim (text_or_none k payload) [
  | none ↦ none
  | some s ↦ if str_eq s "" then none else some s
]

-- What the caller passes of the event, and what the database adds to a new row.
pub record Arrival : Type 0 where
  pub task : Option Task
  pub task_id : ℕ
  pub tool_name : String
  pub timestamp : ℕ
  pub payload : Dict
  pub new_id : ℕ
  pub now : ℕ

abbrev workflow_of : Option Task → Option String
workflow_of none = none
workflow_of (some t) = some t.workflow

-- Approval(...), with the columns that the three kinds of events set alike
abbrev pub new_approval : Arrival → String → String → String → Option String → Approval
new_approval e status kind key preview = record {
  id = e.new_id;
  task_id = e.task_id;
  workflow = workflow_of e.task;
  approval_kind = kind;
  tool_name = e.tool_name;
  status = status;
  request_preview = preview;
  reason = none;
  approval_metadata = entry key (obj e.payload) empty;
  requested_at = e.timestamp;
  resolved_at = none;
  archived_at = none;
  created_at = e.now;
  updated_at = e.timestamp;
}

-- _merge_metadata(approval.approval_metadata, {key: payload}), and `updated_at`
abbrev pub noted : Arrival → String → Approval → Approval
noted e key a = record a {
  approval_metadata = merge a.approval_metadata (entry key (obj e.payload) empty);
  updated_at = e.timestamp;
}

-- A row that is added, or the open row that is changed.
unfoldable pub insert_or_change :
    Approval → (Approval → Approval) → Option Approval → Db → Result (Option Approval × Db)
unfolding add_approval
insert_or_change fresh change none db = add_approval fresh db >>= λ db'. ok (some fresh, db')
insert_or_change fresh change (some a) db = ok (some (change a), update_approval a.id change db)

abbrev pub called : Arrival → Approval → Approval
called e a = record (noted e "permission_callback" a) { approval_kind = "operator_approval" }

abbrev pub requested : Arrival → Approval → Approval
requested e a = record (noted e "approval_requested" a) {
  request_preview = elim (text_or_none "tool_input_preview" e.payload) [
    | none ↦ a.request_preview
    | some p ↦ some p
  ];
}

abbrev pub resolved : Arrival → Approval → Approval
resolved e a = record (noted e "approval_result" a) {
  status = approval_status_from_result e.payload;
  reason = nonempty_text "reason" e.payload;
  resolved_at = some e.timestamp;
}

-- payload.get("kind") != "operator_approval"
pub is_operator_kind : Dict → Bool
unfolding get
is_operator_kind payload = elim (get "kind" payload) [
  | text k ↦ str_eq k "operator_approval"
  | _ ↦ false
]

unfoldable pub on_permission_callback : Arrival → Db → Result (Option Approval × Db)
unfolding is_operator_kind insert_or_change find_open_approval
on_permission_callback e db =
    if is_operator_kind e.payload
    then insert_or_change (new_approval e "pending" "operator_approval" "permission_callback" none)
        (called e) (find_open_approval e.task_id e.tool_name db) db
    else ok (none, db)

unfoldable pub on_approval_requested : Arrival → Db → Result (Option Approval × Db)
unfolding insert_or_change find_open_approval text_or_none
on_approval_requested e db =
    insert_or_change
      (new_approval e "pending" "operator_approval" "approval_requested"
        (text_or_none "tool_input_preview" e.payload))
      (requested e) (find_open_approval e.task_id e.tool_name db) db

-- the row of a result for which no request is open
abbrev pub late_result : Arrival → Approval
late_result e =
    record (new_approval e (approval_status_from_result e.payload) "operator_approval"
      "approval_result" none) {
        reason = nonempty_text "reason" e.payload;
        resolved_at = some e.timestamp;
      }

unfoldable pub on_approval_result : Arrival → Db → Result (Option Approval × Db)
unfolding insert_or_change find_open_approval nonempty_text approval_status_from_result
on_approval_result e db =
    insert_or_change (late_result e) (resolved e) (find_open_approval e.task_id e.tool_name db) db

unfoldable pub dispatch : String → Arrival → Db → Result (Option Approval × Db)
unfolding on_permission_callback on_approval_requested on_approval_result
dispatch event_type e db =
    if str_eq event_type "permission_callback"
    then on_permission_callback e db
    else if str_eq event_type "approval_requested"
    then on_approval_requested e db
    else if str_eq event_type "approval_result"
    then on_approval_result e db
    else ok (none, db)

-- str(payload.get("tool_name") or "").strip()
unfoldable pub tool_name_of : Dict → String
unfolding strip str either get
tool_name_of payload = strip (str (either (get "tool_name" payload) (text "")))

unfoldable pub apply_approval_event :
    Option Task → Option ℕ → String → ℕ → Dict → ℕ → ℕ → Db → Result (Option Approval × Db)
unfolding dispatch tool_name_of
apply_approval_event task none event_type timestamp payload new_id now db = ok (none, db)
apply_approval_event task (some task_id) event_type timestamp payload new_id now db =
    if str_eq (tool_name_of payload) ""
    then ok (none, db)
    else dispatch event_type
        (record {
          task = task;
          task_id = task_id;
          tool_name = tool_name_of payload;
          timestamp = timestamp;
          payload = payload;
          new_id = new_id;
          now = now;
        })
        db
