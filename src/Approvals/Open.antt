-- ===== src/Approvals/Open.antt =====
-- How many approvals of one task and tool are pending, and which tables keep their keys.
use agentic_ops_platform.Prelude.{
  ℕ, ◌≤◌, String, ◌≡◌, refl, true, false, Option, none, inl, inr, arith, eq_iff, Bool-cases,
  count_where, count-append, count-update_where, count-update_where_off, All-zero, least-none, ◌∷◌,
  [], ◌++◌,
}
use agentic_ops_platform.Py.Json.{Dict}
use agentic_ops_platform.Py.Result.{ok}
use agentic_ops_platform.Models.{Task, Approval, Db}
use agentic_ops_platform.Models.Store.{has_approval_id, update_approval}
use agentic_ops_platform.Models.Sound.{
  IsSound, add_approval-eq-ok, add_approval-IsSound, update_approval-IsSound,
}
use agentic_ops_platform.Approvals.{
  newer, is_pending, is_open, find_open_approval, tool_name_of, apply_approval_event,
}
use agentic_ops_platform.Approvals.Steps.{
  newer-IsOrder, KeepsKeys, Step, ignores, inserts, changes, apply_approval_event-Step,
}

-- At most one approval of each task and tool is pending.
pub record OnePending (db : Db) : Type 0 where
  pub one : (k : ℕ) (tool : String) → count_where (is_open k tool) db.approvals ≤ 1

pub none_open :
    (k : ℕ) (tool : String) (db : Db)
    → find_open_approval k tool db ≡ none
    → count_where (is_open k tool) db.approvals ≡ 0
unfolding find_open_approval
none_open k tool db h =
    All-zero (is_open k tool) db.approvals
      (least-none newer newer-IsOrder (is_open k tool) db.approvals h)

open_key :
    (k j : ℕ) (tool name : String) (a : Approval)
    → a.task_id ≡ k
    → a.tool_name ≡ tool
    → is_open j name a ≡ true
    → (k ≡ j) × (tool ≡ name)
open_key k j tool name a e f h = ground (arith, eq_iff a.tool_name name)

add-count :
    (db : Db) (a : Approval) (k j : ℕ) (tool name : String)
    → a.task_id ≡ k
    → a.tool_name ≡ tool
    → count_where (is_open k tool) db.approvals ≡ 0
    → count_where (is_open j name) db.approvals ≤ 1
    → count_where (is_open j name) (db.approvals ++ a ∷ []) ≤ 1
add-count db a k j tool name e f z one =
    let grows = count-append (is_open j name) db.approvals (a ∷ []) in
    elim (Bool-cases (is_open j name a)) [
      | inl hit ↦
          let (same_task, same_tool) = open_key k j tool name a e f hit in
          let zero_before : count_where (is_open j name) db.approvals ≡ 0 =
            rw (same_task, same_tool) at z in
          rw (grows, zero_before, hit) (omega arith)
      | inr miss ↦ rw (grows, miss) (omega (arith, one))
    ]

pub change-count :
    (db : Db) (f : Approval → Approval) (k j : ℕ) (name : String)
    → KeepsKeys f
    → ((a : Approval) → (f a).status ≡ a.status)
    → count_where (is_open j name) (update_approval k f db).approvals
      ≡ count_where (is_open j name) db.approvals
change-count db f k j name keeps stays =
    count-update_where (is_open j name) (has_approval_id k) f
      (λ a. rw (keeps.same_task a, keeps.same_tool a, stays a) refl) db.approvals

pub ended :
    (f : Approval → Approval) (j : ℕ) (name : String) (a : Approval)
    → is_pending (f a) ≡ false
    → is_open j name (f a) ≡ false
ended f j name a h = ground arith

pub Step-OnePending :
    (k : ℕ) (tool : String) (db db' : Db) → OnePending db → Step k tool db db' → OnePending db'
Step-OnePending k tool db db' one (ignores same) = rw same one
Step-OnePending k tool db db' one (inserts fresh e f none_yet added) =
    let (_, _, left) = add_approval-eq-ok db fresh added in
    record {
      one = λ j name.
          rw left
            (add-count db fresh k j tool name e f (none_open k tool db none_yet) (one.one j name));
    }
Step-OnePending k tool db db' one (changes a f there keeps (inl stays) left) = record {
  one = λ j name. rw (left, change-count db f a.id j name keeps stays) (one.one j name);
}
Step-OnePending k tool db db' one (changes a f there keeps (inr ends) left) = record {
  one = λ j name. rw left (
      omega (
        arith,
        one.one j name,
        count-update_where_off (is_open j name) (has_approval_id a.id) f
            (λ x. ended f j name x (ends x)) db.approvals,
      ));
}

-- If at most one approval of each task and tool is pending, then so it is after every event that
-- is taken.
pub apply_approval_event-OnePending :
    (task : Option Task) (task_id : Option ℕ) (event_type : String) (timestamp : ℕ) (payload : Dict)
    (new_id now : ℕ) (db db' : Db) (o : Option Approval)
    → OnePending db
    → apply_approval_event task task_id event_type timestamp payload new_id now db ≡ ok (o, db')
    → OnePending db'
apply_approval_event-OnePending task task_id event_type timestamp payload new_id now db db' o one
      h =
    let (k, step) =
      apply_approval_event-Step task task_id event_type timestamp payload new_id now db db' o h in
    Step-OnePending k (tool_name_of payload) db db' one step

pub Step-IsSound :
    (k : ℕ) (tool : String) (db db' : Db) → IsSound db → Step k tool db db' → IsSound db'
Step-IsSound k tool db db' s (ignores same) = rw same s
Step-IsSound k tool db db' s (inserts fresh e f none_yet added) =
    add_approval-IsSound db fresh s added
Step-IsSound k tool db db' s (changes a f there keeps ends left) =
    rw left (update_approval-IsSound db a.id f keeps.same_id keeps.same_task s)

-- If the keys of the database hold, then they hold after every event that is taken.
pub apply_approval_event-IsSound :
    (task : Option Task) (task_id : Option ℕ) (event_type : String) (timestamp : ℕ) (payload : Dict)
    (new_id now : ℕ) (db db' : Db) (o : Option Approval)
    → IsSound db
    → apply_approval_event task task_id event_type timestamp payload new_id now db ≡ ok (o, db')
    → IsSound db'
apply_approval_event-IsSound task task_id event_type timestamp payload new_id now db db' o s h =
    let (k, step) =
      apply_approval_event-Step task task_id event_type timestamp payload new_id now db db' o h in
    Step-IsSound k (tool_name_of payload) db db' s step
