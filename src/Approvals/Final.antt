-- ===== src/Approvals/Final.antt =====
-- Approvals that are decided.
use agentic_ops_platform.Prelude.{
  ℕ, String, ◌≡◌, refl, true, false, Option, none, some, inl, inr, arith, str_eq, ◌==◌, ==_refl, ap,
  Bool-cases, count_where, count-append, count-update_where_falls, find_where, find-append,
  find-update_where_kept, mem-least, least-passes, unique-All, All-find, ◌∷◌, [], ◌++◌,
}
use agentic_ops_platform.Py.Json.{Dict}
use agentic_ops_platform.Py.Result.{ok, >>=-eq-ok}
use agentic_ops_platform.Models.{Task, Approval, Db}
use agentic_ops_platform.Models.Store.{has_approval_id, add_approval, update_approval}
use agentic_ops_platform.Models.Sound.{IsSound, add_approval-eq-ok}
use agentic_ops_platform.Approvals.{
  newer, is_pending, is_open, find_open_approval, tool_name_of, apply_approval_event, Arrival,
  late_result, resolved, insert_or_change, approval_status_from_result, dispatch,
  on_approval_result,
}
use agentic_ops_platform.Approvals.Steps.{
  Step, ignores, inserts, changes, apply_approval_event-Step, status-not_pending,
}
use agentic_ops_platform.Approvals.Open.{OnePending, none_open, ended}

pending-open :
    (k : ℕ) (tool : String) (a : Approval) → is_open k tool a ≡ true → is_pending a ≡ true
pending-open k tool a h = ground arith

-- The row that an event changes is not an approval that is not pending.
not_changed :
    (k : ℕ) (tool : String) (j : ℕ) (db : Db) (a b : Approval)
    → IsSound db
    → find_where (has_approval_id j) db.approvals ≡ some a
    → is_pending a ≡ false
    → find_open_approval k tool db ≡ some b
    → has_approval_id b.id a ≡ false
unfolding find_open_approval
not_changed k tool j db a b s there final open_ = elim (Bool-cases (has_approval_id b.id a)) [
  | inl same_id ↦
      let p = is_open k tool in
      let is_b =
        All-find (has_approval_id j) (λ x. has_approval_id b.id x ≡ true → x ≡ b) db.approvals a
          (unique-All (has_approval_id b.id) b db.approvals (mem-least newer p db.approvals b open_)
            (==_refl b.id) (s.unique_approvals b.id))
          there in
      let pends = pending-open k tool b (least-passes newer p db.approvals b open_) in
      cc (is_b same_id, pends, final)
  | inr other ↦ other
]

Step-final :
    (k : ℕ) (tool : String) (j : ℕ) (db db' : Db) (a : Approval)
    → IsSound db
    → find_where (has_approval_id j) db.approvals ≡ some a
    → is_pending a ≡ false
    → Step k tool db db'
    → find_where (has_approval_id j) db'.approvals ≡ some a
Step-final k tool j db db' a s there final (ignores same) = rw same there
Step-final k tool j db db' a s there final (inserts fresh e f none_yet added) =
    let (_, _, left) = add_approval-eq-ok db fresh added in
    rw left (find-append (has_approval_id j) db.approvals (fresh ∷ []) a there)
Step-final k tool j db db' a s there final (changes b f open_ keeps ends left) = rw left (
    find-update_where_kept (has_approval_id j) (has_approval_id b.id) f
      (λ x _. ap (λ i. i == j) (keeps.same_id x)) db.approvals a there
      (not_changed k tool j db a b s there final open_))

-- Where the keys of the database hold, an approval that is no more pending is the same row after
-- every event that is taken: a decision is final.
pub apply_approval_event-final :
    (task : Option Task) (task_id : Option ℕ) (event_type : String) (timestamp : ℕ) (payload : Dict)
    (new_id now j : ℕ) (db db' : Db) (o : Option Approval) (a : Approval)
    → IsSound db
    → find_where (has_approval_id j) db.approvals ≡ some a
    → is_pending a ≡ false
    → apply_approval_event task task_id event_type timestamp payload new_id now db ≡ ok (o, db')
    → find_where (has_approval_id j) db'.approvals ≡ some a
apply_approval_event-final task task_id event_type timestamp payload new_id now j db db' o a s there
      final h =
    let (k, step) =
      apply_approval_event-Step task task_id event_type timestamp payload new_id now db db' o h in
    Step-final k (tool_name_of payload) j db db' a s there final step

-- What a result leaves: the row with the decision, and no pending row of its task and tool.
pub record IsResolved (k : ℕ) (tool : String) (timestamp : ℕ) (payload : Dict) (o : Option Approval)
    (db' : Db) : Type 0 where
  pub row : Approval
  pub returned : o ≡ some row
  pub decision : row.status ≡ approval_status_from_result payload
  pub moment : row.resolved_at ≡ some timestamp
  pub none_pending : count_where (is_open k tool) db'.approvals ≡ 0

resolved-IsResolved :
    (e : Arrival) (db db' : Db) (r b : Option Approval)
    → OnePending db
    → find_open_approval e.task_id e.tool_name db ≡ b
    → insert_or_change (late_result e) (resolved e) b db ≡ ok (r, db')
    → IsResolved e.task_id e.tool_name e.timestamp e.payload r db'
unfolding insert_or_change find_open_approval
resolved-IsResolved e db db' r none one none_yet h =
    let (d, added, same) = >>=-eq-ok (add_approval (late_result e) db) _ h in
    let (_, _, left) = add_approval-eq-ok db (late_result e) added in
    let p = is_open e.task_id e.tool_name in
    let closed =
      ended (λ _. late_result e) e.task_id e.tool_name (late_result e)
        (status-not_pending e.payload) in
    let left' : db' ≡ record db { approvals = db.approvals ++ late_result e ∷ [] } = cc in
    record {
      row = late_result e;
      returned = cc;
      decision = refl;
      moment = refl;
      none_pending =
          rw
            (
              left',
              count-append p db.approvals (late_result e ∷ []),
              closed,
              none_open e.task_id e.tool_name db none_yet,
            )
            refl;
    }
resolved-IsResolved e db db' r (some b) one open_ h =
    let p = is_open e.task_id e.tool_name in
    let left : db' ≡ update_approval b.id (resolved e) db = cc in
    record {
      row = resolved e b;
      returned = cc;
      decision = refl;
      moment = refl;
      none_pending = rw left (
          omega (
            arith,
            one.one e.task_id e.tool_name,
            count-update_where_falls p (has_approval_id b.id) (resolved e)
                (λ x. ended (resolved e) e.task_id e.tool_name x (status-not_pending e.payload))
                db.approvals b (mem-least newer p db.approvals b open_)
                (least-passes newer p db.approvals b open_) (==_refl b.id),
          ));
    }

-- If at most one approval of each task and tool is pending, then a result that is taken, of a task
-- and a tool with a name, returns the row with the decision and its moment, and leaves no pending
-- approval of that task and tool.
pub apply_approval_event-IsResolved :
    (task : Option Task) (k : ℕ) (timestamp : ℕ) (payload : Dict) (new_id now : ℕ) (db db' : Db)
    (o : Option Approval)
    → OnePending db
    → str_eq (tool_name_of payload) "" ≡ false
    → apply_approval_event task (some k) "approval_result" timestamp payload new_id now db
      ≡ ok (o, db')
    → IsResolved k (tool_name_of payload) timestamp payload o db'
unfolding apply_approval_event dispatch on_approval_result
apply_approval_event-IsResolved task k timestamp payload new_id now db db' o one named h =
    resolved-IsResolved
      (record {
        task = task;
        task_id = k;
        tool_name = tool_name_of payload;
        timestamp = timestamp;
        payload = payload;
        new_id = new_id;
        now = now;
      })
      db db' o _ one refl (rw named at h)
