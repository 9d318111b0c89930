-- ===== src/EventCollector/Waits.antt =====
-- How long a task waits for an answer.
use agentic_ops_platform.Prelude.{
  ℕ, ◌+◌, ◌<◌, ◌≡◌, refl, ◌∙◌, ap, subst, true, Option, some, List, map, find-update_where_hit,
  select_where, arith,
}
use agentic_ops_platform.Py.Clock.{seconds}
use agentic_ops_platform.Py.Json.{Dict}
use agentic_ops_platform.Py.Result.{ok}
use agentic_ops_platform.Models.{Task, Approval, Db}
use agentic_ops_platform.Models.Status.{timed_out}
use agentic_ops_platform.Models.Store.{has_id, touch, find_task}
use agentic_ops_platform.Models.Sound.{IsSound, add_session_event-eq-ok}
use agentic_ops_platform.Models.Sweep.{swept}
use agentic_ops_platform.Models.Rows.{find_task-update_self}
use agentic_ops_platform.TaskQueue.Sweeps.{
  deadline_passed, time_out, timeout_event, waiting_timeout_sweep,
}
use agentic_ops_platform.TaskQueue.Sweeps.Expired.{waiting_timeout_sweep-eq-swept}
use agentic_ops_platform.Approvals.Open.{OnePending}
use agentic_ops_platform.ApprovalBroker.Prompt.{Post}
use agentic_ops_platform.EventCollector.{
  EventPayload, Context, wait_user, task_update, with_heartbeat, prompt_if_asked, stored_event,
  task_uuid, receive_event,
}
use agentic_ops_platform.EventCollector.Tokens.{Parsers}
use agentic_ops_platform.EventCollector.Kept.{receive_event-keeps}
use agentic_ops_platform.EventCollector.Received.{
  IsMoved, receive_event-IsMoved, moved-IsUpdate, before_update, found_of_exists,
}

-- A row that waits past the moment is timed out by the sweep.
swept-times_out :
    (later k : ℕ) (db : Db) (t : Task)
    → IsSound db
    → find_task k db ≡ some t
    → deadline_passed later t ≡ true
    → (ids : List ℕ) × (left : Db) × (waiting_timeout_sweep later db ≡ ok (ids, left))
      × (find_task k left ≡ some (touch later time_out t))
swept-times_out later k db t s there late = (
  map (λ (x : Task). x.id) (select_where (deadline_passed later) db.tasks),
  swept later time_out timeout_event (deadline_passed later) db,
  waiting_timeout_sweep-eq-swept later db s,
  find-update_where_hit (has_id k) (deadline_passed later) (touch later time_out) (λ x _. refl)
      db.tasks t there late,
)

asks-wait_user :
    (p : Parsers) (now : ℕ) (payload : Dict) (task : Option Task) (approval : Option Approval)
    (change : Task → Task)
    → task_update p now "user_question_requested" payload task approval ≡ ok change
    → change ≡ wait_user now "ask_user_question"
unfolding task_update
asks-wait_user p now payload task approval change h = cc

abbrev asked_row : ℕ → Task → Task
asked_row now t = touch now (with_heartbeat now (wait_user now "ask_user_question")) t

asked-row :
    (c : Context) (now k timestamp : ℕ) (e : EventPayload) (db stored db' : Db) (t : Task)
    (m : IsMoved c now k timestamp e (some t) stored db')
    → stored.tasks ≡ db.tasks
    → e.event_type ≡ "user_question_requested"
    → find_task k db ≡ some t
    → find_task k db' ≡ some (asked_row now t)
asked-row c now k timestamp e db stored db' t m same asks there =
    let mid = (prompt_if_asked c now e.event_type (some t) m.approval m.middle) in
    let updated =
      subst (λ kind. task_update c.parsers now kind e.payload (some t) mid.approval ≡ ok m.change)
        asks m.updated in
    let is_wait : m.change ≡ wait_user now "ask_user_question" =
      asks-wait_user c.parsers now e.payload (some t) mid.approval m.change updated in
    let u = moved-IsUpdate c now k timestamp e db stored db' t m same in
    ap (find_task k) m.left
    ∙ find_task-update_self now k (with_heartbeat now m.change) u.keeps_id mid.left
        (before_update c now k timestamp e db stored db' t m same k ∙ there)
    ∙ ap (λ f. some (touch now (with_heartbeat now f) t)) is_wait

asked-deadline_passed :
    (now later : ℕ) (t : Task)
    → now + seconds 3600 < later
    → deadline_passed later (asked_row now t) ≡ true
asked-deadline_passed now later t late = ground arith

-- Where the keys of the database hold and at most one approval of each task and tool is pending, a
-- task that has asked its user, in an event that was received, and of which nothing is heard for
-- more than an hour, does not wait for ever: the first sweep after that succeeds and leaves it
-- timed out.
pub receive_event-times_out :
    (c : Context) (now later k : ℕ) (e : EventPayload) (db db' : Db) (posts : List Post)
    → task_uuid c e ≡ some k
    → e.event_type ≡ "user_question_requested"
    → IsSound db
    → OnePending db
    → receive_event c now e db ≡ ok (db', posts)
    → now + seconds 3600 < later
    → (ids : List ℕ) × (left : Db) × (waiting_timeout_sweep later db' ≡ ok (ids, left))
      × ((t : Task) × (find_task k left ≡ some t) × (t.status ≡ timed_out))
receive_event-times_out c now later k e db db' posts is_k asks s one h late =
    let (timestamp, stored, added, m0) = receive_event-IsMoved c now k e db db' is_k h in
    let (refers, is_stored) =
      add_session_event-eq-ok db (stored_event (some k) timestamp e) added in
    let (t, there) = found_of_exists k db refers in
    let m = subst (λ x. IsMoved c now k timestamp e x stored db') there m0 in
    let (s', _) = receive_event-keeps c now k e db db' posts is_k s one h in
    let row =
      asked-row c now k timestamp e db stored db' t m (ap (λ d. d.tasks) is_stored) asks there in
    let (ids, left, swept_, found) =
      swept-times_out later k db' (asked_row now t) s' row
        (asked-deadline_passed now later t late) in
    (ids, left, swept_, (touch later time_out (asked_row now t), found, refl))
