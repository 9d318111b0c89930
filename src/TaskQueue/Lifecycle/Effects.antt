-- ===== src/TaskQueue/Lifecycle/Effects.antt =====
-- What the calls on one task do to its row, to the other rows and to the events, and when they
-- fail.
use Prim.Native.String.{◌++◌ as ◌+++◌}
use agentic_ops_platform.Prelude.{
  ℕ, String, ◌≡◌, ◌≢◌, refl, sym, subst, ◌∙◌, true, false, ◌⊎◌, inl, inr, Option, none, some, [],
  ◌∷◌, ◌++◌, Bool-cases, str_eq, leb,
}
use agentic_ops_platform.Py.Json.{Dict, text, empty, entry, merge}
use agentic_ops_platform.Py.Result.{Result, ok, raise, value_error, integrity_error, >>=-eq-ok}
use agentic_ops_platform.Models.{Task, TaskEvent, Db}
use agentic_ops_platform.Models.Status.{TaskStatus, resume_pending, is_waiting, status_name}
use agentic_ops_platform.Models.Store.{
  has_id, touch, update_tasks, find_task, task_exists, add_task_event, integer_column,
}
use agentic_ops_platform.Models.Sound.{KeepsId, task_exists-update_tasks, add_task_event-eq-ok}
use agentic_ops_platform.Models.Rows.{find_task-update_self, find_task-update_other}
use agentic_ops_platform.TaskQueue.Lifecycle.{
  change_task, optional_time, waiting_event, waiting, resumed, completed, Outcome,
  mark_task_waiting, mark_task_resume_pending, complete_task,
}

-- A call that changes one task has changed the row of that task, no other row, and added an event
-- with its id.
pub record IsChange (now task_id : ℕ) (change : Task → Task) (db db' : Db) : Type 0 where
  pub there : task_exists task_id db ≡ true
  pub row :
      (t : Task) → find_task task_id db ≡ some t → find_task task_id db' ≡ some (touch now change t)
  pub others : (k : ℕ) → k ≢ task_id → find_task k db' ≡ find_task k db
  pub event : TaskEvent
  pub about : event.task_id ≡ task_id
  pub logged : db'.task_events ≡ db.task_events ++ event ∷ []

-- The task is not there, which the event's foreign key refuses, or the call is such a change.
abbrev pub Changes : Result Db → ℕ → ℕ → (Task → Task) → Db → Type 0
Changes r now task_id change db =
    (task_exists task_id db ≡ false) × (r ≡ raise integrity_error)
    ⊎ ((db' : Db) × (r ≡ ok db') × IsChange now task_id change db db')

module _ (now task_id : ℕ) (change : Task → Task) (keeps : KeepsId change) (event_type : String)
    (payload : Dict) (db : Db) where
  change_task-IsChange :
      {db' : Db}
      → change_task now task_id change event_type payload db ≡ ok db'
      → IsChange now task_id change db db'
  change_task-IsChange h =
      let mid = update_tasks now (has_id task_id) change db in
      let (there, e) = add_task_event-eq-ok mid _ h in
      record {
        there = sym (task_exists-update_tasks now (has_id task_id) change keeps db task_id) ∙ there;
        row = λ t found. rw e (find_task-update_self now task_id change keeps db found);
        others = λ k other. rw e (find_task-update_other now task_id change keeps db k other);
        event = record { task_id = task_id; event_type = event_type; payload = payload };
        about = refl;
        logged = rw e refl;
      }

  change_task-logged :
      {db' : Db}
      → change_task now task_id change event_type payload db ≡ ok db'
      → db'.task_events
        ≡ db.task_events
          ++ record { task_id = task_id; event_type = event_type; payload = payload } ∷ []
  change_task-logged h =
      let mid = update_tasks now (has_id task_id) change db in
      let (_, e) = add_task_event-eq-ok mid _ h in rw e refl

  change_task-missing :
      task_exists task_id db ≡ false
      → change_task now task_id change event_type payload db ≡ raise integrity_error
  unfolding add_task_event
  change_task-missing gone =
      rw (task_exists-update_tasks now (has_id task_id) change keeps db task_id ∙ gone) refl

  change_task-there :
      task_exists task_id db ≡ true
      → (db' : Db) × (change_task now task_id change event_type payload db ≡ ok db')
  unfolding add_task_event
  change_task-there there =
      let e = task_exists-update_tasks now (has_id task_id) change keeps db task_id ∙ there in
      (
        record db {
          tasks = (update_tasks now (has_id task_id) change db).tasks;
          task_events =
              db.task_events
              ++ record { task_id = task_id; event_type = event_type; payload = payload } ∷ [];
        },
        rw e refl,
      )

  -- It violates the event's foreign key if the task is not there, and else it is such a change.
  change_task-cases :
      Changes (change_task now task_id change event_type payload db) now task_id change db
  change_task-cases = elim (Bool-cases (task_exists task_id db)) [
    | inl there ↦ (let (db', e) = change_task-there there in inr (db', e, change_task-IsChange e))
    | inr gone ↦ inl (gone, change_task-missing gone)
  ]

-- A wait that was recorded.
pub record IsWait (now task_id : ℕ) (status : TaskStatus) (reason : String) (deadline : Option ℕ)
    (event_type : Option String) (db db' : Db) : Type 0 where
  pub row :
      (t : Task)
      → find_task task_id db ≡ some t
      → find_task task_id db'
        ≡ some (record t {
          status = status;
          heartbeat = some now;
          wait_reason = some reason;
          wait_deadline = deadline;
          updated = now;
        })
  pub others : (k : ℕ) → k ≢ task_id → find_task k db' ≡ find_task k db
  pub event : TaskEvent
  pub about : event.task_id ≡ task_id
  pub unnamed : event_type ≡ none → event.event_type ≡ ◌+++◌ (status_name status) "_started"
  pub named : (e : String) → event_type ≡ some e → str_eq e "" ≡ false → event.event_type ≡ e
  pub logged : db'.task_events ≡ db.task_events ++ event ∷ []

module _ (now task_id : ℕ) (status : TaskStatus) (reason : String) (deadline : Option ℕ)
    (event_type : Option String) (payload : Dict) (db : Db) where
  change_task-IsWait :
      (event_payload : Dict) (db' : Db)
      → change_task now task_id
          (waiting now status reason deadline)
          (waiting_event event_type status)
          event_payload
          db
        ≡ ok db'
      → IsWait now task_id status reason deadline event_type db db'
  change_task-IsWait event_payload db' h =
      let c =
        change_task-IsChange now task_id (waiting now status reason deadline) (λ t. refl) _ _ db
          h in
      record {
        row = c.row;
        others = c.others;
        event = record {
          task_id = task_id;
          event_type = waiting_event event_type status;
          payload = event_payload;
        };
        about = refl;
        unnamed = λ e. rw e refl;
        named = λ e given full. rw (given, full) refl;
        logged =
            change_task-logged now task_id (waiting now status reason deadline) (λ t. refl) _ _ db
              h;
      }

  change_task-waits :
      (event_payload : Dict)
      → let r =
          change_task now task_id
            (waiting now status reason deadline)
            (waiting_event event_type status)
            event_payload
            db in
        (task_exists task_id db ≡ false) × (r ≡ raise integrity_error)
        ⊎ ((db' : Db) × (r ≡ ok db') × IsWait now task_id status reason deadline event_type db db')
  change_task-waits event_payload =
      elim (change_task-cases now task_id (waiting now status reason deadline) (λ t. refl)
        (waiting_event event_type status) event_payload db) [
          | inl gone ↦ inl gone
          | inr (db', e, _) ↦ inr (db', e, change_task-IsWait event_payload db' e)
        ]

  -- `mark_task_waiting` raises ValueError for a status that is no waiting status. For a waiting
  -- status it breaks a foreign key if the task is not there; else it succeeds, gives the task that
  -- status, the reason and the deadline and a heartbeat of now, and keeps the rest of its row but
  -- `updated`; no other task changes, and one event of the task is added, of the given type, or of
  -- the status with "_started" where none is given.
  pub mark_task_waiting-cases :
      let r = mark_task_waiting now task_id status reason deadline event_type payload db in
      (is_waiting status ≡ false)
        × (r ≡ raise (value_error (◌+++◌ "Unsupported waiting status: " (status_name status))))
      ⊎ (is_waiting status ≡ true)
        × ((task_exists task_id db ≡ false) × (r ≡ raise integrity_error)
            ⊎ ((db' : Db) × (r ≡ ok db')
                × IsWait now task_id status reason deadline event_type db db'))
  unfolding mark_task_waiting
  mark_task_waiting-cases = elim (Bool-cases (is_waiting status)) [
    | inl good ↦ inr (
      good,
      rw good (
          change_task-waits (
            merge (entry "reason" (text reason) (entry "deadline" (optional_time deadline) empty))
              payload)),
    )
    | inr bad ↦ inl (bad, rw bad refl)
  ]

mark_task_waiting-row :
    (now task_id : ℕ) (status : TaskStatus) (reason : String) (deadline : Option ℕ)
    (event_type : Option String) (payload : Dict) (db : Db) {db' : Db}
    → mark_task_waiting now task_id status reason deadline event_type payload db ≡ ok db'
    → IsWait now task_id status reason deadline event_type db db'
mark_task_waiting-row now task_id status reason deadline event_type payload db {db' = db'} h =
    elim (mark_task_waiting-cases now task_id status reason deadline event_type payload db) [
      | inl (_, e) ↦ cc
      | inr (_, inl (_, e)) ↦ cc
      | inr (_, inr (d, e, w)) ↦
          let same : d ≡ db' = cc in
          subst (λ x. IsWait now task_id status reason deadline event_type db x) same w
    ]

mark_task_resume_pending-IsChange :
    (now task_id : ℕ) (reason event_type : String) (payload : Dict) (db : Db) {db' : Db}
    → mark_task_resume_pending now task_id reason event_type payload db ≡ ok db'
    → IsChange now task_id (resumed now resume_pending) db db'
unfolding mark_task_resume_pending
mark_task_resume_pending-IsChange now task_id reason event_type payload db h =
    change_task-IsChange now task_id (resumed now resume_pending) (λ t. refl) _ _ db h

-- If a task that is there is marked waiting and then pending resumption, and both calls succeed,
-- then it is pending resumption, it has no reason and no deadline, and all else in its row is as
-- it was before the wait, but its heartbeat and `updated`.
pub wait-resume :
    (now now' task_id : ℕ) (status : TaskStatus) (reason reason' event_type' : String)
    (deadline : Option ℕ) (event_type : Option String) (payload payload' : Dict) (db db1 db2 : Db)
    (t : Task)
    → find_task task_id db ≡ some t
    → mark_task_waiting now task_id status reason deadline event_type payload db ≡ ok db1
    → mark_task_resume_pending now' task_id reason' event_type' payload' db1 ≡ ok db2
    → find_task task_id db2
      ≡ some (record t {
        status = resume_pending;
        heartbeat = some now';
        wait_reason = none;
        wait_deadline = none;
        updated = now';
      })
wait-resume now now' task_id status reason reason' event_type' deadline event_type payload payload'
      db db1 db2 t there h k =
    (mark_task_resume_pending-IsChange now' task_id reason' event_type' payload' db1 k).row _ (
      (mark_task_waiting-row now task_id status reason deadline event_type payload db h).row t
        there)

pub complete_task-IsChange :
    (now task_id : ℕ) (o : Outcome) (db db' : Db)
    → complete_task now task_id o db ≡ ok db'
    → IsChange now task_id (completed o) db db'
unfolding complete_task
complete_task-IsChange now task_id o db db' h =
    let (_, _, e) = >>=-eq-ok (integer_column o.tokens_used) _ h in
    change_task-IsChange now task_id (completed o) (λ t. refl) _ _ db e

pub complete_task-there :
    (now task_id : ℕ) (o : Outcome) (db : Db)
    → leb o.tokens_used 2147483647 ≡ true
    → task_exists task_id db ≡ true
    → (db' : Db) × (complete_task now task_id o db ≡ ok db')
unfolding complete_task integer_column
complete_task-there now task_id o db fits there =
    rw fits (change_task-there now task_id (completed o) (λ t. refl) _ _ db there)
