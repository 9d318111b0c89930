-- ===== src/TaskQueue/Lifecycle.antt =====
-- `heartbeat`, `mark_task_waiting`, `mark_task_resume_pending`, `mark_task_running`,
-- and `complete_task`: an UPDATE of one task, then an event.
pub mod Effects
use Prim.Native.String.{◌++◌ as ◌+++◌}
use agentic_ops_platform.Prelude.{ℕ, String, ◌≡◌, not, str_eq, Option, none, some, if◌then◌else◌}
use agentic_ops_platform.Py.Clock.{isoformat}
use agentic_ops_platform.Py.Json.{Json, Dict, null, num, float, text, empty, entry, merge}
use agentic_ops_platform.Py.Result.{Result, raise, value_error, ◌>>=◌}
use agentic_ops_platform.Models.{Task, TaskEvent, Db}
use agentic_ops_platform.Models.Status.{
  TaskStatus, running, resume_pending, is_waiting, status_name,
}
use agentic_ops_platform.Models.Store.{has_id, update_tasks, add_task_event, integer_column}

-- An UPDATE of the task, and then its event: how each function of this file goes on.
abbrev pub change_task : ℕ → ℕ → (Task → Task) → String → Dict → Db → Result Db
change_task now task_id change event_type payload db =
    add_task_event (record { task_id = task_id; event_type = event_type; payload = payload })
      (update_tasks now (has_id task_id) change db)

-- a text, or None
abbrev optional_text : Option String → Json
optional_text none = null
optional_text (some s) = text s

abbrev pub optional_time : Option ℕ → Json
optional_time none = null
optional_time (some t) = text (isoformat t)

abbrev optional_float : Option ℕ → Json
optional_float none = null
optional_float (some n) = float n

unfoldable pub heartbeat : ℕ → ℕ → Db → Db
heartbeat now task_id db =
    update_tasks now (has_id task_id) (λ (t : Task). record t { heartbeat = some now }) db

-- event_type or f"{status}_started"
abbrev pub waiting_event : Option String → TaskStatus → String
waiting_event none status = ◌+++◌ (status_name status) "_started"
waiting_event (some e) status = if str_eq e "" then ◌+++◌ (status_name status) "_started" else e

abbrev pub waiting : ℕ → TaskStatus → String → Option ℕ → Task → Task
waiting now status reason deadline t = record t {
  status = status;
  heartbeat = some now;
  wait_reason = some reason;
  wait_deadline = deadline;
}

unfoldable pub mark_task_waiting :
    ℕ → ℕ → TaskStatus → String → Option ℕ → Option String → Dict → Db → Result Db
unfolding add_task_event
mark_task_waiting now task_id status reason deadline event_type payload db =
    if not (is_waiting status)
    then raise (value_error (◌+++◌ "Unsupported waiting status: " (status_name status)))
    else change_task now task_id (waiting now status reason deadline)
        (waiting_event event_type status)
        (merge (entry "reason" (text reason) (entry "deadline" (optional_time deadline) empty))
          payload)
        db

-- The wait is over: the task goes on with this status.
abbrev pub resumed : ℕ → TaskStatus → Task → Task
resumed now status t = record t {
  status = status;
  heartbeat = some now;
  wait_reason = none;
  wait_deadline = none;
}

unfoldable pub mark_task_resume_pending : ℕ → ℕ → String → String → Dict → Db → Result Db
unfolding add_task_event
mark_task_resume_pending now task_id reason event_type payload db =
    change_task now task_id (resumed now resume_pending) event_type
      (merge (entry "reason" (text reason) empty) payload) db

unfoldable pub mark_task_running : ℕ → ℕ → String → String → Dict → Db → Result Db
unfolding add_task_event
mark_task_running now task_id reason event_type payload db =
    change_task now task_id (resumed now running) event_type
      (merge (entry "reason" (text reason) empty) payload) db

-- What `complete_task` is told of the end of a task.
pub record Outcome : Type 0 where
  pub status : TaskStatus
  pub result : Json
  pub tokens_used : ℕ
  pub duration_sec : Option ℕ
  pub error : Option String

abbrev pub completed : Outcome → Task → Task
completed o t = record t {
  status = o.status;
  result = o.result;
  tokens_used = o.tokens_used;
  duration_sec = o.duration_sec;
  error = o.error;
}

unfoldable pub complete_task : ℕ → ℕ → Outcome → Db → Result Db
unfolding add_task_event integer_column
complete_task now task_id o db = integer_column o.tokens_used >>= λ tokens.
    change_task now task_id (completed o) (◌+++◌ "task_" (status_name o.status))
      (entry "result" o.result (
        entry "tokens_used" (num tokens) (
          entry "duration_sec" (optional_float o.duration_sec)
            (entry "error" (optional_text o.error) empty))))
      db
