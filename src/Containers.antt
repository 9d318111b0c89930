-- ===== src/Containers.antt =====
-- session-manager/container_lifecycle.py: which runtimes are live, how the start of a runtime is
-- recorded, and how a task ends when its runtime has exited. What the launcher lists and whether it
-- starts or removes a runtime are arguments, as are the text of a UUID and its parser. The
-- environment of a runtime, its bundle and the notice of the end are left out.
pub mod Exit
pub mod Judged
pub mod Settled
use agentic_ops_platform.Prelude.{
  ℕ, String, Bool, true, false, not, ◌&&◌, Option, none, some, List, [], ◌∷◌, ◌++◌, str_eq,
  if◌then◌else◌, any,
}
use agentic_ops_platform.Py.Json.{null}
use agentic_ops_platform.Py.Result.{Result, ok, raise, integrity_error, ◌>>=◌}
use agentic_ops_platform.Models.{Task, Session, Db}
use agentic_ops_platform.Models.Status.{failed}
use agentic_ops_platform.Models.Store.{has_id, update_tasks, may_refer}
use agentic_ops_platform.TaskQueue.Lifecycle.{Outcome, complete_task}

-- RuntimeSessionStatus; no exit code stands for None and for -1
pub record RuntimeStatus : Type 0 where
  pub id : String
  pub task_id : String
  pub workflow : String
  pub status : String
  pub exit_code : Option ℕ
  pub logs : String

-- container_id and status.id != container_id, the other way round
abbrev pub is_container : Option String → String → Bool
is_container none id = true
is_container (some c) id = if str_eq c "" then true else str_eq id c

abbrev pub is_live : String → Option String → RuntimeStatus → Bool
is_live task_id container_id r =
    str_eq r.task_id task_id && is_container container_id r.id && str_eq r.status "running"

unfoldable pub has_live_runtime : List RuntimeStatus → String → Option String → Bool
has_live_runtime runtimes task_id container_id = any (is_live task_id container_id) runtimes

-- _running_containers
abbrev pub Running : Type 0
Running = List (String × String)

unfoldable pub track : String → String → Running → Running
track task_id container [] = (task_id, container) ∷ []
track task_id container ((t, c) ∷ rest) =
    let later = track task_id container rest in
    if str_eq t task_id then (t, container) ∷ rest else (t, c) ∷ later

-- _running_containers.pop(task_id, None)
unfoldable pub untrack : String → Running → Running
untrack task_id [] = []
untrack task_id ((t, c) ∷ rest) =
    let later = untrack task_id rest in if str_eq t task_id then rest else (t, c) ∷ later

-- INSERT of a session, whose task must be there
unfoldable pub add_session : Session → Db → Result Db
add_session s db =
    if may_refer s.task_id db.tasks
    then ok (record db { sessions = db.sessions ++ s ∷ [] })
    else raise integrity_error

abbrev pub new_session : ℕ → ℕ → ℕ → Session
new_session new_id now task_id = record {
  id = new_id;
  task_id = some task_id;
  status = "running";
  started = some now;
  ended = none;
  duration_sec = none;
  error = none;
  archived_at = none;
}

abbrev pub in_container : String → Task → Task
in_container c t = record t { container_id = some c }

abbrev pub ended_with : String → Outcome
ended_with error = record {
  status = failed;
  result = null;
  tokens_used = 0;
  duration_sec = none;
  error = some error;
}

-- The database part of a start: the container of the task, and a session.
unfoldable pub record_start : ℕ → ℕ → String → Task → Db → Result Db
unfolding add_session
record_start new_id now container t db =
    add_session (new_session new_id now t.id)
      (update_tasks now (has_id t.id) (in_container container) db)

-- A failure before the commit leaves the database as it was, and fails the task.
unfoldable pub started_or_failed : ℕ → String → Task → Db → Result Db → Result (Option String × Db)
unfolding complete_task
started_or_failed now container t db (ok db') = ok (some container, db')
started_or_failed now container t db (raise e) =
    complete_task now t.id (ended_with "Failed to spawn runtime") db >>= λ db'. ok (none, db')

-- What follows the launch, which has given the id of a runtime or nothing for an exception.
unfoldable pub after_launch : Option String → ℕ → ℕ → Task → Db → Result (Option String × Db)
unfolding record_start started_or_failed complete_task
after_launch none new_id now t db =
    complete_task now t.id (ended_with "Failed to spawn runtime") db >>= λ db'. ok (none, db')
after_launch (some container) new_id now t db =
    started_or_failed now container t db (record_start new_id now container t db)

unfoldable pub spawn_agent_session :
    (Task → Option String) → ℕ → ℕ → Task → Db → Result (Option String × Db)
unfolding after_launch
spawn_agent_session launch new_id now t db = after_launch (launch t) new_id now t db
