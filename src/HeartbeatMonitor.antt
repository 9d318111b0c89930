-- ===== src/HeartbeatMonitor.antt =====
-- session-manager/heartbeat.py: the two sweeps over running tasks. What `load_agent_yaml` reads for
-- a workflow is an argument.
pub mod Untouched
use Prim.Native.String.{◌++◌ as ◌+++◌}
use agentic_ops_platform.Prelude.{
  ℕ, ◌-◌, ◌*◌, String, Bool, true, false, not, ◌&&◌, ◌||◌, ◌==◌, ltb, leb, Option, none, some, List,
  [], ◌∷◌, ◌++◌, if◌then◌else◌, or_else, least, select_where, update_where, some_and,
}
use agentic_ops_platform.Py.Text.{decimal}
use agentic_ops_platform.Py.Clock.{seconds, isoformat}
use agentic_ops_platform.Py.Number.{int_of}
use agentic_ops_platform.Py.Json.{
  Json, Dict, null, num, float, text, obj, empty, entry, get?, either,
}
use agentic_ops_platform.Py.Result.{
  Result, ok, raise, value_error, type_error, attribute_error, ◌>>=◌,
}
use agentic_ops_platform.Models.{Task, TaskEvent, Session, Db}
use agentic_ops_platform.Models.Status.{lost, timed_out, is_running}
use agentic_ops_platform.Models.Store.{has_id, update_tasks, add_task_event}

abbrev pub default_lost_timeout_sec : ℕ
default_lost_timeout_sec = 300

-- config.get("runtime", {}) of a dictionary; another value there has no `get`
abbrev pub runtime_of : Json → Result Dict
runtime_of (obj config) = elim (get? "runtime" config) [
  | none ↦ ok empty
  | some (obj runtime) ↦ ok runtime
  | some _ ↦ raise attribute_error
]
runtime_of _ = ok empty

-- int(v), where a TypeError and a ValueError are caught
abbrev pub int_or_default : Result ℕ → Result ℕ
int_or_default (raise (value_error s)) = ok default_lost_timeout_sec
int_or_default (raise type_error) = ok default_lost_timeout_sec
int_or_default r = r

unfoldable pub workflow_runtime_timeout_sec : (String → Json) → String → Result ℕ
unfolding either get? int_of
workflow_runtime_timeout_sec load_agent_yaml workflow =
    runtime_of (either (load_agent_yaml workflow) (obj empty)) >>= λ runtime. int_or_default (
      int_of (
        or_else (get? "runtime_timeout_sec" runtime)
          (or_else (get? "lost_task_timeout_sec" runtime) (num default_lost_timeout_sec))))

unfoldable pub workflow_lost_timeout_sec : (String → Json) → String → Result ℕ
unfolding either get? int_of
workflow_lost_timeout_sec load_agent_yaml workflow =
    runtime_of (either (load_agent_yaml workflow) (obj empty)) >>= λ runtime.
    int_or_default
      (int_of (or_else (get? "lost_task_timeout_sec" runtime) (num default_lost_timeout_sec)))

-- .order_by(Session.started.desc()): PostgreSQL puts NULL first
abbrev pub started_later : Session → Session → Bool
started_later s r = elim s.started [
  | none ↦ (elim r.started [ none ↦ false | some b ↦ true ])
  | some a ↦ (elim r.started [ none ↦ false | some b ↦ ltb b a ])
]

unfoldable pub latest_task_session : ℕ → Db → Option Session
latest_task_session task_id db =
    least started_later
      (select_where (λ (s : Session). some_and s.task_id (λ k. k == task_id)) db.sessions)

-- What ends with a task: how, when, after how long, and why.
pub record Ending : Type 0 where
  pub status : String
  pub duration_sec : Option ℕ
  pub error : String

-- if db_session and db_session.ended is None
unfoldable pub end_session : ℕ → Ending → Option Session → Db → Db
end_session now e none db = db
end_session now e (some s) db = elim s.ended [
  | some at ↦ db
  | none ↦ record db {
    sessions =
        update_where (λ (r : Session). r.id == s.id)
          (λ r. record r {
            status = e.status;
            ended = some now;
            duration_sec = e.duration_sec;
            error = some e.error;
          })
          db.sessions;
  }
]

abbrev session_id_of : Option Session → Json
session_id_of none = null
session_id_of (some s) = text (decimal s.id)

-- The time since a session's start, if it has one.
abbrev age_of : ℕ → Option Session → Option ℕ
age_of now none = none
age_of now (some s) = elim s.started [ none ↦ none | some a ↦ some (now - a) ]

abbrev pub lost_row : String → Task → Task
lost_row error t = record t { status = lost; error = some error }

abbrev pub heartbeat_error : ℕ → String
heartbeat_error timeout = ◌+++◌ "Heartbeat expired (>" (◌+++◌ (decimal timeout) "s without update)")

unfoldable pub lose_task : ℕ → ℕ → ℕ → Task → Db → Result Db
unfolding latest_task_session end_session add_task_event decimal isoformat
lose_task now timeout heartbeat_at t db =
    let error = heartbeat_error timeout in
    let db1 = update_tasks now (has_id t.id) (lost_row error) db in
    let session = latest_task_session t.id db1 in
    add_task_event
      (record {
        task_id = t.id;
        event_type = "task_lost";
        payload = entry "timeout_sec" (num timeout) (
            entry "last_heartbeat" (text (isoformat heartbeat_at))
              (entry "session_id" (session_id_of session) empty));
      })
      (end_session now
        (record { status = "lost"; duration_sec = age_of now session; error = error }) session db1)

-- The ids of the tasks that were ended, and the database.
abbrev pub Swept : Type 0
Swept = List ℕ × Db

-- A task without a heartbeat, or with one after the cutoff, is passed over.
unfoldable pub lose_if_expired : ℕ → ℕ → Task → Swept → Option ℕ → Result Swept
unfolding lose_task
lose_if_expired now timeout t before none = ok before
lose_if_expired now timeout t before (some at) =
    if timeout == 0 || leb (now - seconds timeout) at
    then ok before
    else (lose_task now timeout at t before.1 >>= λ db. ok (before.0 ++ t.id ∷ [], db))

unfoldable pub lost_task : (String → Json) → ℕ → Task → Swept → Result Swept
unfolding workflow_lost_timeout_sec lose_if_expired
lost_task load_agent_yaml now t before =
    workflow_lost_timeout_sec load_agent_yaml t.workflow >>= λ timeout.
    lose_if_expired now timeout t before t.heartbeat

-- for task in running_tasks
unfoldable pub for_tasks : (Task → Swept → Result Swept) → List Task → Swept → Result Swept
for_tasks step [] before = ok before
for_tasks step (t ∷ ts) before = step t before >>= λ after. for_tasks step ts after

abbrev pub running_tasks : Db → List Task
running_tasks db = select_where (λ (t : Task). is_running t.status) db.tasks

unfoldable pub lost_task_sweep : (String → Json) → ℕ → Db → Result Swept
unfolding lost_task for_tasks
lost_task_sweep load_agent_yaml now db =
    for_tasks (lost_task load_agent_yaml now) (running_tasks db) ([], db)

-- db_session.started if there is one, or task.created
abbrev pub started_at : Task → Option Session → ℕ
started_at t none = t.created
started_at t (some s) = or_else s.started t.created

abbrev pub timed_out_row : String → ℕ → Task → Task
timed_out_row error runtime t = record t {
  status = timed_out;
  error = some error;
  duration_sec = some runtime;
}

abbrev pub runtime_error : ℕ → String
runtime_error timeout =
    ◌+++◌ "Runtime exceeded configured timeout (>" (◌+++◌ (decimal timeout) "s)")

unfoldable pub time_out_task : ℕ → ℕ → Task → Option Session → Db → Result Db
unfolding end_session add_task_event decimal isoformat
time_out_task now timeout t session db =
    let error = runtime_error timeout in
    let runtime = now - started_at t session in
    let db1 = update_tasks now (has_id t.id) (timed_out_row error runtime) db in
    add_task_event
      (record {
        task_id = t.id;
        event_type = "task_timed_out";
        payload = entry "timeout_sec" (num timeout) (
            entry "runtime_sec" (float runtime) (
              entry "started_at" (text (isoformat (started_at t session)))
                (entry "session_id" (session_id_of session) empty)));
      })
      (end_session now (record { status = "timed_out"; duration_sec = some runtime; error = error })
        session db1)

unfoldable pub overrunning_task : (String → Json) → ℕ → Task → Swept → Result Swept
unfolding workflow_runtime_timeout_sec latest_task_session time_out_task
overrunning_task load_agent_yaml now t before =
    workflow_runtime_timeout_sec load_agent_yaml t.workflow >>= λ timeout.
    let session = latest_task_session t.id before.1 in
    if timeout == 0 || leb (now - started_at t session) (seconds timeout)
    then ok before
    else (time_out_task now timeout t session before.1 >>= λ db. ok (before.0 ++ t.id ∷ [], db))

unfoldable pub runtime_timeout_sweep : (String → Json) → ℕ → Db → Result Swept
unfolding overrunning_task for_tasks
runtime_timeout_sweep load_agent_yaml now db =
    for_tasks (overrunning_task load_agent_yaml now) (running_tasks db) ([], db)
