-- ===== src/TaskQueue/Sweeps.antt =====
-- `maintenance_sweep` and `waiting_timeout_sweep`: tasks whose heartbeat or deadline has passed.
pub mod Expired
use Prim.Native.String.{◌++◌ as ◌+++◌}
use agentic_ops_platform.Prelude.{
  ℕ, ◌-◌, String, ◌≡◌, refl, Bool, ◌&&◌, ltb, Option, none, some, List, map, if◌then◌else◌,
  some_and, str_eq, select_where,
}
use agentic_ops_platform.Py.Text.{decimal}
use agentic_ops_platform.Py.Clock.{seconds, isoformat}
use agentic_ops_platform.Py.Json.{Json, null, num, text, empty, entry}
use agentic_ops_platform.Py.Result.{Result, ok, ◌>>=◌}
use agentic_ops_platform.Models.{Task, TaskEvent, Db}
use agentic_ops_platform.Models.Status.{lost, timed_out, is_running, is_waiting, status_name}
use agentic_ops_platform.Models.Sound.{IsSound}
use agentic_ops_platform.Models.Sweep.{sweep_rows, swept, sweep_rows-eq-swept}

abbrev ids : List Task → List ℕ
ids ts = map (λ (t : Task). t.id) ts

abbrev pub optional_time : Option ℕ → Json
optional_time none = null
optional_time (some t) = text (isoformat t)

-- Task.status == "running", Task.heartbeat < cutoff
abbrev pub heartbeat_expired : ℕ → ℕ → Task → Bool
heartbeat_expired now timeout t =
    is_running t.status && some_and t.heartbeat (λ h. ltb h (now - seconds timeout))

abbrev pub lose : ℕ → Task → Task
lose timeout t = record t {
  status = lost;
  error = some (◌+++◌ "Heartbeat expired (>" (◌+++◌ (decimal timeout) "s without update)"));
}

abbrev pub lost_event : ℕ → Task → TaskEvent
lost_event timeout t = record {
  task_id = t.id;
  event_type = "task_lost";
  payload =
      entry "timeout_sec" (num timeout) (entry "last_heartbeat" (optional_time t.heartbeat) empty);
}

unfoldable pub maintenance_sweep : ℕ → ℕ → Db → Result (List ℕ × Db)
unfolding sweep_rows
maintenance_sweep now timeout db =
    let lost_tasks = select_where (heartbeat_expired now timeout) db.tasks in
    sweep_rows now (lose timeout) (lost_event timeout) lost_tasks db >>= λ db'.
    ok (ids lost_tasks, db')

-- Task.status.in_(WAITING_STATUSES), Task.wait_deadline is not NULL and < now
abbrev pub deadline_passed : ℕ → Task → Bool
deadline_passed now t = is_waiting t.status && some_and t.wait_deadline (λ d. ltb d now)

-- task.wait_reason or task.status, which is "timed_out" by then
abbrev waited_for : Task → String
waited_for t = elim t.wait_reason [
  | none ↦ status_name timed_out
  | some r ↦ if str_eq r "" then status_name timed_out else r
]

abbrev pub time_out : Task → Task
time_out t = record t {
  status = timed_out;
  error = some (◌+++◌ "Waiting deadline expired for " (waited_for t));
}

abbrev pub optional_text : Option String → Json
optional_text none = null
optional_text (some s) = text s

abbrev pub timeout_event : Task → TaskEvent
timeout_event t = record {
  task_id = t.id;
  event_type = "task_wait_timed_out";
  payload =
      entry "wait_reason" (optional_text t.wait_reason)
        (entry "wait_deadline" (optional_time t.wait_deadline) empty);
}

unfoldable pub waiting_timeout_sweep : ℕ → Db → Result (List ℕ × Db)
unfolding sweep_rows
waiting_timeout_sweep now db =
    let expired = select_where (deadline_passed now) db.tasks in
    sweep_rows now time_out timeout_event expired db >>= λ db'. ok (ids expired, db')
