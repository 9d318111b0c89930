-- ===== src/Scheduler/Firing.antt =====
-- gateway/scheduler.py, `_schedule_job_handler`: a cron job fires.
use agentic_ops_platform.Prelude.{
  ℕ, String, Bool, ◌&&◌, ◌==◌, Option, none, some, List, [], ◌∷◌, str_eq, if◌then◌else◌,
  update_where,
}
use agentic_ops_platform.Py.Json.{Dict, text, empty, entry}
use agentic_ops_platform.Py.Result.{Result, ok, raise}
use agentic_ops_platform.Models.{Task, Agent, Schedule, Db}
use agentic_ops_platform.TaskQueue.Create.{Packages, Request, create_task}
use agentic_ops_platform.Scheduler.{joined}
use agentic_ops_platform.Scheduler.Cron.{Triggers, next_run_at}

abbrev pub is_due : String → String → Schedule → Agent → Bool
is_due agent_name schedule_name s a =
    str_eq a.name agent_name && str_eq s.name schedule_name && s.enabled

abbrev pub scheduled_metadata : String → Dict
scheduled_metadata schedule_name =
    entry "schedule" (text schedule_name) (entry "triggered_by" (text "scheduler") empty)

abbrev pub scheduled_request : ℕ → String → String → String → Option String → Request
scheduled_request new_id agent_name schedule_name prompt message_channel = record {
  workflow = agent_name;
  prompt = prompt;
  channel = some "schedule";
  metadata = scheduled_metadata schedule_name;
  message_channel = message_channel;
  message_thread = none;
  coalesce_key = none;
  coalesce_window_sec = 0;
  new_id = new_id;
}

-- sched.last_run and sched.next_run
abbrev pub ran : ℕ → Option ℕ → Schedule → Schedule
ran now next s = record s { last_run = some now; next_run = next }

abbrev pub is_schedule : ℕ → Schedule → Bool
is_schedule k s = s.id == k

abbrev pub set_runs : ℕ → ℕ → Option ℕ → Db → Db
set_runs now k next db = record db {
  schedules = update_where (is_schedule k) (ran now next) db.schedules;
}

abbrev pub write_runs : ℕ → Schedule → Result (Option ℕ) → Db → Db
write_runs now s (raise e) db = db
write_runs now s (ok next) db = set_runs now s.id next db

-- `create_task` commits; what follows may still raise, and then the schedule's row is not written.
unfoldable pub after_task : Triggers → ℕ → Schedule → Result (Task × Db) → Db → Db
unfolding next_run_at
after_task triggers now s (raise e) db = db
after_task triggers now s (ok (t, db')) db = write_runs now s (next_run_at triggers s.cron now) db'

-- What the query finds: nothing, one row, or more, which `one_or_none` refuses. The caller logs an
-- exception, so that what was committed before it stays.
unfoldable pub fire_rows : Packages → Triggers → ℕ → Request → List (Schedule × Agent) → Db → Db
unfolding create_task after_task
fire_rows packages triggers now r [] db = db
fire_rows packages triggers now r ((s, a) ∷ []) db =
    if a.paused then db else after_task triggers now s (create_task packages now r db) db
fire_rows packages triggers now r (p ∷ q ∷ rest) db = db

unfoldable pub schedule_job_handler :
    Packages → Triggers → ℕ → ℕ → String → String → String → Option String → Db → Db
unfolding fire_rows
schedule_job_handler packages triggers now new_id agent_name schedule_name prompt channel db =
    fire_rows packages triggers now
      (scheduled_request new_id agent_name schedule_name prompt channel)
      (joined (is_due agent_name schedule_name) db db.schedules) db
