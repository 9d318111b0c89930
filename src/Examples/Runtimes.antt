-- ===== src/Examples/Runtimes.antt =====
-- The theorem on exited runtimes, applied to a task that has reported its end.
use agentic_ops_platform.Prelude.{◌≡◌, refl, none, some, [], ◌∷◌}
use agentic_ops_platform.Prelude.Least.{least}
use agentic_ops_platform.Prelude.Sorted.{sort_by}
use agentic_ops_platform.Py.Json.{Dict, null, num, float, obj, empty, entry, get?, truthy, either}
use agentic_ops_platform.Py.Number.{int_of}
use agentic_ops_platform.Py.Result.{ok}
use agentic_ops_platform.Models.{Task, Session, SessionEvent, TaskEvent, Db}
use agentic_ops_platform.Models.Status.{succeeded, status_name}
use agentic_ops_platform.Models.Store.{add_task_event}
use agentic_ops_platform.TaskQueue.Lifecycle.{complete_task}
use agentic_ops_platform.Containers.{RuntimeStatus, new_session}
use agentic_ops_platform.Containers.Exit.{
  latest_event, lifecycle_events, lifecycle_data, token_count, by_exit_code, verdict, settle,
}
use agentic_ops_platform.Containers.Settled.{IsSettled, settle-IsSettled}
use agentic_ops_platform.Examples.{running_ops, queued_ops, queued_dev, waiting_dev, some_db}

abbrev usage : Dict
usage = entry "input_tokens" (num 3) (entry "output_tokens" (num 4) empty)

abbrev reported : SessionEvent
reported = record {
  id = 6;
  task_id = some 1;
  event_type = "session_complete";
  timestamp = 80;
  payload = obj usage;
  archived_at = none;
}

abbrev exited_db : Db
exited_db = record some_db { sessions = new_session 70 40 1 ∷ []; session_events = reported ∷ [] }

abbrev exited : RuntimeStatus
exited = record {
  id = "c1";
  task_id = "1";
  workflow = "ops";
  status = "exited";
  exit_code = some 0;
  logs = "done";
}

abbrev ended_task : Task
ended_task = record running_ops {
  status = succeeded;
  result = obj usage;
  tokens_used = 7;
  duration_sec = some 60;
  updated = 100;
}

abbrev ended_session : Session
ended_session = record (new_session 70 40 1) {
  status = "succeeded";
  ended = some 100;
  duration_sec = some 60;
}

abbrev ended_event : TaskEvent
ended_event = record {
  task_id = 1;
  event_type = "task_succeeded";
  payload =
      entry "result" (obj usage)
        (entry "tokens_used" (num 7) (entry "duration_sec" (float 60) (entry "error" null empty)));
}

abbrev settled_db : Db
settled_db = record exited_db {
  tasks = ended_task ∷ queued_ops ∷ queued_dev ∷ waiting_dev ∷ [];
  task_events = ended_event ∷ [];
  sessions = ended_session ∷ [];
}

settles : settle 100 exited 1 exited_db ≡ ok settled_db
unfolding settle lifecycle_events sort_by latest_event least lifecycle_data truthy token_count get?
    either int_of verdict by_exit_code complete_task add_task_event status_name
settles = refl

settle-IsSettled_example : IsSettled 100 exited 1 exited_db settled_db
settle-IsSettled_example =
    settle-IsSettled 100 exited 1 exited_db settled_db running_ops refl settles
