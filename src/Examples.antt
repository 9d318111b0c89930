-- ===== src/Examples.antt =====
-- The rows that the examples of the modules below share.
pub mod Queue
pub mod Listing
pub mod Answers
pub mod Admission
pub mod Alerts
pub mod Decisions
pub mod Prompts
pub mod Heartbeats
pub mod Retention
pub mod Messages
pub mod Events
pub mod Backfills
pub mod Cron
pub mod Runtimes
pub mod Traces
use agentic_ops_platform.Prelude.{ℕ, String, none, some, [], ◌∷◌, arith}
use agentic_ops_platform.Py.Json.{null, empty}
use agentic_ops_platform.Models.{Task, Db}
use agentic_ops_platform.Models.Status.{TaskStatus, queued, running, waiting_approval}
use agentic_ops_platform.Models.Sound.{IsSound}

abbrev pub a_task : ℕ → String → TaskStatus → ℕ → Task
a_task id workflow status created = record {
  id = id;
  workflow = workflow;
  status = status;
  prompt = "check the disks";
  task_metadata = empty;
  channel = none;
  message_channel = none;
  message_thread = none;
  container_id = none;
  heartbeat = some created;
  wait_reason = none;
  wait_deadline = some created;
  result = null;
  tokens_used = 0;
  duration_sec = none;
  error = none;
  coalesce_key = none;
  archived_at = none;
  created = created;
  updated = created;
}

abbrev pub running_ops : Task
running_ops = a_task 1 "ops" running 10

abbrev pub queued_ops : Task
queued_ops = a_task 2 "ops" queued 20

abbrev pub queued_dev : Task
queued_dev = a_task 3 "dev" queued 30

abbrev pub waiting_dev : Task
waiting_dev = a_task 4 "dev" waiting_approval 40

abbrev pub some_db : Db
some_db = record {
  tasks = running_ops ∷ queued_ops ∷ queued_dev ∷ waiting_dev ∷ [];
  task_events = [];
  agents = [];
  sessions = [];
  session_events = [];
  approvals = [];
  schedules = [];
  job_runs = [];
}

pub some_db-IsSound : IsSound some_db
some_db-IsSound = record {
  unique_ids = λ k. ground arith;
  task_events_refer = tt;
  session_events_refer = tt;
  unique_approvals = λ k. ground arith;
  approvals_refer = tt;
}
