-- ===== src/Models.antt =====
-- shared/lib/models.py: the rows of the tables that the modelled code reads and writes, and the
-- database as one record of tables. A UUID is a number, a moment is a number of microseconds, and
-- the columns that no modelled code reads are left out.
pub mod Status
pub mod Store
pub mod Sound
pub mod Sweep
pub mod Rows
use agentic_ops_platform.Prelude.{ℕ, String, Bool, Option, List}
use agentic_ops_platform.Py.Json.{Json, Dict}
use Status.{TaskStatus}

pub record Task : Type 0 where
  pub id : ℕ
  pub workflow : String
  pub status : TaskStatus
  pub prompt : String
  pub task_metadata : Dict
  pub channel : Option String
  pub message_channel : Option String
  pub message_thread : Option String
  pub container_id : Option String
  pub heartbeat : Option ℕ
  pub wait_reason : Option String
  pub wait_deadline : Option ℕ
  pub result : Json
  pub tokens_used : ℕ
  pub duration_sec : Option ℕ
  pub error : Option String
  pub coalesce_key : Option String
  pub archived_at : Option ℕ
  pub created : ℕ
  pub updated : ℕ

pub record TaskEvent : Type 0 where
  pub task_id : ℕ
  pub event_type : String
  pub payload : Dict

pub record Agent : Type 0 where
  pub id : ℕ
  pub name : String
  pub config : Json
  pub provisioned : Bool
  pub paused : Bool

pub record Session : Type 0 where
  pub id : ℕ
  pub task_id : Option ℕ
  pub status : String
  pub started : Option ℕ
  pub ended : Option ℕ
  pub duration_sec : Option ℕ
  pub error : Option String
  pub archived_at : Option ℕ

pub record SessionEvent : Type 0 where
  pub id : ℕ
  pub task_id : Option ℕ
  pub event_type : String
  pub timestamp : ℕ
  pub payload : Json
  pub archived_at : Option ℕ

pub record Approval : Type 0 where
  pub id : ℕ
  pub task_id : ℕ
  pub workflow : Option String
  pub approval_kind : String
  pub tool_name : String
  pub status : String
  pub request_preview : Option String
  pub reason : Option String
  pub approval_metadata : Dict
  pub requested_at : ℕ
  pub resolved_at : Option ℕ
  pub archived_at : Option ℕ
  pub created_at : ℕ
  pub updated_at : ℕ

pub record Schedule : Type 0 where
  pub id : ℕ
  pub agent_id : ℕ
  pub name : String
  pub cron : String
  pub prompt : Option String
  pub enabled : Bool
  pub last_run : Option ℕ
  pub next_run : Option ℕ

pub record BackgroundJobRun : Type 0 where
  pub id : ℕ
  pub job_type : String
  pub scope : Option String
  pub trigger : Option String
  pub knowledge_source_id : Option ℕ
  pub knowledge_source_version_id : Option ℕ
  pub status : String
  pub started_at : ℕ
  pub heartbeat_at : Option ℕ
  pub finished_at : Option ℕ
  pub duration_sec : Option ℕ
  pub summary : Dict
  pub warnings : List String
  pub error : Option String

pub record Db : Type 0 where
  pub tasks : List Task
  pub task_events : List TaskEvent
  pub agents : List Agent
  pub sessions : List Session
  pub session_events : List SessionEvent
  pub approvals : List Approval
  pub schedules : List Schedule
  pub job_runs : List BackgroundJobRun
