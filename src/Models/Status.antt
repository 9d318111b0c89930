-- ===== src/Models/Status.antt =====
-- The enum `task_status` of shared/lib/models.py, and the tuples of statuses at the top of
-- shared/lib/task_queue.py.
use agentic_ops_platform.Prelude.{String, Bool, true, false}

pub data TaskStatus : Type 0 where
  queued running waiting_approval waiting_user_input resume_pending : TaskStatus
  succeeded failed lost timed_out : TaskStatus

-- The text of a status, as the enum spells it.
unfoldable pub status_name : TaskStatus → String
status_name queued = "queued"
status_name running = "running"
status_name waiting_approval = "waiting_approval"
status_name waiting_user_input = "waiting_user_input"
status_name resume_pending = "resume_pending"
status_name succeeded = "succeeded"
status_name failed = "failed"
status_name lost = "lost"
status_name timed_out = "timed_out"

abbrev pub is_running : TaskStatus → Bool
is_running running = true
is_running _ = false

abbrev pub is_resume_pending : TaskStatus → Bool
is_resume_pending resume_pending = true
is_resume_pending _ = false

-- status in RUNNABLE_STATUSES
abbrev pub is_runnable : TaskStatus → Bool
is_runnable resume_pending = true
is_runnable queued = true
is_runnable _ = false

-- status in WAITING_STATUSES
abbrev pub is_waiting : TaskStatus → Bool
is_waiting waiting_approval = true
is_waiting waiting_user_input = true
is_waiting _ = false

-- status in TERMINAL_STATUSES
abbrev pub is_terminal : TaskStatus → Bool
is_terminal succeeded = true
is_terminal failed = true
is_terminal lost = true
is_terminal timed_out = true
is_terminal _ = false

-- status in ["queued", "running", "resume_pending", *WAITING_STATUSES], the statuses that an
-- alert may be coalesced into
abbrev pub is_open : TaskStatus → Bool
is_open queued = true
is_open running = true
is_open resume_pending = true
is_open status = is_waiting status
