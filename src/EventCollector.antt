-- ===== src/EventCollector.antt =====
-- gateway/event_collector.py: `receive_event`, which stores an event of a session and moves its
-- task. `UUID(s)` and `datetime.fromisoformat(s)` are arguments that give nothing where they raise.
pub mod Tokens
pub mod Moves
pub mod Ends
pub mod Received
pub mod Kept
pub mod Waits
use agentic_ops_platform.Prelude.{
  ℕ, ◌+◌, ◌*◌, leb, String, Bool, true, false, not, ◌&&◌, ◌||◌, ◌==◌, Option, none, some, List, [],
  if◌then◌else◌, str_eq, some_and, or_else,
}
use agentic_ops_platform.Py.Clock.{seconds}
use agentic_ops_platform.Py.Json.{Json, Dict, null, flag, num, float, text, obj, get, either, str}
use agentic_ops_platform.Py.Result.{
  Result, ok, raise, value_error, attribute_error, data_error, ◌>>=◌,
}
use agentic_ops_platform.Models.{Task, SessionEvent, Approval, Db}
use agentic_ops_platform.Models.Status.{
  TaskStatus, waiting_approval, waiting_user_input, resume_pending, succeeded, failed, timed_out,
  is_waiting,
}
use agentic_ops_platform.Models.Store.{
  integer_column, has_id, update_tasks, find_task, add_session_event,
}
use agentic_ops_platform.Settings.{Settings}
use agentic_ops_platform.Approvals.{is_pending, apply_approval_event}
use agentic_ops_platform.ApprovalBroker.Prompt.{Clients, Post}
use agentic_ops_platform.ApprovalBroker.Delivery.{
  Delivery, has_channel, unchanged, ensure_approval_prompt_posted,
}
use Tokens.{Parsers, count_of, extract_incremental_tokens, monotonic_token_total}

-- EventPayload, and the ids that the database chooses for new rows
pub record EventPayload : Type 0 where
  pub task_id : String
  pub event_type : String
  pub timestamp : String
  pub payload : Dict
  pub new_event_id : ℕ
  pub new_approval_id : ℕ

-- What the handler calls.
pub record Context : Type 0 where
  pub parse_uuid : String → Option ℕ
  pub fromisoformat : String → Option ℕ
  pub parsers : Parsers
  pub clients : Clients
  pub settings : Settings

unfoldable pub can_deliver_approval_prompt : Settings → Option Task → Bool
unfolding has_channel
can_deliver_approval_prompt s none = false
can_deliver_approval_prompt s (some t) =
    not (str_eq s.api_url "") && not (str_eq s.bot_token "") && has_channel t

-- The change of a task's row, beside the heartbeat.
abbrev pub wait_operator : ℕ → Task → Task
wait_operator now t = record t {
  status = waiting_approval;
  wait_reason = some "operator_approval";
  wait_deadline = some (now + seconds 3600);
}

abbrev pub wait_user : ℕ → String → Task → Task
wait_user now reason t = record t {
  status = waiting_user_input;
  wait_reason = some reason;
  wait_deadline = some (now + seconds 3600);
}

abbrev pub resume : Task → Task
resume t = record t { status = resume_pending; wait_reason = none; wait_deadline = none }

-- A value for a column of floats.
unfoldable pub float_column : Json → Result (Option ℕ)
float_column null = ok none
float_column (num n) = ok (some (n * 1000000))
float_column (float n) = ok (some n)
float_column (flag b) = ok (some (if b then 1000000 else 0))
float_column _ = raise data_error

abbrev pub count_tokens : ℕ → Task → Task
count_tokens n t = record t { tokens_used = n }

-- int(event.data.get("input_tokens", 0) or 0) + ..., of which both are converted
unfoldable pub session_tokens : Dict → Result ℕ
unfolding count_of get
session_tokens payload = count_of (get "input_tokens" payload) >>= λ i.
    count_of (get "output_tokens" payload) >>= λ o. ok (i + o)

abbrev pub ended : TaskStatus → Dict → Option ℕ → Option String → ℕ → Task → Task
ended status payload duration error tokens t = record t {
  status = status;
  result = obj payload;
  tokens_used = tokens;
  duration_sec = duration;
  error = error;
}

-- str(event.data.get("error") or default)
unfoldable pub error_text : String → Dict → String
unfolding str either get
error_text default payload = str (either (get "error" payload) (text default))

-- The task's row as it was read; the handlers that look into it fail without one.
abbrev pub read_task : Option Task → Result Task
read_task none = raise attribute_error
read_task (some t) = ok t

-- The total of tokens, where a count is not zero.
unfoldable pub new_total : ℕ → Option Task → Result (Option ℕ)
unfolding integer_column
new_total n task =
    if n == 0
    then ok none
    else (read_task task >>= λ read.
        integer_column (monotonic_token_total read.tokens_used n) >>= λ total. ok (some total))

-- Without a total the column stays.
unfoldable pub ends_badly : TaskStatus → String → Dict → Option Task → Result (Task → Task)
unfolding session_tokens float_column new_total error_text get
ends_badly status default payload task = session_tokens payload >>= λ n.
    new_total n task >>= λ total. float_column (get "duration_sec" payload) >>= λ d. ok (λ t.
      ended status payload d (some (error_text default payload)) (or_else total t.tokens_used) t)

unfoldable pub completes : Dict → Option Task → Result (Task → Task)
unfolding session_tokens float_column integer_column get
completes payload task = read_task task >>= λ read.
    if is_waiting read.status
    then ok (λ t. t)
    else session_tokens payload >>= λ n.
        integer_column (monotonic_token_total read.tokens_used n) >>= λ total.
        float_column (get "duration_sec" payload) >>= λ d. ok (ended succeeded payload d none total)

-- if incremental_tokens is not None
unfoldable pub count_observed : Option Task → Option ℕ → Result (Task → Task)
unfolding integer_column
count_observed task none = ok (λ t. t)
count_observed task (some n) = read_task task >>= λ read.
    integer_column (monotonic_token_total read.tokens_used n) >>= λ total. ok (count_tokens total)

unfoldable pub counts : Parsers → Dict → Option Task → Result (Task → Task)
unfolding extract_incremental_tokens count_observed
counts p payload task = extract_incremental_tokens p payload >>= λ o. count_observed task o

-- What an event of each kind does to the task's row, beside the heartbeat.
unfoldable pub task_update :
    Parsers → ℕ → String → Dict → Option Task → Option Approval → Result (Task → Task)
unfolding completes counts ends_badly
task_update p now event_type payload task approval =
    if str_eq event_type "approval_requested"
    then ok (if some_and approval is_pending then wait_operator now else λ t. t)
    else if str_eq event_type "user_question_requested"
    then ok (wait_user now "ask_user_question")
    else if str_eq event_type "user_question_delivery_failed"
    then ok (wait_user now "ask_user_question_delivery_failed")
    else if str_eq event_type "user_question_resolved" || str_eq event_type "approval_wait_resolved"
    then ok resume
    else if str_eq event_type "conversation_batch"
    then counts p payload task
    else if str_eq event_type "session_complete"
    then completes payload task
    else if str_eq event_type "session_error"
    then ends_badly failed "Session error" payload task
    else if str_eq event_type "session_timeout"
    then ends_badly timed_out "Session timed out" payload task
    else ok (λ t. t)

abbrev pub with_heartbeat : ℕ → (Task → Task) → Task → Task
with_heartbeat now change t = let u = change t in record u { heartbeat = some now }

unfoldable pub prompt_if_asked :
    Context → ℕ → String → Option Task → Option Approval → Db → Delivery
unfolding can_deliver_approval_prompt ensure_approval_prompt_posted
prompt_if_asked c now event_type task approval db =
    if str_eq event_type "approval_requested" && can_deliver_approval_prompt c.settings task
    then ensure_approval_prompt_posted c.clients c.settings now task approval db
    else unchanged approval db

abbrev pub stored_event : Option ℕ → ℕ → EventPayload → SessionEvent
stored_event task_id timestamp e = record {
  id = e.new_event_id;
  task_id = task_id;
  event_type = e.event_type;
  timestamp = timestamp;
  payload = obj e.payload;
  archived_at = none;
}

-- The event names a task.
unfoldable pub move_task :
    Context → ℕ → ℕ → ℕ → EventPayload → Option Task → Db → Result (Db × List Post)
unfolding apply_approval_event prompt_if_asked task_update
move_task c now task_id timestamp e task db =
    apply_approval_event task (some task_id) e.event_type timestamp e.payload e.new_approval_id now
      db
    >>= λ p.
        let delivery = prompt_if_asked c now e.event_type task p.0 p.1 in
        task_update c.parsers now e.event_type e.payload task delivery.approval >>= λ change. ok (
          update_tasks now (has_id task_id) (with_heartbeat now change) delivery.left,
          delivery.posts,
        )

-- An event whose task id is empty or no UUID is stored without a task.
abbrev pub task_uuid : Context → EventPayload → Option ℕ
task_uuid c e = if str_eq e.task_id "" then none else c.parse_uuid e.task_id

unfoldable pub after_event :
    Context → ℕ → ℕ → EventPayload → Option ℕ → Db → Result (Db × List Post)
unfolding add_session_event move_task
after_event c now timestamp e none db =
    add_session_event (stored_event none timestamp e) db >>= λ db1. ok (db1, [])
after_event c now timestamp e (some k) db =
    add_session_event (stored_event (some k) timestamp e) db >>= λ db1.
    move_task c now k timestamp e (find_task k db) db1

unfoldable pub receive_at : Context → ℕ → EventPayload → Db → Option ℕ → Result (Db × List Post)
unfolding after_event
receive_at c now e db none = raise (value_error "Invalid isoformat string")
receive_at c now e db (some timestamp) = after_event c now timestamp e (task_uuid c e) db

-- The new rows may be sent as late as at the commit; an exception leaves the database as it was.
unfoldable pub receive_event : Context → ℕ → EventPayload → Db → Result (Db × List Post)
unfolding receive_at
receive_event c now e db = receive_at c now e db (c.fromisoformat e.timestamp)
