-- ===== src/Containers/Exit.antt =====
-- session-manager/container_lifecycle.py, `monitor_containers`: what a runtime that has exited does
-- to its task and its sessions.
use Prim.Native.String.{◌++◌ as ◌+++◌}
use agentic_ops_platform.Prelude.{
  ℕ, ◌+◌, ◌-◌, ◌==◌, ltb, String, Bool, false, ◌&&◌, ◌||◌, Option, none, some, List, [], ◌∷◌,
  str_eq, if◌then◌else◌, or_else, some_and, find_where, select_where, update_where,
}
use agentic_ops_platform.Prelude.Least.{least}
use agentic_ops_platform.Prelude.Sorted.{sort_by}
use agentic_ops_platform.Py.Text.{decimal, text_length}
use agentic_ops_platform.Py.Slices.{drop_text}
use agentic_ops_platform.Py.Json.{Json, null, num, text, obj, get, get?, truthy, either, str}
use agentic_ops_platform.Py.Number.{int_of}
use agentic_ops_platform.Py.Result.{Result, ok, raise, attribute_error, value_error, ◌>>=◌}
use agentic_ops_platform.Models.{Task, Session, SessionEvent, Db}
use agentic_ops_platform.Models.Status.{TaskStatus, succeeded, failed, timed_out, status_name}
use agentic_ops_platform.Models.Store.{has_id, update_tasks, integer_column}
use agentic_ops_platform.TaskQueue.Lifecycle.{Outcome, complete_task}
use agentic_ops_platform.Containers.{RuntimeStatus, Running, untrack}

-- max(matches, key=lambda event: event.timestamp) keeps the first of the newest.
abbrev pub newer_event : SessionEvent → SessionEvent → Bool
newer_event e f = ltb f.timestamp e.timestamp

abbrev pub is_completion : SessionEvent → Bool
is_completion e = str_eq e.event_type "session_complete"

abbrev pub is_error : SessionEvent → Bool
is_error e = str_eq e.event_type "session_error" || str_eq e.event_type "session_timeout"

-- _latest_event(events, ...), of the events that pass the test
unfoldable pub latest_event : (SessionEvent → Bool) → List SessionEvent → Option SessionEvent
latest_event wanted events = least newer_event (select_where wanted events)

abbrev pub event_of : ℕ → SessionEvent → Bool
event_of task_id e = some_and e.task_id (λ k. k == task_id)

abbrev pub is_end_of : ℕ → SessionEvent → Bool
is_end_of task_id e = event_of task_id e && (is_completion e || is_error e)

-- The events of the end of a task, the newest first.
unfoldable pub lifecycle_events : ℕ → Db → List SessionEvent
unfolding sort_by
lifecycle_events task_id db =
    sort_by newer_event (select_where (is_end_of task_id) db.session_events)

abbrev pub payload_of : Option SessionEvent → Json
payload_of none = null
payload_of (some e) = e.payload

-- The payload of the completion if it has one, else that of the error.
unfoldable pub lifecycle_data : Option SessionEvent → Option SessionEvent → Json
unfolding truthy
lifecycle_data completion error =
    if truthy (payload_of completion)
    then payload_of completion
    else if truthy (payload_of error)
    then payload_of error
    else null

-- int(lifecycle_data.get(k, 0) or 0), and 0 where there is no such data
unfoldable pub token_count : String → Json → Result ℕ
unfolding get? either int_of
token_count k null = ok 0
token_count k (obj d) = int_of (either (or_else (get? k d) (num 0)) (num 0))
token_count k other = raise attribute_error

abbrev pub code_text : Option ℕ → String
code_text none = "-1"
code_text (some n) = decimal n

-- logs[-500:]
abbrev last_500 : String → String
last_500 s = drop_text (text_length s - 500) s

abbrev pub is_success : Option ℕ → Bool
is_success none = false
is_success (some n) = n == 0

unfoldable pub by_exit_code : RuntimeStatus → TaskStatus × Option String
unfolding decimal drop_text
by_exit_code r = if is_success r.exit_code then (succeeded, none) else (
  failed,
  some (
      ◌+++◌ "Container exited with code "
        (◌+++◌ (code_text r.exit_code) (◌+++◌ "\n" (last_500 r.logs)))),
)

abbrev pub error_status : SessionEvent → TaskStatus
error_status e = if str_eq e.event_type "session_timeout" then timed_out else failed

-- str(error_event.data.get("error") or error_event.event_type)
unfoldable pub error_text : SessionEvent → Result String
unfolding get either str
error_text e = elim e.payload [
  | obj d ↦ ok (str (either (get "error" d) (text e.event_type)))
  | _ ↦ raise attribute_error
]

-- An error event with a payload counts more than the exit code.
unfoldable pub verdict : RuntimeStatus → Option SessionEvent → Result (TaskStatus × Option String)
unfolding truthy error_text by_exit_code
verdict r none = ok (by_exit_code r)
verdict r (some e) =
    if truthy e.payload
    then (error_text e >>= λ s. ok (error_status e, some s))
    else ok (by_exit_code r)

abbrev pub session_of : ℕ → Session → Bool
session_of task_id s = some_and s.task_id (λ k. k == task_id)

-- The time since the start of the first session, if it has one.
abbrev pub duration_of : ℕ → Option Session → Option ℕ
duration_of now none = none
duration_of now (some s) = elim s.started [ none ↦ none | some at ↦ some (now - at) ]

abbrev pub ended_session : ℕ → Outcome → Session → Session
ended_session now o s = record s {
  status = status_name o.status;
  ended = some now;
  duration_sec = o.duration_sec;
  error = o.error;
}

abbrev pub with_usage : Outcome → Task → Task
with_usage o t = record t {
  tokens_used = o.tokens_used;
  duration_sec = o.duration_sec;
  result = o.result;
}

-- The sessions follow the task, and take the counts as INTEGER columns; the usage is written once more if there is data.
abbrev pub end_sessions : ℕ → ℕ → Outcome → Db → Db
end_sessions now task_id o db = record db {
  sessions = update_where (session_of task_id) (ended_session now o) db.sessions;
}

abbrev pub repeat_usage : ℕ → ℕ → Outcome → Db → Db
repeat_usage now task_id o db =
    if truthy o.result then update_tasks now (has_id task_id) (with_usage o) db else db

unfoldable pub settle : ℕ → RuntimeStatus → ℕ → Db → Result Db
unfolding lifecycle_events latest_event lifecycle_data token_count verdict complete_task truthy
    status_name integer_column
settle now r task_id db = do
  let events = lifecycle_events task_id db
  let completion = latest_event is_completion events
  let error = latest_event is_error events
  let found = lifecycle_data completion error
  input_tok ← token_count "input_tokens" found
  output_tok ← token_count "output_tokens" found
  turns ← token_count "turns" found
  v ← verdict r error
  let o : Outcome = record {
    status = v.0;
    result = found;
    tokens_used = input_tok + output_tok;
    duration_sec = duration_of now (find_where (session_of task_id) db.sessions);
    error = v.1;
  }
  db' ← complete_task now task_id o db
  turns_ ← integer_column turns
  ok (repeat_usage now task_id o (end_sessions now task_id o db'))

-- uuid.UUID(task_id)
abbrev pub settle_text : (String → Option ℕ) → ℕ → RuntimeStatus → Db → Result Db
settle_text parse_uuid now r db = elim (parse_uuid r.task_id) [
  | none ↦ raise (value_error "badly formed hexadecimal UUID string")
  | some task_id ↦ settle now r task_id db
]

-- An exception is logged, and the database stays as it was.
abbrev pub or_unchanged : Result Db → Db → Db
or_unchanged (ok db') db = db'
or_unchanged (raise e) db = db

pub record Monitor : Type 0 where
  pub db : Db
  pub containers : Running

-- One listed runtime; `removes` tells whether the launcher removes it without an exception.
unfoldable pub monitor_runtime :
    (String → Option ℕ) → (RuntimeStatus → Bool) → ℕ → RuntimeStatus → Monitor → Monitor
unfolding settle untrack
monitor_runtime parse_uuid removes now r m =
    if str_eq r.status "exited"
    then record {
      db = or_unchanged (settle_text parse_uuid now r m.db) m.db;
      containers = if removes r then untrack r.task_id m.containers else m.containers;
    }
    else m

unfoldable pub monitor_round :
    (String → Option ℕ) → (RuntimeStatus → Bool) → ℕ → List RuntimeStatus → Monitor → Monitor
unfolding monitor_runtime
monitor_round parse_uuid removes now [] m = m
monitor_round parse_uuid removes now (r ∷ rs) m =
    monitor_round parse_uuid removes now rs (monitor_runtime parse_uuid removes now r m)
