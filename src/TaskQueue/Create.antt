-- ===== src/TaskQueue/Create.antt =====
-- `create_task` with its message route and its alert coalescing.
pub mod Coalescing
use agentic_ops_platform.Prelude.{
  least, ℕ, ◌+◌, ◌-◌, String, Bool, false, not, ◌&&◌, ◌||◌, leb, ltb, str_eq, Option, none, some,
  List, [], ◌∷◌, if◌then◌else◌, some_and, or_else, find_where, select_where,
}
use agentic_ops_platform.Py.Text.{strip}
use agentic_ops_platform.Py.Clock.{seconds}
use agentic_ops_platform.Py.Json.{
  Json, Items, Dict, null, num, text, arr, obj, nil, cons, empty, entry, get, put, remove, append,
  either, str,
}
use agentic_ops_platform.Py.Result.{Result, ok, ◌>>=◌}
use agentic_ops_platform.Models.{Task, TaskEvent, Agent, Db}
use agentic_ops_platform.Models.Status.{queued, is_open}
use agentic_ops_platform.Models.Store.{has_id, update_tasks, add_task, add_task_event}

-- next((str(c).strip() for c in channels if str(c).strip()), "")
first_channel : Items → String
unfolding strip str
first_channel nil = ""
first_channel (cons c cs) =
    let rest = first_channel cs in if str_eq (strip (str c)) "" then rest else strip (str c)

-- messaging.get("channels") of a dict; no other value has channels
channels_of : Json → Json
unfolding get
channels_of (obj messaging) = get "channels" messaging
channels_of _ = null

messaging_of : Json → Json
unfolding get
messaging_of (obj config) = get "messaging" config
messaging_of _ = null

channel_list : Json → String
unfolding first_channel
channel_list (arr channels) = first_channel channels
channel_list _ = ""

unfoldable pub message_channel_from_config : Json → String
unfolding channel_list channels_of messaging_of
message_channel_from_config config = channel_list (channels_of (messaging_of config))

-- What `find_workflow_package` reads from the workflow directories: the parsed configuration of a
-- workflow, if there is a package of that name.
abbrev pub Packages : Type 0
Packages = String → Option Json

-- select(Agent.config).where(Agent.name == workflow), with None for no row
abbrev agent_config : String → Db → Json
agent_config workflow db = elim (find_where (λ (a : Agent). str_eq a.name workflow) db.agents) [
  | none ↦ null
  | some a ↦ a.config
]

unfoldable pub workflow_default_message_channel : Packages → Db → String → String
unfolding message_channel_from_config
workflow_default_message_channel packages db workflow =
    let workflow_channel = message_channel_from_config (agent_config workflow db) in
    if not (str_eq workflow_channel "")
    then workflow_channel
    else message_channel_from_config (or_else (packages workflow) null)

-- A text argument counts as given if it is neither None nor empty.
abbrev pub given : Option String → Bool
given none = false
given (some s) = not (str_eq s "")

abbrev same_channel : String → Option String → Bool
same_channel c none = false
same_channel c (some d) = str_eq c d

unfoldable pub normalize_message_route :
    Packages → Db → String → Option String → Option String → Dict → Option String × Dict
unfolding workflow_default_message_channel
normalize_message_route packages db workflow message_channel message_thread metadata =
    let workflow_channel = workflow_default_message_channel packages db workflow in
    if given message_thread
    then (message_channel, metadata)
    else if str_eq workflow_channel "" || same_channel workflow_channel message_channel
    then (message_channel, metadata)
    else (
      some workflow_channel,
      remove "team_domain" (remove "team_name" (remove "team_id" (remove "channel_id" metadata))),
    )

-- The arguments of `create_task`. The database chooses `new_id` for a new row.
pub record Request : Type 0 where
  pub workflow : String
  pub prompt : String
  pub channel : Option String
  pub metadata : Dict
  pub message_channel : Option String
  pub message_thread : Option String
  pub coalesce_key : Option String
  pub coalesce_window_sec : ℕ
  pub new_id : ℕ

-- The rows that an alert with the key `key` may join.
abbrev pub joinable : ℕ → String → ℕ → Task → Bool
joinable now key window t =
    some_and t.coalesce_key (λ k. str_eq k key)
    && is_open t.status
    && leb (now - seconds window) t.created

-- .order_by(Task.created.desc())
abbrev pub later : Task → Task → Bool
later t u = ltb u.created t.created

-- list(d.get(k, [])) of a key that holds a list, or nothing
unfoldable pub list_at : String → Dict → Items
unfolding get
list_at k d = elim (get k d) [ arr xs ↦ xs | _ ↦ nil ]

-- int(d.get("alert_occurrence_count", 1)) of a key that holds a number, or nothing
unfoldable pub occurrence_count : Dict → ℕ
unfolding get
occurrence_count d = elim (get "alert_occurrence_count" d) [ num n ↦ n | _ ↦ 1 ]

transition : Dict → Dict → Json
unfolding either str get
transition envelope metadata = obj (
    entry "state" (text (str (either (get "state" envelope) (text "unknown"))))
      (entry "message_id" (text (str (either (get "message_id" metadata) (text "")))) empty))

add_transition : Items → Dict → Items
unfolding get transition append
add_transition transitions metadata = elim (get "alert_envelope" metadata) [
  | obj envelope ↦ append transitions (transition envelope metadata)
  | _ ↦ transitions
]

-- the new `task_metadata` of the task that an alert joins
unfoldable pub coalesced : Dict → Dict → Dict
unfolding list_at occurrence_count add_transition put append
coalesced existing metadata =
    put "alert_state_transitions"
      (arr (add_transition (list_at "alert_state_transitions" existing) metadata))
      (put "alert_occurrence_count" (num (occurrence_count existing + 1)) (
        put "coalesced_alerts" (arr (append (list_at "coalesced_alerts" existing) (obj metadata)))
          existing))

abbrev event : ℕ → String → Dict → TaskEvent
event task_id event_type payload = record {
  task_id = task_id;
  event_type = event_type;
  payload = payload;
}

-- The task that an alert joins: its metadata, and an event.
unfoldable pub join_task : ℕ → Dict → Task → Db → Result (Task × Db)
unfolding coalesced add_task_event
join_task now metadata existing db =
    let change =
      λ (t : Task). record t { task_metadata = coalesced existing.task_metadata metadata } in
    let db' = update_tasks now (has_id existing.id) change db in
    add_task_event (event existing.id "alert_coalesced" (entry "new_metadata" (obj metadata) empty))
      db'
    >>= λ db''. ok (record (change existing) { updated = now }, db'')

abbrev pub new_task : ℕ → Request → Option String → Dict → Task
new_task now r message_channel metadata = record {
  id = r.new_id;
  workflow = r.workflow;
  status = queued;
  prompt = r.prompt;
  task_metadata = metadata;
  channel = r.channel;
  message_channel = message_channel;
  message_thread = r.message_thread;
  container_id = none;
  heartbeat = none;
  wait_reason = none;
  wait_deadline = none;
  result = null;
  tokens_used = 0;
  duration_sec = none;
  error = none;
  coalesce_key = r.coalesce_key;
  archived_at = none;
  created = now;
  updated = now;
}

unfoldable pub insert_task : Task → Db → Result (Task × Db)
unfolding add_task add_task_event
insert_task task db = add_task task db >>= λ db'.
    add_task_event
      (event task.id "task_created"
        (entry "workflow" (text task.workflow) (entry "metadata" (obj task.task_metadata) empty)))
      db'
    >>= λ db''. ok (task, db'')

-- The open task that an alert with this key joins, if there is one.
unfoldable pub existing_task : ℕ → Option String → ℕ → Db → Option Task
existing_task now none window db = none
existing_task now (some key) window db =
    if given (some key) then least later (select_where (joinable now key window) db.tasks) else none

-- An alert joins its open task; what joins none becomes a new task.
unfoldable pub join_or_insert :
    ℕ → Request → Option String → Dict → Option Task → Db → Result (Task × Db)
unfolding join_task insert_task
join_or_insert now r message_channel metadata (some existing) db =
    join_task now metadata existing db
join_or_insert now r message_channel metadata none db =
    insert_task (new_task now r message_channel metadata) db

unfoldable pub create_task : Packages → ℕ → Request → Db → Result (Task × Db)
unfolding normalize_message_route existing_task join_or_insert
create_task packages now r db =
    let route =
      normalize_message_route packages db r.workflow r.message_channel r.message_thread
        r.metadata in
    join_or_insert now r route.0 route.1 (existing_task now r.coalesce_key r.coalesce_window_sec db)
      db
