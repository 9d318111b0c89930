-- ===== src/Scheduler.antt =====
-- gateway/scheduler.py: cron jobs that create tasks. APScheduler is a parameter: `JobStore` is what
-- the source uses of AsyncIOScheduler, and a function from the five fields of a cron expression to
-- the fire times stands for CronTrigger, which may refuse the fields.
pub mod Cron
pub mod Joined
pub mod Firing
pub mod Fired
pub mod Jobs
pub mod Switch
pub mod Switched
pub mod Ids
use Prim.Native.Char.{code, Char}
use Prim.Native.String.{[] as ε, ◌∷◌ as ◌▹◌, ◌++◌ as ◌+++◌, char_at}
use agentic_ops_platform.Prelude.{
  ℕ, String, Bool, true, false, ◌&&◌, ◌==◌, ◌≡◌, Option, none, some, List, [], ◌∷◌, str_eq,
  if◌then◌else◌, or_else, map, find_where,
}
use agentic_ops_platform.Py.Json.{
  Json, Items, Dict, null, flag, num, float, text, arr, obj, nil, cons, empty, get, get?, truthy,
  either, str, as_dict,
}
use agentic_ops_platform.Py.Result.{Result, ok, raise, type_error, ◌>>=◌}
use agentic_ops_platform.Models.{Agent, Schedule, Db}
use agentic_ops_platform.Scheduler.Cron.{Trigger, Triggers, parse_cron}

unfoldable pub job_id : String → String → String
job_id agent_name schedule_name = ◌+++◌ agent_name (◌+++◌ ":" schedule_name)

is_text : Json → String → Bool
is_text (text t) s = str_eq t s
is_text _ s = false

-- The channel of the first entry that has this name and a channel; other values are skipped.
schedule_channel : Items → String → Option String
unfolding is_text get truthy str
schedule_channel nil name = none
schedule_channel (cons (obj sched) rest) name =
    let later = schedule_channel rest name in
    if is_text (get "name" sched) name && truthy (get "message_channel" sched)
    then some (str (get "message_channel" sched))
    else later
schedule_channel (cons _ rest) name = schedule_channel rest name

-- The values that a `for` runs through; None, a truth value and a number are refused.
iterated : Json → Result Items
iterated (arr xs) = ok xs
iterated (text s) = ok nil
iterated (obj d) = ok nil
iterated _ = raise type_error

dash_char : Char → Char
dash_char c = if code c == 95 then char_at "-" 0 else c

-- s.replace("_", "-")
unfoldable pub dashed : String → String
unfolding dash_char
dashed ε = ε
dashed (◌▹◌ c s) = ◌▹◌ (dash_char c) (dashed s)

named_channel : Items → String → Option String
unfolding is_text
named_channel nil name = none
named_channel (cons c rest) name =
    let later = named_channel rest name in if is_text c name then some name else later

first_item : Items → Option String
unfolding str
first_item nil = none
first_item (cons c rest) = some (str c)

-- messaging.get("channels", []) of a dict
channels_of : Json → Json
unfolding get?
channels_of (obj messaging) = or_else (get? "channels" messaging) (arr nil)
channels_of _ = arr nil

chosen_channel : Json → String → Option String
unfolding named_channel dashed first_item
chosen_channel (arr channels) name = elim (named_channel channels (dashed name)) [
  | none ↦ first_item channels
  | some c ↦ some c
]
chosen_channel _ name = none

or_chosen : Option String → Dict → String → Option String
unfolding chosen_channel channels_of either get
or_chosen (some c) config name = some c
or_chosen none config name =
    chosen_channel (channels_of (either (get "messaging" config) (obj empty))) name

unfoldable pub resolve_schedule_channel : Dict → String → Result (Option String)
unfolding iterated schedule_channel or_chosen get?
resolve_schedule_channel config name =
    iterated (or_else (get? "schedules" config) (arr nil)) >>= λ schedules.
    ok (or_chosen (schedule_channel schedules name) config name)

-- What `add_job` is given.
pub record Job : Type 0 where
  pub id : String
  pub trigger : Trigger
  pub agent_name : String
  pub schedule_name : String
  pub prompt : String
  pub message_channel : Option String

unfoldable pub a_job : String → String → String → Trigger → Option String → Job
unfolding job_id
a_job agent_name schedule_name prompt trigger message_channel = record {
  id = job_id agent_name schedule_name;
  trigger = trigger;
  agent_name = agent_name;
  schedule_name = schedule_name;
  prompt = prompt;
  message_channel = message_channel;
}

-- What the source uses of AsyncIOScheduler: `add_job` with `replace_existing`, `get_job`,
-- `remove_job`, and the `next_run_time` of a job.
pub record JobStore : Type 1 where
  pub Store : Type 0
  pub fresh : Store
  pub add_job : Job → Store → Store
  pub get_job : String → Store → Option Job
  pub remove_job : String → Store → Store
  pub next_run_time : Job → Store → Option ℕ
  pub get-fresh : (k : String) → get_job k fresh ≡ none
  pub get-add_job :
      (j : Job) (k : String) (s : Store)
      → get_job k (add_job j s) ≡ (if str_eq j.id k then some j else get_job k s)
  pub get-id : (k : String) (s : Store) (j : Job) → get_job k s ≡ some j → j.id ≡ k
  pub get-remove_job :
      (i k : String) (s : Store)
      → get_job k (remove_job i s) ≡ (if str_eq i k then none else get_job k s)

abbrev pub with_agent :
    (Schedule → Agent → Bool)
    → Schedule
    → Option Agent
    → List (Schedule × Agent)
    → List (Schedule × Agent)
with_agent p s none rest = rest
with_agent p s (some a) rest = if p s a then (s, a) ∷ rest else rest

abbrev pub agent_of : Db → Schedule → Option Agent
agent_of db s = find_where (λ (a : Agent). a.id == s.agent_id) db.agents

-- select(Schedule, Agent).join(...), of the rows that pass a test, in the order of the schedules
abbrev pub joined : (Schedule → Agent → Bool) → Db → List Schedule → List (Schedule × Agent)
joined p db [] = []
joined p db (s ∷ ss) = with_agent p s (agent_of db s) (joined p db ss)

module _ (b : JobStore) (triggers : Triggers) where
  open b use {Store, fresh, add_job, get_job, remove_job, next_run_time}

  -- No scheduler stands for `_scheduler` being None.
  unfoldable pub register_schedule_job :
      String → String → String → String → Dict → Option Store → Result (Bool × Option Store)
  unfolding parse_cron resolve_schedule_channel a_job
  register_schedule_job agent_name schedule_name cron prompt config none = ok (false, none)
  register_schedule_job agent_name schedule_name cron prompt config (some s) = do
    trigger ← parse_cron triggers cron
    channel ← resolve_schedule_channel config schedule_name
    ok (true, some (add_job (a_job agent_name schedule_name prompt trigger channel) s))

  abbrev pub without_job : Option Job → Store → Bool × Option Store
  without_job none s = (false, some s)
  without_job (some j) s = (true, some (remove_job j.id s))

  unfoldable pub unregister_schedule_job : String → String → Option Store → Bool × Option Store
  unregister_schedule_job agent_name schedule_name none = (false, none)
  unregister_schedule_job agent_name schedule_name (some s) =
      without_job (get_job (job_id agent_name schedule_name) s) s

  -- An exception is logged, and the next schedule follows.
  abbrev pub kept_on : Result (Bool × Option Store) → Option Store → Option Store
  kept_on (ok p) s = p.1
  kept_on (raise e) s = s

  unfoldable pub register_all : List (Schedule × Agent) → Option Store → Option Store
  unfolding register_schedule_job
  register_all [] s = s
  register_all ((sched, a) ∷ rest) s = register_all rest (
      kept_on
        (register_schedule_job a.name sched.name sched.cron (or_else sched.prompt "")
          (as_dict a.config) s)
        s)

  -- The jobs that `start_scheduler` registers.
  unfoldable pub start_scheduler : Db → Option Store
  unfolding register_all
  start_scheduler db = register_all (joined (λ sched a. sched.enabled) db db.schedules) (some fresh)

  abbrev pub next_of : Store → Option Job → Option ℕ
  next_of s none = none
  next_of s (some j) = next_run_time j s

  persisted : Store → Schedule → Option Agent → Schedule
  unfolding job_id
  persisted s sched none = sched
  persisted s sched (some a) =
      if sched.enabled
      then record sched { next_run = next_of s (get_job (job_id a.name sched.name) s) }
      else sched

  unfoldable pub persist_next_runs : Db → Option Store → Db
  unfolding persisted
  persist_next_runs db none = db
  persist_next_runs db (some s) = record db {
    schedules = map (λ sched. persisted s sched (agent_of db sched)) db.schedules;
  }

  unfoldable pub stop_scheduler : Option Store → Option Store
  stop_scheduler s = none
