-- ===== src/QueueConsumer/Poll.antt =====
-- session-manager/main.py: one round of `queue_consumer_loop`, with its commits. An exception is
-- caught by the round, which keeps what was committed before it.
use agentic_ops_platform.Prelude.{ℕ, String, Bool, Option, none, some, List, if◌then◌else◌, false}
use agentic_ops_platform.Py.Json.{Dict}
use agentic_ops_platform.Py.Result.{Result, ok, raise}
use agentic_ops_platform.Models.{Task, Db}
use agentic_ops_platform.TaskQueue.Create.{given}
use agentic_ops_platform.TaskQueue.Lifecycle.{complete_task}
use agentic_ops_platform.Containers.{
  RuntimeStatus, Running, track, has_live_runtime, ended_with, spawn_agent_session,
}
use agentic_ops_platform.Containers.Exit.{or_unchanged}
use agentic_ops_platform.QueueConsumer.{Plugins, Cache, refresh_plugin_worker_cache, admit}

-- What the surroundings answer in one round: the workflow directories, the rows that another
-- transaction locks, the launcher's runtimes (nothing for an exception), whether the memory of a
-- workflow is restored without an exception, the runtime that is launched, the text of a UUID, the
-- id of a new session, and the clocks.
pub record World : Type 0 where
  pub configs : List (String × Dict)
  pub locked : ℕ → Bool
  pub runtimes : Option (List RuntimeStatus)
  pub restores : String → Bool
  pub launch : Task → Option String
  pub show_uuid : ℕ → String
  pub new_id : ℕ
  pub monotonic : ℕ
  pub now : ℕ

-- What the session manager keeps between rounds.
pub record Consumer : Type 0 where
  pub cache : Cache
  pub db : Db
  pub containers : Running

abbrev pub lost_runtime : String
lost_runtime =
    "Waiting task lost its live runtime before scheduler admission; resume restart is not implemented"

-- A task that has a container goes on if its runtime is live, and fails if it is not.
unfoldable pub resume : World → Task → Option (List RuntimeStatus) → Db → Db
unfolding has_live_runtime complete_task
resume w t none db = db
resume w t (some runtimes) db =
    if has_live_runtime runtimes (w.show_uuid t.id) t.container_id
    then db
    else or_unchanged (complete_task w.now t.id (ended_with lost_runtime) db) db

abbrev pub after_spawn : Result (Option String × Db) → Db → Db
after_spawn (ok p) db = p.1
after_spawn (raise e) db = db

-- _running_containers is set as soon as the runtime is launched.
unfoldable pub tracked : World → Task → Option String → Running → Running
unfolding track
tracked w t none containers = containers
tracked w t (some id) containers = track (w.show_uuid t.id) id containers

unfoldable pub start : World → Task → Consumer → Consumer
unfolding spawn_agent_session tracked
start w t c =
    if w.restores t.workflow
    then record c {
      db = after_spawn (spawn_agent_session w.launch w.new_id w.now t c.db) c.db;
      containers = tracked w t (w.launch t) c.containers;
    }
    else c

unfoldable pub go_on : World → Task → Consumer → Consumer
unfolding resume start
go_on w t c =
    if given t.container_id then record c { db = resume w t w.runtimes c.db } else start w t c

unfoldable pub after_admission : World → Result (Option Task × Db) → Consumer → Consumer
unfolding go_on
after_admission w (raise e) c = c
after_admission w (ok (none, db)) c = record c { db = db }
after_admission w (ok (some t, db)) c = go_on w t (record c { db = db })

unfoldable pub after_refresh : ℕ → World → Result (Plugins × Cache) → Consumer → Consumer
unfolding admit after_admission
after_refresh platform_max w (raise e) c = c
after_refresh platform_max w (ok (plugins, cache)) c =
    after_admission w (admit platform_max plugins w.locked w.now c.db) (record c { cache = cache })

unfoldable pub poll : ℕ → World → Consumer → Consumer
unfolding refresh_plugin_worker_cache after_refresh
poll platform_max w c =
    after_refresh platform_max w (refresh_plugin_worker_cache w.monotonic false w.configs c.cache) c
