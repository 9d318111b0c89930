-- ===== src/Examples/Admission.antt =====
-- The theorems on the session manager's admission and on its rounds, applied to two workflows, of which one is
-- paused.
use agentic_ops_platform.Prelude.{ℕ, String, ◌≡◌, refl, Bool, false, true, some, [], ◌∷◌, All}
use agentic_ops_platform.Prelude.Least.{least}
use agentic_ops_platform.Py.Text.{strip, lower}
use agentic_ops_platform.Py.Json.{Dict, empty, entry, num, obj, null, str, text, get?}
use agentic_ops_platform.Py.Number.{int_of}
use agentic_ops_platform.Py.Result.{ok}
use agentic_ops_platform.Models.{Task, Agent, Db}
use agentic_ops_platform.Models.Sound.{IsSound}
use agentic_ops_platform.TaskQueue.Dequeue.{
  claimed, eligible, before, lex3, is_full, choose, limits_gate, dequeue_task,
}
use agentic_ops_platform.TaskQueue.Dequeue.Claims.{after_claim}
use agentic_ops_platform.QueueConsumer.{
  Plugins, Cache, enabled_plugins, workers_of, priorities_of, admit, refresh_plugin_worker_cache,
  read_plugins, runtime_value, workflow_priority, priority_of, set_plugin,
}
use agentic_ops_platform.QueueConsumer.Admission.{IsAdmitted, admit-IsAdmitted}
use agentic_ops_platform.QueueConsumer.PluginBounds.{IsBounded, refresh_plugin_worker_cache-All}
use agentic_ops_platform.QueueConsumer.Poll.{World, Consumer, poll}
use agentic_ops_platform.QueueConsumer.Accounted.{Accounted, poll-Accounted}
use agentic_ops_platform.Examples.{queued_dev, some_db, some_db-IsSound}

abbrev an_agent : String → Bool → Agent
an_agent name paused = record {
  id = 1;
  name = name;
  config = null;
  provisioned = true;
  paused = paused;
}

abbrev agents_db : Db
agents_db = record some_db { agents = an_agent "ops" true ∷ an_agent "dev" false ∷ [] }

agents_db-IsSound : IsSound agents_db
agents_db-IsSound = record {
  unique_ids = some_db-IsSound.unique_ids;
  task_events_refer = tt;
  session_events_refer = tt;
  unique_approvals = some_db-IsSound.unique_approvals;
  approvals_refer = tt;
}

abbrev two_plugins : Plugins
two_plugins = ("ops", 4, 0) ∷ ("dev", 2, 1) ∷ []

abbrev unlocked : ℕ → Bool
unlocked k = false

abbrev admitted_task : Task
admitted_task = record (claimed 50 queued_dev) { updated = 50 }

admits :
    admit 5 two_plugins unlocked 50 agents_db
    ≡ ok (some admitted_task, after_claim 50 queued_dev agents_db)
unfolding admit enabled_plugins workers_of priorities_of dequeue_task choose least eligible before
    lex3 is_full limits_gate
admits = refl

admit-IsAdmitted_example :
    IsAdmitted 5 two_plugins agents_db admitted_task (after_claim 50 queued_dev agents_db)
admit-IsAdmitted_example =
    admit-IsAdmitted 5 two_plugins unlocked 50 agents_db (after_claim 50 queued_dev agents_db)
      admitted_task agents_db-IsSound admits

abbrev ops_config : Dict
ops_config =
    entry "runtime"
      (obj (entry "parallel_workers" (num 0) (entry "priority" (text " High ") empty))) empty

abbrev no_cache : Cache
no_cache = record { plugins = []; loaded_at = 0 }

abbrev loaded : Cache
loaded = record { plugins = ("ops", 1, 0) ∷ []; loaded_at = 70 }

loads :
    refresh_plugin_worker_cache 70 false (("ops", ops_config) ∷ []) no_cache
    ≡ ok (loaded.plugins, loaded)
unfolding refresh_plugin_worker_cache read_plugins runtime_value int_of workflow_priority
    priority_of set_plugin strip lower str get?
loads = refl

refresh_plugin_worker_cache-All_example :
    All IsBounded loaded.plugins × All IsBounded loaded.plugins
refresh_plugin_worker_cache-All_example =
    refresh_plugin_worker_cache-All 70 false (("ops", ops_config) ∷ []) no_cache loaded
      loaded.plugins tt loads

abbrev world : World
world = record {
  configs = [];
  locked = unlocked;
  runtimes = some [];
  restores = λ w. true;
  launch = λ t. some "c9";
  show_uuid = λ k. "3";
  new_id = 77;
  monotonic = 1;
  now = 50;
}

abbrev two_cached : Cache
two_cached = record { plugins = two_plugins; loaded_at = 0 }

abbrev waiting_consumer : Consumer
waiting_consumer = record { cache = two_cached; db = agents_db; containers = [] }

keeps_cache :
    refresh_plugin_worker_cache world.monotonic false world.configs two_cached
    ≡ ok (two_plugins, two_cached)
unfolding refresh_plugin_worker_cache
keeps_cache = refl

poll-Accounted_example : Accounted world admitted_task (poll 5 world waiting_consumer).db
poll-Accounted_example =
    poll-Accounted 5 world waiting_consumer two_plugins two_cached [] admitted_task
      (after_claim 50 queued_dev agents_db) keeps_cache admits refl refl
