-- ===== src/QueueConsumer.antt =====
-- session-manager/main.py: which workflows the session manager admits, with how many workers and
-- which priority, and what it hands to `dequeue_task`. `discover_all_plugin_configs` reads the
-- workflow directories; what it answers is an argument. Restoring memory and starting containers
-- are left out.
pub mod Admission
pub mod PluginBounds
pub mod Poll
pub mod Accounted
use Prim.Native.Char.{code}
use Prim.Native.String.{[] as ε, ◌∷◌ as ◌▹◌}
use agentic_ops_platform.Prelude.{
  ℕ, ◌+◌, ◌-◌, ◌*◌, max, String, Bool, true, false, not, ◌&&◌, ◌||◌, leb, ltb, ◌==◌, str_eq, Option,
  none, some, List, [], ◌∷◌, if◌then◌else◌, find_where, select_where, map, some_and, or_else,
}
use agentic_ops_platform.Py.Text.{strip, lower}
use agentic_ops_platform.Py.Json.{Json, Dict, null, flag, num, float, text, arr, obj, get?, str}
use agentic_ops_platform.Py.Result.{
  Result, ok, raise, value_error, type_error, attribute_error, ◌>>=◌,
}
use agentic_ops_platform.Py.Number.{int_of}
use agentic_ops_platform.Models.{Task, Agent, Db}
use agentic_ops_platform.TaskQueue.Dequeue.{Numbers, Policy, dequeue_task}

-- config.get("runtime", {}).get(key, default)
unfoldable pub runtime_value : String → Json → Dict → Result Json
runtime_value key default config = elim (get? "runtime" config) [
  | none ↦ ok default
  | some (obj runtime) ↦ ok (or_else (get? key runtime) default)
  | some other ↦ raise attribute_error
]

-- _WORKFLOW_PRIORITY.get(s, _WORKFLOW_PRIORITY["medium"])
abbrev named_priority : String → ℕ
named_priority s = if str_eq s "high" then 0 else if str_eq s "low" then 2 else 1

-- An `int` of 1, 2 or 3 counts as it is; True is the `int` 1.
unfoldable pub priority_of : Json → ℕ
unfolding strip lower str
priority_of (num n) =
    if leb 1 n && leb n 3 then n - 1 else named_priority (lower (strip (str (num n))))
priority_of (flag true) = 0
priority_of v = named_priority (lower (strip (str v)))

unfoldable pub workflow_priority : Dict → Result ℕ
unfolding runtime_value priority_of
workflow_priority config =
    runtime_value "priority" (text "medium") config >>= λ v. ok (priority_of v)

-- The workers and the priority of each workflow.
abbrev pub Plugins : Type 0
Plugins = List (String × ℕ × ℕ)

-- plugins[workflow] = (workers, priority)
unfoldable pub set_plugin : String → ℕ → ℕ → Plugins → Plugins
set_plugin w workers priority [] = (w, workers, priority) ∷ []
set_plugin w workers priority ((v, n, p) ∷ rest) =
    let later = set_plugin w workers priority rest in
    if str_eq v w then (w, workers, priority) ∷ rest else (v, n, p) ∷ later

unfoldable pub read_plugins : List (String × Dict) → Plugins → Result Plugins
unfolding runtime_value int_of workflow_priority set_plugin
read_plugins [] plugins = ok plugins
read_plugins ((workflow, config) ∷ rest) plugins = do
  max_workers ← runtime_value "parallel_workers" (num 1) config
  workers ← int_of max_workers
  priority ← workflow_priority config
  read_plugins rest (set_plugin workflow (max 1 workers) priority plugins)

-- _plugin_worker_cache and _plugin_worker_cache_loaded_at
pub record Cache : Type 0 where
  pub plugins : Plugins
  pub loaded_at : ℕ

abbrev pub is_nil : Plugins → Bool
is_nil [] = true
is_nil (p ∷ ps) = false

-- `now` is a moment of the monotonic clock, in microseconds; the interval is 30 seconds.
unfoldable pub refresh_plugin_worker_cache :
    ℕ → Bool → List (String × Dict) → Cache → Result (Plugins × Cache)
unfolding read_plugins
refresh_plugin_worker_cache now force configs cache =
    if not force && not (is_nil cache.plugins) && ltb (now - cache.loaded_at) 30000000
    then ok (cache.plugins, cache)
    else read_plugins configs [] >>= λ plugins.
        ok (plugins, record { plugins = plugins; loaded_at = now })

-- The agent of the workflow is there, provisioned and not paused.
abbrev pub is_enabled : Db → String → Bool
is_enabled db w =
    some_and (find_where (λ (a : Agent). str_eq a.name w) db.agents)
      (λ a. a.provisioned && not a.paused)

unfoldable pub enabled_plugins : Db → Plugins → Plugins
enabled_plugins db plugins = select_where (λ p. is_enabled db p.0) plugins

unfoldable pub workers_of : Plugins → Numbers
workers_of [] = []
workers_of ((w, n, p) ∷ rest) = (w, n) ∷ workers_of rest

unfoldable pub priorities_of : Plugins → Numbers
priorities_of [] = []
priorities_of ((w, n, p) ∷ rest) = (w, p) ∷ priorities_of rest

abbrev pub admission_policy : ℕ → Plugins → Db → Policy
admission_policy platform_max plugins db = record {
  workflow = none;
  max_running = none;
  platform_max_running = some platform_max;
  workflow_limits = some (workers_of (enabled_plugins db plugins));
  workflow_priorities = some (priorities_of (enabled_plugins db plugins));
}

-- One poll of the queue.
unfoldable pub admit : ℕ → Plugins → (ℕ → Bool) → ℕ → Db → Result (Option Task × Db)
unfolding enabled_plugins workers_of priorities_of dequeue_task
admit platform_max plugins locked now db =
    dequeue_task (admission_policy platform_max plugins db) locked now db
