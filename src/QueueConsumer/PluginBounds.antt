-- ===== src/QueueConsumer/PluginBounds.antt =====
-- Bounds of what is read from the configurations of the workflows.
use agentic_ops_platform.Prelude.{
  ℕ, ◌≤◌, ◌-◌, max, String, ◌≡◌, Bool, true, false, List, [], ◌∷◌, arith, str_eq, ltb, not, ◌&&◌,
  All, Bool-cases, inl, inr,
}
use agentic_ops_platform.Py.Json.{Json, Dict, null, flag, num, float, text, arr, obj}
use agentic_ops_platform.Py.Number.{int_of}
use agentic_ops_platform.Py.Result.{ok, >>=-eq-ok}
use agentic_ops_platform.QueueConsumer.{
  Plugins, is_nil, priority_of, workflow_priority, runtime_value, set_plugin, read_plugins, Cache,
  refresh_plugin_worker_cache,
}

-- A workflow has a worker at least, and its priority is high (0), medium (1) or low (2).
abbrev pub IsBounded : String × ℕ × ℕ → Type 0
IsBounded (w, workers, priority) = (1 ≤ workers) × (priority ≤ 2)

priority_of-le : (v : Json) → priority_of v ≤ 2
unfolding priority_of
priority_of-le null = ground arith
priority_of-le (flag true) = ground arith
priority_of-le (flag false) = ground arith
priority_of-le (num n) = ground arith
priority_of-le (float n) = ground arith
priority_of-le (text s) = ground arith
priority_of-le (arr xs) = ground arith
priority_of-le (obj d) = ground arith

workflow_priority-le : (config : Dict) (n : ℕ) → workflow_priority config ≡ ok n → n ≤ 2
unfolding workflow_priority
workflow_priority-le config n h =
    let (v, _, e) = >>=-eq-ok (runtime_value "priority" (text "medium") config) _ h in
    let same : priority_of v ≡ n = cc in rw (← same) (priority_of-le v)

set_plugin-All :
    (w : String) (workers priority : ℕ) (plugins : Plugins)
    → 1 ≤ workers
    → priority ≤ 2
    → All IsBounded plugins
    → All IsBounded (set_plugin w workers priority plugins)
unfolding set_plugin
set_plugin-All w workers priority [] h k all = ((h, k), tt)
set_plugin-All w workers priority ((v, n, p) ∷ rest) h k all = elim (Bool-cases (str_eq v w)) [
  | inl same ↦ rw same ((h, k), all.1)
  | inr other ↦ rw other (all.0, set_plugin-All w workers priority rest h k all.1)
]

read_plugins-All :
    (configs : List (String × Dict)) (plugins plugins' : Plugins)
    → All IsBounded plugins
    → read_plugins configs plugins ≡ ok plugins'
    → All IsBounded plugins'
unfolding read_plugins
read_plugins-All [] plugins plugins' all h = let same : plugins ≡ plugins' = cc in rw (← same) all
read_plugins-All ((w, config) ∷ rest) plugins plugins' all h =
    let (v, _, e1) = >>=-eq-ok (runtime_value "parallel_workers" (num 1) config) _ h in
    let (n, _, e2) = >>=-eq-ok (int_of v) _ e1 in
    let (p, prio, e3) = >>=-eq-ok (workflow_priority config) _ e2 in
    let positive : 1 ≤ max 1 n = omega arith in
    read_plugins-All rest (set_plugin w (max 1 n) p plugins) plugins'
      (set_plugin-All w (max 1 n) p plugins positive (workflow_priority-le config p prio) all) e3

-- If the cached workflows are in bounds, then those that a refresh returns and those that it leaves
-- in the cache are: each workflow has a worker at least, and a priority of 0, 1 or 2.
pub refresh_plugin_worker_cache-All :
    (now : ℕ) (force : Bool) (configs : List (String × Dict)) (cache cache' : Cache)
    (plugins : Plugins)
    → All IsBounded cache.plugins
    → refresh_plugin_worker_cache now force configs cache ≡ ok (plugins, cache')
    → All IsBounded plugins × All IsBounded cache'.plugins
unfolding refresh_plugin_worker_cache
refresh_plugin_worker_cache-All now force configs cache cache' plugins all h =
    elim (Bool-cases
      (not force && not (is_nil cache.plugins) && ltb (now - cache.loaded_at) 30000000)) [
        | inl cached ↦
            let e = rw cached at h in
            let same : cache.plugins ≡ plugins = cc (e) in
            let kept : cache ≡ cache' = cc (e) in (rw (← same) all, rw (← kept) all)
        | inr stale ↦
            let (ps, loaded, e) = >>=-eq-ok (read_plugins configs []) _ (rw stale at h) in
            let same : ps ≡ plugins = cc in
            let kept : record { plugins = ps; loaded_at = now } ≡ cache' = cc in
            let bounded = read_plugins-All configs [] ps tt loaded in
            (rw (← same) bounded, rw (← kept) bounded)
      ]
