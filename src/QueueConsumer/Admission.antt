-- ===== src/QueueConsumer/Admission.antt =====
-- Which tasks the session manager admits.
use agentic_ops_platform.Prelude.{
  ℕ, ◌≤◌, String, ◌≡◌, refl, ap, Bool, true, false, ◌||◌, Option, none, some, [], ◌∷◌, arith,
  str_eq, eq_iff, if◌then◌else◌, Bool-cases, Option-cases, inl, inr, select_where, count_where,
}
use agentic_ops_platform.Py.Result.{Result, ok, >>=-eq-ok}
use agentic_ops_platform.Models.{Task, Db}
use agentic_ops_platform.Models.Sound.{IsSound}
use agentic_ops_platform.TaskQueue.Dequeue.{
  Numbers, lookup, Policy, limits, eligible, in_limits, platform_gate, selection_gate, limits_gate,
  dequeue_task, runs, is_active,
}
use agentic_ops_platform.TaskQueue.Dequeue.Choosing.{ready}
use agentic_ops_platform.TaskQueue.Dequeue.Claims.{dequeue_task-IsClaim}
use agentic_ops_platform.TaskQueue.Dequeue.Limits.{
  dequeue_task-le_platform_max_running, dequeue_task-le_workflow_limit,
}
use agentic_ops_platform.QueueConsumer.{
  Plugins, is_enabled, enabled_plugins, workers_of, admission_policy, admit,
}

-- A workflow with a limit is an enabled one.
limited-enabled :
    (db : Db) (plugins : Plugins) (w : String) (n : ℕ)
    → lookup w (workers_of (select_where (λ p. is_enabled db p.0) plugins)) ≡ some n
    → is_enabled db w ≡ true
unfolding workers_of
limited-enabled db [] w n h = cc
limited-enabled db ((v, m, p) ∷ rest) w n h = elim (Bool-cases (is_enabled db v)) [
  | inl on ↦ elim (Bool-cases (str_eq v w)) [
    | inl same ↦ rw ((eq_iff v w).0 same) at on
    | inr other ↦ limited-enabled db rest w n (rw (on, other) at h)
  ]
  | inr off ↦ limited-enabled db rest w n (rw off at h)
]

open_limits :
    (full selected limited : Bool) (db : Db) (rest : Result (Option Task × Db)) {t' : Task}
    {db' : Db}
    → (if full || selected || limited then ok (none, db) else rest) ≡ ok (some t', db')
    → limited ≡ false
open_limits true selected limited db rest h = cc
open_limits false true limited db rest h = cc
open_limits false false true db rest h = cc
open_limits false false false db rest h = refl

dequeue-limits_gate :
    (policy : Policy) (locked : ℕ → Bool) (now : ℕ) (db : Db) {t' : Task} {db' : Db}
    → dequeue_task policy locked now db ≡ ok (some t', db')
    → limits_gate policy ≡ false
unfolding dequeue_task
dequeue-limits_gate policy locked now db h =
    let (full, gate, rest) = >>=-eq-ok (platform_gate policy db) _ h in
    open_limits full (selection_gate policy db) (limits_gate policy) db _ rest

ready-in_limits :
    (policy : Policy) (locked : ℕ → Bool) (db : Db) (t : Task)
    → ready policy locked db t ≡ true
    → in_limits (limits policy) t.workflow ≡ true
unfolding ready eligible
ready-in_limits policy locked db t h = ground arith

limit_of :
    (ls : Numbers) (w : String)
    → limits_gate (record {
      workflow = none;
      max_running = none;
      platform_max_running = none;
      workflow_limits = some ls;
      workflow_priorities = none;
    })
      ≡ false
    → in_limits ls w ≡ true
    → (n : ℕ) × (lookup w ls ≡ some n)
unfolding limits_gate
limit_of [] w g h = cc
limit_of (l ∷ ls) w g h = elim (Option-cases (lookup w (l ∷ ls))) [
  | inl e ↦ cc (rw e at h)
  | inr found ↦ found
]

-- What an admitted task tells: its workflow has an agent that is provisioned and not paused, and
-- after the admission neither the workflow has more running tasks than workers nor the platform
-- more than its limit.
pub record IsAdmitted (platform_max : ℕ) (plugins : Plugins) (db : Db) (t : Task) (db' : Db)
    : Type 0 where
  pub enabled : is_enabled db t.workflow ≡ true
  pub workers : ℕ
  pub limit : lookup t.workflow (workers_of (enabled_plugins db plugins)) ≡ some workers
  pub within_workers : count_where (runs t.workflow) db'.tasks ≤ workers
  pub within_platform : count_where is_active db'.tasks ≤ platform_max

-- Where the keys of the database hold, a task that a poll of the queue returns is of a workflow
-- whose agent is provisioned and not paused, and after the poll the workflow has at most as many
-- running tasks as it has workers, and the platform at most as many as its limit.
pub admit-IsAdmitted :
    (platform_max : ℕ) (plugins : Plugins) (locked : ℕ → Bool) (now : ℕ) (db db' : Db) (t' : Task)
    → IsSound db
    → admit platform_max plugins locked now db ≡ ok (some t', db')
    → IsAdmitted platform_max plugins db t' db'
unfolding admit
admit-IsAdmitted platform_max plugins locked now db db' t' s h =
    let policy = admission_policy platform_max plugins db in
    let c = dequeue_task-IsClaim policy locked now db db' t' h in
    let same : t'.workflow ≡ c.row.workflow = ap (λ (t : Task). t.workflow) c.returned in
    let gate = dequeue-limits_gate policy locked now db h in
    let (n, found) =
      limit_of (workers_of (enabled_plugins db plugins)) c.row.workflow (unfold limits_gate in gate)
        (ready-in_limits policy locked db c.row c.was_ready) in
    let found' : lookup t'.workflow (workers_of (enabled_plugins db plugins)) ≡ some n =
      rw same found in
    record {
      enabled = unfold enabled_plugins in limited-enabled db plugins t'.workflow n found';
      workers = n;
      limit = found';
      within_workers = dequeue_task-le_workflow_limit policy locked now db db' t' n s found' h;
      within_platform =
          dequeue_task-le_platform_max_running policy locked now db db' t' platform_max s refl h;
    }
