-- ===== src/TaskQueue/Dequeue/Limits.antt =====
-- The limits on running tasks that a claim keeps.
use agentic_ops_platform.Prelude.{
  ℕ, ◌+◌, ◌≤◌, ◌<◌, ◌≡◌, ap, Bool, true, false, some, arith, count_where, count-update_where_le,
}
use agentic_ops_platform.Py.Result.{ok}
use agentic_ops_platform.Models.{Task, Db}
use agentic_ops_platform.Models.Store.{has_id, touch}
use agentic_ops_platform.Models.Sound.{IsSound}
use agentic_ops_platform.TaskQueue.Dequeue.{
  lookup, Policy, limits, is_active, runs, is_full, claimed, platform_gate, dequeue_task,
}
use agentic_ops_platform.TaskQueue.Dequeue.Choosing.{ready}
use agentic_ops_platform.TaskQueue.Dequeue.Claims.{
  after_claim, dequeue_task-IsClaim, dequeue-eq-some,
}

gate-room :
    (policy : Policy) (db : Db) (k : ℕ)
    → policy.platform_max_running ≡ some k
    → platform_gate policy db ≡ ok false
    → count_where is_active db.tasks < k
unfolding platform_gate
gate-room policy db k e h = ground arith

count-claim_le :
    (now : ℕ) (db : Db) (t : Task) (p : Task → Bool)
    → IsSound db
    → count_where p (after_claim now t db).tasks ≤ count_where p db.tasks + 1
count-claim_le now db t p s = omega (
  arith,
  count-update_where_le p (has_id t.id) (touch now (claimed now)) db.tasks,
  s.unique_ids t.id,
)

-- Where the keys of the database hold, with a platform limit, at most that many tasks run after a
-- task has been dequeued.
pub dequeue_task-le_platform_max_running :
    (policy : Policy) (locked : ℕ → Bool) (now : ℕ) (db db' : Db) (t' : Task) (k : ℕ)
    → IsSound db
    → policy.platform_max_running ≡ some k
    → dequeue_task policy locked now db ≡ ok (some t', db')
    → count_where is_active db'.tasks ≤ k
dequeue_task-le_platform_max_running policy locked now db db' t' k s e h =
    let c = dequeue_task-IsClaim policy locked now db db' t' h in
    let room = gate-room policy db k e (dequeue-eq-some policy locked now db h).0.0 in
    rw c.left (omega (arith, count-claim_le now db c.row is_active s))

ready-room :
    (policy : Policy) (locked : ℕ → Bool) (db : Db) (t : Task) (n : ℕ)
    → ready policy locked db t ≡ true
    → lookup t.workflow (limits policy) ≡ some n
    → count_where (runs t.workflow) db.tasks < n
unfolding ready is_full
ready-room policy locked db t n h e = ground arith

-- Where the keys of the database hold, with a limit on its workflow, at most that many tasks of
-- the workflow run after a task of it has been dequeued.
pub dequeue_task-le_workflow_limit :
    (policy : Policy) (locked : ℕ → Bool) (now : ℕ) (db db' : Db) (t' : Task) (n : ℕ)
    → IsSound db
    → lookup t'.workflow (limits policy) ≡ some n
    → dequeue_task policy locked now db ≡ ok (some t', db')
    → count_where (runs t'.workflow) db'.tasks ≤ n
dequeue_task-le_workflow_limit policy locked now db db' t' n s e h =
    let c = dequeue_task-IsClaim policy locked now db db' t' h in
    let same : t'.workflow ≡ c.row.workflow = ap (λ (t : Task). t.workflow) c.returned in
    let room = ready-room policy locked db c.row n c.was_ready (rw same at e) in
    rw (c.left, same) (omega (arith, count-claim_le now db c.row (runs c.row.workflow) s))
