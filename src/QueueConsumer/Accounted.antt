-- ===== src/QueueConsumer/Accounted.antt =====
-- What one round leaves of the task that it admits.
use agentic_ops_platform.Prelude.{
  ℕ, String, ◌≡◌, refl, sym, ap, ◌∙◌, subst, Bool, true, false, Option, none, some, List, [], ◌∷◌,
  ◌++◌, ◌==◌, ==_refl, inl, inr, Bool-cases, Option-cases, All, All-find, Memᴰ, mem-any, mem-snoc,
  find-passes, find-none, update_where-All,
}
use agentic_ops_platform.Py.Result.{ok}
use agentic_ops_platform.Models.{Task, Db}
use agentic_ops_platform.Models.Status.{running, failed}
use agentic_ops_platform.Models.Store.{has_id, touch, find_task, task_exists, update_tasks}
use agentic_ops_platform.Models.Rows.{find_task-update_self, exists_of_find}
use agentic_ops_platform.Models.Sound.{task_exists-update_tasks}
use agentic_ops_platform.TaskQueue.Create.{given}
use agentic_ops_platform.TaskQueue.Dequeue.{claimed}
use agentic_ops_platform.TaskQueue.Dequeue.Claims.{dequeue_task-IsClaim}
use agentic_ops_platform.TaskQueue.Lifecycle.{completed, complete_task}
use agentic_ops_platform.TaskQueue.Lifecycle.Effects.{complete_task-IsChange, complete_task-there}
use agentic_ops_platform.Containers.{
  RuntimeStatus, has_live_runtime, ended_with, new_session, in_container, add_session, record_start,
  started_or_failed, after_launch, spawn_agent_session,
}
use agentic_ops_platform.QueueConsumer.{
  Plugins, Cache, admission_policy, admit, refresh_plugin_worker_cache,
}
use agentic_ops_platform.QueueConsumer.Poll.{
  World, Consumer, lost_runtime, resume, after_spawn, start, go_on, after_admission, after_refresh,
  poll,
}

-- The task is running in a live runtime that it had before, or in the one that was launched for it,
-- whose session is stored, or it has failed.
pub data Accounted (w : World) (t : Task) (db : Db) : Type 0 where
  goes_on :
      (runtimes : List RuntimeStatus) (row : Task)
      → w.runtimes ≡ some runtimes
      → has_live_runtime runtimes (w.show_uuid t.id) t.container_id ≡ true
      → find_task t.id db ≡ some row
      → row.status ≡ running
      → Accounted w t db
  has_failed : (row : Task) → find_task t.id db ≡ some row → row.status ≡ failed → Accounted w t db
  has_started :
      (container : String) (row : Task)
      → w.launch t ≡ some container
      → find_task t.id db ≡ some row
      → row.status ≡ running
      → row.container_id ≡ some container
      → Memᴰ (new_session w.new_id w.now t.id) db.sessions
      → Accounted w t db

find_of_exists :
    (k : ℕ) (db : Db) → task_exists k db ≡ true → (t : Task) × (find_task k db ≡ some t)
find_of_exists k db h = elim (Option-cases (find_task k db)) [
  | inl e ↦ cc (find-none (has_id k) db.tasks e)
  | inr found ↦ found
]

-- The admitted task is stored, and it is running.
admit-running :
    (platform_max : ℕ) (plugins : Plugins) (locked : ℕ → Bool) (now : ℕ) (db db' : Db) (t : Task)
    → admit platform_max plugins locked now db ≡ ok (some t, db')
    → (row : Task) × (find_task t.id db' ≡ some row) × (row.status ≡ running)
unfolding admit
admit-running platform_max plugins locked now db db' t h =
    let c = dequeue_task-IsClaim (admission_policy platform_max plugins db) locked now db db' t h in
    let same : t.id ≡ c.row.id = ap (λ (x : Task). x.id) c.returned in
    let there : task_exists c.row.id db ≡ true =
      mem-any (has_id c.row.id) db.tasks c.queued_row (==_refl c.row.id) in
    let after : task_exists t.id db' ≡ true =
      rw (same, c.left)
        (task_exists-update_tasks now (has_id c.row.id) (claimed now) (λ x. refl) db c.row.id
          ∙ there) in
    let (row, found) = find_of_exists t.id db' after in
    let passes = find-passes (has_id t.id) db'.tasks row found in
    let all : All (λ (x : Task). has_id c.row.id x ≡ true → x.status ≡ running) db'.tasks =
      rw c.left (
        update_where-All (λ (x : Task). x.status ≡ running) (has_id c.row.id)
          (touch now (claimed now)) (λ x. refl) db.tasks) in
    (
      row,
      found,
      All-find (has_id t.id) (λ (x : Task). has_id c.row.id x ≡ true → x.status ≡ running) db'.tasks
          row all found (ap (λ k. row.id == k) (sym same) ∙ passes),
    )

failed-Accounted :
    (w : World) (t : Task) (error : String) (db : Db) (row : Task)
    → find_task t.id db ≡ some row
    → (db' : Db) × (complete_task w.now t.id (ended_with error) db ≡ ok db') × Accounted w t db'
failed-Accounted w t error db row found =
    let (db', done) =
      complete_task-there w.now t.id (ended_with error) db refl (exists_of_find t.id db found) in
    let change = complete_task-IsChange w.now t.id (ended_with error) db db' done in
    (
      db',
      done,
      has_failed (touch w.now (completed (ended_with error)) row) (change.row row found) refl,
    )

resume-Accounted :
    (w : World) (t row : Task) (runtimes : List RuntimeStatus) (db : Db)
    → w.runtimes ≡ some runtimes
    → find_task t.id db ≡ some row
    → row.status ≡ running
    → Accounted w t (resume w t (some runtimes) db)
unfolding resume
resume-Accounted w t row runtimes db listed found runs =
    elim (Bool-cases (has_live_runtime runtimes (w.show_uuid t.id) t.container_id)) [
      | inl live ↦ rw live (goes_on runtimes row listed live found runs)
      | inr gone ↦
          let (db', done, accounted) = failed-Accounted w t lost_runtime db row found in
          rw (gone, done) accounted
    ]

record_start-ok :
    (new_id now : ℕ) (container : String) (t : Task) (db : Db)
    → task_exists t.id db ≡ true
    → record_start new_id now container t db
      ≡ ok (record (update_tasks now (has_id t.id) (in_container container) db) {
        sessions = db.sessions ++ new_session new_id now t.id ∷ [];
      })
unfolding record_start add_session
record_start-ok new_id now container t db there =
    rw
      (task_exists-update_tasks now (has_id t.id) (in_container container) (λ x. refl) db t.id
        ∙ there)
      refl

after_launch-Accounted :
    (w : World) (t row : Task) (db : Db) (o : Option String)
    → w.launch t ≡ o
    → find_task t.id db ≡ some row
    → row.status ≡ running
    → Accounted w t (after_spawn (after_launch o w.new_id w.now t db) db)
unfolding after_launch started_or_failed
after_launch-Accounted w t row db none launched found runs =
    let (db', done, accounted) = failed-Accounted w t "Failed to spawn runtime" db row found in
    rw done accounted
after_launch-Accounted w t row db (some id) launched found runs =
    rw (record_start-ok w.new_id w.now id t db (exists_of_find t.id db found)) (
      has_started id (touch w.now (in_container id) row) launched
        (find_task-update_self w.now t.id (in_container id) (λ x. refl) db found) runs refl
        (mem-snoc db.sessions (new_session w.new_id w.now t.id)))

start-Accounted :
    (w : World) (t row : Task) (c : Consumer)
    → w.restores t.workflow ≡ true
    → find_task t.id c.db ≡ some row
    → row.status ≡ running
    → Accounted w t (start w t c).db
unfolding start spawn_agent_session
start-Accounted w t row c restored found runs =
    rw restored (after_launch-Accounted w t row c.db (w.launch t) refl found runs)

go_on-Accounted :
    (w : World) (t row : Task) (runtimes : List RuntimeStatus) (c : Consumer)
    → w.restores t.workflow ≡ true
    → w.runtimes ≡ some runtimes
    → find_task t.id c.db ≡ some row
    → row.status ≡ running
    → Accounted w t (go_on w t c).db
unfolding go_on
go_on-Accounted w t row runtimes c restored listed found runs =
    elim (Bool-cases (given t.container_id)) [
      | inl old ↦ rw old (
          subst (λ o. Accounted w t (resume w t o c.db)) (sym listed)
            (resume-Accounted w t row runtimes c.db listed found runs))
      | inr fresh ↦ rw fresh (start-Accounted w t row c restored found runs)
    ]

-- If a round reads the workflow directories without an error and admits a task, restoring memory
-- raises no exception and the launcher lists its runtimes, then after the round the task is running
-- in a live runtime that it had, or is running in a runtime that was launched for it and has a
-- session, or has failed: none is left running without a runtime.
pub poll-Accounted :
    (platform_max : ℕ) (w : World) (c : Consumer) (plugins : Plugins) (cache : Cache)
    (runtimes : List RuntimeStatus) (t : Task) (db : Db)
    → refresh_plugin_worker_cache w.monotonic false w.configs c.cache ≡ ok (plugins, cache)
    → admit platform_max plugins w.locked w.now c.db ≡ ok (some t, db)
    → w.restores t.workflow ≡ true
    → w.runtimes ≡ some runtimes
    → Accounted w t (poll platform_max w c).db
unfolding poll after_refresh after_admission
poll-Accounted platform_max w c plugins cache runtimes t db refreshed admitted restored listed =
    let (row, found, runs) = admit-running platform_max plugins w.locked w.now c.db db t admitted in
    rw (refreshed, admitted)
      (go_on-Accounted w t row runtimes
        (record { cache = cache; db = db; containers = c.containers }) restored listed found runs)
