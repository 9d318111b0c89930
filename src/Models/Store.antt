-- ===== src/Models/Store.antt =====
-- The statements that the modelled code sends to PostgreSQL: an UPDATE of tasks fires the trigger
-- `tasks_updated_at`, and an INSERT is refused if it breaks a primary or a foreign key of
-- shared/lib/init_db.sql.
use agentic_ops_platform.Prelude.{
  ℕ, Bool, true, not, ◌&&◌, Option, none, some, List, [], ◌∷◌, ◌++◌, ◌==◌, if◌then◌else◌,
  update_where, find_where, any, some_and, leb,
}
use agentic_ops_platform.Py.Result.{Result, ok, raise, integrity_error, data_error}
use agentic_ops_platform.Models.{Task, TaskEvent, SessionEvent, Approval, Db}

abbrev pub has_id : ℕ → Task → Bool
has_id task_id t = t.id == task_id

-- The new row of an UPDATE, with the trigger's `updated`.
abbrev pub touch : ℕ → (Task → Task) → Task → Task
touch now change t = let u = change t in record u { updated = now }

-- UPDATE tasks SET ... WHERE ...
abbrev pub update_tasks : ℕ → (Task → Bool) → (Task → Task) → Db → Db
update_tasks now where_ change db = record db {
  tasks = update_where where_ (touch now change) db.tasks;
}

-- SELECT ... WHERE id = task_id
abbrev pub find_task : ℕ → Db → Option Task
find_task task_id db = find_where (has_id task_id) db.tasks

abbrev pub task_exists : ℕ → Db → Bool
task_exists task_id db = any (has_id task_id) db.tasks

unfoldable pub add_task : Task → Db → Result Db
add_task t db =
    if task_exists t.id db
    then raise integrity_error
    else ok (record db { tasks = db.tasks ++ t ∷ [] })

unfoldable pub add_task_event : TaskEvent → Db → Result Db
add_task_event e db =
    if task_exists e.task_id db
    then ok (record db { task_events = db.task_events ++ e ∷ [] })
    else raise integrity_error

-- A column of type INTEGER takes 32 bits.
unfoldable pub integer_column : ℕ → Result ℕ
integer_column n = if leb n 2147483647 then ok n else raise data_error

-- A session event may have no task; one that names a task needs it.
abbrev pub may_refer : Option ℕ → List Task → Bool
may_refer none tasks = true
may_refer (some task_id) tasks = any (has_id task_id) tasks

unfoldable pub add_session_event : SessionEvent → Db → Result Db
add_session_event e db =
    if may_refer e.task_id db.tasks
    then ok (record db { session_events = db.session_events ++ e ∷ [] })
    else raise integrity_error

-- ... WHERE column IN (...)
abbrev pub is_one_of : List ℕ → ℕ → Bool
is_one_of ids k = any (λ i. i == k) ids

abbrev pub names_one_of : List ℕ → Option ℕ → Bool
names_one_of ids o = some_and o (is_one_of ids)

abbrev pub has_approval_id : ℕ → Approval → Bool
has_approval_id k a = a.id == k

unfoldable pub add_approval : Approval → Db → Result Db
add_approval a db =
    if task_exists a.task_id db && not (any (has_approval_id a.id) db.approvals)
    then ok (record db { approvals = db.approvals ++ a ∷ [] })
    else raise integrity_error

-- The UPDATE of the one approval that the ORM has loaded.
abbrev pub update_approval : ℕ → (Approval → Approval) → Db → Db
update_approval k change db = record db {
  approvals = update_where (has_approval_id k) change db.approvals;
}
