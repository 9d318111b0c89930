-- ===== src/TaskQueue/Archive.antt =====
-- Archiving one task: `archive_task` of shared/lib/task_queue.py, which the gateway calls, and
-- `archive_task_and_related` of shared/lib/housekeeping.py.
use agentic_ops_platform.Prelude.{
  ℕ, ◌≡◌, refl, Bool, true, false, ◌==◌, Option, none, some, if◌then◌else◌, update_where, some_and,
}
use agentic_ops_platform.Py.Clock.{isoformat}
use agentic_ops_platform.Py.Json.{null, text, empty, entry}
use agentic_ops_platform.Py.Result.{Result, ok, raise, unconsumed_column, ◌>>=◌}
use agentic_ops_platform.Models.{Task, Session, SessionEvent, Approval, Db}
use agentic_ops_platform.Models.Store.{has_id, update_tasks, add_task_event}

pub data Table : Type 0 where
  tasks_table sessions_table approvals_table task_events_table session_events_table : Table

-- Which tables models.py declares with a column `archived_at`.
has_archived_at : Table → Bool
has_archived_at task_events_table = false
has_archived_at _ = true

abbrev pub names_task : ℕ → Option ℕ → Bool
names_task task_id o = some_and o (λ k. k == task_id)

set_archived_at : Table → ℕ → ℕ → Option ℕ → Db → Db
set_archived_at tasks_table now task_id at db =
    update_tasks now (has_id task_id) (λ (t : Task). record t { archived_at = at }) db
set_archived_at sessions_table now task_id at db = record db {
  sessions =
      update_where (λ (s : Session). names_task task_id s.task_id)
        (λ s. record s { archived_at = at }) db.sessions;
}
set_archived_at approvals_table now task_id at db = record db {
  approvals =
      update_where (λ (a : Approval). a.task_id == task_id) (λ a. record a { archived_at = at })
        db.approvals;
}
set_archived_at session_events_table now task_id at db = record db {
  session_events =
      update_where (λ (e : SessionEvent). names_task task_id e.task_id)
        (λ e. record e { archived_at = at }) db.session_events;
}
set_archived_at task_events_table now task_id at db = db

-- update(table).where(task_id).values(archived_at=at): SQLAlchemy refuses to compile a statement
-- that sets a column which the table does not have.
archive_rows : Table → ℕ → ℕ → Option ℕ → Db → Result Db
unfolding has_archived_at set_archived_at
archive_rows table now task_id at db =
    if has_archived_at table
    then ok (set_archived_at table now task_id at db)
    else raise (unconsumed_column "archived_at")

abbrev archive_time : ℕ → Bool → Option ℕ
archive_time now archived = if archived then some now else none

unfoldable pub archive_task : ℕ → ℕ → Bool → Db → Result Db
unfolding archive_rows add_task_event
archive_task now task_id archived db = do
  let at = archive_time now archived
  db1 ← archive_rows tasks_table now task_id at db
  db2 ← archive_rows sessions_table now task_id at db1
  db3 ← archive_rows approvals_table now task_id at db2
  db4 ← archive_rows task_events_table now task_id at db3
  db5 ← archive_rows session_events_table now task_id at db4
  add_task_event
      (record {
        task_id = task_id;
        event_type = if archived then "task_archived" else "task_unarchived";
        payload = entry "archived_at" (if archived then text (isoformat now) else null) empty;
      })
      db5

unfoldable pub archive_task_and_related : ℕ → ℕ → Bool → Db → Result Db
unfolding archive_rows
archive_task_and_related now task_id archived db = do
  let at = archive_time now archived
  db1 ← archive_rows tasks_table now task_id at db
  db2 ← archive_rows sessions_table now task_id at db1
  db3 ← archive_rows session_events_table now task_id at db2
  archive_rows approvals_table now task_id at db3

-- The database in which the task and all that belongs to it, its events left out, has this
-- `archived_at`.
abbrev pub archived_db : ℕ → ℕ → Option ℕ → Db → Db
archived_db now task_id at db = record db {
  tasks =
      (update_tasks now (has_id task_id) (λ (t : Task). record t { archived_at = at }) db).tasks;
  sessions =
      update_where (λ (s : Session). names_task task_id s.task_id)
        (λ s. record s { archived_at = at }) db.sessions;
  session_events =
      update_where (λ (e : SessionEvent). names_task task_id e.task_id)
        (λ e. record e { archived_at = at }) db.session_events;
  approvals =
      update_where (λ (a : Approval). a.task_id == task_id) (λ a. record a { archived_at = at })
        db.approvals;
}

-- The function that the gateway's archive and unarchive requests call always raises, so a task
-- cannot be archived by them; the function of the housekeeping module, with the same arguments,
-- succeeds, and sets `archived_at` of the task, its sessions, its session events and its approvals.
pub archive_task_raises :
    (now task_id : ℕ) (archived : Bool) (db : Db)
    → (archive_task now task_id archived db ≡ raise (unconsumed_column "archived_at"))
      × (archive_task_and_related now task_id archived db
          ≡ ok (archived_db now task_id (if archived then some now else none) db))
unfolding archive_task archive_task_and_related
archive_task_raises now task_id archived db = (refl, refl)
