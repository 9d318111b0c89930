-- ===== src/TaskQueue/Create/Coalescing.antt =====
-- An alert joins the newest open task of its key, or makes a new task.
use agentic_ops_platform.Prelude.{
  ℕ, ◌≤◌, ◌≡◌, true, false, Option, [], ◌∷◌, ◌++◌, arith, ltb, All, Memᴰ, String,
}
use agentic_ops_platform.Py.Json.{Dict, empty, entry, obj}
use agentic_ops_platform.Py.Result.{ok}
use agentic_ops_platform.Models.{Task, Db}
use agentic_ops_platform.Models.Store.{has_id, update_tasks}
use agentic_ops_platform.TaskQueue.Create.{
  Packages, Request, joinable, normalize_message_route, coalesced, new_task, insert_task,
  create_task,
}

-- The metadata and the message channel of the request, after the route is normalised.
abbrev pub route : Packages → Db → Request → Option String × Dict
route packages db r =
    normalize_message_route packages db r.workflow r.message_channel r.message_thread r.metadata

-- The database after the task `t` was joined by an alert.
abbrev pub joined_db : ℕ → Dict → Task → Db → Db
joined_db now metadata t db = record db {
  tasks =
      (update_tasks now (has_id t.id)
        (λ (u : Task). record u { task_metadata = coalesced t.task_metadata metadata }) db).tasks;
  task_events =
      db.task_events
      ++ record {
        task_id = t.id;
        event_type = "alert_coalesced";
        payload = entry "new_metadata" (obj metadata) empty;
      }
        ∷ [];
}

-- What a call that joins does: its task is an open one of the key in the window, and the newest.
pub record Joins (packages : Packages) (now : ℕ) (key : String) (r : Request) (db : Db)
    : Type 0 where
  pub row : Task
  pub in_table : Memᴰ row db.tasks
  pub may_join : joinable now key r.coalesce_window_sec row ≡ true
  pub is_newest :
      All (λ u. joinable now key r.coalesce_window_sec u ≡ true → u.created ≤ row.created) db.tasks
  pub result :
      create_task packages now r db
      ≡ ok (
        record row {
          task_metadata = coalesced row.task_metadata (route packages db r).1;
          updated = now;
        },
        joined_db now (route packages db r).1 row db,
      )

-- What a call that joins no task does.
abbrev pub Inserts : Packages → ℕ → Request → Db → Type 0
Inserts packages now r db =
    create_task packages now r db
    ≡ insert_task (new_task now r (route packages db r).0 (route packages db r).1) db

newest_first : (a b : ℕ) → ltb a b ≡ false → b ≤ a
newest_first a b h = ground arith
