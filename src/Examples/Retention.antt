-- ===== src/Examples/Retention.antt =====
-- The theorems on retention and on the text of posts, applied to one archived task and one post.
use agentic_ops_platform.Prelude.{
  ◌-◌, ◌≡◌, refl, not, some, [], ◌∷◌, count_where, select_where, arith,
}
use agentic_ops_platform.Py.Json.{Dict, text, empty, entry}
use agentic_ops_platform.Models.{Task, Db}
use agentic_ops_platform.Models.Sound.{IsSound}
use agentic_ops_platform.Housekeeping.{days_of, is_expired, delete_tasks, delete_archived_tasks}
use agentic_ops_platform.Housekeeping.Deletion.{delete_archived_tasks-exact}
use agentic_ops_platform.Examples.{running_ops, queued_ops, some_db, some_db-IsSound}

abbrev archived_ops : Task
archived_ops = record running_ops { archived_at = some 5 }

abbrev old_db : Db
old_db = record some_db { tasks = archived_ops ∷ queued_ops ∷ [] }

old_db-IsSound : IsSound old_db
old_db-IsSound = record {
  unique_ids = λ k. ground arith;
  task_events_refer = tt;
  session_events_refer = tt;
  unique_approvals = some_db-IsSound.unique_approvals;
  approvals_refer = tt;
}

-- Two days later, with a retention of one day.
delete_archived_tasks-exact_example :
    ((delete_archived_tasks 1 172800000000 old_db).1.tasks
      ≡ select_where (λ t. not (is_expired (172800000000 - days_of 1) t)) old_db.tasks)
    × ((delete_archived_tasks 1 172800000000 old_db).0
        ≡ count_where (is_expired (172800000000 - days_of 1)) old_db.tasks)
    × IsSound (delete_archived_tasks 1 172800000000 old_db).1
delete_archived_tasks-exact_example =
    delete_archived_tasks-exact 1 172800000000 old_db old_db-IsSound refl

deletes : (delete_archived_tasks 1 172800000000 old_db).1.tasks ≡ queued_ops ∷ []
unfolding delete_archived_tasks delete_tasks
deletes = refl

abbrev post : Dict
post = entry "message" (text "disk full") empty
