-- ===== src/Examples/Queue.antt =====
-- The theorems on the task queue, applied to a queue of four tasks.
use Prim.Native.String.{◌++◌ as ◌+++◌}
use agentic_ops_platform.Prelude.{
  ℕ, List, ◌≤◌, ◌≡◌, ◌≢◌, refl, Bool, true, false, ◌||◌, ◌⊎◌, Option, none, some, [], ◌∷◌, ◌++◌,
  All, count_where,
}
use agentic_ops_platform.Prelude.Least.{least}
use agentic_ops_platform.Py.Json.{empty, null, text, entry, merge}
use agentic_ops_platform.Py.Result.{ok, raise, value_error, integrity_error, unconsumed_column}
use agentic_ops_platform.Models.{Task, Db}
use agentic_ops_platform.Models.Status.{
  resume_pending, waiting_user_input, succeeded, is_waiting, status_name,
}
use agentic_ops_platform.Models.Store.{has_id, update_tasks, find_task, task_exists}
use agentic_ops_platform.TaskQueue.Dequeue.{
  Policy, eligible, before, lex3, is_full, choose, rounds, dequeue_task, claimed, platform_gate,
  selection_gate, limits_gate, is_active, runs,
}
use agentic_ops_platform.TaskQueue.Dequeue.Choosing.{best_ready, ready, choose-eq-single_query}
use agentic_ops_platform.TaskQueue.Dequeue.Claims.{after_claim, IsClaim, dequeue_task-IsClaim}
use agentic_ops_platform.TaskQueue.Dequeue.Limits.{
  dequeue_task-le_platform_max_running, dequeue_task-le_workflow_limit,
}
use agentic_ops_platform.TaskQueue.Dequeue.Outcomes.{dequeue_task-total, dequeue_task-none}
use agentic_ops_platform.TaskQueue.Lifecycle.{
  Outcome, waiting, resumed, mark_task_waiting, mark_task_resume_pending,
}
use agentic_ops_platform.TaskQueue.Lifecycle.Effects.{IsWait, mark_task_waiting-cases, wait-resume}
use agentic_ops_platform.TaskQueue.Archive.{
  archive_task, archive_task_and_related, archived_db, archive_task_raises,
}
use agentic_ops_platform.TaskQueue.Sweeps.{maintenance_sweep, waiting_timeout_sweep}
use agentic_ops_platform.TaskQueue.Sweeps.Expired.{
  IsLostSweep, IsTimeoutSweep, maintenance_sweep-IsLostSweep, waiting_timeout_sweep-IsTimeoutSweep,
}
use agentic_ops_platform.Examples.{running_ops, queued_dev, some_db, some_db-IsSound}

-- One task of each workflow may run, so the older task of "ops" is passed over.
abbrev one_each : Policy
one_each = record {
  workflow = none;
  max_running = some 4;
  platform_max_running = some 2;
  workflow_limits = some (("ops", 1) ∷ ("dev", 1) ∷ []);
  workflow_priorities = none;
}

abbrev unlocked : ℕ → Bool
unlocked k = false

abbrev claimed_dev : Task
claimed_dev = record (claimed 50 queued_dev) { updated = 50 }

abbrev claimed_db : Db
claimed_db = after_claim 50 queued_dev some_db

claims_dev : dequeue_task one_each unlocked 50 some_db ≡ ok (some claimed_dev, claimed_db)
unfolding dequeue_task choose least eligible before lex3 is_full
claims_dev = refl

choose-eq-single_query_example :
    choose one_each unlocked some_db (rounds one_each) [] ≡ best_ready one_each unlocked some_db
choose-eq-single_query_example = choose-eq-single_query one_each unlocked some_db

dequeue_task-IsClaim_example : IsClaim one_each unlocked 50 some_db claimed_dev claimed_db
dequeue_task-IsClaim_example =
    dequeue_task-IsClaim one_each unlocked 50 some_db claimed_db claimed_dev claims_dev

dequeue_task-le_platform_max_running_example : count_where is_active claimed_db.tasks ≤ 2
dequeue_task-le_platform_max_running_example =
    dequeue_task-le_platform_max_running one_each unlocked 50 some_db claimed_db claimed_dev 2
      some_db-IsSound refl claims_dev

dequeue_task-le_workflow_limit_example : count_where (runs "dev") claimed_db.tasks ≤ 1
dequeue_task-le_workflow_limit_example =
    dequeue_task-le_workflow_limit one_each unlocked 50 some_db claimed_db claimed_dev 1
      some_db-IsSound refl claims_dev

dequeue_task-total_example :
    (one_each.platform_max_running ≡ some 0)
      × (dequeue_task one_each unlocked 50 some_db
          ≡ raise (value_error "platform_max_running must be at least 1"))
    ⊎ (one_each.platform_max_running ≢ some 0)
      × ((o : Option Task) × (db' : Db) × (dequeue_task one_each unlocked 50 some_db ≡ ok (o, db')))
dequeue_task-total_example = dequeue_task-total one_each unlocked 50 some_db

abbrev none_left : Policy
none_left = record one_each { platform_max_running = some 1 }

finds_none : dequeue_task none_left unlocked 50 some_db ≡ ok (none, some_db)
unfolding dequeue_task
finds_none = refl

dequeue_task-none_example :
    (some_db ≡ some_db)
    × ((platform_gate none_left some_db ≡ ok true)
        ⊎ ((selection_gate none_left some_db || limits_gate none_left) ≡ true)
        ⊎ All (λ t. ready none_left unlocked some_db t ≡ false) some_db.tasks)
dequeue_task-none_example = dequeue_task-none none_left unlocked 50 some_db some_db finds_none

mark_task_waiting-cases_example :
    let r = mark_task_waiting 50 1 waiting_user_input "question" (some 90) none empty some_db in
    (is_waiting waiting_user_input ≡ false)
      × (r
          ≡ raise
              (value_error (◌+++◌ "Unsupported waiting status: " (status_name waiting_user_input))))
    ⊎ (is_waiting waiting_user_input ≡ true)
      × ((task_exists 1 some_db ≡ false) × (r ≡ raise integrity_error)
          ⊎ ((db' : Db) × (r ≡ ok db')
              × IsWait 50 1 waiting_user_input "question" (some 90) none some_db db'))
mark_task_waiting-cases_example =
    mark_task_waiting-cases 50 1 waiting_user_input "question" (some 90) none empty some_db

abbrev success : Outcome
success = record {
  status = succeeded;
  result = null;
  tokens_used = 70;
  duration_sec = none;
  error = none;
}

abbrev waited_db : Db
waited_db = record some_db {
  tasks =
      (update_tasks 50 (has_id 1) (waiting 50 waiting_user_input "question" none) some_db).tasks;
  task_events =
      record {
        task_id = 1;
        event_type = "asked";
        payload = entry "reason" (text "question") (entry "deadline" null empty);
      }
      ∷ [];
}

asks :
    mark_task_waiting 50 1 waiting_user_input "question" none (some "asked") empty some_db
    ≡ ok waited_db
unfolding mark_task_waiting merge
asks = refl

abbrev resumed_db : Db
resumed_db = record waited_db {
  tasks = (update_tasks 60 (has_id 1) (resumed 60 resume_pending) waited_db).tasks;
  task_events =
      waited_db.task_events
      ++ record {
        task_id = 1;
        event_type = "answered";
        payload = entry "reason" (text "reply") empty;
      }
        ∷ [];
}

answers : mark_task_resume_pending 60 1 "reply" "answered" empty waited_db ≡ ok resumed_db
unfolding mark_task_resume_pending merge
answers = refl

wait-resume_example :
    find_task 1 resumed_db
    ≡ some (record running_ops {
      status = resume_pending;
      heartbeat = some 60;
      wait_reason = none;
      wait_deadline = none;
      updated = 60;
    })
wait-resume_example =
    wait-resume 50 60 1 waiting_user_input "question" "reply" "answered" none (some "asked") empty
      empty some_db waited_db resumed_db running_ops refl asks answers

maintenance_sweep-IsLostSweep_example :
    (ids : List ℕ) × (db' : Db) × (maintenance_sweep 90000000 60 some_db ≡ ok (ids, db'))
    × IsLostSweep 90000000 60 some_db ids db'
maintenance_sweep-IsLostSweep_example =
    maintenance_sweep-IsLostSweep 90000000 60 some_db some_db-IsSound

waiting_timeout_sweep-IsTimeoutSweep_example :
    (ids : List ℕ) × (db' : Db) × (waiting_timeout_sweep 50 some_db ≡ ok (ids, db'))
    × IsTimeoutSweep 50 some_db ids db'
waiting_timeout_sweep-IsTimeoutSweep_example =
    waiting_timeout_sweep-IsTimeoutSweep 50 some_db some_db-IsSound

archive_task_raises_example :
    (archive_task 50 1 true some_db ≡ raise (unconsumed_column "archived_at"))
    × (archive_task_and_related 50 1 true some_db ≡ ok (archived_db 50 1 (some 50) some_db))
archive_task_raises_example = archive_task_raises 50 1 true some_db
