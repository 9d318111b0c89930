-- ===== src/Housekeeping.antt =====
-- shared/lib/housekeeping.py: archiving and deleting old tasks, and pruning the history of jobs. A
-- number of days is 0 where the source's is not above 0.
pub mod Deletion
use agentic_ops_platform.Prelude.{
  ℕ, ◌-◌, ◌*◌, String, Bool, true, false, not, ◌&&◌, ◌||◌, ◌==◌, ltb, Option, none, some, List, [],
  ◌∷◌, map, if◌then◌else◌, str_eq, any, select_where, delete_where, update_where, some_and, length,
  drop,
}
use agentic_ops_platform.Py.Text.{strip, lower}
use agentic_ops_platform.Py.Clock.{seconds, isoformat}
use agentic_ops_platform.Py.Json.{Json, Dict, text, empty, entry, get, either, str, as_dict}
use agentic_ops_platform.Py.Result.{Result, ok, ◌>>=◌}
use agentic_ops_platform.Models.{
  Task, TaskEvent, Session, SessionEvent, Approval, BackgroundJobRun, Db,
}
use agentic_ops_platform.Models.Status.{is_terminal, status_name}
use agentic_ops_platform.Models.Store.{is_one_of, names_one_of}
use agentic_ops_platform.Models.Sweep.{sweep_rows}
use agentic_ops_platform.BackgroundJobs.{JobRequest, JobEnd, record_completed_background_job}

-- timedelta(days=n)
abbrev pub days_of : ℕ → ℕ
days_of n = seconds (n * 86400)

-- task_id.in_(task_ids)
-- The tasks that are archived: terminal, not archived yet, and made before the cutoff.
abbrev pub may_archive : ℕ → Task → Bool
may_archive cutoff t =
    is_terminal t.status
    && (elim t.archived_at [ none ↦ true | some a ↦ false ])
    && ltb t.created cutoff

abbrev pub archived : ℕ → Task → Task
archived now t = record t { archived_at = some now }

unfoldable pub auto_archived_event : ℕ → Task → TaskEvent
auto_archived_event cutoff t = record {
  task_id = t.id;
  event_type = "task_auto_archived";
  payload =
      entry "cutoff" (text (isoformat cutoff)) (entry "status" (text (status_name t.status)) empty);
}

-- The three UPDATE statements on the rows that name the tasks.
unfoldable pub archive_related : ℕ → List ℕ → Db → Db
archive_related now ids db = record db {
  sessions =
      update_where (λ (s : Session). names_one_of ids s.task_id)
        (λ s. record s { archived_at = some now }) db.sessions;
  session_events =
      update_where (λ (e : SessionEvent). names_one_of ids e.task_id)
        (λ e. record e { archived_at = some now }) db.session_events;
  approvals =
      update_where (λ (a : Approval). is_one_of ids a.task_id)
        (λ a. record a { archived_at = some now }) db.approvals;
}

abbrev pub ids_of : List Task → List ℕ
ids_of ts = map (λ (t : Task). t.id) ts

unfoldable pub archive_terminal_tasks : ℕ → ℕ → Db → Result (ℕ × Db)
unfolding sweep_rows auto_archived_event archive_related
archive_terminal_tasks days now db =
    if days == 0
    then ok (0, db)
    else let cutoff = now - days_of days in
      let tasks = select_where (may_archive cutoff) db.tasks in
      (sweep_rows now (archived now) (auto_archived_event cutoff) tasks db >>= λ db'.
      ok (length tasks, archive_related now (ids_of tasks) db'))

-- Task.archived_at is not NULL and < cutoff
abbrev pub is_expired : ℕ → Task → Bool
is_expired cutoff t = some_and t.archived_at (λ a. ltb a cutoff)

-- The DELETE statements, the tasks last.
unfoldable pub delete_tasks : List ℕ → Db → Db
delete_tasks ids db = record db {
  approvals = delete_where (λ (a : Approval). is_one_of ids a.task_id) db.approvals;
  session_events =
      delete_where (λ (e : SessionEvent). names_one_of ids e.task_id) db.session_events;
  sessions = delete_where (λ (s : Session). names_one_of ids s.task_id) db.sessions;
  task_events = delete_where (λ (e : TaskEvent). is_one_of ids e.task_id) db.task_events;
  tasks = delete_where (λ (t : Task). is_one_of ids t.id) db.tasks;
}

unfoldable pub delete_archived_tasks : ℕ → ℕ → Db → ℕ × Db
unfolding delete_tasks
delete_archived_tasks days now db =
    if days == 0
    then (0, db)
    else let tasks = select_where (is_expired (now - days_of days)) db.tasks in
      (length tasks, delete_tasks (ids_of tasks) db)

-- .order_by(started_at.desc(), id.desc())
abbrev pub newer_run : BackgroundJobRun → BackgroundJobRun → Bool
newer_run r q =
    if ltb q.started_at r.started_at
    then true
    else if ltb r.started_at q.started_at
    then false
    else ltb q.id r.id

insert_run : BackgroundJobRun → List BackgroundJobRun → List BackgroundJobRun
insert_run r [] = r ∷ []
insert_run r (q ∷ qs) = let rest = insert_run r qs in if newer_run q r then q ∷ rest else r ∷ q ∷ qs

newest_runs_first : List BackgroundJobRun → List BackgroundJobRun
unfolding insert_run
newest_runs_first [] = []
newest_runs_first (r ∷ rs) = insert_run r (newest_runs_first rs)

-- A limit that is None or below 0 keeps everything.
unfoldable pub prune_background_job_runs : String → Option ℕ → Db → ℕ × Db
unfolding newest_runs_first
prune_background_job_runs job_type none db = (0, db)
prune_background_job_runs job_type (some keep) db =
    let runs = drop keep (
      newest_runs_first
        (select_where (λ (r : BackgroundJobRun). str_eq r.job_type job_type) db.job_runs)) in
    let ids = map (λ (r : BackgroundJobRun). r.id) runs in
    (
      length runs,
      record db {
        job_runs = delete_where (λ (r : BackgroundJobRun). is_one_of ids r.id) db.job_runs;
      },
    )

-- A summary and warnings that are None are empty already.
unfoldable pub record_background_job_run :
    JobRequest → JobEnd → ℕ → ℕ → Db → Result (BackgroundJobRun × Db)
unfolding record_completed_background_job
record_background_job_run q e started_at finished_at db =
    record_completed_background_job q e started_at finished_at db

-- What is read of a memory.
trimmed_at : String → Dict → String
unfolding strip str either get
trimmed_at k d = strip (str (either (get k d) (text "")))

abbrev nonempty : String → Option String → Option String
nonempty s next = if str_eq s "" then next else some s

unfoldable pub extract_memory_id : Dict → Option String
unfolding trimmed_at
extract_memory_id item =
    nonempty (trimmed_at "id" item)
      (nonempty (trimmed_at "memory_id" item) (nonempty (trimmed_at "document_id" item) none))

unfoldable pub extract_document_id : Dict → Option String
unfolding trimmed_at get as_dict
extract_document_id item =
    nonempty (trimmed_at "document_id" item)
      (nonempty (trimmed_at "document_id" (as_dict (get "metadata" item))) none)

unfoldable pub should_skip_memory_invalidation : Dict → Bool
unfolding strip lower str either get extract_document_id
should_skip_memory_invalidation item =
    let fact_type = lower (
      strip (
        str (
          either (get "fact_type" item)
            (either (get "type" item) (either (get "kind" item) (text "")))))) in
    str_eq fact_type "observation"
    && (elim (extract_document_id item) [ none ↦ true | some k ↦ false ])
