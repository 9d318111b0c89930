-- ===== src/BackgroundJobs.antt =====
-- shared/lib/background_jobs.py: the life of a job run. An id prints as its number, and the tables
-- of knowledge sources that a run may refer to are not in the model.
pub mod Life
pub mod History
use Prim.Native.String.{◌++◌ as ◌+++◌}
use agentic_ops_platform.Prelude.{
  ℕ, ◌-◌, String, Bool, true, false, not, ◌&&◌, ◌||◌, ltb, ◌==◌, str_eq, Option, none, some, List,
  [], ◌∷◌, ◌++◌, map, if◌then◌else◌, some_and, or_else, any, find_where, select_where, update_where,
}
use agentic_ops_platform.Py.Text.{decimal}
use agentic_ops_platform.Py.Json.{Dict, text, entry, empty, merge}
use agentic_ops_platform.Py.Result.{
  Exception, Result, ok, raise, value_error, claim_error, integrity_error, ◌>>=◌,
}
use agentic_ops_platform.Models.{BackgroundJobRun, Db}

-- status in TERMINAL_STATUSES
abbrev pub is_terminal_status : String → Bool
is_terminal_status s =
    str_eq s "succeeded" || str_eq s "failed" || str_eq s "skipped" || str_eq s "cancelled"

abbrev pub has_run_id : ℕ → BackgroundJobRun → Bool
has_run_id k r = r.id == k

abbrev pub find_run : ℕ → Db → Option BackgroundJobRun
find_run k db = find_where (has_run_id k) db.job_runs

-- The UPDATE of the one run that the ORM has loaded and changed.
abbrev pub write_run : ℕ → (BackgroundJobRun → BackgroundJobRun) → Db → Db
write_run run_id change db = record db {
  job_runs = update_where (has_run_id run_id) change db.job_runs;
}

unfoldable pub add_run : BackgroundJobRun → Db → Result (BackgroundJobRun × Db)
add_run r db =
    if any (has_run_id r.id) db.job_runs
    then raise integrity_error
    else ok (r, record db { job_runs = db.job_runs ++ r ∷ [] })

-- The arguments that the functions which add a run share; the database chooses `new_id`.
pub record JobRequest : Type 0 where
  pub new_id : ℕ
  pub job_type : String
  pub scope : Option String
  pub trigger : Option String
  pub knowledge_source_id : Option ℕ
  pub summary : Option Dict

abbrev pub queued_run : JobRequest → ℕ → BackgroundJobRun
queued_run q started_at = record {
  id = q.new_id;
  job_type = q.job_type;
  scope = q.scope;
  trigger = q.trigger;
  knowledge_source_id = q.knowledge_source_id;
  knowledge_source_version_id = none;
  status = "queued";
  started_at = started_at;
  heartbeat_at = none;
  finished_at = none;
  duration_sec = none;
  summary = or_else q.summary empty;
  warnings = [];
  error = none;
}

unfoldable pub queue_background_job :
    ℕ → JobRequest → Option ℕ → Db → Result (BackgroundJobRun × Db)
unfolding add_run
queue_background_job now q queued_at db = add_run (queued_run q (or_else queued_at now)) db

abbrev pub claimed_run : ℕ → BackgroundJobRun → BackgroundJobRun
claimed_run now r = record r { status = "running"; started_at = now; heartbeat_at = some now }

-- f"Background job {run_id}{rest}"
abbrev pub about_run : ℕ → String → String
about_run run_id rest = ◌+++◌ "Background job " (◌+++◌ (decimal run_id) rest)

-- The row that SELECT ... FOR UPDATE returned.
unfoldable pub claim_row : ℕ → ℕ → Db → Option BackgroundJobRun → Result (BackgroundJobRun × Db)
claim_row now run_id db none = raise (claim_error (about_run run_id " does not exist"))
claim_row now run_id db (some r) =
    if not (str_eq r.status "queued")
    then raise (claim_error (about_run run_id (◌+++◌ " is already " r.status)))
    else ok (claimed_run now r, write_run run_id (claimed_run now) db)

unfoldable pub claim_background_job : ℕ → ℕ → Db → Result (BackgroundJobRun × Db)
unfolding claim_row
claim_background_job now run_id db = claim_row now run_id db (find_run run_id db)

abbrev pub started_run : JobRequest → Option ℕ → ℕ → BackgroundJobRun
started_run q version started_at = record (queued_run q started_at) {
  knowledge_source_version_id = version;
  status = "running";
  heartbeat_at = some started_at;
}

unfoldable pub start_background_job :
    ℕ → JobRequest → Option ℕ → Option ℕ → Db → Result (BackgroundJobRun × Db)
unfolding add_run
start_background_job now q version started_at db =
    add_run (started_run q version (or_else started_at now)) db

abbrev pub is_running_run : ℕ → BackgroundJobRun → Bool
is_running_run run_id r = has_run_id run_id r && str_eq r.status "running"

abbrev pub beaten_run : ℕ → Option Dict → BackgroundJobRun → BackgroundJobRun
beaten_run now summary r = record r { heartbeat_at = some now; summary = or_else summary r.summary }

-- `rowcount != 1` of an UPDATE by primary key: no row
unfoldable pub heartbeat_background_job : ℕ → ℕ → Option Dict → Db → Result Db
heartbeat_background_job now run_id summary db =
    if any (is_running_run run_id) db.job_runs
    then ok (record db {
      job_runs = update_where (is_running_run run_id) (beaten_run now summary) db.job_runs;
    })
    else raise (value_error (about_run run_id " is not running"))

-- The arguments of `finish_background_job`.
pub record JobEnd : Type 0 where
  pub status : String
  pub summary : Option Dict
  pub warnings : Option (List String)
  pub error : Option String
  pub knowledge_source_version_id : Option ℕ
  pub finished_at : Option ℕ

-- the argument if it is not None, else what was there
abbrev given_or {ℓ} : {A : Type ℓ} → Option A → Option A → Option A
given_or none old = old
given_or (some a) old = some a

-- max(0.0, (completed_at - started_at).total_seconds()) in microseconds: a difference that stops
-- at 0
abbrev pub finished_run : JobEnd → ℕ → BackgroundJobRun → BackgroundJobRun
finished_run e completed_at r = record r {
  status = e.status;
  heartbeat_at = some completed_at;
  finished_at = some completed_at;
  duration_sec = some (completed_at - r.started_at);
  summary = or_else e.summary r.summary;
  warnings = or_else e.warnings r.warnings;
  error = e.error;
  knowledge_source_version_id =
      given_or e.knowledge_source_version_id r.knowledge_source_version_id;
}

unfoldable pub finish_row :
    ℕ → ℕ → JobEnd → Db → Option BackgroundJobRun → Result (BackgroundJobRun × Db)
finish_row now run_id e db none = raise (value_error (about_run run_id " does not exist"))
finish_row now run_id e db (some r) =
    if not (str_eq r.status "running")
    then raise (value_error (about_run run_id (◌+++◌ " is already " r.status)))
    else let change = finished_run e (or_else e.finished_at now) in
      ok (change r, write_run run_id change db)

abbrev pub unsupported : String → Exception
unsupported status = value_error (◌+++◌ "Unsupported background job terminal status: " status)

unfoldable pub finish_background_job : ℕ → ℕ → JobEnd → Db → Result (BackgroundJobRun × Db)
unfolding finish_row
finish_background_job now run_id e db =
    if not (is_terminal_status e.status)
    then raise (unsupported e.status)
    else finish_row now run_id e db (find_run run_id db)

abbrev pub completed_run : JobRequest → JobEnd → ℕ → ℕ → BackgroundJobRun
completed_run q e started_at finished_at = record (queued_run q started_at) {
  knowledge_source_version_id = e.knowledge_source_version_id;
  status = e.status;
  heartbeat_at = some finished_at;
  finished_at = some finished_at;
  duration_sec = some (finished_at - started_at);
  warnings = or_else e.warnings [];
  error = e.error;
}

unfoldable pub record_completed_background_job :
    JobRequest → JobEnd → ℕ → ℕ → Db → Result (BackgroundJobRun × Db)
unfolding add_run
record_completed_background_job q e started_at finished_at db =
    if not (is_terminal_status e.status)
    then raise (unsupported e.status)
    else add_run (completed_run q e started_at finished_at) db

abbrev of_type : Option String → String → Bool
of_type none t = true
of_type (some job_type) t = str_eq t job_type

abbrev is_none : Option ℕ → Bool
is_none none = true
is_none (some n) = false

-- The WHERE clause of the query for runs without a recent heartbeat.
abbrev pub is_stale : ℕ → Option String → BackgroundJobRun → Bool
is_stale stale_before job_type r =
    str_eq r.status "running"
    && (some_and r.heartbeat_at (λ h. ltb h stale_before)
        || (is_none r.heartbeat_at && ltb r.started_at stale_before))
    && of_type job_type r.job_type

abbrev pub reconciled_run : ℕ → BackgroundJobRun → BackgroundJobRun
reconciled_run now r = record r {
  status = "failed";
  heartbeat_at = some now;
  finished_at = some now;
  duration_sec = some (now - r.started_at);
  summary = merge r.summary (entry "failure_phase" (text "startup_reconciliation") empty);
  error = some "Background job heartbeat expired before worker startup";
}

-- Each run of the query is changed, and their ids are returned.
unfoldable pub reconcile_stale_background_jobs : ℕ → ℕ → Option String → Db → List ℕ × Db
unfolding merge
reconcile_stale_background_jobs now stale_before job_type db = (
  map (λ (r : BackgroundJobRun). r.id) (select_where (is_stale stale_before job_type) db.job_runs),
  record db {
    job_runs = update_where (is_stale stale_before job_type) (reconciled_run now) db.job_runs;
  },
)
