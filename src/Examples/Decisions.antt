-- ===== src/Examples/Decisions.antt =====
-- The theorems on approvals and on job runs, applied to one task that asks for an approval, and to
-- one run.
use Prim.Native.String.{◌++◌ as ◌+++◌}
use agentic_ops_platform.Prelude.{◌≡◌, refl, true, none, some, [], ◌∷◌, find_where, arith}
use agentic_ops_platform.Prelude.Least.{least}
use agentic_ops_platform.Py.Text.{strip}
use agentic_ops_platform.Py.Json.{
  Dict, text, flag, obj, empty, entry, get, truthy, either, str, merge, put,
}
use agentic_ops_platform.Py.Result.{ok, raise, claim_error}
use agentic_ops_platform.Models.{Approval, BackgroundJobRun, Db}
use agentic_ops_platform.Models.Store.{has_approval_id, add_approval}
use agentic_ops_platform.Models.Sound.{IsSound}
use agentic_ops_platform.Approvals.{
  find_open_approval, text_or_none, nonempty_text, approval_status_from_result, insert_or_change,
  dispatch, on_approval_requested, on_approval_result, tool_name_of, apply_approval_event,
}
use agentic_ops_platform.Approvals.Open.{
  OnePending, apply_approval_event-OnePending, apply_approval_event-IsSound,
}
use agentic_ops_platform.Approvals.Final.{
  IsResolved, apply_approval_event-final, apply_approval_event-IsResolved,
}
use agentic_ops_platform.BackgroundJobs.{
  find_run, claim_background_job, claim_row, about_run, JobEnd,
}
use agentic_ops_platform.BackgroundJobs.Life.{claim_call, finish_call, reconcile_call}
use agentic_ops_platform.BackgroundJobs.History.{
  run_calls, run_calls-keeps_terminal, claim_background_job-once,
}
use agentic_ops_platform.Examples.{running_ops, some_db, some_db-IsSound}

abbrev pub asked : Dict
asked = entry "tool_name" (text "restart") empty

abbrev approved : Dict
approved = entry "tool_name" (text "restart") (entry "approved" (flag true) empty)

abbrev pub pending_row : Approval
pending_row = record {
  id = 7;
  task_id = 1;
  workflow = some "ops";
  approval_kind = "operator_approval";
  tool_name = "restart";
  status = "pending";
  request_preview = none;
  reason = none;
  approval_metadata = entry "approval_requested" (obj asked) empty;
  requested_at = 50;
  resolved_at = none;
  archived_at = none;
  created_at = 51;
  updated_at = 50;
}

abbrev pub asked_db : Db
asked_db = record some_db { approvals = pending_row ∷ [] }

asks :
    apply_approval_event (some running_ops) (some 1) "approval_requested" 50 asked 7 51 some_db
    ≡ ok (some pending_row, asked_db)
unfolding apply_approval_event dispatch on_approval_requested strip str either get truthy
    tool_name_of find_open_approval least insert_or_change text_or_none add_approval
asks = refl

abbrev approved_row : Approval
approved_row = record pending_row {
  status = "approved";
  approval_metadata =
      entry "approval_requested" (obj asked) (entry "approval_result" (obj approved) empty);
  resolved_at = some 60;
  updated_at = 60;
}

abbrev approved_db : Db
approved_db = record some_db { approvals = approved_row ∷ [] }

approves :
    apply_approval_event (some running_ops) (some 1) "approval_result" 60 approved 8 61 asked_db
    ≡ ok (some approved_row, approved_db)
unfolding apply_approval_event dispatch on_approval_result strip str either get truthy tool_name_of
    find_open_approval least insert_or_change nonempty_text text_or_none approval_status_from_result
    merge put
approves = refl

pub some_db-OnePending : OnePending some_db
some_db-OnePending = record { one = λ k tool. omega arith }

apply_approval_event-OnePending_example : OnePending asked_db
apply_approval_event-OnePending_example =
    apply_approval_event-OnePending (some running_ops) (some 1) "approval_requested" 50 asked 7 51
      some_db asked_db (some pending_row) some_db-OnePending asks

pub asked_db-OnePending : OnePending asked_db
asked_db-OnePending = record { one = λ k tool. ground arith }

asked_db-IsSound : IsSound asked_db
asked_db-IsSound = record {
  unique_ids = some_db-IsSound.unique_ids;
  task_events_refer = tt;
  session_events_refer = tt;
  unique_approvals = λ k. ground arith;
  approvals_refer = (refl, tt);
}

apply_approval_event-IsResolved_example :
    IsResolved 1 "restart" 60 approved (some approved_row) approved_db
unfolding tool_name_of strip str either get truthy
apply_approval_event-IsResolved_example =
    apply_approval_event-IsResolved (some running_ops) 1 60 approved 8 61 asked_db approved_db
      (some approved_row) asked_db-OnePending refl approves

-- The task asks again for the same tool: the decision stays.
abbrev asked_again : Approval
asked_again = record pending_row { id = 9; requested_at = 70; created_at = 71; updated_at = 70 }

abbrev asked_again_db : Db
asked_again_db = record some_db { approvals = approved_row ∷ asked_again ∷ [] }

asks_again :
    apply_approval_event (some running_ops) (some 1) "approval_requested" 70 asked 9 71 approved_db
    ≡ ok (some asked_again, asked_again_db)
unfolding apply_approval_event dispatch on_approval_requested strip str either get truthy
    tool_name_of find_open_approval least insert_or_change text_or_none add_approval
asks_again = refl

approved_db-IsSound : IsSound approved_db
approved_db-IsSound =
    apply_approval_event-IsSound (some running_ops) (some 1) "approval_result" 60 approved 8 61
      asked_db approved_db (some approved_row) asked_db-IsSound approves

apply_approval_event-final_example :
    find_where (has_approval_id 7) asked_again_db.approvals ≡ some approved_row
apply_approval_event-final_example =
    apply_approval_event-final (some running_ops) (some 1) "approval_requested" 70 asked 9 71 7
      approved_db asked_again_db (some asked_again) approved_row approved_db-IsSound refl refl
      asks_again

abbrev queued_job : BackgroundJobRun
queued_job = record {
  id = 5;
  job_type = "index";
  scope = none;
  trigger = none;
  knowledge_source_id = none;
  knowledge_source_version_id = none;
  status = "queued";
  started_at = 10;
  heartbeat_at = none;
  finished_at = none;
  duration_sec = none;
  summary = empty;
  warnings = [];
  error = none;
}

abbrev claimed_job : BackgroundJobRun
claimed_job = record queued_job { status = "running"; started_at = 20; heartbeat_at = some 20 }

abbrev jobs_db : BackgroundJobRun → Db
jobs_db r = record some_db { job_runs = r ∷ [] }

abbrev success : JobEnd
success = record {
  status = "succeeded";
  summary = none;
  warnings = none;
  error = none;
  knowledge_source_version_id = none;
  finished_at = none;
}

claims_job : claim_background_job 20 5 (jobs_db queued_job) ≡ ok (claimed_job, jobs_db claimed_job)
unfolding claim_background_job claim_row
claims_job = refl

claim_background_job-once_example :
    (r' : BackgroundJobRun) × (find_run 5
        (run_calls ((30, finish_call 5 success) ∷ []) (jobs_db claimed_job))
      ≡ some r')
    × (claim_background_job 40 5
          (run_calls ((30, finish_call 5 success) ∷ []) (jobs_db claimed_job))
        ≡ raise (claim_error (about_run 5 (◌+++◌ " is already " r'.status))))
claim_background_job-once_example =
    claim_background_job-once 20 40 5 ((30, finish_call 5 success) ∷ []) (jobs_db queued_job)
      (jobs_db claimed_job) claimed_job claims_job

abbrev finished_job : BackgroundJobRun
finished_job = record claimed_job {
  status = "succeeded";
  heartbeat_at = some 30;
  finished_at = some 30;
  duration_sec = some 10;
}

run_calls-keeps_terminal_example :
    find_run 5
      (run_calls ((40, claim_call 5) ∷ (90, reconcile_call 80 none) ∷ []) (jobs_db finished_job))
    ≡ some finished_job
run_calls-keeps_terminal_example =
    run_calls-keeps_terminal 5 ((40, claim_call 5) ∷ (90, reconcile_call 80 none) ∷ [])
      (jobs_db finished_job) finished_job refl refl
