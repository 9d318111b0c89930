-- ===== src/Examples/Cron.antt =====
-- The theorems on the scheduler, applied to one agent with one schedule, and to a list of jobs in
-- the place of APScheduler's store.
use agentic_ops_platform.Prelude.{
  ◌+◌, String, ◌≡◌, refl, true, false, none, some, List, [], ◌∷◌, str_eq, eq_iff, arith, find_where,
  find-passes, delete_where, if◌then◌else◌,
}
use agentic_ops_platform.Py.Json.{null}
use agentic_ops_platform.Py.Result.{ok}
use agentic_ops_platform.Models.{Agent, Schedule, Db}
use agentic_ops_platform.TaskQueue.Create.{Packages}
use agentic_ops_platform.Scheduler.{Job, JobStore, job_id, a_job}
use agentic_ops_platform.Scheduler.Cron.{Triggers}
use agentic_ops_platform.Scheduler.Fired.{IsFired, schedule_job_handler-IsFired}
use agentic_ops_platform.Scheduler.Firing.{schedule_job_handler}
use agentic_ops_platform.Scheduler.Ids.{job_id-injective}
use agentic_ops_platform.Scheduler.{register_schedule_job, resolve_schedule_channel}
use agentic_ops_platform.Scheduler.Cron.{
  compute_next_run, next_run_at, parse_cron, cron_parts, split,
}
use agentic_ops_platform.Scheduler.Jobs.{IsStarted, start_scheduler-IsStarted}
use agentic_ops_platform.Scheduler.Switch.{updated, update_schedule, switch_rows, switch_job}
use agentic_ops_platform.Scheduler.Switched.{IsUpdated, update_schedule-IsUpdated}
use agentic_ops_platform.Py.Text.{is_space, strip}
use agentic_ops_platform.Py.Json.{get?, get, str, either, truthy, as_dict}
use agentic_ops_platform.Examples.{some_db}

find-delete :
    (i k : String) (js : List Job)
    → find_where (λ (j : Job). str_eq j.id k) (delete_where (λ (j : Job). str_eq j.id i) js)
      ≡ (if str_eq i k then none else find_where (λ (j : Job). str_eq j.id k) js)
find-delete i k [] = ground arith
find-delete i k (j ∷ js) =
    ground (arith, find-delete i k js, eq_iff j.id i, eq_iff j.id k, eq_iff i k)

found-id :
    (k : String) (js : List Job) (j : Job)
    → find_where (λ (x : Job). str_eq x.id k) js ≡ some j
    → j.id ≡ k
found-id k js j h = (eq_iff j.id k).0 (find-passes (λ (x : Job). str_eq x.id k) js j h)

abbrev job_list : JobStore
job_list = record {
  Store = List Job;
  fresh = [];
  add_job = λ j js. j ∷ js;
  get_job = λ k js. find_where (λ (j : Job). str_eq j.id k) js;
  remove_job = λ i js. delete_where (λ (j : Job). str_eq j.id i) js;
  next_run_time = λ j js. j.trigger 0;
  get-fresh = λ k. refl;
  get-add_job = λ j k js. refl;
  get-id = found-id;
  get-remove_job = find-delete;
}

abbrev every_minute : Triggers
every_minute fields = ok (λ t. some (t + 60000000))

abbrev ops : Agent
ops = record { id = 1; name = "ops"; config = null; provisioned = true; paused = false }

abbrev disks : Schedule
disks = record {
  id = 5;
  agent_id = 1;
  name = "disks";
  cron = "* * * * *";
  prompt = some "check the disks";
  enabled = true;
  last_run = none;
  next_run = none;
}

abbrev cron_db : Db
cron_db = record some_db { agents = ops ∷ []; schedules = disks ∷ [] }

abbrev no_packages : Packages
no_packages workflow = none

schedule_job_handler-IsFired_example : IsFired 90 9 "ops" "disks" "check the disks" cron_db (
    schedule_job_handler no_packages every_minute 90 9 "ops" "disks" "check the disks" none cron_db)
schedule_job_handler-IsFired_example =
    schedule_job_handler-IsFired no_packages every_minute 90 9 "ops" "disks" "check the disks" none
      cron_db

start_scheduler-IsStarted_example : IsStarted job_list every_minute cron_db
start_scheduler-IsStarted_example = start_scheduler-IsStarted job_list every_minute cron_db

abbrev disks_job : Job
disks_job = record {
  id = "ops:disks";
  trigger = λ t. some (t + 60000000);
  agent_name = "ops";
  schedule_name = "disks";
  prompt = "check the disks";
  message_channel = none;
}

abbrev switched_db : Db
switched_db = record cron_db { schedules = record disks { next_run = some 60000090 } ∷ [] }

switches :
    update_schedule job_list every_minute 90 5 true cron_db (some [])
    ≡ (updated, switched_db, some (disks_job ∷ []))
unfolding update_schedule switch_rows switch_job register_schedule_job compute_next_run next_run_at
    parse_cron cron_parts split strip is_space a_job job_id resolve_schedule_channel get? get str
    either truthy as_dict
switches = refl

update_schedule-IsUpdated_example :
    IsUpdated job_list every_minute 5 true cron_db switched_db [] (some (disks_job ∷ []))
update_schedule-IsUpdated_example =
    update_schedule-IsUpdated job_list every_minute 90 5 true cron_db switched_db []
      (some (disks_job ∷ [])) switches

job_id-injective_example : ◌≡◌ {A = String} "ops" "ops" × ◌≡◌ {A = String} "a:b" "a:b"
job_id-injective_example = job_id-injective "ops" "ops" "a:b" "a:b" refl refl refl
