-- ===== src/Scheduler/Switch.antt =====
-- gateway/api.py, `update_schedule`: a schedule is switched on or off, in its row and then in the
-- scheduler. The row is committed first, and stays if the registration raises.
use agentic_ops_platform.Prelude.{
  ℕ, Bool, true, false, ◌&&◌, ◌==◌, Option, none, List, [], ◌∷◌, if◌then◌else◌, or_else,
  update_where,
}
use agentic_ops_platform.Py.Json.{as_dict}
use agentic_ops_platform.Py.Result.{Result, ok, raise}
use agentic_ops_platform.Models.{Agent, Schedule, Db}
use agentic_ops_platform.Scheduler.{
  JobStore, joined, register_schedule_job, unregister_schedule_job,
}
use agentic_ops_platform.Scheduler.Cron.{Triggers, compute_next_run}

-- 404, another error, or the schedule's new state
pub data Answer : Type 0 where
  not_found server_error updated : Answer

abbrev pub is_wanted : ℕ → Schedule → Agent → Bool
is_wanted k s a = s.id == k && a.provisioned

abbrev pub switched_row : Bool → Option ℕ → Schedule → Schedule
switched_row on next s = record s { enabled = on; next_run = if on then next else none }

abbrev pub has_schedule_id : ℕ → Schedule → Bool
has_schedule_id k s = s.id == k

abbrev pub switch_row : Triggers → ℕ → Bool → Schedule → Db → Db
switch_row triggers now on s db = record db {
  schedules =
      update_where (has_schedule_id s.id) (switched_row on (compute_next_run triggers s.cron now))
        db.schedules;
}

module _ (b : JobStore) (triggers : Triggers) where
  open b use {Store}

  abbrev pub registered :
      Result (Bool × Option Store) → Db → Option Store → Answer × Db × Option Store
  registered (ok p) db store = (updated, db, p.1)
  registered (raise e) db store = (server_error, db, store)

  unfoldable pub switch_job :
      Bool → Schedule → Agent → Db → Option Store → Answer × Db × Option Store
  unfolding register_schedule_job unregister_schedule_job
  switch_job true s a db store =
      registered
        (register_schedule_job b triggers a.name s.name s.cron (or_else s.prompt "")
          (as_dict a.config) store)
        db store
  switch_job false s a db store =
      (updated, db, (unregister_schedule_job b triggers a.name s.name store).1)

  unfoldable pub switch_rows :
      ℕ → Bool → List (Schedule × Agent) → Db → Option Store → Answer × Db × Option Store
  unfolding switch_job compute_next_run
  switch_rows now on [] db store = (not_found, db, store)
  switch_rows now on ((s, a) ∷ []) db store =
      switch_job on s a (switch_row triggers now on s db) store
  switch_rows now on (p ∷ q ∷ rest) db store = (server_error, db, store)

  unfoldable pub update_schedule : ℕ → ℕ → Bool → Db → Option Store → Answer × Db × Option Store
  unfolding switch_rows
  update_schedule now k on db store =
      switch_rows now on (joined (is_wanted k) db db.schedules) db store
