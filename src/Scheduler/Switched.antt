-- ===== src/Scheduler/Switched.antt =====
-- gateway/api.py, `update_schedule`: the row and the job agree after a switch.
use agentic_ops_platform.Prelude.{
  ℕ, String, ◌≡◌, refl, sym, ap, ◌∙◌, subst, Bool, true, false, inl, inr, Option, none, some, List,
  [], ◌∷◌, str_eq, eq_iff, arith, Option-cases, Memᴰ, All, update_where-All, or_else, if◌then◌else◌,
}
use agentic_ops_platform.Py.Json.{as_dict}
use agentic_ops_platform.Models.{Agent, Schedule, Db}
use agentic_ops_platform.Scheduler.{job_id, a_job, Job, JobStore, joined, unregister_schedule_job}
use agentic_ops_platform.Scheduler.Cron.{Trigger, Triggers, compute_next_run}
use agentic_ops_platform.Scheduler.Joined.{joined-mem}
use agentic_ops_platform.Scheduler.Jobs.{adds, refuses, register_schedule_job-Registers}
use agentic_ops_platform.Scheduler.Switch.{
  Answer, not_found, server_error, updated, is_wanted, switched_row, has_schedule_id, switch_row,
  switch_job, switch_rows, update_schedule,
}

module _ (b : JobStore) (triggers : Triggers) where
  open b use {Store, add_job, get_job, remove_job, get-add_job, get-id, get-remove_job}

  -- There is a job under the id exactly if the schedule is on, and then it is a job of the schedule;
  -- the jobs under the other ids are the same.
  pub record IsSwitched (on : Bool) (agent_name schedule_name : String) (s s' : Store)
      : Type 0 where
    pub job_on :
        on ≡ true
        → (j : Job) × (get_job (job_id agent_name schedule_name) s' ≡ some j)
          × (j.agent_name ≡ agent_name)
          × (j.schedule_name ≡ schedule_name)
    pub job_off : on ≡ false → get_job (job_id agent_name schedule_name) s' ≡ none
    pub other_jobs :
        (i : String)
        → str_eq (job_id agent_name schedule_name) i ≡ false
        → get_job i s' ≡ get_job i s

  no_job-IsSwitched :
      (agent_name schedule_name : String) (s : Store)
      → get_job (job_id agent_name schedule_name) s ≡ none
      → IsSwitched false agent_name schedule_name s s
  no_job-IsSwitched agent_name schedule_name s none_ = record {
    job_on = λ on. cc;
    job_off = λ off. none_;
    other_jobs = λ i other. refl;
  }

  removed-IsSwitched :
      (agent_name schedule_name : String) (s : Store) (j : Job)
      → get_job (job_id agent_name schedule_name) s ≡ some j
      → IsSwitched false agent_name schedule_name s (remove_job j.id s)
  removed-IsSwitched agent_name schedule_name s j there =
      let k = job_id agent_name schedule_name in
      let is_k = get-id k s j there in
      record {
        job_on = λ on. cc;
        job_off = λ off. get-remove_job j.id k s ∙ rw ((eq_iff j.id k).1 is_k) refl;
        other_jobs = λ i other.
            get-remove_job j.id i s
            ∙ ap (λ t. if t then none else get_job i s) (ap (λ x. str_eq x i) is_k ∙ other);
      }

  added-IsSwitched :
      (agent_name schedule_name prompt : String) (trigger : Trigger) (channel : Option String)
      (s : Store)
      → IsSwitched true agent_name schedule_name s
          (add_job (a_job agent_name schedule_name prompt trigger channel) s)
  unfolding a_job
  added-IsSwitched agent_name schedule_name prompt trigger channel s =
      let job = a_job agent_name schedule_name prompt trigger channel in
      let k = job_id agent_name schedule_name in
      record {
        job_on = λ on. (job, get-add_job job k s ∙ rw ((eq_iff k k).1 refl) refl, refl, refl);
        job_off = λ off. cc;
        other_jobs = λ i other. get-add_job job i s ∙ rw other refl;
      }

  -- What a switch says that is answered with the schedule's new state.
  abbrev Answered : Bool → Schedule → Agent → Db → Store → Answer × Db × Option Store → Type 0
  Answered on sched a db s (updated, db', o) =
      (db' ≡ db) × ((s' : Store) × (o ≡ some s') × IsSwitched on a.name sched.name s s')
  Answered on sched a db s (_, db', o) = Unit

  switch_job-Answered :
      (on : Bool) (sched : Schedule) (a : Agent) (db : Db) (s : Store)
      → Answered on sched a db s (switch_job b triggers on sched a db (some s))
  unfolding switch_job unregister_schedule_job
  switch_job-Answered true sched a db s =
      elim (register_schedule_job-Registers b triggers a.name sched.name sched.cron
        (or_else sched.prompt "") (as_dict a.config) s) [
          | adds trigger channel parsed e ↦ rw e (
            refl,
            (
              _,
              refl,
              added-IsSwitched a.name sched.name (or_else sched.prompt "") trigger channel s,
            ),
          )
          | refuses x e why ↦ rw e tt
        ]
  switch_job-Answered false sched a db s =
      elim (Option-cases (get_job (job_id a.name sched.name) s)) [
        | inl none_ ↦ rw none_ (refl, (s, refl, no_job-IsSwitched a.name sched.name s none_))
        | inr (j, there) ↦
            rw there
              (refl, (remove_job j.id s, refl, removed-IsSwitched a.name sched.name s j there))
      ]

  -- The switched row, its agent, and what is left of both.
  pub record IsUpdated (k : ℕ) (on : Bool) (db db' : Db) (s : Store) (o : Option Store)
      : Type 0 where
    pub sched : Schedule
    pub agent : Agent
    pub there : Memᴰ sched db.schedules
    pub is_k : sched.id ≡ k
    pub provisioned : agent.provisioned ≡ true
    pub rows : All (λ (x : Schedule). has_schedule_id k x ≡ true → x.enabled ≡ on) db'.schedules
    pub store : Store
    pub runs : o ≡ some store
    pub jobs : IsSwitched on agent.name sched.name s store

  switch_rows-IsUpdated :
      (now k : ℕ) (on : Bool) (rows : List (Schedule × Agent)) (db db' : Db) (s : Store)
      (o : Option Store)
      → joined (is_wanted k) db db.schedules ≡ rows
      → switch_rows b triggers now on rows db (some s) ≡ (updated, db', o)
      → IsUpdated k on db db' s o
  unfolding switch_rows
  switch_rows-IsUpdated now k on [] db db' s o found h =
      let answer : not_found ≡ updated = ap (λ (r : Answer × Db × Option Store). r.0) h in cc
  switch_rows-IsUpdated now k on ((sched, a) ∷ []) db db' s o found h =
      let (m, wanted, _) =
        joined-mem (is_wanted k) db db.schedules sched a
          (subst (λ ps. Memᴰ (sched, a) ps) (sym found) (Memᴰ.head refl)) in
      let (same_db, (s', runs, jobs)) =
        subst (Answered on sched a (switch_row triggers now on sched db) s) h
          (switch_job-Answered on sched a (switch_row triggers now on sched db) s) in
      let id_k : sched.id ≡ k = ground arith in
      record {
        sched = sched;
        agent = a;
        there = m;
        is_k = id_k;
        provisioned = ground arith;
        rows =
            rw (same_db, ← id_k)
              (update_where-All (λ (x : Schedule). x.enabled ≡ on) (has_schedule_id sched.id)
                (switched_row on (compute_next_run triggers sched.cron now)) (λ x. refl)
                db.schedules);
        store = s';
        runs = runs;
        jobs = jobs;
      }
  switch_rows-IsUpdated now k on (p ∷ q ∷ rest) db db' s o found h =
      let answer : server_error ≡ updated = ap (λ (r : Answer × Db × Option Store). r.0) h in cc

  -- If the scheduler runs and a switch is answered with the schedule's new state, then the schedule
  -- was stored under the id and its agent is provisioned, each row with that id is enabled exactly
  -- as asked, the scheduler has a job of the schedule under its id if it was switched on and none if
  -- it was switched off, and the jobs under the other ids are the same as before.
  pub update_schedule-IsUpdated :
      (now k : ℕ) (on : Bool) (db db' : Db) (s : Store) (o : Option Store)
      → update_schedule b triggers now k on db (some s) ≡ (updated, db', o)
      → IsUpdated k on db db' s o
  unfolding update_schedule
  update_schedule-IsUpdated now k on db db' s o h =
      switch_rows-IsUpdated now k on (joined (is_wanted k) db db.schedules) db db' s o refl h
