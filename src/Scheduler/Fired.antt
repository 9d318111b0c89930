-- ===== src/Scheduler/Fired.antt =====
-- What the firing of a cron job does to the database.
use agentic_ops_platform.Prelude.{
  ℕ, String, ◌≡◌, refl, ap, ◌∙◌, sym, true, false, eq_iff, Option, some, List, [], ◌∷◌, ◌++◌, ◌⊎◌,
  inl, inr, arith, Bool-cases, Memᴰ, ◌≤◌, length, update_where, subst, if◌then◌else◌,
  any-append_right, ==_refl,
}
use agentic_ops_platform.Py.Json.{Dict}
use agentic_ops_platform.Py.Result.{Result, Exception, ok, raise, Result-cases, >>=-eq-ok}
use agentic_ops_platform.Models.{Task, Agent, Schedule, Db}
use agentic_ops_platform.Models.Status.{queued}
use agentic_ops_platform.Models.Store.{has_id, task_exists, add_task, add_task_event}
use agentic_ops_platform.Models.Sound.{add_task-eq-ok, add_task_event-eq-ok}
use agentic_ops_platform.TaskQueue.Create.{
  Packages, Request, new_task, insert_task, join_or_insert, existing_task, create_task,
}
use agentic_ops_platform.Scheduler.{agent_of, joined}
use agentic_ops_platform.Scheduler.Joined.{joined-mem}
use agentic_ops_platform.Scheduler.Cron.{Triggers, next_run_at}
use agentic_ops_platform.Scheduler.Firing.{
  is_due, scheduled_request, ran, is_schedule, write_runs, after_task, fire_rows,
  schedule_job_handler,
}

-- A new task without a coalescing key is stored behind the others, as queued.
record IsCreated (r : Request) (db : Db) (t : Task) (db' : Db) : Type 0 where
  task_id : t.id ≡ r.new_id
  workflow : t.workflow ≡ r.workflow
  prompt : t.prompt ≡ r.prompt
  status : t.status ≡ queued
  tasks : db'.tasks ≡ db.tasks ++ t ∷ []
  same_schedules : db'.schedules ≡ db.schedules

insert_task-IsCreated :
    (r : Request) (now : ℕ) (channel : Option String) (metadata : Dict) (db db' : Db) (t : Task)
    → insert_task (new_task now r channel metadata) db ≡ ok (t, db')
    → IsCreated r db t db'
unfolding insert_task
insert_task-IsCreated r now channel metadata db db' t h =
    let task = new_task now r channel metadata in
    let (d, added, rest) = >>=-eq-ok _ _ h in
    let (_, left) = add_task-eq-ok db task added in
    let (d', logged, last) = >>=-eq-ok _ _ rest in
    let (_, left') = add_task_event-eq-ok d _ logged in
    let same : task ≡ t = cc in
    let same_db : d' ≡ db' = cc in
    rw (← same, ← same_db, left', left)
      (record {
        task_id = refl;
        workflow = refl;
        prompt = refl;
        status = refl;
        tasks = refl;
        same_schedules = refl;
      })

insert_task-raise :
    (task : Task) (db : Db) (e : Exception)
    → insert_task task db ≡ raise e
    → task_exists task.id db ≡ true
unfolding insert_task add_task add_task_event
insert_task-raise task db e h = elim (Bool-cases (task_exists task.id db)) [
  | inl taken ↦ taken
  | inr fresh ↦ cc (
      rw (fresh, any-append_right (has_id task.id) db.tasks (task ∷ []) (rw (==_refl task.id) refl))
        at h)
]

-- Without a coalescing key no row is joined.
create_task-inserts :
    (packages : Packages) (now new_id : ℕ) (agent_name schedule_name prompt : String)
    (message_channel : Option String) (db : Db)
    → let r = scheduled_request new_id agent_name schedule_name prompt message_channel in
      (channel : Option String) × (metadata : Dict) × (create_task packages now r db
        ≡ insert_task (new_task now r channel metadata) db)
unfolding create_task join_or_insert existing_task
create_task-inserts packages now new_id agent_name schedule_name prompt message_channel db =
    (_, _, refl)

-- What a firing does: it leaves the database as it is, because no enabled row is there, or more
-- than one, or the agent is paused, or the new id is taken; or it has stored a queued task of the
-- agent behind the others, for the one enabled row of an agent that is not paused, and the
-- schedules are the same but for the run times of that row.
pub data IsFired (now new_id : ℕ) (agent_name schedule_name prompt : String) (db db' : Db)
    : Type 0 where
  no_row :
      joined (is_due agent_name schedule_name) db db.schedules ≡ []
      → db' ≡ db
      → IsFired now new_id agent_name schedule_name prompt db db'
  many_rows :
      2 ≤ length (joined (is_due agent_name schedule_name) db db.schedules)
      → db' ≡ db
      → IsFired now new_id agent_name schedule_name prompt db db'
  is_paused :
      (s : Schedule) (a : Agent)
      → joined (is_due agent_name schedule_name) db db.schedules ≡ (s, a) ∷ []
      → a.paused ≡ true
      → db' ≡ db
      → IsFired now new_id agent_name schedule_name prompt db db'
  id_taken :
      task_exists new_id db ≡ true
      → db' ≡ db
      → IsFired now new_id agent_name schedule_name prompt db db'
  created :
      (s : Schedule) (a : Agent) (t : Task)
      → Memᴰ s db.schedules
      → agent_of db s ≡ some a
      → a.name ≡ agent_name
      → s.name ≡ schedule_name
      → s.enabled ≡ true
      → a.paused ≡ false
      → (t.id ≡ new_id) × (t.workflow ≡ agent_name) × (t.prompt ≡ prompt) × (t.status ≡ queued)
      → db'.tasks ≡ db.tasks ++ t ∷ []
      → (db'.schedules ≡ db.schedules)
        ⊎ ((next : Option ℕ) × (db'.schedules
              ≡ update_where (is_schedule s.id) (ran now next) db.schedules))
      → IsFired now new_id agent_name schedule_name prompt db db'

-- The tasks and the schedules after the run times were written, or not.
abbrev RunsWritten : ℕ → Schedule → Db → Db → Type 0
RunsWritten now s mid db' =
    (db'.tasks ≡ mid.tasks)
    × ((db'.schedules ≡ mid.schedules)
        ⊎ ((next : Option ℕ) × (db'.schedules
              ≡ update_where (is_schedule s.id) (ran now next) mid.schedules)))

write_runs-RunsWritten :
    (now : ℕ) (s : Schedule) (o : Result (Option ℕ)) (mid : Db)
    → RunsWritten now s mid (write_runs now s o mid)
write_runs-RunsWritten now s (raise e) mid = (refl, inl refl)
write_runs-RunsWritten now s (ok next) mid = (refl, inr (next, refl))

-- The task is stored, whatever the cron expression gives.
after_task-RunsWritten :
    (triggers : Triggers) (now : ℕ) (s : Schedule) (t : Task) (mid db : Db)
    → RunsWritten now s mid (after_task triggers now s (ok (t, mid)) db)
unfolding after_task
after_task-RunsWritten triggers now s t mid db =
    write_runs-RunsWritten now s (next_run_at triggers s.cron now) mid

due-row :
    (agent_name schedule_name : String) (db : Db) (s : Schedule) (a : Agent)
    → joined (is_due agent_name schedule_name) db db.schedules ≡ (s, a) ∷ []
    → Memᴰ s db.schedules
      × (agent_of db s ≡ some a)
      × (a.name ≡ agent_name)
      × (s.name ≡ schedule_name)
      × (s.enabled ≡ true)
due-row agent_name schedule_name db s a only =
    let p = is_due agent_name schedule_name in
    let (m, hit, of_agent) =
      joined-mem p db db.schedules s a (subst (λ ps. Memᴰ (s, a) ps) (sym only) (Memᴰ.head refl)) in
    (
      m,
      of_agent,
      ground (arith, eq_iff a.name agent_name),
      ground (arith, eq_iff s.name schedule_name),
      ground arith,
    )

module _ (packages : Packages) (triggers : Triggers) (now new_id : ℕ)
    (agent_name schedule_name prompt : String) (channel : Option String) (db : Db) where
  abbrev the_request : Request
  the_request = scheduled_request new_id agent_name schedule_name prompt channel

  abbrev Fires : Db → Type 0
  Fires = IsFired now new_id agent_name schedule_name prompt db

  running_agent-IsFired :
      (s : Schedule) (a : Agent)
      → joined (is_due agent_name schedule_name) db db.schedules ≡ (s, a) ∷ []
      → a.paused ≡ false
      → Fires (after_task triggers now s (create_task packages now the_request db) db)
  running_agent-IsFired s a only awake =
      let (c, metadata, inserts) =
        create_task-inserts packages now new_id agent_name schedule_name prompt channel db in
      elim (Result-cases (create_task packages now the_request db)) [
        | inl ((t, mid), e) ↦
            let made =
              insert_task-IsCreated the_request now c metadata db mid t (sym inserts ∙ e) in
            let (m, of_agent, name, title, enabled) =
              due-row agent_name schedule_name db s a only in
            let (tasks, schedules) = after_task-RunsWritten triggers now s t mid db in
            rw e (
              created s a t m of_agent name title enabled awake
                (made.task_id, made.workflow, made.prompt, made.status) (tasks ∙ made.tasks)
                (subst
                  (λ ss.
                    ((after_task triggers now s (ok (t, mid)) db).schedules ≡ ss)
                    ⊎ ((next : Option ℕ) × ((after_task triggers now s (ok (t, mid)) db).schedules
                          ≡ update_where (is_schedule s.id) (ran now next) ss)))
                  made.same_schedules schedules))
        | inr (x, e) ↦ rw e (
            id_taken
              (insert_task-raise (new_task now the_request c metadata) db x (sym inserts ∙ e))
              (unfold after_task in refl))
      ]

  fire_rows-IsFired :
      (rows : List (Schedule × Agent))
      → joined (is_due agent_name schedule_name) db db.schedules ≡ rows
      → Fires (fire_rows packages triggers now the_request rows db)
  unfolding fire_rows
  fire_rows-IsFired [] none_ = no_row none_ refl
  fire_rows-IsFired ((s, a) ∷ []) only = elim (Bool-cases a.paused) [
    | inl asleep ↦
        subst Fires
          (sym (
            ap
              (λ b.
                if b
                then db
                else after_task triggers now s (create_task packages now the_request db) db)
              asleep))
          (is_paused s a only asleep refl)
    | inr awake ↦
        subst Fires
          (sym (
            ap
              (λ b.
                if b
                then db
                else after_task triggers now s (create_task packages now the_request db) db)
              awake))
          (running_agent-IsFired s a only awake)
  ]
  fire_rows-IsFired (p ∷ q ∷ rest) more = many_rows (rw more (omega arith)) refl

  -- When a cron job fires, the database stays as it is if no enabled row of the agent and the
  -- schedule is there, if there is more than one, if the agent is paused or if the new id is taken;
  -- else one queued task of the agent with the prompt is stored behind the others, the row is
  -- enabled and its agent is not paused, and the schedules are the same but for the run times of
  -- that row.
  pub schedule_job_handler-IsFired :
      IsFired now new_id agent_name schedule_name prompt db (
        schedule_job_handler packages triggers now new_id agent_name schedule_name prompt channel
          db)
  unfolding schedule_job_handler
  schedule_job_handler-IsFired = fire_rows-IsFired _ refl
