-- ===== src/Scheduler/Jobs.antt =====
-- Which jobs the scheduler has after its start.
use agentic_ops_platform.Prelude.{
  String, ◌≡◌, refl, sym, ap, ◌∙◌, true, ◌⊎◌, inl, inr, Option, some, List, [], ◌∷◌, str_eq, eq_iff,
  Bool-cases, Memᴰ, mem-cons, or_else,
}
use agentic_ops_platform.Py.Json.{Dict, as_dict}
use agentic_ops_platform.Py.Result.{ok, raise, Exception, Result-cases}
use agentic_ops_platform.Models.{Agent, Schedule, Db}
use agentic_ops_platform.Scheduler.{
  job_id, resolve_schedule_channel, a_job, Job, JobStore, joined, register_schedule_job, kept_on,
  register_all, start_scheduler,
}
use agentic_ops_platform.Scheduler.Cron.{Trigger, Triggers, parse_cron}

module _ (b : JobStore) (triggers : Triggers) where
  open b use {
    Store, fresh, add_job, get_job, remove_job, get-fresh, get-add_job, get-id, get-remove_job,
  }

  -- A registration raises, which it does where the expression or the configuration is refused, or
  -- it adds the job.
  pub data Registers (agent_name schedule_name cron prompt : String) (config : Dict) (s : Store)
      : Type 0 where
    adds :
        (trigger : Trigger) (channel : Option String)
        → parse_cron triggers cron ≡ ok trigger
        → register_schedule_job b triggers agent_name schedule_name cron prompt config (some s)
          ≡ ok (true, some (add_job (a_job agent_name schedule_name prompt trigger channel) s))
        → Registers agent_name schedule_name cron prompt config s
    refuses :
        (e : Exception)
        → register_schedule_job b triggers agent_name schedule_name cron prompt config (some s)
          ≡ raise e
        → (parse_cron triggers cron ≡ raise e)
          ⊎ (resolve_schedule_channel config schedule_name ≡ raise e)
        → Registers agent_name schedule_name cron prompt config s

  pub register_schedule_job-Registers :
      (agent_name schedule_name cron prompt : String) (config : Dict) (s : Store)
      → Registers agent_name schedule_name cron prompt config s
  unfolding register_schedule_job
  register_schedule_job-Registers agent_name schedule_name cron prompt config s =
      elim (Result-cases (parse_cron triggers cron)) [
        | inl (trigger, e) ↦ elim (Result-cases (resolve_schedule_channel config schedule_name)) [
          | inl (channel, f) ↦ adds trigger channel e (rw (e, f) refl)
          | inr (x, f) ↦ refuses x (rw (e, f) refl) (inr f)
        ]
        | inr (x, e) ↦ refuses x (rw e refl) (inl e)
      ]

  -- The job of a row.
  abbrev pub IsOf : Schedule → Agent → Job → Type 0
  IsOf sched a j =
      (j.id ≡ job_id a.name sched.name)
      × (j.agent_name ≡ a.name)
      × (j.schedule_name ≡ sched.name)
      × (j.prompt ≡ or_else sched.prompt "")
      × (parse_cron triggers sched.cron ≡ ok j.trigger)

  -- The jobs after some rows were registered: each was there or is of a row, no id is given up, and
  -- each row whose expression and configuration are read has a job under its id.
  pub record IsRegistered (rows : List (Schedule × Agent)) (s s' : Store) : Type 0 where
    pub from_rows :
        (i : String) (j : Job)
        → get_job i s' ≡ some j
        → (get_job i s ≡ some j) ⊎ ((p : Schedule × Agent) × Memᴰ p rows × IsOf p.0 p.1 j)
    pub keeps :
        (i : String) (j : Job) → get_job i s ≡ some j → (j' : Job) × (get_job i s' ≡ some j')
    pub complete :
        (p : Schedule × Agent) (trigger : Trigger) (channel : Option String)
        → Memᴰ p rows
        → parse_cron triggers p.0.cron ≡ ok trigger
        → resolve_schedule_channel (as_dict p.1.config) p.0.name ≡ ok channel
        → (j : Job) × (get_job (job_id p.1.name p.0.name) s' ≡ some j)

  abbrev register_row : Schedule → Agent → Store → Option Store
  register_row sched a s =
      kept_on b triggers
        (register_schedule_job b triggers a.name sched.name sched.cron (or_else sched.prompt "")
          (as_dict a.config) (some s))
        (some s)

  added-IsRegistered :
      (sched : Schedule) (a : Agent) (trigger : Trigger) (channel : Option String) (s : Store)
      → parse_cron triggers sched.cron ≡ ok trigger
      → IsRegistered
          ((sched, a) ∷ [])
          s
          (add_job (a_job a.name sched.name (or_else sched.prompt "") trigger channel) s)
  unfolding a_job
  added-IsRegistered sched a trigger channel s parsed =
      let job = a_job a.name sched.name (or_else sched.prompt "") trigger channel in
      record {
        from_rows = λ i j got. elim (Bool-cases (str_eq job.id i)) [
          | inl same ↦
              let here : some job ≡ some j = cc (rw (get-add_job job i s, same) at got) in
              let is_job : job ≡ j = cc in
              inr ((sched, a), Memᴰ.head refl, rw (← is_job) (refl, refl, refl, refl, parsed))
          | inr other ↦ inl (rw (get-add_job job i s, other) at got)
        ];
        keeps = λ i j got. elim (Bool-cases (str_eq job.id i)) [
          | inl same ↦ (job, rw (get-add_job job i s, same) refl)
          | inr other ↦ (j, rw (get-add_job job i s, other) got)
        ];
        complete = λ p t c m read resolved. elim (mem-cons p (sched, a) [] m) [
          | inl e ↦
              let same : job_id a.name sched.name ≡ job_id p.1.name p.0.name =
                ap (λ (q : Schedule × Agent). job_id q.1.name q.0.name) (sym e) in
              (
                job,
                get-add_job job _ s
                    ∙ rw ((eq_iff (job_id a.name sched.name) (job_id p.1.name p.0.name)).1 same)
                        refl,
              )
          | inr none_ ↦ elim none_ [ ]
        ];
      }

  refused-IsRegistered :
      (sched : Schedule) (a : Agent) (e : Exception) (s : Store)
      → (parse_cron triggers sched.cron ≡ raise e)
        ⊎ (resolve_schedule_channel (as_dict a.config) sched.name ≡ raise e)
      → IsRegistered ((sched, a) ∷ []) s s
  refused-IsRegistered sched a e s why = record {
    from_rows = λ i j got. inl got;
    keeps = λ i j got. (j, got);
    complete = λ p t c m read resolved. elim (mem-cons p (sched, a) [] m) [
      | inl same ↦ absurd (refused p t c same read resolved why)
      | inr none_ ↦ elim none_ [ ]
    ];
  }
    where
      refused :
          (p : Schedule × Agent) (t : Trigger) (c : Option String)
          → p ≡ (sched, a)
          → parse_cron triggers p.0.cron ≡ ok t
          → resolve_schedule_channel (as_dict p.1.config) p.0.name ≡ ok c
          → (parse_cron triggers sched.cron ≡ raise e)
            ⊎ (resolve_schedule_channel (as_dict a.config) sched.name ≡ raise e)
          → ⊥
      refused p t c same read resolved (inl bad) =
          let read' =
            ap (λ (q : Schedule × Agent). parse_cron triggers q.0.cron) (sym same) ∙ read in
          cc
      refused p t c same read resolved (inr bad) =
          let resolved' =
            ap (λ (q : Schedule × Agent). resolve_schedule_channel (as_dict q.1.config) q.0.name)
              (sym same)
            ∙ resolved in
          cc

  register_row-IsRegistered :
      (sched : Schedule) (a : Agent) (s : Store)
      → (s' : Store) × (register_row sched a s ≡ some s') × IsRegistered ((sched, a) ∷ []) s s'
  register_row-IsRegistered sched a s =
      elim (register_schedule_job-Registers a.name sched.name sched.cron (or_else sched.prompt "")
        (as_dict a.config) s) [
          | adds trigger channel parsed e ↦ (
            add_job (a_job a.name sched.name (or_else sched.prompt "") trigger channel) s,
            rw e refl,
            added-IsRegistered sched a trigger channel s parsed,
          )
          | refuses x e why ↦ (s, rw e refl, refused-IsRegistered sched a x s why)
        ]

  register_all-IsRegistered :
      (rows : List (Schedule × Agent)) (s : Store)
      → (s' : Store) × (register_all b triggers rows (some s) ≡ some s') × IsRegistered rows s s'
  unfolding register_all
  register_all-IsRegistered [] s = (
    s,
    refl,
    record {
      from_rows = λ i j got. inl got;
      keeps = λ i j got. (j, got);
      complete = λ p t c m read resolved. elim m [ ];
    },
  )
  register_all-IsRegistered ((sched, a) ∷ rest) s =
      let (mid, e, one) = register_row-IsRegistered sched a s in
      let (s', f, more) = register_all-IsRegistered rest mid in
      (
        s',
        ap (register_all b triggers rest) e ∙ f,
        record {
          from_rows = λ i j got. elim (more.from_rows i j got) [
            | inl before ↦ elim (one.from_rows i j before) [
              | inl first ↦ inl first
              | inr (p, m, of) ↦ elim (mem-cons p (sched, a) [] m) [
                | inl same ↦ inr (p, Memᴰ.head same, of)
                | inr none_ ↦ elim none_ [ ]
              ]
            ]
            | inr (p, m, of) ↦ inr (p, Memᴰ.tail m, of)
          ];
          keeps = λ i j got. let (j1, got1) = one.keeps i j got in more.keeps i j1 got1;
          complete = λ p t c m read resolved. elim (mem-cons p (sched, a) rest m) [
            | inl same ↦
                let (j, got) = one.complete p t c (Memᴰ.head same) read resolved in
                more.keeps _ j got
            | inr later ↦ more.complete p t c later read resolved
          ];
        },
      )

  abbrev pub enabled_rows : Db → List (Schedule × Agent)
  enabled_rows db = joined (λ sched a. sched.enabled) db db.schedules

  -- The running scheduler after its start.
  pub record IsStarted (db : Db) : Type 0 where
    pub store : Store
    pub runs : start_scheduler b triggers db ≡ some store
    pub from_rows :
        (i : String) (j : Job)
        → get_job i store ≡ some j
        → (p : Schedule × Agent) × Memᴰ p (enabled_rows db) × IsOf p.0 p.1 j
    pub complete :
        (p : Schedule × Agent) (trigger : Trigger) (channel : Option String)
        → Memᴰ p (enabled_rows db)
        → parse_cron triggers p.0.cron ≡ ok trigger
        → resolve_schedule_channel (as_dict p.1.config) p.0.name ≡ ok channel
        → (j : Job) × (get_job (job_id p.1.name p.0.name) store ≡ some j)

  -- After its start the scheduler runs, each of its jobs is of an enabled row, under the id and with
  -- the prompt and the trigger of that row, and each enabled row whose cron expression and
  -- configuration are read without an error has a job under its id.
  pub start_scheduler-IsStarted : (db : Db) → IsStarted db
  unfolding start_scheduler
  start_scheduler-IsStarted db =
      let (s, e, made) = register_all-IsRegistered (enabled_rows db) fresh in
      record {
        store = s;
        runs = e;
        from_rows = λ i j got. elim (made.from_rows i j got) [
          | inl before ↦ cc (sym (get-fresh i) ∙ before)
          | inr found ↦ found
        ];
        complete = made.complete;
      }
