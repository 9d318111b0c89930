-- ===== src/BackgroundJobs/Life.antt =====
-- How the calls on job runs change one run.
use agentic_ops_platform.Prelude.{
  ℕ, String, ◌≡◌, refl, Bool, true, Option, none, some, ◌⊎◌, inl, inr, arith, ◌==◌, ==_iff, str_eq,
  Bool-cases, find-append, find-update_where_kept, find-update_where_hit, find-passes, any, ap, [],
  ◌∷◌, ◌++◌, or_else, update_where,
}
use agentic_ops_platform.Py.Json.{Dict}
use agentic_ops_platform.Py.Result.{Result, ok, raise, ◌>>=◌}
use agentic_ops_platform.Models.{BackgroundJobRun, Db}
use agentic_ops_platform.BackgroundJobs.{
  is_terminal_status, has_run_id, find_run, write_run, add_run, JobRequest, queue_background_job,
  claimed_run, claim_row, claim_background_job, start_background_job, heartbeat_background_job,
  is_running_run, beaten_run, JobEnd, finished_run, finish_row, finish_background_job,
  record_completed_background_job, is_stale, reconciled_run, reconcile_stale_background_jobs,
}

-- The calls of the file, with their arguments.
pub data Call : Type 0 where
  queue_call : JobRequest → Option ℕ → Call
  claim_call : ℕ → Call
  start_call : JobRequest → Option ℕ → Option ℕ → Call
  heartbeat_call : ℕ → Option Dict → Call
  finish_call : ℕ → JobEnd → Call
  record_call : JobRequest → JobEnd → ℕ → ℕ → Call
  reconcile_call : ℕ → Option String → Call

abbrev left_db : Result (BackgroundJobRun × Db) → Result Db
left_db r = r >>= λ p. ok p.1

-- The database that a call leaves.
unfoldable pub run_call : ℕ → Call → Db → Result Db
run_call now (queue_call q at) db = left_db (queue_background_job now q at db)
run_call now (claim_call k) db = left_db (claim_background_job now k db)
run_call now (start_call q version at) db = left_db (start_background_job now q version at db)
run_call now (heartbeat_call k summary) db = heartbeat_background_job now k summary db
run_call now (finish_call k e) db = left_db (finish_background_job now k e db)
run_call now (record_call q e started finished) db =
    left_db (record_completed_background_job q e started finished db)
run_call now (reconcile_call stale_before job_type) db =
    ok (reconcile_stale_background_jobs now stale_before job_type db).1

-- What may happen to a run.
pub data RunStep : BackgroundJobRun → BackgroundJobRun → Type 0 where
  claims :
      (now : ℕ) (r : BackgroundJobRun)
      → str_eq r.status "queued" ≡ true
      → RunStep r (claimed_run now r)
  beats :
      (now : ℕ) (summary : Option Dict) (r : BackgroundJobRun)
      → str_eq r.status "running" ≡ true
      → RunStep r (beaten_run now summary r)
  finishes :
      (e : JobEnd) (at : ℕ) (r : BackgroundJobRun)
      → str_eq r.status "running" ≡ true
      → is_terminal_status e.status ≡ true
      → RunStep r (finished_run e at r)
  reconciles :
      (now : ℕ) (r : BackgroundJobRun)
      → str_eq r.status "running" ≡ true
      → RunStep r (reconciled_run now r)

-- The run is still there, as it was or one step further.
abbrev pub Moves : ℕ → BackgroundJobRun → Db → Type 0
Moves k r db' = (r' : BackgroundJobRun) × (find_run k db' ≡ some r') × ((r' ≡ r) ⊎ RunStep r r')

module _ (k : ℕ) (db : Db) (r : BackgroundJobRun) (there : find_run k db ≡ some r) where
  add-Moves :
      (a : BackgroundJobRun) {x : BackgroundJobRun} {db' : Db}
      → add_run a db ≡ ok (x, db')
      → Moves k r db'
  unfolding add_run
  add-Moves a {db' = db'} h = elim (Bool-cases (any (has_run_id a.id) db.job_runs)) [
    | inl taken ↦ cc (rw taken at h)
    | inr fresh ↦
        let same : record db { job_runs = db.job_runs ++ a ∷ [] } ≡ db' = cc (rw fresh at h) in
        rw (← same) (r, find-append (has_run_id k) db.job_runs (a ∷ []) r there, inl refl)
  ]

  update-Moves :
      (w : BackgroundJobRun → Bool) (f : BackgroundJobRun → BackgroundJobRun)
      → ((x : BackgroundJobRun) → (f x).id ≡ x.id)
      → (w r ≡ true → RunStep r (f r))
      → Moves k r (record db { job_runs = update_where w f db.job_runs })
  update-Moves w f keeps step =
      let blind = λ (x : BackgroundJobRun) (_ : w x ≡ true). ap (λ j. j == k) (keeps x) in
      elim (Bool-cases (w r)) [
        | inl on ↦ (
          f r,
          find-update_where_hit (has_run_id k) w f blind db.job_runs r there on,
          inr (step on),
        )
        | inr off ↦
            (r, find-update_where_kept (has_run_id k) w f blind db.job_runs r there off, inl refl)
      ]

  -- The row that a query by id has found is the run, if it has that id.
  same_run : (j : ℕ) (s : BackgroundJobRun) → find_run j db ≡ some s → has_run_id j r ≡ true → s ≡ r
  same_run j s found here =
      let j-eq = (==_iff r.id j).0 here in
      let k-eq = (==_iff r.id k).0 (find-passes (has_run_id k) db.job_runs r there) in
      cc (found, j-eq, k-eq)

  claim-Moves :
      (now j : ℕ) (o : Option BackgroundJobRun) {x : BackgroundJobRun} {db' : Db}
      → find_run j db ≡ o
      → claim_row now j db o ≡ ok (x, db')
      → Moves k r db'
  unfolding claim_row
  claim-Moves now j none found h = cc
  claim-Moves now j (some s) {db' = db'} found h = elim (Bool-cases (str_eq s.status "queued")) [
    | inl is_queued ↦
        let same : write_run j (claimed_run now) db ≡ db' = cc (rw is_queued at h) in
        rw (← same) (
          update-Moves (has_run_id j) (claimed_run now) (λ y. refl)
            (λ here. claims now r (rw (same_run j s found here) at is_queued)))
    | inr other ↦ cc (rw other at h)
  ]

  finish-Moves :
      (now j : ℕ) (e : JobEnd) (o : Option BackgroundJobRun) {x : BackgroundJobRun} {db' : Db}
      → is_terminal_status e.status ≡ true
      → find_run j db ≡ o
      → finish_row now j e db o ≡ ok (x, db')
      → Moves k r db'
  unfolding finish_row
  finish-Moves now j e none terminal found h = cc
  finish-Moves now j e (some s) {db' = db'} terminal found h =
      let change = finished_run e (or_else e.finished_at now) in
      elim (Bool-cases (str_eq s.status "running")) [
        | inl runs ↦
            let same : write_run j change db ≡ db' = cc (rw runs at h) in
            rw (← same) (
              update-Moves (has_run_id j) change (λ y. refl)
                (λ here.
                  finishes e (or_else e.finished_at now) r (rw (same_run j s found here) at runs)
                    terminal))
        | inr other ↦ cc (rw other at h)
      ]

  heartbeat-Moves :
      (now j : ℕ) (summary : Option Dict) {db' : Db}
      → heartbeat_background_job now j summary db ≡ ok db'
      → Moves k r db'
  unfolding heartbeat_background_job
  heartbeat-Moves now j summary {db' = db'} h =
      elim (Bool-cases (any (is_running_run j) db.job_runs)) [
        | inl runs ↦
            let f = beaten_run now summary in
            let same : record db { job_runs = update_where (is_running_run j) f db.job_runs }
                ≡ db' =
              cc (rw runs at h) in
            rw (← same) (
              update-Moves (is_running_run j) f (λ y. refl)
                (λ on. beats now summary r (ground arith)))
        | inr gone ↦ cc (rw gone at h)
      ]

  left-Moves :
      (m : Result (BackgroundJobRun × Db)) {db' : Db}
      → ((x : BackgroundJobRun) (d : Db) → m ≡ ok (x, d) → Moves k r d)
      → left_db m ≡ ok db'
      → Moves k r db'
  left-Moves (raise e) moves h = cc
  left-Moves (ok (x, d)) {db' = db'} moves h =
      let same : d ≡ db' = cc in rw (← same) (moves x d refl)

  -- A call that succeeds takes each run that is there at most one step further.
  pub run_call-Moves : (now : ℕ) (c : Call) (db' : Db) → run_call now c db ≡ ok db' → Moves k r db'
  unfolding run_call queue_background_job claim_background_job start_background_job
      finish_background_job record_completed_background_job reconcile_stale_background_jobs
  run_call-Moves now (queue_call q at) db' h = left-Moves _ (λ x d e. add-Moves _ e) h
  run_call-Moves now (claim_call j) db' h = left-Moves _ (λ x d e. claim-Moves now j _ refl e) h
  run_call-Moves now (start_call q version at) db' h = left-Moves _ (λ x d e. add-Moves _ e) h
  run_call-Moves now (heartbeat_call j summary) db' h = heartbeat-Moves now j summary h
  run_call-Moves now (finish_call j e) db' h = elim (Bool-cases (is_terminal_status e.status)) [
    | inl terminal ↦
        left-Moves _ (λ x d g. finish-Moves now j e _ terminal refl g) (rw terminal at h)
    | inr other ↦ cc (rw other at h)
  ]
  run_call-Moves now (record_call q e started finished) db' h =
      elim (Bool-cases (is_terminal_status e.status)) [
        | inl terminal ↦ left-Moves _ (λ x d g. add-Moves _ g) (rw terminal at h)
        | inr other ↦ cc (rw other at h)
      ]
  run_call-Moves now (reconcile_call stale_before job_type) db' h =
      let w = is_stale stale_before job_type in
      let same : record db { job_runs = update_where w (reconciled_run now) db.job_runs } ≡ db' =
        cc in
      rw (← same)
        (update-Moves w (reconciled_run now) (λ y. refl) (λ on. reconciles now r (ground arith)))
