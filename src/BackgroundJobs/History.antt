-- ===== src/BackgroundJobs/History.antt =====
-- Histories of calls on job runs.
use Prim.Native.String.{◌++◌ as ◌+++◌}
use agentic_ops_platform.Prelude.{
  ℕ, String, ◌≡◌, refl, true, false, Option, none, some, inl, inr, str_eq, eq_iff, Bool-cases,
  find-update_where_hit, find-passes, ◌∙◌, List, [], ◌∷◌,
}
use agentic_ops_platform.Py.Result.{Result, ok, raise, claim_error}
use agentic_ops_platform.Models.{BackgroundJobRun, Db}
use agentic_ops_platform.BackgroundJobs.{
  is_terminal_status, has_run_id, find_run, write_run, claimed_run, about_run, claim_row,
  claim_background_job,
}
use agentic_ops_platform.BackgroundJobs.Life.{
  Call, run_call, RunStep, claims, beats, finishes, reconciles, run_call-Moves,
}

abbrev after_call : Db → Result Db → Db
after_call db (ok d) = d
after_call db (raise e) = db

-- Calls one after the other, each at its moment. A call that raises changes nothing.
unfoldable pub run_calls : List (ℕ × Call) → Db → Db
run_calls [] db = db
run_calls ((now, c) ∷ cs) db = run_calls cs (after_call db (run_call now c db))

-- What every step keeps holds of a run in every history.
module _ (k : ℕ) (I : BackgroundJobRun → Type 0)
    (step : (r r' : BackgroundJobRun) → RunStep r r' → I r → I r') where
  call-keeps :
      (now : ℕ) (c : Call) (db : Db) (r : BackgroundJobRun) (o : Result Db)
      → run_call now c db ≡ o
      → find_run k db ≡ some r
      → I r
      → (r' : BackgroundJobRun) × (find_run k (after_call db o) ≡ some r') × I r'
  call-keeps now c db r (raise e) h there i = (r, there, i)
  call-keeps now c db r (ok d) h there i =
      let (r', found, move) = run_call-Moves k db r there now c d h in
      elim move [ inl same ↦ (r', found, rw same i) | inr s ↦ (r', found, step r r' s i) ]

  pub run_calls-keeps :
      (cs : List (ℕ × Call)) (db : Db) (r : BackgroundJobRun)
      → find_run k db ≡ some r
      → I r
      → (r' : BackgroundJobRun) × (find_run k (run_calls cs db) ≡ some r') × I r'
  unfolding run_calls
  run_calls-keeps [] db r there i = (r, there, i)
  run_calls-keeps ((now, c) ∷ cs) db r there i =
      let (r', found, i') = call-keeps now c db r _ refl there i in
      run_calls-keeps cs (after_call db (run_call now c db)) r' found i'

not_queued : (s : String) → is_terminal_status s ≡ true → str_eq s "queued" ≡ false
not_queued s h = elim (Bool-cases (str_eq s "queued")) [
  | inl e ↦ cc (rw ((eq_iff s "queued").0 e) at h)
  | inr e ↦ e
]

not_running : (s : String) → is_terminal_status s ≡ true → str_eq s "running" ≡ false
not_running s h = elim (Bool-cases (str_eq s "running")) [
  | inl e ↦ cc (rw ((eq_iff s "running").0 e) at h)
  | inr e ↦ e
]

terminal-RunStep :
    {r r' : BackgroundJobRun} → is_terminal_status r.status ≡ true → RunStep r r' → r' ≡ r
terminal-RunStep h (claims now r e) = cc (not_queued r.status h)
terminal-RunStep h (beats now summary r e) = cc (not_running r.status h)
terminal-RunStep h (finishes j at r e terminal) = cc (not_running r.status h)
terminal-RunStep h (reconciles now r e) = cc (not_running r.status h)

-- A run in a terminal status is the same row after every history of calls.
pub run_calls-keeps_terminal :
    (k : ℕ) (cs : List (ℕ × Call)) (db : Db) (r : BackgroundJobRun)
    → find_run k db ≡ some r
    → is_terminal_status r.status ≡ true
    → find_run k (run_calls cs db) ≡ some r
run_calls-keeps_terminal k cs db r there terminal =
    let (r', found, same) =
      run_calls-keeps k (λ s. s ≡ r) (λ s s' step e. terminal-RunStep (rw e terminal) step ∙ e) cs
        db r there refl in
    rw same at found

step-not_queued :
    (r r' : BackgroundJobRun)
    → RunStep r r'
    → str_eq r.status "queued" ≡ false
    → str_eq r'.status "queued" ≡ false
step-not_queued r r' (claims now s e) h = refl
step-not_queued r r' (beats now summary s e) h = h
step-not_queued r r' (finishes j at s e terminal) h = not_queued j.status terminal
step-not_queued r r' (reconciles now s e) h = refl

claim-eq-running :
    (now k : ℕ) (db : Db) (o : Option BackgroundJobRun) {r : BackgroundJobRun} {db' : Db}
    → find_run k db ≡ o
    → claim_row now k db o ≡ ok (r, db')
    → find_run k db' ≡ some r × (r.status ≡ "running")
unfolding claim_row
claim-eq-running now k db none found h = cc
claim-eq-running now k db (some s) {r = r} {db' = db'} found h =
    elim (Bool-cases (str_eq s.status "queued")) [
      | inl is_queued ↦
          let left : write_run k (claimed_run now) db ≡ db' = cc (rw is_queued at h) in
          let row : claimed_run now s ≡ r = cc (rw is_queued at h) in
          rw (← left, ← row)
            (
              find-update_where_hit (has_run_id k) (has_run_id k) (claimed_run now) (λ x _. refl)
                  db.job_runs s found (find-passes (has_run_id k) db.job_runs s found),
              refl,
            )
      | inr other ↦ cc (rw other at h)
    ]

-- A run is claimed once: after a claim of it that succeeded, and any calls after that, a claim of
-- it raises BackgroundJobClaimError with the status that it has then.
pub claim_background_job-once :
    (now now' k : ℕ) (cs : List (ℕ × Call)) (db db' : Db) (r : BackgroundJobRun)
    → claim_background_job now k db ≡ ok (r, db')
    → (r' : BackgroundJobRun) × (find_run k (run_calls cs db') ≡ some r')
      × (claim_background_job now' k (run_calls cs db')
          ≡ raise (claim_error (about_run k (◌+++◌ " is already " r'.status))))
unfolding claim_background_job claim_row
claim_background_job-once now now' k cs db db' r h =
    let (there, runs) = claim-eq-running now k db _ refl h in
    let (r', found, taken) =
      run_calls-keeps k (λ s. str_eq s.status "queued" ≡ false) step-not_queued cs db' r there
        (rw runs refl) in
    (r', found, rw (found, taken) refl)
