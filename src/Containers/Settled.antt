-- ===== src/Containers/Settled.antt =====
-- How a task and its sessions stand after its runtime has exited.
use agentic_ops_platform.Prelude.{
  ℕ, ◌+◌, ◌≡◌, ◌≢◌, refl, sym, ◌∙◌, true, false, some, inl, inr, Bool-cases, All, any,
  update_where-All, find_where,
}
use agentic_ops_platform.Py.Json.{truthy}
use agentic_ops_platform.Py.Result.{Result, ok, >>=-eq-ok}
use agentic_ops_platform.Models.{Task, Session, Db}
use agentic_ops_platform.Models.Status.{succeeded, is_terminal, status_name}
use agentic_ops_platform.Models.Store.{find_task, touch, integer_column}
use agentic_ops_platform.Models.Rows.{find_task-update_self, find_task-update_other}
use agentic_ops_platform.TaskQueue.Lifecycle.{Outcome, complete_task, completed}
use agentic_ops_platform.TaskQueue.Lifecycle.Effects.{IsChange, complete_task-IsChange}
use agentic_ops_platform.Containers.{RuntimeStatus}
use agentic_ops_platform.Containers.Exit.{
  is_completion, is_error, latest_event, lifecycle_events, lifecycle_data, token_count, is_success,
  verdict, session_of, duration_of, ended_session, with_usage, end_sessions, repeat_usage, settle,
}
use agentic_ops_platform.Containers.Judged.{
  IsVerdict, verdict-IsVerdict, is_error_of, no_error-none, ErrorsTold, told-truthy,
}

-- What the exit of a runtime leaves of its task and its sessions.
pub record IsSettled (now : ℕ) (r : RuntimeStatus) (k : ℕ) (db db' : Db) : Type 0 where
  pub row : Task
  pub found : find_task k db' ≡ some row
  pub terminal : is_terminal row.status ≡ true
  pub clean :
      is_success r.exit_code ≡ true
      → any (is_error_of k) db.session_events ≡ false
      → row.status ≡ succeeded
  pub success :
      row.status ≡ succeeded
      → (is_success r.exit_code ≡ true)
        × (ErrorsTold k db → any (is_error_of k) db.session_events ≡ false)
  pub sessions :
      All
        (λ (s : Session).
          session_of k s ≡ true
          → (s.status ≡ status_name row.status) × (s.ended ≡ some now) × (s.error ≡ row.error))
        db'.sessions
  pub others : (j : ℕ) → j ≢ k → find_task j db' ≡ find_task j db

-- A call that succeeds has completed the task with the verdict, then ended its sessions.
record Settles (now : ℕ) (r : RuntimeStatus) (k : ℕ) (db db' : Db) : Type 0 where
  outcome : Outcome
  middle : Db
  judged : IsVerdict r (latest_event is_error (lifecycle_events k db)) outcome.status
  changed : IsChange now k (completed outcome) db middle
  left : db' ≡ repeat_usage now k outcome (end_sessions now k outcome middle)

same_db : {a b : Db} → ◌≡◌ {A = Result Db} (ok a) (ok b) → b ≡ a
same_db h = cc

settle-Settles :
    (now : ℕ) (r : RuntimeStatus) (k : ℕ) (db db' : Db)
    → settle now r k db ≡ ok db'
    → Settles now r k db db'
unfolding settle
settle-Settles now r k db db' h =
    let completion = latest_event is_completion (lifecycle_events k db) in
    let error = latest_event is_error (lifecycle_events k db) in
    let found = lifecycle_data completion error in
    let (input_tok, _, h1) = >>=-eq-ok (token_count "input_tokens" found) _ h in
    let (output_tok, _, h2) = >>=-eq-ok (token_count "output_tokens" found) _ h1 in
    let (turns, _, h3) = >>=-eq-ok (token_count "turns" found) _ h2 in
    let (v, judged, h4) = >>=-eq-ok (verdict r error) _ h3 in
    let o : Outcome = record {
      status = v.0;
      result = found;
      tokens_used = input_tok + output_tok;
      duration_sec = duration_of now (find_where (session_of k) db.sessions);
      error = v.1;
    } in
    let (mid, completed_, h5) = >>=-eq-ok (complete_task now k o db) _ h4 in
    let (_, _, h6) = >>=-eq-ok (integer_column turns) _ h5 in
    record {
      outcome = o;
      middle = mid;
      judged = verdict-IsVerdict r error v judged;
      changed = complete_task-IsChange now k o db mid completed_;
      left = same_db h6;
    }

-- The row of the task after the sessions have ended, and after the usage was written once more.
repeated-row :
    (now k : ℕ) (o : Outcome) (db : Db) (t : Task)
    → find_task k db ≡ some t
    → (t' : Task) × (find_task k (repeat_usage now k o db) ≡ some t')
      × (t'.status ≡ t.status)
      × (t'.error ≡ t.error)
repeated-row now k o db t h = elim (Bool-cases (truthy o.result)) [
  | inl full ↦ (
    touch now (with_usage o) t,
    rw full (find_task-update_self now k (with_usage o) (λ x. refl) db h),
    refl,
    refl,
  )
  | inr none_ ↦ (t, rw none_ h, refl, refl)
]

repeated-others :
    (now k : ℕ) (o : Outcome) (db : Db) (j : ℕ)
    → j ≢ k
    → find_task j (repeat_usage now k o db) ≡ find_task j db
repeated-others now k o db j other = elim (Bool-cases (truthy o.result)) [
  | inl full ↦ rw full (find_task-update_other now k (with_usage o) (λ x. refl) db j other)
  | inr none_ ↦ rw none_ refl
]

repeated-sessions :
    (now k : ℕ) (o : Outcome) (db : Db) → (repeat_usage now k o db).sessions ≡ db.sessions
repeated-sessions now k o db = elim (Bool-cases (truthy o.result)) [
  | inl full ↦ rw full refl
  | inr none_ ↦ rw none_ refl
]

-- Where an exited runtime is settled and its task was there, the task is terminal; it has succeeded
-- if the exit code is 0 and no event of an error of the task is stored; if it has succeeded, then
-- the exit code is 0, and no event of an error is stored, unless one of them has no payload; each
-- session of the task has the status and the error of the task and has ended now; and the rows of
-- the other tasks are as they were.
pub settle-IsSettled :
    (now : ℕ) (r : RuntimeStatus) (k : ℕ) (db db' : Db) (t : Task)
    → find_task k db ≡ some t
    → settle now r k db ≡ ok db'
    → IsSettled now r k db db'
settle-IsSettled now r k db db' t there h =
    let c = settle-Settles now r k db db' h in
    let o = c.outcome in
    let ended = end_sessions now k o c.middle in
    let (row, found, status, error) =
      repeated-row now k o ended (touch now (completed o) t) (c.changed.row t there) in
    rw c.left (record {
      row = row;
      found = found;
      terminal = rw status c.judged.terminal;
      clean = λ code none_. status ∙ c.judged.clean code (no_error-none k db none_);
      success = λ done.
          let (code, blank) = c.judged.success (sym status ∙ done) in
          (code, λ told. told-truthy k db told blank);
      sessions =
          rw (repeated-sessions now k o ended, status, error)
            (update_where-All
              (λ (s : Session).
                (s.status ≡ status_name o.status) × (s.ended ≡ some now) × (s.error ≡ o.error))
              (session_of k) (ended_session now o) (λ s. (refl, refl, refl)) c.middle.sessions);
      others = λ j other. repeated-others now k o ended j other ∙ c.changed.others j other;
    })
