-- ===== src/TaskQueue/Sweeps/Expired.antt =====
-- Which tasks the two sweeps mark, and which they leave.
use Prim.Native.String.{◌++◌ as ◌+++◌}
use agentic_ops_platform.Prelude.{
  ℕ, ◌-◌, ◌<◌, ◌≡◌, refl, Bool, true, false, ◌&&◌, ltb, Option, none, some, List, map, ◌⊎◌, inl,
  inr, arith, select_where, some_and, str_eq, if◌then◌else◌,
}
use agentic_ops_platform.Py.Text.{decimal}
use agentic_ops_platform.Py.Clock.{seconds}
use agentic_ops_platform.Py.Json.{num, empty, entry}
use agentic_ops_platform.Py.Result.{ok}
use agentic_ops_platform.Models.{Task, Db}
use agentic_ops_platform.Models.Status.{
  TaskStatus, running, waiting_approval, waiting_user_input, lost, timed_out, is_running,
  is_waiting, status_name,
}
use agentic_ops_platform.Models.Sound.{IsSound}
use agentic_ops_platform.Models.Sweep.{Sweeps, swept, sweep_rows-eq-swept, swept-Sweeps}
use agentic_ops_platform.TaskQueue.Sweeps.{
  heartbeat_expired, lose, lost_event, maintenance_sweep, deadline_passed, time_out, timeout_event,
  waiting_timeout_sweep, optional_time, optional_text,
}

-- A moment that is there and lies before the limit.
abbrev pub IsBefore : ℕ → Option ℕ → Type 0
IsBefore limit o = (at : ℕ) × (o ≡ some at) × (at < limit)

abbrev pub IsWaiting : TaskStatus → Type 0
IsWaiting s = (s ≡ waiting_approval) ⊎ (s ≡ waiting_user_input)

is_running-eq : (s : TaskStatus) → is_running s ≡ true → s ≡ running
is_running-eq running h = refl
is_running-eq _ h = cc

is_waiting-IsWaiting : (s : TaskStatus) → is_waiting s ≡ true → IsWaiting s
is_waiting-IsWaiting waiting_approval h = inl refl
is_waiting-IsWaiting waiting_user_input h = inr refl
is_waiting-IsWaiting _ h = cc

some_and-IsBefore :
    (limit : ℕ) (o : Option ℕ) → some_and o (λ t. ltb t limit) ≡ true → IsBefore limit o
some_and-IsBefore limit none h = cc
some_and-IsBefore limit (some at) h = (at, refl, ground arith)

IsBefore-some_and :
    (limit : ℕ) (o : Option ℕ) → IsBefore limit o → some_and o (λ t. ltb t limit) ≡ true
IsBefore-some_and limit o (at, e, lt) = rw e (ground arith)

both_fail : (a b : Bool) → ¬ ((a ≡ true) × (b ≡ true)) → (a && b) ≡ false
both_fail true true h = absurd (h (refl, refl))
both_fail true false h = refl
both_fail false b h = refl

-- What it marks, and what it leaves.
abbrev pub IsLostSweep : ℕ → ℕ → Db → List ℕ → Db → Type 0
IsLostSweep now timeout db ids db' =
    let due = λ (t : Task). (t.status ≡ running) × IsBefore (now - seconds timeout) t.heartbeat in
    Sweeps due (λ t. ¬ due t)
      (λ t. record t {
        status = lost;
        error = some (◌+++◌ "Heartbeat expired (>" (◌+++◌ (decimal timeout) "s without update)"));
        updated = now;
      })
      (λ t. record {
        task_id = t.id;
        event_type = "task_lost";
        payload =
            entry "timeout_sec" (num timeout)
              (entry "last_heartbeat" (optional_time t.heartbeat) empty);
      })
      db ids db'

-- Where the keys of the database hold, the sweep of lost tasks succeeds. Every task that is running
-- and whose heartbeat is older than the timeout is lost, with the error that names the timeout, and
-- its id is returned; every other task is the same row, and its id is not returned; and for each id
-- that is returned one event task_lost is added, with the timeout and the last heartbeat.
pub maintenance_sweep-IsLostSweep :
    (now timeout : ℕ) (db : Db)
    → IsSound db
    → (ids : List ℕ) × (db' : Db) × (maintenance_sweep now timeout db ≡ ok (ids, db'))
      × IsLostSweep now timeout db ids db'
unfolding maintenance_sweep
maintenance_sweep-IsLostSweep now timeout db s = (
  map (λ (t : Task). t.id) (select_where (heartbeat_expired now timeout) db.tasks),
  swept now (lose timeout) (lost_event timeout) (heartbeat_expired now timeout) db,
  rw
      (sweep_rows-eq-swept now (lose timeout) (lost_event timeout) (λ t. refl) (λ t. refl)
        (heartbeat_expired now timeout) db s)
      refl,
  swept-Sweeps now (lose timeout) (lost_event timeout) (heartbeat_expired now timeout) _ _ db
      (λ t. refl) (λ t d. rw (d.0, IsBefore-some_and (now - seconds timeout) t.heartbeat d.1) refl)
      (λ t no. both_fail _ _ (λ h.
        no (is_running-eq t.status h.0, some_and-IsBefore (now - seconds timeout) t.heartbeat h.1)))
      s,
)

pub waiting_timeout_sweep-eq-swept :
    (now : ℕ) (db : Db)
    → IsSound db
    → waiting_timeout_sweep now db
      ≡ ok (
        map (λ (t : Task). t.id) (select_where (deadline_passed now) db.tasks),
        swept now time_out timeout_event (deadline_passed now) db,
      )
unfolding waiting_timeout_sweep
waiting_timeout_sweep-eq-swept now db s =
    rw
      (sweep_rows-eq-swept now time_out timeout_event (λ t. refl) (λ t. refl) (deadline_passed now)
        db s)
      refl

-- What it marks, and what it leaves.
abbrev pub IsTimeoutSweep : ℕ → Db → List ℕ → Db → Type 0
IsTimeoutSweep now db ids db' =
    let due = λ (t : Task). IsWaiting t.status × IsBefore now t.wait_deadline in
    Sweeps due (λ t. ¬ due t)
      (λ t. record t {
        status = timed_out;
        error = some (
            ◌+++◌ "Waiting deadline expired for " (elim t.wait_reason [
              | none ↦ "timed_out"
              | some r ↦ if str_eq r "" then "timed_out" else r
            ]));
        updated = now;
      })
      (λ t. record {
        task_id = t.id;
        event_type = "task_wait_timed_out";
        payload =
            entry "wait_reason" (optional_text t.wait_reason)
              (entry "wait_deadline" (optional_time t.wait_deadline) empty);
      })
      db ids db'

-- Where the keys of the database hold, the sweep of waiting tasks succeeds. Every task that waits
-- for an approval or for the user and whose deadline has passed is timed out, with the error that
-- names the reason it waited for, or timed_out where it has none, and its id is returned; every
-- other task is the same row, and its id is not returned; and for each id that is returned one event
-- task_wait_timed_out is added, with the reason and the deadline.
pub waiting_timeout_sweep-IsTimeoutSweep :
    (now : ℕ) (db : Db)
    → IsSound db
    → (ids : List ℕ) × (db' : Db) × (waiting_timeout_sweep now db ≡ ok (ids, db'))
      × IsTimeoutSweep now db ids db'
unfolding status_name
waiting_timeout_sweep-IsTimeoutSweep now db s = (
  map (λ (t : Task). t.id) (select_where (deadline_passed now) db.tasks),
  swept now time_out timeout_event (deadline_passed now) db,
  waiting_timeout_sweep-eq-swept now db s,
  swept-Sweeps now time_out timeout_event (deadline_passed now) _ _ db (λ t. refl)
      (deadline_holds now)
      (λ t no.
        both_fail _ _
          (λ h. no (is_waiting-IsWaiting t.status h.0, some_and-IsBefore now t.wait_deadline h.1)))
      s,
)
  where
    deadline_holds :
        (n : ℕ) (t : Task)
        → IsWaiting t.status × IsBefore n t.wait_deadline
        → deadline_passed n t ≡ true
    deadline_holds n t (inl e, b) = rw (e, IsBefore-some_and n t.wait_deadline b) refl
    deadline_holds n t (inr e, b) = rw (e, IsBefore-some_and n t.wait_deadline b) refl
