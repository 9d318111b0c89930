-- ===== src/HeartbeatMonitor/Untouched.antt =====
-- Which tasks the sweeps leave alone.
use agentic_ops_platform.Prelude.{
  ℕ, ◌-◌, String, ◌≡◌, ◌≢◌, refl, sym, ap, ◌∙◌, true, false, ◌||◌, ◌==◌, ==_iff, leb, Option, none,
  some, List, [], ◌∷◌, inl, inr, Bool-cases, Option-cases, Memᴰ, All, All-find, find-passes,
  find_where, select_where-mem, unique-All,
}
use agentic_ops_platform.Py.Clock.{seconds}
use agentic_ops_platform.Py.Json.{Json}
use agentic_ops_platform.Py.Result.{Result, ok, raise, >>=-eq-ok}
use agentic_ops_platform.Models.{Task, TaskEvent, Session, Db}
use agentic_ops_platform.Models.Status.{is_running}
use agentic_ops_platform.Models.Store.{has_id, update_tasks, find_task, add_task_event}
use agentic_ops_platform.Models.Sound.{IsSound, KeepsId, add_task_event-eq-ok}
use agentic_ops_platform.Models.Rows.{find_task-update_other}
use agentic_ops_platform.HeartbeatMonitor.{
  Ending, Swept, workflow_runtime_timeout_sec, workflow_lost_timeout_sec, latest_task_session,
  end_session, lost_row, heartbeat_error, lose_task, lose_if_expired, lost_task, timed_out_row,
  runtime_error, started_at, for_tasks, running_tasks, lost_task_sweep, time_out_task,
  overrunning_task, runtime_timeout_sweep,
}

end_session-tasks :
    (now : ℕ) (e : Ending) (o : Option Session) (db : Db)
    → (end_session now e o db).tasks ≡ db.tasks
unfolding end_session
end_session-tasks now e none db = refl
end_session-tasks now e (some s) db = elim (Option-cases s.ended) [
  | inl open_ ↦ rw open_ refl
  | inr (at, ended) ↦ rw ended refl
]

-- A task's row that is of another id stays, when a row is changed, a session ended and an event
-- added.
ended-other :
    (now k j : ℕ) (change : Task → Task) (e : Ending) (o : Option Session) (event : TaskEvent)
    (db db' : Db)
    → KeepsId change
    → j ≢ k
    → add_task_event event (end_session now e o (update_tasks now (has_id k) change db)) ≡ ok db'
    → find_task j db' ≡ find_task j db
ended-other now k j change e o event db db' keeps other h =
    let mid = update_tasks now (has_id k) change db in
    let (_, left) = add_task_event-eq-ok (end_session now e o mid) event h in
    ap (find_task j) left
    ∙ ap (find_where (has_id j)) (end_session-tasks now e o mid)
    ∙ find_task-update_other now k change keeps db j other

lose_task-other :
    (now timeout at j : ℕ) (t : Task) (db db' : Db)
    → j ≢ t.id
    → lose_task now timeout at t db ≡ ok db'
    → find_task j db' ≡ find_task j db
unfolding lose_task
lose_task-other now timeout at j t db db' other h =
    ended-other now t.id j (lost_row (heartbeat_error timeout)) _ _ _ db db' (λ u. refl) other h

time_out_task-other :
    (now timeout j : ℕ) (t : Task) (o : Option Session) (db db' : Db)
    → j ≢ t.id
    → time_out_task now timeout t o db ≡ ok db'
    → find_task j db' ≡ find_task j db
unfolding time_out_task
time_out_task-other now timeout j t o db db' other h =
    ended-other now t.id j (timed_out_row (runtime_error timeout) (now - started_at t o)) _ o _ db
      db' (λ u. refl) other h

lose_if_expired-other :
    (now timeout j : ℕ) (t : Task) (before after : Swept) (heartbeat : Option ℕ)
    → j ≢ t.id
    → lose_if_expired now timeout t before heartbeat ≡ ok after
    → find_task j after.1 ≡ find_task j before.1
unfolding lose_if_expired
lose_if_expired-other now timeout j t before after none other h =
    let same : before ≡ after = cc in ap (λ s. find_task j s.1) (sym same)
lose_if_expired-other now timeout j t before after (some at) other h =
    elim (Bool-cases (timeout == 0 || leb (now - seconds timeout) at)) [
      | inl in_time ↦
          let same : before ≡ after = cc (rw in_time at h) in ap (λ s. find_task j s.1) (sym same)
      | inr late ↦
          let (db, lost_, e) = >>=-eq-ok (lose_task now timeout at t before.1) _ (rw late at h) in
          let same : db ≡ after.1 =
            ap (λ (s : Result Swept). elim s [ ok p ↦ p.1 | raise x ↦ db ]) e in
          ap (find_task j) (sym same) ∙ lose_task-other now timeout at j t before.1 db other lost_
    ]

lost_task-other :
    (load : String → Json) (now j : ℕ) (t : Task) (before after : Swept)
    → j ≢ t.id
    → lost_task load now t before ≡ ok after
    → find_task j after.1 ≡ find_task j before.1
unfolding lost_task
lost_task-other load now j t before after other h =
    let (timeout, _, e) = >>=-eq-ok (workflow_lost_timeout_sec load t.workflow) _ h in
    lose_if_expired-other now timeout j t before after t.heartbeat other e

overrunning_task-other :
    (load : String → Json) (now j : ℕ) (t : Task) (before after : Swept)
    → j ≢ t.id
    → overrunning_task load now t before ≡ ok after
    → find_task j after.1 ≡ find_task j before.1
unfolding overrunning_task
overrunning_task-other load now j t before after other h =
    let (timeout, _, e) = >>=-eq-ok (workflow_runtime_timeout_sec load t.workflow) _ h in
    let o = latest_task_session t.id before.1 in
    elim (Bool-cases (timeout == 0 || leb (now - started_at t o) (seconds timeout))) [
      | inl in_time ↦
          let same : before ≡ after = cc (rw in_time at e) in ap (λ s. find_task j s.1) (sym same)
      | inr late ↦
          let (db, timed, e1) =
            >>=-eq-ok (time_out_task now timeout t o before.1) _ (rw late at e) in
          let same : db ≡ after.1 =
            ap (λ (s : Result Swept). elim s [ ok p ↦ p.1 | raise x ↦ db ]) e1 in
          ap (find_task j) (sym same)
          ∙ time_out_task-other now timeout j t o before.1 db other timed
    ]

for_tasks-other :
    (step : Task → Swept → Result Swept) (j : ℕ)
    → ((t : Task) (before after : Swept)
        → j ≢ t.id
        → step t before ≡ ok after
        → find_task j after.1 ≡ find_task j before.1)
    → (ts : List Task) (before after : Swept) → All (λ t. j ≢ t.id) ts
    → for_tasks step ts before ≡ ok after
    → find_task j after.1 ≡ find_task j before.1
unfolding for_tasks
for_tasks-other step j keeps [] before after others h =
    let same : before ≡ after = cc in ap (λ s. find_task j s.1) (sym same)
for_tasks-other step j keeps (t ∷ ts) before after others h =
    let (mid, first, rest) = >>=-eq-ok (step t before) _ h in
    for_tasks-other step j keeps ts mid after others.1 rest ∙ keeps t before mid others.0 first

-- Where ids are unique, a task that is not running has another id than the running ones.
running-other :
    (j : ℕ) (db : Db) (t : Task)
    → IsSound db
    → find_task j db ≡ some t
    → is_running t.status ≡ false
    → (u : Task) → Memᴰ u (running_tasks db)
    → j ≢ u.id
running-other j db t s there idle u m same =
    let (mu, runs) = select_where-mem (λ (x : Task). is_running x.status) db.tasks u m in
    let only_u =
      unique-All (has_id j) u db.tasks mu ((==_iff u.id j).1 (sym same)) (s.unique_ids j) in
    let is_u : t ≡ u =
      All-find (has_id j) (λ x. has_id j x ≡ true → x ≡ u) db.tasks t only_u there
        (find-passes (has_id j) db.tasks t there) in
    let clash : is_running t.status ≡ true = ap (λ (x : Task). is_running x.status) is_u ∙ runs in
    cc (clash, idle)

All-of {ℓ κ} : {A : Type ℓ} (P : A → Type κ) (xs : List A) → ((x : A) → Memᴰ x xs → P x) → All P xs
All-of P [] h = tt
All-of P (x ∷ xs) h = (h x (Memᴰ.head refl), All-of P xs (λ y m. h y (Memᴰ.tail m)))

-- Where the keys of the database hold, a task that is not running is the same row after each of the
-- two sweeps that succeeds, whatever the configurations of the workflows say.
pub lost_task_sweep-keeps_idle :
    (load : String → Json) (now j : ℕ) (db : Db) (t : Task) (lost_ after : Swept)
    → IsSound db
    → find_task j db ≡ some t
    → is_running t.status ≡ false
    → lost_task_sweep load now db ≡ ok lost_
    → runtime_timeout_sweep load now db ≡ ok after
    → (find_task j lost_.1 ≡ some t) × (find_task j after.1 ≡ some t)
unfolding lost_task_sweep runtime_timeout_sweep
lost_task_sweep-keeps_idle load now j db t lost_ after s there idle lost_run timed_run =
    let others =
      All-of (λ (u : Task). j ≢ u.id) (running_tasks db) (running-other j db t s there idle) in
    (
      for_tasks-other (lost_task load now) j (lost_task-other load now j) (running_tasks db)
            ([], db) lost_ others lost_run
          ∙ there,
      for_tasks-other (overrunning_task load now) j (overrunning_task-other load now j)
            (running_tasks db) ([], db) after others timed_run
          ∙ there,
    )
