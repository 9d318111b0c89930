-- ===== src/TaskQueue/Dequeue/Claims.antt =====
-- What `dequeue_task` does to the database: which task it claims, what it writes, and the limits
-- on running tasks that it keeps.
use agentic_ops_platform.Prelude.{
  ℕ, ◌≡◌, refl, sym, ◌∙◌, Bool, true, false, ◌||◌, Option, none, some, [], ◌∷◌, ◌++◌, if◌then◌else◌,
  All, Memᴰ, least, mem-least, least_minimal, least-passes, select_where,
}
use agentic_ops_platform.Py.Result.{Result, ok, >>=-eq-ok}
use agentic_ops_platform.Models.{Task, Db}
use agentic_ops_platform.Models.Store.{has_id, update_tasks, add_task_event}
use agentic_ops_platform.Models.Sound.{add_task_event-eq-ok}
use agentic_ops_platform.TaskQueue.Dequeue.{
  Policy, before, Choice, found, nothing, no_fuel, choose, claimed, claim_event, claim,
  platform_gate, selection_gate, limits_gate, rounds, finish, dequeue_task,
}
use agentic_ops_platform.TaskQueue.Dequeue.Choosing.{
  ready, chosen, best_ready, before-IsOrder, choose-eq-single_query,
}

-- The database after the claim of `t`.
abbrev pub after_claim : ℕ → Task → Db → Db
after_claim now t db = record db {
  tasks = (update_tasks now (has_id t.id) (claimed now) db).tasks;
  task_events = db.task_events ++ claim_event t ∷ [];
}

-- What a successful claim says: the task was ready, no ready task comes before it, and the
-- database changed in its row and by one event.
pub record IsClaim (policy : Policy) (locked : ℕ → Bool) (now : ℕ) (db : Db) (t' : Task) (db' : Db)
    : Type 0 where
  pub row : Task
  pub queued_row : Memᴰ row db.tasks
  pub was_ready : ready policy locked db row ≡ true
  pub first : All (λ u. ready policy locked db u ≡ true → before policy u row ≡ false) db.tasks
  pub returned : t' ≡ record (claimed now row) { updated = now }
  pub left : db' ≡ after_claim now row db

pub claim-eq-ok :
    (now : ℕ) (t : Task) (db : Db) {o : Option Task} {db' : Db}
    → claim now t db ≡ ok (o, db')
    → (o ≡ some (record (claimed now t) { updated = now })) × (db' ≡ after_claim now t db)
unfolding claim
claim-eq-ok now t db h =
    let (d, added, e) =
      >>=-eq-ok (add_task_event (claim_event t) (update_tasks now (has_id t.id) (claimed now) db)) _
        h in
    let (there, d-eq) = add_task_event-eq-ok _ (claim_event t) added in (cc, cc)

-- What the loop's answer tells.
pub found-ready :
    (policy : Policy) (locked : ℕ → Bool) (db : Db) (t : Task)
    → choose policy locked db (rounds policy) [] ≡ found t
    → least (before policy) (select_where (ready policy locked db) db.tasks) ≡ some t
unfolding best_ready
found-ready policy locked db t h = go _ (sym (choose-eq-single_query policy locked db) ∙ h)
  where
    go : (o : Option Task) → chosen o ≡ found t → o ≡ some t
    go none e = cc
    go (some u) e = cc

finish-eq-ok :
    (policy : Policy) (locked : ℕ → Bool) (now : ℕ) (db : Db) (c : Choice) {t' : Task} {db' : Db}
    → finish now db c ≡ ok (some t', db')
    → (t : Task) × (c ≡ found t) × (claim now t db ≡ ok (some t', db'))
unfolding finish
finish-eq-ok policy locked now db (found t) h = (t, refl, h)
finish-eq-ok policy locked now db nothing h = cc
finish-eq-ok policy locked now db no_fuel h = cc

-- A call that returns a task has passed the three gates, and has claimed the choice of the loop.
abbrev pub PassesGates : Policy → Db → Type 0
PassesGates policy db = (platform_gate policy db ≡ ok false) × (selection_gate policy db ≡ false)

gates_open :
    (full selected limited : Bool) (db : Db) (rest : Result (Option Task × Db)) {t' : Task}
    {db' : Db}
    → (if full || selected || limited then ok (none, db) else rest) ≡ ok (some t', db')
    → (full ≡ false) × (selected ≡ false) × (rest ≡ ok (some t', db'))
gates_open true selected limited db rest h = cc
gates_open false true limited db rest h = cc
gates_open false false true db rest h = cc
gates_open false false false db rest h = (refl, refl, h)

pub dequeue-eq-some :
    (policy : Policy) (locked : ℕ → Bool) (now : ℕ) (db : Db) {t' : Task} {db' : Db}
    → dequeue_task policy locked now db ≡ ok (some t', db')
    → PassesGates policy db
      × (finish now db (choose policy locked db (rounds policy) []) ≡ ok (some t', db'))
unfolding dequeue_task
dequeue-eq-some policy locked now db h =
    let (full, gate, rest) = >>=-eq-ok (platform_gate policy db) _ h in
    let (open_, selected, chose) =
      gates_open full (selection_gate policy db) (limits_gate policy) db _ rest in
    ((rw (← open_) gate, selected), chose)

-- A task that `dequeue_task` returns was ready, no ready task comes before it, it is running now,
-- and the database has changed in its row and by one event.
pub dequeue_task-IsClaim :
    (policy : Policy) (locked : ℕ → Bool) (now : ℕ) (db db' : Db) (t' : Task)
    → dequeue_task policy locked now db ≡ ok (some t', db')
    → IsClaim policy locked now db t' db'
dequeue_task-IsClaim policy locked now db db' t' h =
    let (t, chose, claims) =
      finish-eq-ok policy locked now db _ (dequeue-eq-some policy locked now db h).1 in
    let (returned, left) = claim-eq-ok now t db claims in
    let best = found-ready policy locked db t chose in
    let p = ready policy locked db in
    record {
      row = t;
      queued_row = mem-least (before policy) p db.tasks t best;
      was_ready = least-passes (before policy) p db.tasks t best;
      first = least_minimal (before policy) (before-IsOrder policy) p db.tasks t best;
      returned = cc;
      left = left;
    }
