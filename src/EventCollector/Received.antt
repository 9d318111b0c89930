-- ===== src/EventCollector/Received.antt =====
-- What a received event leaves in the database.
use agentic_ops_platform.Prelude.{
  ℕ, ◌≤◌, String, ◌≡◌, ◌≢◌, refl, ◌∙◌, ap, subst, true, ◌&&◌, Option, none, some, List, inl, inr,
  Bool-cases, Option-cases, str_eq, find_where, find-none,
}
use agentic_ops_platform.Py.Result.{ok, >>=-eq-ok}
use agentic_ops_platform.Models.{Task, Approval, Db}
use agentic_ops_platform.Models.Store.{
  has_id, touch, update_tasks, find_task, task_exists, add_session_event,
}
use agentic_ops_platform.Models.Sound.{add_session_event-eq-ok, add_approval-eq-ok}
use agentic_ops_platform.Models.Rows.{find_task-update_self, find_task-update_other}
use agentic_ops_platform.Approvals.{tool_name_of, apply_approval_event}
use agentic_ops_platform.Approvals.Steps.{
  Step, ignores, inserts, changes, apply_approval_event-Step,
}
use agentic_ops_platform.ApprovalBroker.Prompt.{Post}
use agentic_ops_platform.ApprovalBroker.Effects.{
  Notes, silent, ensure_approval_prompt_posted-Notes, Notes-tasks,
}
use agentic_ops_platform.EventCollector.{
  EventPayload, Context, can_deliver_approval_prompt, task_update, with_heartbeat, prompt_if_asked,
  stored_event, move_task, task_uuid, after_event, receive_at, receive_event,
}
use agentic_ops_platform.EventCollector.Moves.{Moves, IsUpdate, task_update-IsUpdate}

Step-tasks : (k : ℕ) (tool : String) (db db' : Db) → Step k tool db db' → db'.tasks ≡ db.tasks
Step-tasks k tool db db' (ignores same) = rw same refl
Step-tasks k tool db db' (inserts fresh e f none_yet added) =
    let (_, _, left) = add_approval-eq-ok db fresh added in rw left refl
Step-tasks k tool db db' (changes a f there keeps ends left) = rw left refl

pub prompt_if_asked-Notes :
    (c : Context) (now : ℕ) (kind : String) (task : Option Task) (approval : Option Approval)
    (db : Db)
    → Notes db (prompt_if_asked c now kind task approval db).left
unfolding prompt_if_asked
prompt_if_asked-Notes c now kind task approval db =
    elim (Bool-cases
      (str_eq kind "approval_requested" && can_deliver_approval_prompt c.settings task)) [
        | inl asks ↦
            rw asks (ensure_approval_prompt_posted-Notes c.clients c.settings now task approval db)
        | inr other ↦ rw other (silent refl)
      ]

-- The parts of a move: the approvals follow, the prompt is sent, the row is updated.
pub record IsMoved (c : Context) (now k timestamp : ℕ) (e : EventPayload) (task : Option Task)
    (db db' : Db) : Type 0 where
  pub approval : Option Approval
  pub middle : Db
  pub applied :
      apply_approval_event task (some k) e.event_type timestamp e.payload e.new_approval_id now db
      ≡ ok (approval, middle)
  pub change : Task → Task
  pub updated :
      task_update c.parsers now e.event_type e.payload task
        (prompt_if_asked c now e.event_type task approval middle).approval
      ≡ ok change
  pub left :
      db'
      ≡ update_tasks now
          (has_id k)
          (with_heartbeat now change)
          (prompt_if_asked c now e.event_type task approval middle).left

pub move_task-IsMoved :
    (c : Context) (now k timestamp : ℕ) (e : EventPayload) (task : Option Task) (db db' : Db)
    {posts : List Post}
    → move_task c now k timestamp e task db ≡ ok (db', posts)
    → IsMoved c now k timestamp e task db db'
unfolding move_task
move_task-IsMoved c now k timestamp e task db db' h =
    let ((o, middle), applied, e1) =
      >>=-eq-ok
        (apply_approval_event task (some k) e.event_type timestamp e.payload e.new_approval_id now
          db)
        _ h in
    let (change, updated, e2) =
      >>=-eq-ok
        (task_update c.parsers now e.event_type e.payload task
          (prompt_if_asked c now e.event_type task o middle).approval)
        _ e1 in
    record {
      approval = o;
      middle = middle;
      applied = applied;
      change = change;
      updated = updated;
      left = cc;
    }

after_event-IsMoved :
    (c : Context) (now k timestamp : ℕ) (e : EventPayload) (o : Option ℕ) (db db' : Db)
    {posts : List Post}
    → o ≡ some k
    → after_event c now timestamp e o db ≡ ok (db', posts)
    → (stored : Db) × (add_session_event (stored_event (some k) timestamp e) db ≡ ok stored)
      × IsMoved c now k timestamp e (find_task k db) stored db'
unfolding after_event
after_event-IsMoved c now k timestamp e none db db' is_k h = cc
after_event-IsMoved c now k timestamp e (some j) db db' {posts = posts} is_k h =
    let same : j ≡ k = cc in
    let h1 = subst (λ i. after_event c now timestamp e (some i) db ≡ ok (db', posts)) same h in
    let (stored, added, e1) =
      >>=-eq-ok (add_session_event (stored_event (some k) timestamp e) db) _ h1 in
    (stored, added, move_task-IsMoved c now k timestamp e (find_task k db) stored db' e1)

receive_at-IsMoved :
    (c : Context) (now k : ℕ) (e : EventPayload) (o : Option ℕ) (db db' : Db) {posts : List Post}
    → task_uuid c e ≡ some k
    → receive_at c now e db o ≡ ok (db', posts)
    → (timestamp : ℕ) × (stored : Db) × (add_session_event (stored_event (some k) timestamp e) db
        ≡ ok stored)
      × IsMoved c now k timestamp e (find_task k db) stored db'
unfolding receive_at
receive_at-IsMoved c now k e none db db' is_k h = cc
receive_at-IsMoved c now k e (some timestamp) db db' is_k h =
    let (stored, added, m) =
      after_event-IsMoved c now k timestamp e (task_uuid c e) db db' is_k h in
    (timestamp, stored, added, m)

-- The event was stored, and its task moved.
pub receive_event-IsMoved :
    (c : Context) (now k : ℕ) (e : EventPayload) (db db' : Db) {posts : List Post}
    → task_uuid c e ≡ some k
    → receive_event c now e db ≡ ok (db', posts)
    → (timestamp : ℕ) × (stored : Db) × (add_session_event (stored_event (some k) timestamp e) db
        ≡ ok stored)
      × IsMoved c now k timestamp e (find_task k db) stored db'
unfolding receive_event
receive_event-IsMoved c now k e db db' is_k h =
    receive_at-IsMoved c now k e (c.fromisoformat e.timestamp) db db' is_k h

IsMoved-tasks :
    (c : Context) (now k timestamp : ℕ) (e : EventPayload) (task : Option Task) (db db' : Db)
    (m : IsMoved c now k timestamp e task db db')
    → (prompt_if_asked c now e.event_type task m.approval m.middle).left.tasks ≡ db.tasks
IsMoved-tasks c now k timestamp e task db db' m =
    let (j, step) =
      apply_approval_event-Step task (some k) e.event_type timestamp e.payload e.new_approval_id now
        db m.middle m.approval m.applied in
    Notes-tasks m.middle (prompt_if_asked c now e.event_type task m.approval m.middle).left
      (prompt_if_asked-Notes c now e.event_type task m.approval m.middle)
    ∙ Step-tasks j (tool_name_of e.payload) db m.middle step

-- What the sessions' events may do to the tasks, whatever the event: the other tasks are the same
-- rows, and the event's own makes one move.
pub record IsTaskMove (k now : ℕ) (db db' : Db) : Type 0 where
  pub others : (j : ℕ) → j ≢ k → find_task j db' ≡ find_task j db
  pub own :
      (t : Task)
      → find_task k db ≡ some t
      → (t' : Task) × (find_task k db' ≡ some t')
        × (Moves t.status t'.status × (t.tokens_used ≤ t'.tokens_used) × (t'.heartbeat ≡ some now))

module _ (c : Context) (now k timestamp : ℕ) (e : EventPayload) (db stored db' : Db) (t : Task)
    (m : IsMoved c now k timestamp e (some t) stored db') (same : stored.tasks ≡ db.tasks) where
  pub moved-IsUpdate : IsUpdate t m.change
  moved-IsUpdate = task_update-IsUpdate c.parsers now e.event_type e.payload t _ m.change m.updated

  pub before_update :
      (j : ℕ)
      → find_task j (prompt_if_asked c now e.event_type (some t) m.approval m.middle).left
        ≡ find_task j db
  before_update j =
      ap (find_where (has_id j)) (IsMoved-tasks c now k timestamp e (some t) stored db' m ∙ same)

  pub others-IsMoved : (j : ℕ) → j ≢ k → find_task j db' ≡ find_task j db
  others-IsMoved j other =
      ap (find_task j) m.left
      ∙ find_task-update_other now k (with_heartbeat now m.change) moved-IsUpdate.keeps_id
          (prompt_if_asked c now e.event_type (some t) m.approval m.middle).left j other
      ∙ before_update j

  pub own-IsMoved :
      find_task k db ≡ some t
      → (t' : Task) × (find_task k db' ≡ some t')
        × (Moves t.status t'.status × (t.tokens_used ≤ t'.tokens_used) × (t'.heartbeat ≡ some now))
  own-IsMoved there =
      let u = moved-IsUpdate in
      (
        touch now (with_heartbeat now m.change) t,
        ap (find_task k) m.left
            ∙ find_task-update_self now k (with_heartbeat now m.change) u.keeps_id
                (prompt_if_asked c now e.event_type (some t) m.approval m.middle).left
                (before_update k ∙ there),
        (u.moves, u.tokens, refl),
      )

pub found_of_exists :
    (k : ℕ) (db : Db) → task_exists k db ≡ true → (t : Task) × (find_task k db ≡ some t)
found_of_exists k db there = elim (Option-cases (find_task k db)) [
  | inl missing ↦ cc (there, find-none (has_id k) db.tasks missing)
  | inr found ↦ found
]

-- An event that is received and that names a task is of a task that is there; every other task is
-- then the same row, and the task of the event has made one of the moves, has no fewer tokens than
-- before, and the moment as its heartbeat.
pub receive_event-IsTaskMove :
    (c : Context) (now k : ℕ) (e : EventPayload) (db db' : Db) (posts : List Post)
    → task_uuid c e ≡ some k
    → receive_event c now e db ≡ ok (db', posts)
    → (task_exists k db ≡ true) × IsTaskMove k now db db'
receive_event-IsTaskMove c now k e db db' posts is_k h =
    let (timestamp, stored, added, m) = receive_event-IsMoved c now k e db db' is_k h in
    let (refers, is_stored) =
      add_session_event-eq-ok db (stored_event (some k) timestamp e) added in
    let same : stored.tasks ≡ db.tasks = ap (λ d. d.tasks) is_stored in
    let m_for : (o : Option Task) → find_task k db ≡ o → IsMoved c now k timestamp e o stored db' =
      λ o is_o. subst (λ x. IsMoved c now k timestamp e x stored db') is_o m in
    let (t, there) = found_of_exists k db refers in
    (
      refers,
      record {
        others = others-IsMoved c now k timestamp e db stored db' t (m_for (some t) there) same;
        own = λ t0 is_t0.
            own-IsMoved c now k timestamp e db stored db' t0 (m_for (some t0) is_t0) same is_t0;
      },
    )
