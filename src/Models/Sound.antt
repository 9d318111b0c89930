-- ===== src/Models/Sound.antt =====
-- The keys of shared/lib/init_db.sql: a task id is given once, and the rows that name a task
-- name one that is there.
use agentic_ops_platform.Prelude.{
  ℕ, ◌≤◌, ◌≡◌, refl, ap, Bool, true, false, Option, none, some, [], ◌∷◌, ◌++◌, arith, ◌==◌, All,
  All-mono, All-snoc, count_where, count-append, not-any-count, any-append, any-update_where,
  count-update_where, Bool-cases, inl, inr, any, All-update_where,
}
use agentic_ops_platform.Py.Result.{ok}
use agentic_ops_platform.Models.{Task, TaskEvent, SessionEvent, Approval, Db}
use agentic_ops_platform.Models.Store.{
  has_id, has_approval_id, update_approval, touch, update_tasks, task_exists, add_task,
  add_task_event, may_refer, add_session_event, add_approval,
}

pub record IsSound (db : Db) : Type 0 where
  pub unique_ids : (task_id : ℕ) → count_where (has_id task_id) db.tasks ≤ 1
  pub task_events_refer : All (λ (e : TaskEvent). task_exists e.task_id db ≡ true) db.task_events
  pub session_events_refer :
      All (λ (e : SessionEvent). may_refer e.task_id db.tasks ≡ true) db.session_events
  pub unique_approvals : (k : ℕ) → count_where (has_approval_id k) db.approvals ≤ 1
  pub approvals_refer : All (λ (a : Approval). task_exists a.task_id db ≡ true) db.approvals

-- Every task of `db` is still there in `db'`.
abbrev KeepsTasks : Db → Db → Type 0
KeepsTasks db db' = (task_id : ℕ) → task_exists task_id db ≡ true → task_exists task_id db' ≡ true

may_refer_mono :
    (db db' : Db)
    → KeepsTasks db db'
    → (o : Option ℕ) → may_refer o db.tasks ≡ true
    → may_refer o db'.tasks ≡ true
may_refer_mono db db' keeps none h = refl
may_refer_mono db db' keeps (some k) h = keeps k h

-- The change of an UPDATE leaves the primary key alone.
abbrev pub KeepsId : (Task → Task) → Type 0
KeepsId change = (t : Task) → (change t).id ≡ t.id

module _ (now : ℕ) (where_ : Task → Bool) (change : Task → Task) (keeps : KeepsId change)
    (db : Db) where
  has_id-change : (k : ℕ) (t : Task) → has_id k (change t) ≡ has_id k t
  has_id-change k t = rw (keeps t) refl

  pub task_exists-update_tasks :
      (task_id : ℕ)
      → task_exists task_id (update_tasks now where_ change db) ≡ task_exists task_id db
  task_exists-update_tasks k =
      any-update_where (has_id k) where_ (touch now change) (has_id-change k) db.tasks

  pub update_tasks-IsSound : IsSound db → IsSound (update_tasks now where_ change db)
  update_tasks-IsSound s = record {
    unique_ids = λ k.
        rw (count-update_where (has_id k) where_ (touch now change) (has_id-change k) db.tasks)
          (s.unique_ids k);
    task_events_refer =
        All-mono _ (λ e h. rw (task_exists-update_tasks e.task_id) h) s.task_events_refer;
    session_events_refer =
        All-mono _
          (λ e.
            may_refer_mono db (update_tasks now where_ change db)
              (λ k h. rw (task_exists-update_tasks k) h) e.task_id)
          s.session_events_refer;
    unique_approvals = s.unique_approvals;
    approvals_refer =
        All-mono _ (λ a h. rw (task_exists-update_tasks a.task_id) h) s.approvals_refer;
  }

module _ (db : Db) where
  add_task-keeps : (t : Task) → KeepsTasks db (record db { tasks = db.tasks ++ t ∷ [] })
  add_task-keeps t k h = any-append (has_id k) db.tasks (t ∷ []) h

  one_more :
      (t : Task) (k : ℕ)
      → task_exists t.id db ≡ false
      → count_where (has_id k) db.tasks ≤ 1
      → count_where (has_id k) (db.tasks ++ t ∷ []) ≤ 1
  one_more t k fresh h = elim (Bool-cases (t.id == k)) [
    | inl same ↦ ground (
      arith,
      count-append (has_id k) db.tasks (t ∷ []),
      not-any-count (has_id t.id) db.tasks fresh,
    )
    | inr other ↦ ground (arith, count-append (has_id k) db.tasks (t ∷ []))
  ]

  more_approvals :
      (a : Approval) (k : ℕ)
      → any (has_approval_id a.id) db.approvals ≡ false
      → count_where (has_approval_id k) db.approvals ≤ 1
      → count_where (has_approval_id k) (db.approvals ++ a ∷ []) ≤ 1
  more_approvals a k fresh h = elim (Bool-cases (a.id == k)) [
    | inl same ↦ ground (
      arith,
      count-append (has_approval_id k) db.approvals (a ∷ []),
      not-any-count (has_approval_id a.id) db.approvals fresh,
    )
    | inr other ↦ ground (arith, count-append (has_approval_id k) db.approvals (a ∷ []))
  ]

  -- What a statement that succeeds has checked, and the database that it leaves.
  pub add_task-eq-ok :
      (t : Task) {db' : Db}
      → add_task t db ≡ ok db'
      → (task_exists t.id db ≡ false) × (db' ≡ record db { tasks = db.tasks ++ t ∷ [] })
  unfolding add_task
  add_task-eq-ok t h = ground arith

  pub add_task_event-eq-ok :
      (e : TaskEvent) {db' : Db}
      → add_task_event e db ≡ ok db'
      → (task_exists e.task_id db ≡ true)
        × (db' ≡ record db { task_events = db.task_events ++ e ∷ [] })
  unfolding add_task_event
  add_task_event-eq-ok e h = ground arith

  pub add_session_event-eq-ok :
      (e : SessionEvent) {db' : Db}
      → add_session_event e db ≡ ok db'
      → (may_refer e.task_id db.tasks ≡ true)
        × (db' ≡ record db { session_events = db.session_events ++ e ∷ [] })
  unfolding add_session_event
  add_session_event-eq-ok e h = ground arith

  pub add_approval-eq-ok :
      (a : Approval) {db' : Db}
      → add_approval a db ≡ ok db'
      → (task_exists a.task_id db ≡ true)
        × (any (has_approval_id a.id) db.approvals ≡ false)
        × (db' ≡ record db { approvals = db.approvals ++ a ∷ [] })
  unfolding add_approval
  add_approval-eq-ok a h = ground arith

  pub add_task-IsSound : (t : Task) {db' : Db} → IsSound db → add_task t db ≡ ok db' → IsSound db'
  add_task-IsSound t s h =
      let (fresh, e) = add_task-eq-ok t h in
      rw e (record {
        unique_ids = λ k. one_more t k fresh (s.unique_ids k);
        task_events_refer = All-mono _ (λ e. add_task-keeps t e.task_id) s.task_events_refer;
        session_events_refer =
            All-mono _
              (λ e.
                may_refer_mono db (record db { tasks = db.tasks ++ t ∷ [] }) (add_task-keeps t)
                  e.task_id)
              s.session_events_refer;
        unique_approvals = s.unique_approvals;
        approvals_refer = All-mono _ (λ a. add_task-keeps t a.task_id) s.approvals_refer;
      })

  pub add_task_event-IsSound :
      (e : TaskEvent) {db' : Db} → IsSound db → add_task_event e db ≡ ok db' → IsSound db'
  add_task_event-IsSound e s h =
      let (there, e') = add_task_event-eq-ok e h in
      rw e' (record {
        unique_ids = s.unique_ids;
        task_events_refer =
            All-snoc (λ (e : TaskEvent). task_exists e.task_id db ≡ true) _ e s.task_events_refer
              there;
        session_events_refer = s.session_events_refer;
        unique_approvals = s.unique_approvals;
        approvals_refer = s.approvals_refer;
      })

  pub add_session_event-IsSound :
      (e : SessionEvent) {db' : Db} → IsSound db → add_session_event e db ≡ ok db' → IsSound db'
  add_session_event-IsSound e s h =
      let (there, e') = add_session_event-eq-ok e h in
      rw e' (record {
        unique_ids = s.unique_ids;
        task_events_refer = s.task_events_refer;
        session_events_refer =
            All-snoc (λ (e : SessionEvent). may_refer e.task_id db.tasks ≡ true) _ e
              s.session_events_refer there;
        unique_approvals = s.unique_approvals;
        approvals_refer = s.approvals_refer;
      })

  pub add_approval-IsSound :
      (a : Approval) {db' : Db} → IsSound db → add_approval a db ≡ ok db' → IsSound db'
  add_approval-IsSound a s h =
      let (there, fresh, e') = add_approval-eq-ok a h in
      rw e' (record {
        unique_ids = s.unique_ids;
        task_events_refer = s.task_events_refer;
        session_events_refer = s.session_events_refer;
        unique_approvals = λ k. more_approvals a k fresh (s.unique_approvals k);
        approvals_refer =
            All-snoc (λ (a : Approval). task_exists a.task_id db ≡ true) _ a s.approvals_refer
              there;
      })

  -- An UPDATE of an approval that leaves its keys alone.
  pub update_approval-IsSound :
      (k : ℕ) (change : Approval → Approval)
      → ((a : Approval) → (change a).id ≡ a.id)
      → ((a : Approval) → (change a).task_id ≡ a.task_id)
      → IsSound db
      → IsSound (update_approval k change db)
  update_approval-IsSound k change same same_task s = record {
    unique_ids = s.unique_ids;
    task_events_refer = s.task_events_refer;
    session_events_refer = s.session_events_refer;
    unique_approvals = λ j.
        rw
          (count-update_where (has_approval_id j) (has_approval_id k) change
            (λ a. ap (λ (i : ℕ). i == j) (same a)) db.approvals)
          (s.unique_approvals j);
    approvals_refer =
        All-update_where (λ (a : Approval). task_exists a.task_id db ≡ true) (has_approval_id k)
          change db.approvals (λ a h. rw (same_task a) h) s.approvals_refer;
  }
