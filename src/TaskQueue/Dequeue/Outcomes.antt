-- ===== src/TaskQueue/Dequeue/Outcomes.antt =====
-- When `dequeue_task` raises, and when it finds no task.
use agentic_ops_platform.Prelude.{
  ℕ, zero, suc, ◌≡◌, ◌≢◌, refl, sym, ◌∙◌, Bool, true, false, ◌||◌, Option, none, some, arith, leb,
  if◌then◌else◌, All, Memᴰ, count_where, any, mem-any, least, mem-least, least-none, select_where,
  inl, inr, ==_refl, ◌⊎◌,
}
use agentic_ops_platform.Py.Result.{Result, ok, raise, value_error, >>=-eq-ok}
use agentic_ops_platform.Models.{Task, Db}
use agentic_ops_platform.Models.Store.{has_id, update_tasks, add_task_event}
use agentic_ops_platform.Models.Sound.{task_exists-update_tasks}
use agentic_ops_platform.TaskQueue.Dequeue.{
  Policy, before, is_active, Choice, found, nothing, no_fuel, claimed, claim, platform_gate,
  selection_gate, limits_gate, finish, dequeue_task,
}
use agentic_ops_platform.TaskQueue.Dequeue.Choosing.{
  before-IsOrder, ready, chosen, best_ready, choose-eq-single_query,
}
use agentic_ops_platform.TaskQueue.Dequeue.Claims.{claim-eq-ok, after_claim}

claim-total :
    (now : ℕ) (t : Task) (db : Db)
    → Memᴰ t db.tasks
    → (o : Option Task) × (db' : Db) × (claim now t db ≡ ok (o, db'))
unfolding claim
claim-total now t db m =
    let there : any (has_id t.id) (update_tasks now (has_id t.id) (claimed now) db).tasks ≡ true =
      task_exists-update_tasks now (has_id t.id) (claimed now) (λ t. refl) db t.id
      ∙ mem-any (has_id t.id) db.tasks m (==_refl t.id) in
    (
      some (record (claimed now t) { updated = now }),
      after_claim now t db,
      unfold add_task_event in rw there refl,
    )

finish-total :
    (policy : Policy) (locked : ℕ → Bool) (now : ℕ) (db : Db)
    → (o : Option Task) → least (before policy) (select_where (ready policy locked db) db.tasks) ≡ o
    → (r : Option Task) × (db' : Db) × (finish now db (chosen o) ≡ ok (r, db'))
unfolding finish chosen
finish-total policy locked now db none e = (none, db, refl)
finish-total policy locked now db (some t) e =
    claim-total now t db (mem-least (before policy) (ready policy locked db) db.tasks t e)

gate-cases :
    (policy : Policy) (db : Db) (o : Option ℕ)
    → policy.platform_max_running ≡ o
    → (o ≡ some 0)
        × (platform_gate policy db ≡ raise (value_error "platform_max_running must be at least 1"))
      ⊎ (o ≢ some 0) × ((b : Bool) × (platform_gate policy db ≡ ok b))
unfolding platform_gate
gate-cases policy db none e = inr (λ h. cc, (false, rw e refl))
gate-cases policy db (some zero) e = inl (refl, rw e refl)
gate-cases policy db (some (suc k)) e =
    inr (λ h. ground arith, (leb (suc k) (count_where is_active db.tasks), rw e (ground arith)))

gated-total :
    (closed : Bool) (db : Db) (rest : Result (Option Task × Db))
    → (o : Option Task) × (db' : Db) × (rest ≡ ok (o, db'))
    → (o : Option Task) × (db' : Db) × ((if closed then ok (none, db) else rest) ≡ ok (o, db'))
gated-total true db rest r = (none, db, refl)
gated-total false db rest r = r

-- `dequeue_task` always returns, unless the platform limit is 0, when it raises ValueError: the
-- loop ends, and the event of the claim names a task that is there.
pub dequeue_task-total :
    (policy : Policy) (locked : ℕ → Bool) (now : ℕ) (db : Db)
    → (policy.platform_max_running ≡ some 0)
        × (dequeue_task policy locked now db
            ≡ raise (value_error "platform_max_running must be at least 1"))
      ⊎ (policy.platform_max_running ≢ some 0)
        × ((o : Option Task) × (db' : Db) × (dequeue_task policy locked now db ≡ ok (o, db')))
unfolding dequeue_task
dequeue_task-total policy locked now db = elim (gate-cases policy db _ refl) [
  | inl (zero_limit, gate) ↦ inl (zero_limit, rw gate refl)
  | inr (positive, (b, gate)) ↦ inr (
    positive,
    rw gate (
        gated-total (b || selection_gate policy db || limits_gate policy) db _ (
          rw (choose-eq-single_query policy locked db)
            (unfold best_ready in finish-total policy locked now db _ refl))),
  )
]

finish-none :
    (now : ℕ) (db db' : Db) (c : Choice)
    → finish now db c ≡ ok (none, db')
    → (db' ≡ db) × (c ≡ nothing)
unfolding finish
finish-none now db db' (found t) h = cc ((claim-eq-ok now t db h).0)
finish-none now db db' nothing h = (cc, refl)
finish-none now db db' no_fuel h = cc

gated-none :
    (full selected limited : Bool) (now : ℕ) (db db' : Db) (c : Choice)
    → (if full || selected || limited then ok (none, db) else finish now db c) ≡ ok (none, db')
    → (db' ≡ db) × ((full ≡ true) ⊎ ((selected || limited) ≡ true) ⊎ (c ≡ nothing))
gated-none true selected limited now db db' c h = (cc, inl refl)
gated-none false true limited now db db' c h = (cc, inr (inl refl))
gated-none false false true now db db' c h = (cc, inr (inl refl))
gated-none false false false now db db' c h =
    let (same, none_found) = finish-none now db db' c h in (same, inr (inr none_found))

chosen-nothing : (o : Option Task) → chosen o ≡ nothing → o ≡ none
unfolding chosen
chosen-nothing none e = refl
chosen-nothing (some t) e = cc

-- A call that returns no task changes nothing; and then the platform's limit is reached, or the
-- limit `max_running` is, or the dictionary of limits is empty, or no task is ready.
pub dequeue_task-none :
    (policy : Policy) (locked : ℕ → Bool) (now : ℕ) (db db' : Db)
    → dequeue_task policy locked now db ≡ ok (none, db')
    → (db' ≡ db)
      × ((platform_gate policy db ≡ ok true)
          ⊎ ((selection_gate policy db || limits_gate policy) ≡ true)
          ⊎ All (λ t. ready policy locked db t ≡ false) db.tasks)
unfolding dequeue_task
dequeue_task-none policy locked now db db' h =
    let (full, gate, rest) = >>=-eq-ok (platform_gate policy db) _ h in
    let (same, why) =
      gated-none full (selection_gate policy db) (limits_gate policy) now db db' _ rest in
    (
      same,
      elim why [
        | inl e ↦ inl (rw e at gate)
        | inr (inl e) ↦ inr (inl e)
        | inr (inr e) ↦ inr (
            inr (
              least-none (before policy) (before-IsOrder policy) (ready policy locked db) db.tasks (
                chosen-nothing _
                  (unfold best_ready in sym (choose-eq-single_query policy locked db) ∙ e))))
      ],
    )
