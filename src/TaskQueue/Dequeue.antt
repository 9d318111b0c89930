-- ===== src/TaskQueue/Dequeue.antt =====
-- `dequeue_task`: the choice of the next task, and its claim.
pub mod Choosing
pub mod Claims
pub mod Limits
pub mod Outcomes
use agentic_ops_platform.Prelude.{
  ℕ, zero, suc, String, Bool, true, false, not, ◌&&◌, ◌||◌, ◌==◌, leb, ltb, str_eq, Option, none,
  some, List, [], ◌∷◌, if◌then◌else◌, is_some, select_where, count_where, length, least,
}
use agentic_ops_platform.Py.Json.{Dict, text, entry, empty}
use agentic_ops_platform.Py.Result.{Result, ok, raise, value_error, out_of_fuel, ◌>>=◌}
use agentic_ops_platform.Models.{Task, TaskEvent, Db}
use agentic_ops_platform.Models.Status.{
  TaskStatus, running, is_running, is_resume_pending, is_runnable, status_name,
}
use agentic_ops_platform.Models.Store.{has_id, update_tasks, add_task_event}

-- A `dict` from workflows to numbers.
abbrev pub Numbers : Type 0
Numbers = List (String × ℕ)

abbrev pub lookup : String → Numbers → Option ℕ
lookup w [] = none
lookup w ((v, n) ∷ rest) = let later = lookup w rest in if str_eq v w then some n else later

abbrev pub contains : String → List String → Bool
contains w [] = false
contains w (v ∷ vs) = let later = contains w vs in if str_eq v w then true else later

-- The arguments of `dequeue_task`.
pub record Policy : Type 0 where
  pub workflow : Option String
  pub max_running : Option ℕ
  pub platform_max_running : Option ℕ
  pub workflow_limits : Option Numbers
  pub workflow_priorities : Option Numbers

-- `workflow_limits` as a dictionary, with no entry for None
abbrev pub limits : Policy → Numbers
limits policy = elim policy.workflow_limits [ none ↦ [] | some ls ↦ ls ]

abbrev is_nil : Numbers → Bool
is_nil [] = true
is_nil (x ∷ xs) = false

-- if workflow: query.where(Task.workflow == workflow)
abbrev pub selects : Option String → String → Bool
selects none v = true
selects (some w) v = str_eq w "" || str_eq v w

-- if workflow_limits: query.where(Task.workflow.in_(tuple(workflow_limits)))
abbrev pub in_limits : Numbers → String → Bool
in_limits ls v = is_nil ls || is_some (lookup v ls)

-- The WHERE clause of the query; `locked` says which rows another transaction has locked.
unfoldable pub eligible : Policy → (ℕ → Bool) → List String → Task → Bool
eligible policy locked blocked t =
    is_runnable t.status
    && not (is_some t.archived_at)
    && not (locked t.id)
    && selects policy.workflow t.workflow
    && in_limits (limits policy) t.workflow
    && not (contains t.workflow blocked)

-- case((Task.status == "resume_pending", 0), else_=1)
abbrev pub resume_rank : Task → ℕ
resume_rank t = if is_resume_pending t.status then 0 else 1

-- case(workflow_priorities, value=Task.workflow, else_=1)
abbrev pub priority : Policy → Task → ℕ
priority policy t = elim policy.workflow_priorities [
  | none ↦ 1
  | some ps ↦ elim (lookup t.workflow ps) [ none ↦ 1 | some n ↦ n ]
]

unfoldable pub lex3 : ℕ → ℕ → ℕ → ℕ → ℕ → ℕ → Bool
lex3 r p c r' p' c' =
    if ltb r r'
    then true
    else if ltb r' r
    then false
    else if ltb p p'
    then true
    else if ltb p' p
    then false
    else ltb c c'

-- ORDER BY: resumptions, then priority, then the oldest
unfoldable pub before : Policy → Task → Task → Bool
before policy t u =
    lex3 (resume_rank t) (priority policy t) t.created (resume_rank u) (priority policy u) u.created

abbrev pub is_active : Task → Bool
is_active t = is_running t.status

abbrev pub runs : String → Task → Bool
runs w t = is_running t.status && str_eq t.workflow w

-- The limit of the task's workflow is reached.
unfoldable pub is_full : Policy → Db → String → Bool
is_full policy db w = elim (lookup w (limits policy)) [
  | none ↦ false
  | some n ↦ leb n (count_where (runs w) db.tasks)
]

pub data Choice : Type 0 where
  found : Task → Choice
  nothing : Choice
  no_fuel : Choice

-- The row that the query returned: none, one of a workflow at its limit, or one to claim.
unfoldable pub accept : Policy → Db → (Task → Choice) → Option Task → Choice
accept policy db again none = nothing
accept policy db again (some t) =
    let next = again t in if is_full policy db t.workflow then next else found t

-- The `while True` loop: a workflow at its limit is blocked, and the query is asked again.
unfoldable pub choose : Policy → (ℕ → Bool) → Db → ℕ → List String → Choice
unfolding accept
choose policy locked db zero blocked = no_fuel
choose policy locked db (suc fuel) blocked =
    accept policy db (λ t. choose policy locked db fuel (t.workflow ∷ blocked))
      (least (before policy) (select_where (eligible policy locked blocked) db.tasks))

abbrev pub claimed : ℕ → Task → Task
claimed now t = record t {
  status = running;
  heartbeat = some now;
  wait_reason = none;
  wait_deadline = none;
}

abbrev claim_event : Task → TaskEvent
claim_event t = record {
  task_id = t.id;
  event_type = if is_resume_pending t.status then "task_resumed" else "task_dequeued";
  payload =
      entry "previous_status" (text (status_name t.status))
        (entry "workflow" (text t.workflow) empty);
}

unfoldable pub claim : ℕ → Task → Db → Result (Option Task × Db)
unfolding add_task_event
claim now t db =
    add_task_event (claim_event t) (update_tasks now (has_id t.id) (claimed now) db) >>= λ db'.
    ok (some (record (claimed now t) { updated = now }), db')

-- The early exits before the loop: the platform's limit, the limit `max_running`, and a
-- dictionary of limits with no entry.
pub platform_gate : Policy → Db → Result Bool
platform_gate policy db = elim policy.platform_max_running [
  | none ↦ ok false
  | some k ↦
      if ltb k 1
      then raise (value_error "platform_max_running must be at least 1")
      else ok (leb k (count_where is_active db.tasks))
]

abbrev pub counted : Option String → Task → Bool
counted w t = is_running t.status && selects w t.workflow

pub selection_gate : Policy → Db → Bool
selection_gate policy db = elim policy.max_running [
  | none ↦ false
  | some k ↦ leb k (count_where (counted policy.workflow) db.tasks)
]

unfoldable pub limits_gate : Policy → Bool
limits_gate policy = elim policy.workflow_limits [ none ↦ false | some ls ↦ is_nil ls ]

-- Each round but the last blocks one more workflow that has a limit.
abbrev pub rounds : Policy → ℕ
rounds policy = suc (length (limits policy))

pub finish : ℕ → Db → Choice → Result (Option Task × Db)
unfolding claim
finish now db (found t) = claim now t db
finish now db nothing = ok (none, db)
finish now db no_fuel = raise out_of_fuel

unfoldable pub dequeue_task : Policy → (ℕ → Bool) → ℕ → Db → Result (Option Task × Db)
unfolding platform_gate selection_gate limits_gate finish
dequeue_task policy locked now db = platform_gate policy db >>= λ full.
    if full || selection_gate policy db || limits_gate policy
    then ok (none, db)
    else finish now db (choose policy locked db (rounds policy) [])
