-- ===== src/Approvals/Steps.antt =====
-- What an event does to the approvals: nothing, a new row where none is pending, or a change of
-- the newest pending row.
use agentic_ops_platform.Prelude.{
  ℕ, String, ◌≡◌, refl, Bool, true, false, Option, none, some, ◌⊎◌, inl, inr, arith, str_eq,
  Bool-cases, IsOrder, ltb, if◌then◌else◌,
}
use agentic_ops_platform.Py.Json.{Dict, truthy, get}
use agentic_ops_platform.Py.Result.{ok, >>=-eq-ok}
use agentic_ops_platform.Models.{Task, Approval, Db}
use agentic_ops_platform.Models.Store.{add_approval, update_approval}
use agentic_ops_platform.Approvals.{
  newer, is_pending, is_operator_kind, find_open_approval, approval_status_from_result, Arrival,
  insert_or_change, called, requested, resolved, on_permission_callback, on_approval_requested,
  on_approval_result, dispatch, tool_name_of, apply_approval_event,
}

newer4 : ℕ → ℕ → ℕ → ℕ → Bool
newer4 r c r' c' = if ltb r' r then true else if ltb r r' then false else ltb c' c

newer4_asymm : (r c r' c' : ℕ) → newer4 r c r' c' ≡ true → newer4 r' c' r c ≡ false
unfolding newer4
newer4_asymm r c r' c' h = ground arith

newer4_neg_trans :
    (r c r' c' r'' c'' : ℕ)
    → newer4 r c r' c' ≡ false
    → newer4 r' c' r'' c'' ≡ false
    → newer4 r c r'' c'' ≡ false
unfolding newer4
newer4_neg_trans r c r' c' r'' c'' h k = ground arith

newer4_irrefl : (r c : ℕ) → newer4 r c r c ≡ false
unfolding newer4
newer4_irrefl r c = ground arith

pub newer-IsOrder : IsOrder newer
unfolding newer4
newer-IsOrder = record {
  irrefl = λ a. newer4_irrefl a.requested_at a.created_at;
  neg_trans = λ a b c.
      newer4_neg_trans a.requested_at a.created_at b.requested_at b.created_at c.requested_at
        c.created_at;
  asymm = λ a b. newer4_asymm a.requested_at a.created_at b.requested_at b.created_at;
}

-- A change that leaves the keys of an approval alone.
pub record KeepsKeys (f : Approval → Approval) : Type 0 where
  pub same_id : (a : Approval) → (f a).id ≡ a.id
  pub same_task : (a : Approval) → (f a).task_id ≡ a.task_id
  pub same_tool : (a : Approval) → (f a).tool_name ≡ a.tool_name

-- A change leaves the status alone, or it ends the wait.
abbrev pub StaysOrEnds : (Approval → Approval) → Type 0
StaysOrEnds f =
    ((a : Approval) → (f a).status ≡ a.status) ⊎ ((a : Approval) → is_pending (f a) ≡ false)

pub data Step (task_id : ℕ) (tool : String) (db db' : Db) : Type 0 where
  ignores : db' ≡ db → Step task_id tool db db'
  inserts :
      (fresh : Approval)
      → fresh.task_id ≡ task_id
      → fresh.tool_name ≡ tool
      → find_open_approval task_id tool db ≡ none
      → add_approval fresh db ≡ ok db'
      → Step task_id tool db db'
  changes :
      (a : Approval) (f : Approval → Approval)
      → find_open_approval task_id tool db ≡ some a
      → KeepsKeys f
      → StaysOrEnds f
      → db' ≡ update_approval a.id f db
      → Step task_id tool db db'

insert_or_change-Step :
    (task_id : ℕ) (tool : String) (fresh : Approval) (f : Approval → Approval) (o : Option Approval)
    (db : Db)
    → fresh.task_id ≡ task_id
    → fresh.tool_name ≡ tool
    → KeepsKeys f
    → StaysOrEnds f
    → find_open_approval task_id tool db ≡ o
    → {r : Option Approval} {db' : Db} → insert_or_change fresh f o db ≡ ok (r, db')
    → Step task_id tool db db'
unfolding insert_or_change
insert_or_change-Step k tool fresh f none db key name keeps ends e {db' = db'} h =
    let (d, added, same) = >>=-eq-ok (add_approval fresh db) _ h in
    let left : d ≡ db' = cc in inserts fresh key name e (rw left at added)
insert_or_change-Step k tool fresh f (some a) db key name keeps ends e h =
    changes a f e keeps ends cc

pub status-not_pending :
    (payload : Dict) → str_eq (approval_status_from_result payload) "pending" ≡ false
unfolding approval_status_from_result
status-not_pending payload = elim (Bool-cases (truthy (get "approved" payload))) [
  | inl e ↦ rw e refl
  | inr e ↦ rw e refl
]

on_permission_callback-Step :
    (e : Arrival) (db : Db) {o : Option Approval} {db' : Db}
    → on_permission_callback e db ≡ ok (o, db')
    → Step e.task_id e.tool_name db db'
unfolding on_permission_callback
on_permission_callback-Step e db h = elim (Bool-cases (is_operator_kind e.payload)) [
  | inl operator ↦
      insert_or_change-Step e.task_id e.tool_name _ (called e) _ db refl refl
        (record { same_id = λ a. refl; same_task = λ a. refl; same_tool = λ a. refl })
        (inl (λ a. refl)) refl (rw operator at h)
  | inr other ↦ ignores (cc (rw other at h))
]

on_approval_requested-Step :
    (e : Arrival) (db : Db) {o : Option Approval} {db' : Db}
    → on_approval_requested e db ≡ ok (o, db')
    → Step e.task_id e.tool_name db db'
unfolding on_approval_requested
on_approval_requested-Step e db h =
    insert_or_change-Step e.task_id e.tool_name _ (requested e) _ db refl refl
      (record { same_id = λ a. refl; same_task = λ a. refl; same_tool = λ a. refl })
      (inl (λ a. refl)) refl h

on_approval_result-Step :
    (e : Arrival) (db : Db) {o : Option Approval} {db' : Db}
    → on_approval_result e db ≡ ok (o, db')
    → Step e.task_id e.tool_name db db'
unfolding on_approval_result
on_approval_result-Step e db h =
    insert_or_change-Step e.task_id e.tool_name _ (resolved e) _ db refl refl
      (record { same_id = λ a. refl; same_task = λ a. refl; same_tool = λ a. refl })
      (inr (λ a. status-not_pending e.payload)) refl h

dispatch-Step :
    (event_type : String) (e : Arrival) (db : Db) {o : Option Approval} {db' : Db}
    → dispatch event_type e db ≡ ok (o, db')
    → Step e.task_id e.tool_name db db'
unfolding dispatch
dispatch-Step event_type e db h = elim (Bool-cases (str_eq event_type "permission_callback")) [
  | inl yes1 ↦ on_permission_callback-Step e db (rw yes1 at h)
  | inr no1 ↦ elim (Bool-cases (str_eq event_type "approval_requested")) [
    | inl yes2 ↦ on_approval_requested-Step e db (rw (no1, yes2) at h)
    | inr no2 ↦ elim (Bool-cases (str_eq event_type "approval_result")) [
      | inl yes3 ↦ on_approval_result-Step e db (rw (no1, no2, yes3) at h)
      | inr no3 ↦ ignores (cc (rw (no1, no2, no3) at h))
    ]
  ]
]

-- An event that is taken does one step to the approvals of its task.
pub apply_approval_event-Step_at :
    (task : Option Task) (k : ℕ) (event_type : String) (timestamp : ℕ) (payload : Dict)
    (new_id now : ℕ) (db db' : Db) (o : Option Approval)
    → apply_approval_event task (some k) event_type timestamp payload new_id now db ≡ ok (o, db')
    → Step k (tool_name_of payload) db db'
unfolding apply_approval_event
apply_approval_event-Step_at task k event_type timestamp payload new_id now db db' o h =
    elim (Bool-cases (str_eq (tool_name_of payload) "")) [
      | inl nameless ↦ ignores (cc (rw nameless at h))
      | inr named ↦
          dispatch-Step event_type
            (record {
              task = task;
              task_id = k;
              tool_name = tool_name_of payload;
              timestamp = timestamp;
              payload = payload;
              new_id = new_id;
              now = now;
            })
            db (rw named at h)
    ]

pub apply_approval_event-Step :
    (task : Option Task) (task_id : Option ℕ) (event_type : String) (timestamp : ℕ) (payload : Dict)
    (new_id now : ℕ) (db db' : Db) (o : Option Approval)
    → apply_approval_event task task_id event_type timestamp payload new_id now db ≡ ok (o, db')
    → (k : ℕ) × Step k (tool_name_of payload) db db'
apply_approval_event-Step task none event_type timestamp payload new_id now db db' o h =
    (0, ignores (unfold apply_approval_event in cc))
apply_approval_event-Step task (some k) event_type timestamp payload new_id now db db' o h =
    (k, apply_approval_event-Step_at task k event_type timestamp payload new_id now db db' o h)
