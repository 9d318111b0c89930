-- ===== src/Approvals/Backfill.antt =====
-- shared/lib/approvals.py, `backfill_approvals_for_task_ids`: the approvals of some tasks are made
-- again from the events of these tasks. The database chooses the id of a new row; `new_ids` gives
-- the one that an event's row gets.
pub mod Repair
use agentic_ops_platform.Prelude.{
  ℕ, ◌+◌, ◌==◌, ltb, String, Bool, true, false, ◌&&◌, ◌||◌, Option, none, some, List, [], ◌∷◌,
  str_eq, if◌then◌else◌, or_else, select_where, delete_where,
}
use agentic_ops_platform.Prelude.Sorted.{sort_by}
use agentic_ops_platform.Py.Json.{Json, Dict, obj, empty, truthy}
use agentic_ops_platform.Py.Result.{Result, ok, raise, attribute_error, ◌>>=◌}
use agentic_ops_platform.Models.{Task, SessionEvent, Approval, Db}
use agentic_ops_platform.Models.Store.{is_one_of, names_one_of, find_task}
use agentic_ops_platform.Approvals.{apply_approval_event}

abbrev pub is_approval_event : String → Bool
is_approval_event event_type =
    str_eq event_type "permission_callback"
    || str_eq event_type "approval_requested"
    || str_eq event_type "approval_result"

abbrev pub task_key : SessionEvent → ℕ
task_key e = or_else e.task_id 0

-- .order_by(SessionEvent.task_id, SessionEvent.timestamp, SessionEvent.id)
abbrev pub earlier : SessionEvent → SessionEvent → Bool
earlier e f =
    if ltb (task_key e) (task_key f)
    then true
    else if ltb (task_key f) (task_key e)
    then false
    else if ltb e.timestamp f.timestamp
    then true
    else if ltb f.timestamp e.timestamp
    then false
    else ltb e.id f.id

unfoldable pub events_to_replay : List ℕ → Db → List SessionEvent
unfolding sort_by
events_to_replay ids db = sort_by earlier (
    select_where (λ e. names_one_of ids e.task_id && is_approval_event e.event_type)
      db.session_events)

-- `event.data or {}`, on which `get` is called
unfoldable pub payload_of : Json → Result Dict
unfolding truthy
payload_of (obj d) = ok d
payload_of v = if truthy v then raise attribute_error else ok empty

abbrev pub task_of : Db → Option ℕ → Option Task
task_of db none = none
task_of db (some k) = find_task k db

-- created += 1, if the event has an approval
abbrev pub one_more : Option Approval → ℕ → ℕ
one_more none created = created
one_more (some a) created = created + 1

-- The tasks are read once, from `before`, before the approvals are deleted.
unfoldable pub replay : Db → (ℕ → ℕ) → ℕ → List SessionEvent → ℕ → Db → Result (ℕ × Db)
unfolding payload_of apply_approval_event
replay before new_ids now [] created db = ok (created, db)
replay before new_ids now (e ∷ es) created db = payload_of e.payload >>= λ payload.
    apply_approval_event (task_of before e.task_id) e.task_id e.event_type e.timestamp payload
      (new_ids e.id) now db
    >>= λ p. replay before new_ids now es (one_more p.0 created) p.1

abbrev pub without_approvals : List ℕ → Db → Db
without_approvals ids db = record db {
  approvals = delete_where (λ (a : Approval). is_one_of ids a.task_id) db.approvals;
}

unfoldable pub backfill_approvals_for_task_ids : (ℕ → ℕ) → ℕ → List ℕ → Db → Result (ℕ × Db)
unfolding events_to_replay replay
backfill_approvals_for_task_ids new_ids now [] db = ok (0, db)
backfill_approvals_for_task_ids new_ids now (k ∷ ks) db =
    replay db new_ids now (events_to_replay (k ∷ ks) db) 0 (without_approvals (k ∷ ks) db)
