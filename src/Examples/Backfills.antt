-- ===== src/Examples/Backfills.antt =====
-- The theorem on the backfill, applied to a task with two pending rows for one request.
use agentic_ops_platform.Prelude.{ℕ, ◌≡◌, refl, none, some, [], ◌∷◌, arith}
use agentic_ops_platform.Prelude.Least.{least}
use agentic_ops_platform.Prelude.Sorted.{sort_by}
use agentic_ops_platform.Py.Text.{strip}
use agentic_ops_platform.Py.Json.{obj, get, truthy, either, str}
use agentic_ops_platform.Py.Result.{ok}
use agentic_ops_platform.Models.{SessionEvent, Db}
use agentic_ops_platform.Models.Store.{add_approval}
use agentic_ops_platform.Models.Sound.{IsSound}
use agentic_ops_platform.Approvals.{
  find_open_approval, text_or_none, insert_or_change, dispatch, on_approval_requested, tool_name_of,
  apply_approval_event,
}
use agentic_ops_platform.Approvals.Backfill.{
  events_to_replay, payload_of, replay, backfill_approvals_for_task_ids,
}
use agentic_ops_platform.Approvals.Backfill.Repair.{
  OnePendingElsewhere, IsRepair, backfill_approvals_for_task_ids-IsRepair,
}
use agentic_ops_platform.Examples.{some_db, some_db-IsSound}
use agentic_ops_platform.Examples.Decisions.{asked, pending_row}

abbrev ask_event : SessionEvent
ask_event = record {
  id = 3;
  task_id = some 1;
  event_type = "approval_requested";
  timestamp = 50;
  payload = obj asked;
  archived_at = none;
}

abbrev doubled_db : Db
doubled_db = record some_db {
  session_events = ask_event ∷ [];
  approvals = record pending_row { id = 8 } ∷ record pending_row { id = 9 } ∷ [];
}

doubled_db-IsSound : IsSound doubled_db
doubled_db-IsSound = record {
  unique_ids = some_db-IsSound.unique_ids;
  task_events_refer = tt;
  session_events_refer = (refl, tt);
  unique_approvals = λ k. ground arith;
  approvals_refer = (refl, (refl, tt));
}

doubled_db-elsewhere : OnePendingElsewhere (1 ∷ []) doubled_db
doubled_db-elsewhere = record { one = λ k tool other. ground arith }

abbrev repaired_db : Db
repaired_db = record doubled_db { approvals = record pending_row { created_at = 90 } ∷ [] }

abbrev seven : ℕ → ℕ
seven event = 7

backfills : backfill_approvals_for_task_ids seven 90 (1 ∷ []) doubled_db ≡ ok (1, repaired_db)
unfolding backfill_approvals_for_task_ids events_to_replay sort_by replay payload_of
    apply_approval_event dispatch on_approval_requested strip str either get truthy tool_name_of
    find_open_approval least insert_or_change text_or_none add_approval
backfills = refl

backfill_approvals_for_task_ids-IsRepair_example : IsRepair (1 ∷ []) doubled_db repaired_db
backfill_approvals_for_task_ids-IsRepair_example =
    backfill_approvals_for_task_ids-IsRepair seven 90 (1 ∷ []) doubled_db repaired_db 1
      doubled_db-IsSound doubled_db-elsewhere backfills
