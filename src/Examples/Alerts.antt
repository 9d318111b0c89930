-- ===== src/Examples/Alerts.antt =====
-- The theorems on `create_task`, applied to an alert that comes twice.
use agentic_ops_platform.Prelude.{◌≡◌, refl, none, some, [], ◌∷◌, ◌++◌}
use agentic_ops_platform.Py.Json.{empty, entry, text, obj}
use agentic_ops_platform.Py.Result.{ok}
use agentic_ops_platform.Models.{Task, Db}
use agentic_ops_platform.TaskQueue.Create.{
  Packages, Request, new_task, existing_task, insert_task, join_or_insert, normalize_message_route,
  workflow_default_message_channel, message_channel_from_config, create_task,
}
use agentic_ops_platform.Models.Store.{add_task, add_task_event}
use agentic_ops_platform.Prelude.Least.{least}
use agentic_ops_platform.Examples.{some_db}

abbrev no_packages : Packages
no_packages name = none

abbrev alert : Request
alert = record {
  workflow = "ops";
  prompt = "disk full";
  channel = none;
  metadata = empty;
  message_channel = none;
  message_thread = none;
  coalesce_key = some "disk";
  coalesce_window_sec = 3600;
  new_id = 9;
}

abbrev first_alert : Task
first_alert = new_task 100 alert none empty

abbrev alerted_db : Db
alerted_db = record some_db {
  tasks = some_db.tasks ++ first_alert ∷ [];
  task_events =
      record {
        task_id = 9;
        event_type = "task_created";
        payload = entry "workflow" (text "ops") (entry "metadata" (obj empty) empty);
      }
      ∷ [];
}

creates : create_task no_packages 100 alert some_db ≡ ok (first_alert, alerted_db)
unfolding create_task existing_task least join_or_insert insert_task add_task add_task_event
    normalize_message_route workflow_default_message_channel message_channel_from_config
creates = refl
