-- ===== src/Examples/Heartbeats.antt =====
-- The theorem on the sweeps over running tasks, applied to a running task whose heartbeat is old.
use agentic_ops_platform.Prelude.{ℕ, String, ◌≡◌, refl, some, [], ◌∷◌}
use agentic_ops_platform.Prelude.Least.{least}
use agentic_ops_platform.Py.Text.{decimal}
use agentic_ops_platform.Py.Clock.{isoformat}
use agentic_ops_platform.Py.Number.{int_of}
use agentic_ops_platform.Py.Json.{Json, null, get?, either, truthy}
use agentic_ops_platform.Py.Result.{Result, ok}
use agentic_ops_platform.Models.Store.{find_task, add_task_event}
use agentic_ops_platform.HeartbeatMonitor.{
  Swept, workflow_runtime_timeout_sec, workflow_lost_timeout_sec, latest_task_session, end_session,
  lose_task, lose_if_expired, lost_task, for_tasks, lost_task_sweep, time_out_task,
  overrunning_task, runtime_timeout_sweep,
}
use agentic_ops_platform.HeartbeatMonitor.Untouched.{lost_task_sweep-keeps_idle}
use agentic_ops_platform.Examples.{waiting_dev, some_db, some_db-IsSound}

abbrev no_yaml : String → Json
no_yaml workflow = null

abbrev later : ℕ
later = 400000000

abbrev swept_of : Result Swept → Swept
swept_of (ok s) = s
swept_of _ = ([], some_db)

abbrev lost_by : Swept
lost_by = swept_of (lost_task_sweep no_yaml later some_db)

abbrev timed_by : Swept
timed_by = swept_of (runtime_timeout_sweep no_yaml later some_db)

loses : lost_task_sweep no_yaml later some_db ≡ ok lost_by
unfolding lost_task_sweep for_tasks lost_task lose_if_expired workflow_lost_timeout_sec lose_task
    latest_task_session end_session add_task_event least get? either truthy int_of decimal isoformat
loses = refl

times_out : runtime_timeout_sweep no_yaml later some_db ≡ ok timed_by
unfolding runtime_timeout_sweep for_tasks overrunning_task workflow_runtime_timeout_sec
    time_out_task latest_task_session end_session add_task_event least get? either truthy int_of
    decimal isoformat
times_out = refl

lost_task_sweep-keeps_idle_example :
    (find_task 4 lost_by.1 ≡ some waiting_dev) × (find_task 4 timed_by.1 ≡ some waiting_dev)
lost_task_sweep-keeps_idle_example =
    lost_task_sweep-keeps_idle no_yaml later 4 some_db waiting_dev lost_by timed_by some_db-IsSound
      refl refl loses times_out

-- The running task is lost.
finds_lost : lost_by.0 ≡ 1 ∷ []
unfolding lost_task_sweep for_tasks lost_task lose_if_expired workflow_lost_timeout_sec lose_task
    latest_task_session end_session add_task_event least get? either truthy int_of decimal isoformat
finds_lost = refl
