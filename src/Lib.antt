-- ===== src/Lib.antt =====
-- Verification of the core of the Agentic Ops Platform.
--
-- The gateway receives messages, webhooks and schedules and makes tasks of them; the session manager
-- takes tasks from the queue, runs one container for each, and watches its heartbeat; the container
-- reports events, which move the task between its states and carry the approvals that operators
-- give. All of it meets in PostgreSQL, so the state of the model is the database: one record with a
-- list of rows for each table (Models), and every function of the source is a function on it.
--
-- Files and the code they model:
--   Prelude        tests on numbers, lists of rows (select, update, count), the first of an order
--   Py             what the source uses of Python: text, dict and JSON values, datetime, exceptions
--   Models         shared/lib/models.py: the rows, the statements that are sent to the tables, and
--                  the keys of shared/lib/init_db.sql (Models/Sound)
--   TaskQueue      shared/lib/task_queue.py, and archive_task_and_related of
--                  shared/lib/housekeeping.py: claims (Dequeue), new tasks (Create), changes of one
--                  task (Lifecycle), the sweeps (Sweeps, Expired), and pages of tasks (Listing, with
--                  Asked for its filters, Columns for its order, and Pages)
--   Approvals      shared/lib/approvals.py: an event does one step (Steps), at most one approval of a
--                  task and tool is pending (Open), a decision is final (Final), and the
--                  approvals are made again from the events (Backfill)
--   BackgroundJobs shared/lib/background_jobs.py: what a call does to one run (Life), and what holds
--                  in every history of calls (History)
--   Settings       shared/lib/config.py: the settings that are read
--   ApprovalBroker gateway/approval_broker.py and gateway/message.py: an operator's answer (Decisions),
--                  the prompt (Prompt, Delivery, Effects, Once) and clicks on it (Actions, Clicks)
--   EventCollector gateway/event_collector.py: token counts (Tokens, Ends), the moves of a task
--                  (Moves, Received, Kept), and how long it waits (Waits)
--   MessageIngress gateway/message_ingress.py, shared/lib/message_ingress.py, alert_envelope.py and
--                  mattermost_api.py, and gateway/plugin_dir.py: the route of a message
--                  (Unique, Trust), what its text is (PostText, Providers), the context of a thread
--                  (Threads), the identity of an alert (Alerts), the task that is made (Intake,
--                  Handled), clicks (Interactive), and the routes of the workflows (Discovery)
--   Housekeeping   shared/lib/housekeeping.py: archiving, deletion (Deletion), and pruning
--   HeartbeatMonitor session-manager/heartbeat.py: the sweeps over running tasks (Untouched)
--   QueueConsumer  session-manager/main.py: workers and priorities of workflows (PluginBounds), the
--                  admission of tasks (Admission), and a round of the loop (Poll, Accounted)
--   Containers     session-manager/container_lifecycle.py: live runtimes, the record of a start, and
--                  the end of a task whose runtime has exited (Exit, Judged, Settled)
--   Scheduler      gateway/scheduler.py, and update_schedule of gateway/api.py: cron expressions
--                  (Cron), jobs (Jobs, Ids, Switch, Switched) and their firing (Firing, Fired)
--   TraceTree      shared/lib/trace_tree.py: a store of nodes, where a node is named by its place; the
--                  texts that are read (Previews), messages (Messages, Results, Turns), events (Events),
--                  the last passes (Passes), and the shape of the tree (Forest, Grows, Turned,
--                  Played, Built)
--   Examples       the theorems applied to concrete databases
--
-- Conventions. A UUID is a natural number, and the caller passes the one that the database or Python
-- would draw. A moment is the number of microseconds since 1970 in UTC, and every function takes the
-- moment `now` that it reads from the clock. Numbers in JSON values and configurations are natural
-- numbers, and a column of floats holds millionths. A call that raises leaves its transaction uncommitted,
-- so a result that raises carries no database. A statement that breaks a key raises integrity_error.
-- A function of the model runs within one transaction; rows that other transactions have locked are
-- a parameter of dequeue_task, which skips them.
--
-- Fuel. Three loops have no bound in their text. The loop of dequeue_task is given one round for each
-- entry of its limits and one more; TaskQueue.Dequeue.Choosing shows that these are enough. The
-- decimal text of n is given n rounds, and each round divides by ten. A usage that is a text in a text
-- is opened with one unit of fuel for each character and one more (EventCollector/Ends).
--
-- Not modelled: the other web handlers of gateway/api.py and the user interface, the calls of Slack,
-- Mattermost and GitHub, the launchers of containers and the environment of a runtime, the knowledge
-- index and its object store, the reading of workflow packages and their repositories, secrets, hooks
-- and the MCP servers. These are calls of other programs or of other libraries, and what the modelled
-- code needs of them is an argument (Packages in TaskQueue/Create, Postgres in TaskQueue/Listing,
-- Clients in ApprovalBroker/Prompt, JobStore in Scheduler, World in QueueConsumer/Poll, Context in
-- EventCollector, Ingress in MessageIngress/Intake, Readers in TraceTree/Previews). The id, timestamp,
-- detail and badge of a trace node, which only the eye reads, are left out.
pub mod Prelude
pub mod Py
pub mod Models
pub mod TaskQueue
pub mod Settings
pub mod Approvals
pub mod BackgroundJobs
pub mod ApprovalBroker
pub mod EventCollector
pub mod MessageIngress
pub mod Housekeeping
pub mod HeartbeatMonitor
pub mod QueueConsumer
pub mod Containers
pub mod Scheduler
pub mod TraceTree
pub mod Examples
