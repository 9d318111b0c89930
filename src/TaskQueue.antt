-- ===== src/TaskQueue.antt =====
-- shared/lib/task_queue.py: the queue of tasks in PostgreSQL. The functions of the file stand in
-- the first modules below, and what is proved of them in the folders of the same names.
-- `now` is the moment that the call reads from the clock; the logger is left out.
pub mod Create
pub mod Dequeue
pub mod Lifecycle
pub mod Sweeps
pub mod Archive
pub mod Listing
