-- ===== src/EventCollector/Kept.antt =====
-- The keys and the pending approvals after a received event.
use agentic_ops_platform.Prelude.{ℕ, ◌≡◌, sym, ap, subst, some, List}
use agentic_ops_platform.Py.Result.{ok}
use agentic_ops_platform.Models.{Db}
use agentic_ops_platform.Models.Store.{has_id}
use agentic_ops_platform.Models.Sound.{
  IsSound, add_session_event-eq-ok, add_session_event-IsSound, update_tasks-IsSound,
}
use agentic_ops_platform.Approvals.Open.{
  OnePending, apply_approval_event-OnePending, apply_approval_event-IsSound,
}
use agentic_ops_platform.ApprovalBroker.Prompt.{Post}
use agentic_ops_platform.ApprovalBroker.Effects.{Notes-IsSound, Notes-OnePending}
use agentic_ops_platform.EventCollector.{
  EventPayload, Context, with_heartbeat, prompt_if_asked, stored_event, task_uuid, receive_event,
}
use agentic_ops_platform.EventCollector.Received.{
  IsMoved, receive_event-IsMoved, moved-IsUpdate, found_of_exists, prompt_if_asked-Notes,
}

-- Where the keys of the database hold and at most one approval of each task and tool is pending,
-- both are so after every event that is received and that names a task, whatever the provider
-- answers to a prompt.
pub receive_event-keeps :
    (c : Context) (now k : ℕ) (e : EventPayload) (db db' : Db) (posts : List Post)
    → task_uuid c e ≡ some k
    → IsSound db
    → OnePending db
    → receive_event c now e db ≡ ok (db', posts)
    → IsSound db' × OnePending db'
receive_event-keeps c now k e db db' posts is_k s one h =
    let (timestamp, stored, added, m) = receive_event-IsMoved c now k e db db' is_k h in
    let event = stored_event (some k) timestamp e in
    let (refers, is_stored) = add_session_event-eq-ok db event added in
    let (t, there) = found_of_exists k db refers in
    let m' : IsMoved c now k timestamp e (some t) stored db' =
      subst (λ x. IsMoved c now k timestamp e x stored db') there m in
    let s1 = add_session_event-IsSound db event s added in
    let one1 : OnePending stored = rw is_stored (record { one = one.one }) in
    let s2 =
      apply_approval_event-IsSound (some t) (some k) e.event_type timestamp e.payload
        e.new_approval_id now stored m'.middle m'.approval s1 m'.applied in
    let one2 =
      apply_approval_event-OnePending (some t) (some k) e.event_type timestamp e.payload
        e.new_approval_id now stored m'.middle m'.approval one1 m'.applied in
    let mid = (prompt_if_asked c now e.event_type (some t) m'.approval m'.middle).left in
    let notes = prompt_if_asked-Notes c now e.event_type (some t) m'.approval m'.middle in
    let one3 = Notes-OnePending m'.middle mid one2 notes in
    let u = moved-IsUpdate c now k timestamp e db stored db' t m' (ap (λ d. d.tasks) is_stored) in
    (
      subst IsSound (sym m'.left) (
          update_tasks-IsSound now (has_id k) (with_heartbeat now m'.change) u.keeps_id mid
            (Notes-IsSound m'.middle mid s2 notes)),
      subst OnePending (sym m'.left) (record { one = one3.one }),
    )
