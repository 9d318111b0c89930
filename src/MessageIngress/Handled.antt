-- ===== src/MessageIngress/Handled.antt =====
-- What a message leaves.
use agentic_ops_platform.Prelude.{
  ℕ, String, ◌≡◌, refl, ap, ◌∙◌, not, ◌&&◌, ◌||◌, Option, none, some, ◌⊎◌, inl, inr, Bool-cases,
  str_eq, find_where,
}
use agentic_ops_platform.Py.Result.{ok, ◌>>=◌, >>=-eq-ok, Result-cases}
use agentic_ops_platform.Models.{Task, Db}
use agentic_ops_platform.Models.Store.{add_session_event}
use agentic_ops_platform.Models.Sound.{add_session_event-eq-ok}
use agentic_ops_platform.TaskQueue.Create.{create_task}
use agentic_ops_platform.MessageIngress.{InboundMessage, Match, match_message_route}
use agentic_ops_platform.MessageIngress.Alerts.{AlertEnvelope}
use agentic_ops_platform.MessageIngress.Trust.{IsAdmitted, chosen-IsAdmitted}
use agentic_ops_platform.MessageIngress.Intake.{
  Ingress, NewIds, awaits_reply, reply_event, record_question_reply, nothing, task_request,
  start_task, take_route, route_message, handle_message,
}

pub data Handling (c : Ingress) (now : ℕ) (ids : NewIds) (m : InboundMessage) (db : Db)
    (o : Option Task) (db' : Db) : Type 0 where
  ignored : o ≡ none → db' ≡ db → Handling c now ids m db o db'
  replied :
      (t : Task)
      → o ≡ none
      → add_session_event (reply_event ids.reply_event now m t) db ≡ ok db'
      → Handling c now ids m db o db'
  started :
      (x : Match) (envelope : Option AlertEnvelope) (hydrated : String × ℕ) (t : Task)
      → match_message_route c.patterns m c.routes ≡ some x
      → o ≡ some t
      → create_task c.packages now (task_request c ids.task m x.route envelope hydrated) db
        ≡ ok (t, db')
      → Handling c now ids m db o db'

module _ (c : Ingress) (now : ℕ) (ids : NewIds) (m : InboundMessage) (db : Db) (o : Option Task)
    (db' : Db) where
  nothing-Handling : nothing db ≡ ok (o, db') → Handling c now ids m db o db'
  nothing-Handling h = let silent : o ≡ none = cc in let same : db' ≡ db = cc in ignored silent same

  start_task-Handling :
      (x : Match) (envelope : Option AlertEnvelope) (hydrated : Option (String × ℕ))
      → match_message_route c.patterns m c.routes ≡ some x
      → start_task c now ids.task m x.route envelope db hydrated ≡ ok (o, db')
      → Handling c now ids m db o db'
  unfolding start_task
  start_task-Handling x envelope none taken h = nothing-Handling h
  start_task-Handling x envelope (some hydrated) taken h =
      let ((t, d), created, e) =
        >>=-eq-ok
          (create_task c.packages now (task_request c ids.task m x.route envelope hydrated) db) _
          h in
      let same : d ≡ db' = cc in
      let given : o ≡ some t = cc in
      started x envelope hydrated t taken given (created ∙ ap (λ y. ok (t, y)) same)

  take_route-Handling :
      (taken : Option Match)
      → match_message_route c.patterns m c.routes ≡ taken
      → take_route c now ids.task m db taken ≡ ok (o, db')
      → Handling c now ids m db o db'
  unfolding take_route
  take_route-Handling none taken h = nothing-Handling h
  take_route-Handling (some x) taken h = start_task-Handling x _ _ taken h

  route_message-Handling :
      route_message c now ids.task m db none ≡ ok (o, db') → Handling c now ids m db o db'
  unfolding route_message
  route_message-Handling h = take_route-Handling (match_message_route c.patterns m c.routes) refl h

  reply-Handling :
      (found : Option Task)
      → (elim found [
        | none ↦ ok none
        | some t ↦ add_session_event (reply_event ids.reply_event now m t) db >>= λ d. ok (some d)
      ]
          >>= λ replied. route_message c now ids.task m db replied)
        ≡ ok (o, db')
      → Handling c now ids m db o db'
  unfolding route_message
  reply-Handling none h = route_message-Handling h
  reply-Handling (some t) h =
      elim (Result-cases (add_session_event (reply_event ids.reply_event now m t) db)) [
        | inl (d, stored) ↦
            let h1 = rw stored at h in
            let silent : o ≡ none = cc in
            let same : d ≡ db' = cc in replied t silent (stored ∙ ap ok same)
        | inr (e, raised) ↦ cc (rw raised at h)
      ]

  handle_message-Handling :
      handle_message c now ids m db ≡ ok (o, db') → Handling c now ids m db o db'
  unfolding handle_message record_question_reply
  handle_message-Handling h =
      elim (Bool-cases (not (str_eq c.bot_user_id "") && str_eq m.user_id c.bot_user_id)) [
        | inl own ↦ nothing-Handling (rw own at h)
        | inr other ↦ elim (Bool-cases (str_eq m.body "")) [
          | inl blank ↦ nothing-Handling (rw (other, blank) at h)
          | inr written ↦ elim (Bool-cases (m.is_bot || m.is_webhook)) [
            | inl machine ↦ route_message-Handling (rw (other, written, machine) at h)
            | inr human ↦
                reply-Handling (find_where (awaits_reply m) db.tasks)
                  (rw (other, written, human) at h)
          ]
        ]
      ]

-- A message that is handled either starts or joins no task, and leaves the table of tasks as it is;
-- or it takes a route of the list that trusts its sender and allows its accounts and environments,
-- and of every other route in the list, the message has no prompt for it, or a route of the same
-- workflow, rule and pattern that has one is the route taken or has a lower priority.
pub handle_message-IsAdmitted :
    (c : Ingress) (now : ℕ) (ids : NewIds) (m : InboundMessage) (db : Db) (o : Option Task)
    (db' : Db)
    → handle_message c now ids m db ≡ ok (o, db')
    → (o ≡ none) × (db'.tasks ≡ db.tasks) ⊎ ((t : Task) × (o ≡ some t) × IsAdmitted c m)
handle_message-IsAdmitted c now ids m db o db' h =
    elim (handle_message-Handling c now ids m db o db' h) [
      | ignored silent same ↦ inl (silent, ap (λ d. d.tasks) same)
      | replied t silent stored ↦
          let (_, left) = add_session_event-eq-ok db (reply_event ids.reply_event now m t) stored in
          inl (silent, ap (λ d. d.tasks) left)
      | started x envelope hydrated t taken given created ↦
          inr (t, given, chosen-IsAdmitted c m x taken)
    ]
