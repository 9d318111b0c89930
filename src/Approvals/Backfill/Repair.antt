-- ===== src/Approvals/Backfill/Repair.antt =====
-- What a backfill leaves of the approvals: of the named tasks, and of the other tasks.
use agentic_ops_platform.Prelude.{
  ℕ, ◌≤◌, ◌==◌, ==_iff, String, ◌≡◌, refl, ap, ◌∙◌, Bool, true, false, not, ◌&&◌, Option, none,
  some, List, [], ◌∷◌, inl, inr, arith, Bool-cases, All, All-mono, unique-All, All-kept,
  count_where, select_where, delete_where, count-select_where_le, least-passes, mem-least,
  select-update_where_other, select-append_other, select-select_where_other, ==_refl,
  select_where-All,
}
use agentic_ops_platform.Prelude.Sorted.{sort_by-All}
use agentic_ops_platform.Py.Json.{Dict}
use agentic_ops_platform.Py.Result.{ok, >>=-eq-ok}
use agentic_ops_platform.Models.{SessionEvent, Approval, Db}
use agentic_ops_platform.Models.Store.{is_one_of, names_one_of, has_approval_id}
use agentic_ops_platform.Models.Sound.{IsSound, add_approval-eq-ok}
use agentic_ops_platform.Approvals.{
  newer, is_open, find_open_approval, tool_name_of, apply_approval_event,
}
use agentic_ops_platform.Approvals.Steps.{
  Step, ignores, inserts, changes, apply_approval_event-Step_at,
}
use agentic_ops_platform.Approvals.Open.{OnePending, Step-OnePending, Step-IsSound}
use agentic_ops_platform.Approvals.Backfill.{
  earlier, task_of, is_approval_event, one_more, payload_of, replay, events_to_replay,
  without_approvals, backfill_approvals_for_task_ids,
}

abbrev pub of_task : ℕ → Approval → Bool
of_task k a = a.task_id == k

Step-others :
    (j k : ℕ) (tool : String) (db db' : Db)
    → IsSound db
    → (k == j) ≡ false
    → Step j tool db db'
    → select_where (of_task k) db'.approvals ≡ select_where (of_task k) db.approvals
unfolding find_open_approval
Step-others j k tool db db' s other (ignores same) = rw same refl
Step-others j k tool db db' s other (inserts fresh e f none_yet added) =
    let (_, _, left) = add_approval-eq-ok db fresh added in
    rw left (select-append_other (of_task k) db.approvals fresh (ground arith))
Step-others j k tool db db' s other (changes a f there keeps ends left) =
    let passes = least-passes newer (is_open j tool) db.approvals a there in
    let only =
      unique-All (has_approval_id a.id) a db.approvals
        (mem-least newer (is_open j tool) db.approvals a there) (==_refl a.id)
        (s.unique_approvals a.id) in
    let task_of_a : a.task_id ≡ j = ground arith in
    let off : (j == k) ≡ false = ground arith in
    rw left (
      select-update_where_other (of_task k) (has_approval_id a.id) f db.approvals (
        All-mono db.approvals
          (λ x same hit.
            let key : x.task_id ≡ j = ap (λ (y : Approval). y.task_id) (same hit) ∙ task_of_a in
            (rw key off, rw (keeps.same_task x, key) off))
          only))

-- What a replay of events of the tasks `ids` keeps.
record IsKept (ids : List ℕ) (db db' : Db) : Type 0 where
  sound : IsSound db'
  one_pending : OnePending db'
  others :
      (k : ℕ)
      → is_one_of ids k ≡ false
      → select_where (of_task k) db'.approvals ≡ select_where (of_task k) db.approvals

named-other :
    (ids : List ℕ) (j k : ℕ) → is_one_of ids j ≡ true → is_one_of ids k ≡ false → (k == j) ≡ false
named-other ids j k named other = elim (Bool-cases (k == j)) [
  | inl same ↦ cc (rw ((==_iff k j).0 same) at other)
  | inr e ↦ e
]

event-IsKept :
    (ids : List ℕ) (before : Db) (e : SessionEvent) (payload : Dict) (new_id now : ℕ) (db db' : Db)
    (o : Option Approval)
    → names_one_of ids e.task_id ≡ true
    → IsSound db
    → OnePending db
    → apply_approval_event
        (task_of before e.task_id)
        e.task_id
        e.event_type
        e.timestamp
        payload
        new_id
        now
        db
      ≡ ok (o, db')
    → IsKept ids db db'
event-IsKept ids before e payload new_id now db db' o named s one h = from_task e.task_id named h
  where
    from_task :
        (task_id : Option ℕ)
        → names_one_of ids task_id ≡ true
        → apply_approval_event
            (task_of before task_id)
            task_id
            e.event_type
            e.timestamp
            payload
            new_id
            now
            db
          ≡ ok (o, db')
        → IsKept ids db db'
    from_task none named h = cc
    from_task (some j) named h =
        let step =
          apply_approval_event-Step_at (task_of before (some j)) j e.event_type e.timestamp payload
            new_id now db db' o h in
        record {
          sound = Step-IsSound j (tool_name_of payload) db db' s step;
          one_pending = Step-OnePending j (tool_name_of payload) db db' one step;
          others = λ k other.
              Step-others j k (tool_name_of payload) db db' s (named-other ids j k named other)
                step;
        }

replay-IsKept :
    (ids : List ℕ) (before : Db) (new_ids : ℕ → ℕ) (now : ℕ) (es : List SessionEvent)
    (created n : ℕ) (db db' : Db)
    → All (λ (e : SessionEvent). names_one_of ids e.task_id ≡ true) es
    → IsSound db
    → OnePending db
    → replay before new_ids now es created db ≡ ok (n, db')
    → IsKept ids db db'
unfolding replay
replay-IsKept ids before new_ids now [] created n db db' named s one h =
    let same : db ≡ db' = cc in
    rw (← same) (record { sound = s; one_pending = one; others = λ k other. refl })
replay-IsKept ids before new_ids now (e ∷ es) created n db db' named s one h =
    let (payload, _, applied) = >>=-eq-ok (payload_of e.payload) _ h in
    let (p, taken, rest) =
      >>=-eq-ok
        (apply_approval_event (task_of before e.task_id) e.task_id e.event_type e.timestamp payload
          (new_ids e.id) now db)
        _ applied in
    let first =
      event-IsKept ids before e payload (new_ids e.id) now db p.1 p.0 named.0 s one taken in
    let last =
      replay-IsKept ids before new_ids now es (one_more p.0 created) n p.1 db' named.1 first.sound
        first.one_pending rest in
    record {
      sound = last.sound;
      one_pending = last.one_pending;
      others = λ k other. last.others k other ∙ first.others k other;
    }

without-IsSound : (ids : List ℕ) (db : Db) → IsSound db → IsSound (without_approvals ids db)
without-IsSound ids db s = record {
  unique_ids = s.unique_ids;
  task_events_refer = s.task_events_refer;
  session_events_refer = s.session_events_refer;
  unique_approvals = λ k. omega (
    arith,
    s.unique_approvals k,
    count-select_where_le (has_approval_id k) (λ a. not (is_one_of ids a.task_id)) db.approvals,
  );
  approvals_refer =
      All-kept (λ a. not (is_one_of ids a.task_id)) (λ a kept there. there) db.approvals
        s.approvals_refer;
}

-- At most one approval of each tool is pending, of the tasks that are not among `ids`.
pub record OnePendingElsewhere (ids : List ℕ) (db : Db) : Type 0 where
  pub one :
      (k : ℕ) (tool : String)
      → is_one_of ids k ≡ false
      → count_where (is_open k tool) db.approvals ≤ 1

without-none :
    (ids : List ℕ) (k : ℕ) (tool : String) (as_ : List Approval)
    → is_one_of ids k ≡ true
    → count_where (is_open k tool) (delete_where (λ (a : Approval). is_one_of ids a.task_id) as_)
      ≡ 0
without-none ids k tool [] named = refl
without-none ids k tool (a ∷ as_) named = elim (Bool-cases (is_one_of ids a.task_id)) [
  | inl gone ↦ rw gone (without-none ids k tool as_ named)
  | inr kept ↦
      rw (kept, named-other ids k a.task_id named kept)
        (omega (arith, without-none ids k tool as_ named))
]

without-OnePending :
    (ids : List ℕ) (db : Db) → OnePendingElsewhere ids db → OnePending (without_approvals ids db)
without-OnePending ids db elsewhere = record {
  one = λ k tool. elim (Bool-cases (is_one_of ids k)) [
    | inl named ↦ rw (without-none ids k tool db.approvals named) (omega arith)
    | inr other ↦ omega (
      arith,
      elsewhere.one k tool other,
      count-select_where_le (is_open k tool) (λ a. not (is_one_of ids a.task_id)) db.approvals,
    )
  ];
}

without-others :
    (ids : List ℕ) (k : ℕ) (db : Db)
    → is_one_of ids k ≡ false
    → select_where (of_task k) (without_approvals ids db).approvals
      ≡ select_where (of_task k) db.approvals
without-others ids k db other =
    select-select_where_other (of_task k) (λ (a : Approval). not (is_one_of ids a.task_id))
      (λ a hit. rw ((==_iff a.task_id k).0 hit, other) refl) db.approvals

replayed-named :
    (ids : List ℕ) (db : Db)
    → All (λ (e : SessionEvent). names_one_of ids e.task_id ≡ true) (events_to_replay ids db)
unfolding events_to_replay
replayed-named ids db = sort_by-All _ earlier _ (
    All-mono _ (λ e h. ground arith)
      (select_where-All (λ e. names_one_of ids e.task_id && is_approval_event e.event_type)
        db.session_events))

-- What a backfill leaves: the keys of the database hold, of every task and tool at most one
-- approval is pending, and the approvals of the tasks that are not named are the same as before.
pub record IsRepair (ids : List ℕ) (db db' : Db) : Type 0 where
  pub sound : IsSound db'
  pub one_pending : OnePending db'
  pub others :
      (k : ℕ)
      → is_one_of ids k ≡ false
      → select_where (of_task k) db'.approvals ≡ select_where (of_task k) db.approvals

-- If the keys of the database hold, and of each task that is not among `ids` and each tool at most
-- one approval is pending, then after a backfill of the tasks `ids` that is taken the keys hold, of
-- every task and tool at most one approval is pending, those of the tasks `ids` included, and the
-- approvals of the tasks that are not among `ids` are the same as before.
pub backfill_approvals_for_task_ids-IsRepair :
    (new_ids : ℕ → ℕ) (now : ℕ) (ids : List ℕ) (db db' : Db) (n : ℕ)
    → IsSound db
    → OnePendingElsewhere ids db
    → backfill_approvals_for_task_ids new_ids now ids db ≡ ok (n, db')
    → IsRepair ids db db'
unfolding backfill_approvals_for_task_ids
backfill_approvals_for_task_ids-IsRepair new_ids now [] db db' n s elsewhere h =
    let same : db ≡ db' = cc in
    rw (← same) (record {
      sound = s;
      one_pending = record { one = λ k tool. elsewhere.one k tool refl };
      others = λ k other. refl;
    })
backfill_approvals_for_task_ids-IsRepair new_ids now (i ∷ is_) db db' n s elsewhere h =
    let ids = i ∷ is_ in
    let kept =
      replay-IsKept ids db new_ids now (events_to_replay ids db) 0 n (without_approvals ids db) db'
        (replayed-named ids db) (without-IsSound ids db s) (without-OnePending ids db elsewhere)
        h in
    record {
      sound = kept.sound;
      one_pending = kept.one_pending;
      others = λ k other. kept.others k other ∙ without-others ids k db other;
    }
