-- ===== src/Housekeeping/Deletion.antt =====
-- What the deletion of old tasks leaves.
use agentic_ops_platform.Prelude.{
  All-mem, All-kept, count-select_where_le, ℕ, ◌-◌, ◌≡◌, refl, sym, ap, ◌∙◌, Bool, true, false, not,
  ◌==◌, ==_refl, ==_iff, Option, none, some, List, [], ◌∷◌, inl, inr, Bool-cases, arith, Memᴰ, any,
  count_where, select_where, any-Mem, mem-select_where, select_where-mem, unique-All,
  length-select_where,
}
use agentic_ops_platform.Models.{Task, TaskEvent, SessionEvent, Approval, Db}
use agentic_ops_platform.Models.Store.{
  is_one_of, names_one_of, has_id, has_approval_id, task_exists, may_refer,
}
use agentic_ops_platform.Models.Sound.{IsSound}
use agentic_ops_platform.Housekeeping.{
  days_of, ids_of, is_expired, delete_tasks, delete_archived_tasks,
}

module _ {ℓ} {A : Type ℓ} (p q : A → Bool) where
  -- A row that passes both tests stays.
  any-select_where :
      ((x : A) → p x ≡ true → q x ≡ true)
      → (xs : List A) → any p xs ≡ true
      → any p (select_where q xs) ≡ true
  any-select_where both [] h = cc
  any-select_where both (x ∷ xs) h = ground (arith, both x, any-select_where both xs)

select_where-ap {ℓ} :
    {A : Type ℓ} (p q : A → Bool) (xs : List A)
    → ((x : A) → Memᴰ x xs → p x ≡ q x)
    → select_where p xs ≡ select_where q xs
select_where-ap p q [] same = refl
select_where-ap p q (x ∷ xs) same =
    rw (same x (Memᴰ.head refl), select_where-ap p q xs (λ y m. same y (Memᴰ.tail m))) refl

is_one_of-mem : (ts : List Task) (t : Task) → Memᴰ t ts → is_one_of (ids_of ts) t.id ≡ true
is_one_of-mem [] t m = elim m [ ]
is_one_of-mem (u ∷ us) t (Memᴰ.head e) =
    let same : u.id ≡ t.id = ap (λ (x : Task). x.id) (sym e) in rw (same, ==_refl t.id) refl
is_one_of-mem (u ∷ us) t (Memᴰ.tail m) = ground (arith, is_one_of-mem us t m)

mem-is_one_of : (ts : List Task) (k : ℕ) → is_one_of (ids_of ts) k ≡ true → any (has_id k) ts ≡ true
mem-is_one_of [] k h = cc
mem-is_one_of (u ∷ us) k h = ground (arith, mem-is_one_of us k)

-- Where ids are unique, the ids of the expired tasks name no other task.
expired-is_one_of :
    (p : Task → Bool) (db : Db) (t : Task)
    → IsSound db
    → Memᴰ t db.tasks
    → is_one_of (ids_of (select_where p db.tasks)) t.id ≡ p t
expired-is_one_of p db t s m = elim (Bool-cases (p t)) [
  | inl expired ↦
      is_one_of-mem (select_where p db.tasks) t (mem-select_where p db.tasks t m expired)
      ∙ sym expired
  | inr fresh ↦ elim (Bool-cases (is_one_of (ids_of (select_where p db.tasks)) t.id)) [
    | inr not_named ↦ not_named ∙ sym fresh
    | inl named ↦
        let kept = select_where p db.tasks in
        let (u, mu, hit) = any-Mem (has_id t.id) kept (mem-is_one_of kept t.id named) in
        let (mu', expired) = select_where-mem p db.tasks u mu in
        let only_t = unique-All (has_id t.id) t db.tasks m (==_refl t.id) (s.unique_ids t.id) in
        let same : u ≡ t = All-mem (λ x. has_id t.id x ≡ true → x ≡ t) db.tasks u only_t mu' hit in
        named ∙ sym (ap p (sym same) ∙ expired)
  ]
]

-- What names a task that is kept still names a task.
kept-task_exists :
    (ids : List ℕ) (db : Db) (k : ℕ)
    → not (is_one_of ids k) ≡ true
    → task_exists k db ≡ true
    → task_exists k (delete_tasks ids db) ≡ true
unfolding delete_tasks
kept-task_exists ids db k kept there =
    any-select_where (has_id k) (λ (t : Task). not (is_one_of ids t.id))
      (λ t is_k. let same : t.id ≡ k = (==_iff t.id k).0 is_k in rw same kept) db.tasks there

kept-may_refer :
    (ids : List ℕ) (db : Db) (o : Option ℕ)
    → not (names_one_of ids o) ≡ true
    → may_refer o db.tasks ≡ true
    → may_refer o (delete_tasks ids db).tasks ≡ true
kept-may_refer ids db none kept there = refl
kept-may_refer ids db (some k) kept there = kept-task_exists ids db k kept there

delete_tasks-IsSound : (ids : List ℕ) (db : Db) → IsSound db → IsSound (delete_tasks ids db)
unfolding delete_tasks
delete_tasks-IsSound ids db s = record {
  unique_ids = λ k. omega (
    arith,
    s.unique_ids k,
    count-select_where_le (has_id k) (λ (t : Task). not (is_one_of ids t.id)) db.tasks,
  );
  task_events_refer =
      All-kept (λ (e : TaskEvent). not (is_one_of ids e.task_id))
        (λ e kept there. kept-task_exists ids db e.task_id kept there) db.task_events
        s.task_events_refer;
  session_events_refer =
      All-kept (λ (e : SessionEvent). not (names_one_of ids e.task_id))
        (λ e kept there. kept-may_refer ids db e.task_id kept there) db.session_events
        s.session_events_refer;
  unique_approvals = λ k. omega (
    arith,
    s.unique_approvals k,
    count-select_where_le (has_approval_id k) (λ (a : Approval). not (is_one_of ids a.task_id))
        db.approvals,
  );
  approvals_refer =
      All-kept (λ (a : Approval). not (is_one_of ids a.task_id))
        (λ a kept there. kept-task_exists ids db a.task_id kept there) db.approvals
        s.approvals_refer;
}

-- Where the keys of the database hold and the retention is above 0 days, the deletion leaves just
-- the tasks that are not archived or were archived within the retention, as they were and in their
-- order, returns the number of the others, and the keys hold after it.
pub delete_archived_tasks-exact :
    (days now : ℕ) (db : Db)
    → IsSound db
    → (days == 0) ≡ false
    → let deletion = delete_archived_tasks days now db in
      let expired = is_expired (now - days_of days) in
      (deletion.1.tasks ≡ select_where (λ t. not (expired t)) db.tasks)
      × (deletion.0 ≡ count_where expired db.tasks)
      × IsSound deletion.1
unfolding delete_archived_tasks delete_tasks
delete_archived_tasks-exact days now db s some_days =
    let expired = is_expired (now - days_of days) in
    let ids = ids_of (select_where expired db.tasks) in
    rw some_days (
      select_where-ap (λ (t : Task). not (is_one_of ids t.id)) (λ t. not (expired t)) db.tasks
          (λ t m. ap not (expired-is_one_of expired db t s m)),
      length-select_where expired db.tasks,
      delete_tasks-IsSound ids db s,
    )
