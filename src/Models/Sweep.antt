-- ===== src/Models/Sweep.antt =====
-- The loop that several services run over the rows of a query: each task is changed, which is an
-- UPDATE by its primary key, and an event about it is added.
use agentic_ops_platform.Prelude.{
  ℕ, ◌≤◌, ◌≡◌, refl, ◌∙◌, Bool, true, List, [], ◌∷◌, ◌++◌, map, arith, ==_refl, select_where,
  update_where, count_where, any, any-append_right, append-nil, count-append, update_where_unique,
  append-snoc, Bool-cases, inl, inr, sym, ap, ◌==◌, false, some, Memᴰ, find_where, any-Mem,
  select_where-mem, unique-All, All-find, find-update_where_hit, find-update_where_kept,
}
use agentic_ops_platform.Py.Result.{Result, ok, ◌>>=◌}
use agentic_ops_platform.Models.{Task, TaskEvent, Db}
use agentic_ops_platform.Models.Store.{
  has_id, touch, update_tasks, add_task_event, find_task, is_one_of,
}
use agentic_ops_platform.Models.Sound.{IsSound, KeepsId}

module _ (now : ℕ) (change : Task → Task) (event : Task → TaskEvent) where
  unfoldable pub sweep_rows : List Task → Db → Result Db
  unfolding add_task_event
  sweep_rows [] db = ok db
  sweep_rows (t ∷ ts) db =
      add_task_event (event t) (update_tasks now (has_id t.id) (λ _. change t) db) >>= λ db'.
      sweep_rows ts db'

  -- The same in one statement: every row of the query is changed, and has its event.
  abbrev pub swept : (Task → Bool) → Db → Db
  swept p db = record db {
    tasks = update_where p (touch now change) db.tasks;
    task_events = db.task_events ++ map event (select_where p db.tasks);
  }

module _ (now : ℕ) (change : Task → Task) (event : Task → TaskEvent) (keeps : KeepsId change)
    (names : (t : Task) → (event t).task_id ≡ t.id) where
  -- The tasks before the row `x` are done, those behind it are not.
  step-eq :
      (db : Db) (ds : List Task) (x : Task) (xs : List Task)
      → db.tasks ≡ ds ++ x ∷ xs
      → count_where (has_id x.id) (ds ++ x ∷ xs) ≤ 1
      → add_task_event (event x) (update_tasks now (has_id x.id) (λ _. change x) db)
        ≡ ok (record db {
          tasks = (ds ++ touch now change x ∷ []) ++ xs;
          task_events = db.task_events ++ event x ∷ [];
        })
  unfolding add_task_event
  step-eq db ds x xs e le =
      let f = touch now (λ _. change x) in
      let one : update_where (has_id x.id) f db.tasks ≡ (ds ++ touch now change x ∷ []) ++ xs =
        rw e (
          update_where_unique (has_id x.id) f ds x xs le (==_refl x.id)
          ∙ append-snoc ds (touch now change x) xs) in
      let there : any (has_id (event x).task_id) ((ds ++ touch now change x ∷ []) ++ xs) ≡ true =
        rw (names x, ← append-snoc ds (touch now change x) xs)
          (any-append_right (has_id x.id) ds (touch now change x ∷ xs) here) in
      rw (one, there) refl
    where
      here : any (has_id x.id) (touch now change x ∷ xs) ≡ true
      here = rw (keeps x, ==_refl x.id) refl

  count-step :
      (k : ℕ) (ds : List Task) (x : Task) (xs : List Task)
      → count_where (has_id k) ((ds ++ touch now change x ∷ []) ++ xs)
        ≡ count_where (has_id k) (ds ++ x ∷ xs)
  count-step k ds x xs = rw (← append-snoc ds (touch now change x) xs) (
      omega (
        arith,
        count-append (has_id k) ds (x ∷ xs),
        count-append (has_id k) ds (touch now change x ∷ xs),
        same,
      ))
    where
      same : count_where (has_id k) (touch now change x ∷ xs) ≡ count_where (has_id k) (x ∷ xs)
      same = rw (keeps x) refl

  sweep_from :
      (p : Task → Bool) (xs ds : List Task) (db : Db)
      → db.tasks ≡ ds ++ xs
      → ((k : ℕ) → count_where (has_id k) (ds ++ xs) ≤ 1)
      → sweep_rows now change event (select_where p xs) db
        ≡ ok (record db {
          tasks = ds ++ update_where p (touch now change) xs;
          task_events = db.task_events ++ map event (select_where p xs);
        })
  unfolding sweep_rows
  sweep_from p [] ds db e u = cc (e, append-nil db.task_events)
  sweep_from p (x ∷ xs) ds db e u = elim (Bool-cases (p x)) [
    | inl hit ↦
        rw
          (
            hit,
            step-eq db ds x xs e (u x.id),
            append-snoc ds (touch now change x) (update_where p (touch now change) xs),
            append-snoc db.task_events (event x) (map event (select_where p xs)),
          )
          (sweep_from p xs (ds ++ touch now change x ∷ []) _ refl
            (λ k. rw (count-step k ds x xs) (u k)))
    | inr miss ↦
        rw (miss, append-snoc ds x (update_where p (touch now change) xs))
          (sweep_from p xs (ds ++ x ∷ []) db (e ∙ append-snoc ds x xs)
            (λ k. rw (← append-snoc ds x xs) (u k)))
  ]

  -- The loop over the rows of a query does what one UPDATE with the query's condition does.
  pub sweep_rows-eq-swept :
      (p : Task → Bool) (db : Db)
      → IsSound db
      → sweep_rows now change event (select_where p db.tasks) db ≡ ok (swept now change event p db)
  sweep_rows-eq-swept p db s = sweep_from p db.tasks [] db refl s.unique_ids

-- What a sweep leaves: the rows that are due have the new row and their id is returned, those that
-- are spared stay and it is not, and an event is added for each id that is returned.
pub record Sweeps (due spared : Task → Type 0) (renew : Task → Task) (event : Task → TaskEvent)
    (db : Db) (ids : List ℕ) (db' : Db) : Type 0 where
  pub hit :
      (t : Task)
      → find_task t.id db ≡ some t
      → due t
      → (find_task t.id db' ≡ some (renew t)) × (is_one_of ids t.id ≡ true)
  pub kept :
      (t : Task)
      → find_task t.id db ≡ some t
      → spared t
      → (find_task t.id db' ≡ some t) × (is_one_of ids t.id ≡ false)
  pub rows : List Task
  pub of_table : (t : Task) → Memᴰ t rows → Memᴰ t db.tasks
  pub returned : ids ≡ map (λ (t : Task). t.id) rows
  pub logged : db'.task_events ≡ db.task_events ++ map event rows

is_one_of-ids :
    (k : ℕ) (ts : List Task) → is_one_of (map (λ (t : Task). t.id) ts) k ≡ any (has_id k) ts
is_one_of-ids k [] = refl
is_one_of-ids k (t ∷ ts) = ground (arith, is_one_of-ids k ts)

any-select_found :
    (q p : Task → Bool) (ts : List Task) (t : Task)
    → find_where q ts ≡ some t
    → p t ≡ true
    → any q (select_where p ts) ≡ true
any-select_found q p [] t h on = cc
any-select_found q p (u ∷ ts) t h on = ground (arith, any-select_found q p ts t)

-- The row of an id is the only one that the query can give for it.
any-select_missed :
    (p : Task → Bool) (db : Db) (t : Task)
    → IsSound db
    → find_task t.id db ≡ some t
    → p t ≡ false
    → any (has_id t.id) (select_where p db.tasks) ≡ false
any-select_missed p db t s there off =
    elim (Bool-cases (any (has_id t.id) (select_where p db.tasks))) [
      | inl hit ↦
          let (u, m, same_id) = any-Mem (has_id t.id) (select_where p db.tasks) hit in
          let (listed, on) = select_where-mem p db.tasks u m in
          let only = unique-All (has_id t.id) u db.tasks listed same_id (s.unique_ids t.id) in
          let same =
            All-find (has_id t.id) (λ x. has_id t.id x ≡ true → x ≡ u) db.tasks t only there
              (==_refl t.id) in
          cc (sym (ap p same ∙ on) ∙ off)
      | inr missed ↦ missed
    ]

pub swept-Sweeps :
    (now : ℕ) (change : Task → Task) (event : Task → TaskEvent) (p : Task → Bool)
    (due spared : Task → Type 0) (db : Db)
    → KeepsId change
    → ((t : Task) → due t → p t ≡ true)
    → ((t : Task) → spared t → p t ≡ false)
    → IsSound db
    → Sweeps due spared
        (touch now change)
        event
        db
        (map (λ (t : Task). t.id) (select_where p db.tasks))
        (swept now change event p db)
swept-Sweeps now change event p due spared db keeps on off s =
    let blind = λ (k : ℕ) (x : Task) (_ : p x ≡ true). ap (λ j. j == k) (keeps x) in
    record {
      hit = λ t there d. (
        find-update_where_hit (has_id t.id) p (touch now change) (blind t.id) db.tasks t there
            (on t d),
        is_one_of-ids t.id (select_where p db.tasks)
            ∙ any-select_found (has_id t.id) p db.tasks t there (on t d),
      );
      kept = λ t there d. (
        find-update_where_kept (has_id t.id) p (touch now change) (blind t.id) db.tasks t there
            (off t d),
        is_one_of-ids t.id (select_where p db.tasks) ∙ any-select_missed p db t s there (off t d),
      );
      rows = select_where p db.tasks;
      of_table = λ t m. (select_where-mem p db.tasks t m).0;
      returned = refl;
      logged = refl;
    }
