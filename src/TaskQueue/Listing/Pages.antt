-- ===== src/TaskQueue/Listing/Pages.antt =====
-- What is on a page of tasks.
use agentic_ops_platform.Prelude.{
  ℕ, ◌-◌, ◌≤◌, zero, suc, String, ◌≡◌, refl, ap, ◌∙◌, Bool, true, false, leb, str_eq, List, [], ◌∷◌,
  inl, inr, if◌then◌else◌, arith, Bool-cases, length, take, drop, All, All-mono, select_where,
  count_where, length-select_where, IsOrder, Memᴰ, mem-select_where,
}
use agentic_ops_platform.Prelude.Sorted.{
  sort_by, sort_by-Mem, Ordered, length-sort_by, sort_by-All, sort_by-Ordered,
}
use agentic_ops_platform.Py.Text.{lower}
use agentic_ops_platform.Models.{Task, Db}
use agentic_ops_platform.TaskQueue.Listing.{
  Postgres, Filter, listed, counted, order_by, list_tasks, count_tasks,
}
use agentic_ops_platform.TaskQueue.Listing.Asked.{IsListed, listed-IsListed, IsListed-listed}
use agentic_ops_platform.TaskQueue.Listing.Columns.{
  IsUpTo, InOrder, Ordered-InOrder, column_before-IsUpTo, order_by-IsOrder,
}

-- The number of rows of a page.
abbrev pub on_page : ℕ → ℕ → ℕ
on_page limit rest = if leb limit rest then limit else rest

length-take : (n : ℕ) (xs : List Task) → length (take n xs) ≡ on_page n (length xs)
length-take zero xs = ground arith
length-take (suc n) [] = ground arith
length-take (suc n) (x ∷ xs) = ground (arith, length-take n xs)

length-drop : (n : ℕ) (xs : List Task) → length (drop n xs) ≡ length xs - n
length-drop zero xs = omega arith
length-drop (suc n) [] = omega arith
length-drop (suc n) (x ∷ xs) = omega (arith, length-drop n xs)

count-same :
    (p q : Task → Bool) (xs : List Task)
    → ((x : Task) → p x ≡ q x)
    → count_where p xs ≡ count_where q xs
count-same p q [] same = refl
count-same p q (x ∷ xs) same = ground (arith, same x, count-same p q xs same)

module _ (P : Task → Type 0) where
  take-All : (n : ℕ) (xs : List Task) → All P xs → All P (take n xs)
  take-All zero xs h = tt
  take-All (suc n) [] h = tt
  take-All (suc n) (x ∷ xs) h = (h.0, take-All n xs h.1)

  drop-All : (n : ℕ) (xs : List Task) → All P xs → All P (drop n xs)
  drop-All zero xs h = h
  drop-All (suc n) [] h = tt
  drop-All (suc n) (x ∷ xs) h = drop-All n xs h.1

module _ (before : Task → Task → Bool) where
  take-Ordered : (n : ℕ) (xs : List Task) → Ordered before xs → Ordered before (take n xs)
  take-Ordered zero xs h = tt
  take-Ordered (suc n) [] h = tt
  take-Ordered (suc n) (x ∷ xs) h = (take-All _ n xs h.0, take-Ordered n xs h.1)

  drop-Ordered : (n : ℕ) (xs : List Task) → Ordered before xs → Ordered before (drop n xs)
  drop-Ordered zero xs h = h
  drop-Ordered (suc n) [] h = tt
  drop-Ordered (suc n) (x ∷ xs) h = drop-Ordered n xs h.1

All-select_where : (p : Task → Bool) (xs : List Task) → All (λ x. p x ≡ true) (select_where p xs)
All-select_where p [] = tt
All-select_where p (x ∷ xs) = elim (Bool-cases (p x)) [
  | inl e ↦ rw e (e, All-select_where p xs)
  | inr e ↦ rw e (All-select_where p xs)
]

take_all : (n : ℕ) (xs : List Task) → length xs ≤ n → take n xs ≡ xs
take_all zero [] h = refl
take_all zero (x ∷ xs) h = absurd (omega (arith, h))
take_all (suc n) [] h = refl
take_all (suc n) (x ∷ xs) h = ap (λ l. x ∷ l) (take_all n xs (omega (arith, h)))

-- A page of the tasks that the filters ask for.
pub record IsPage (pg : Postgres) (f : Filter) (column direction : String) (limit offset : ℕ)
    (db : Db) (page : List Task) : Type 0 where
  pub size : length page ≡ on_page limit (count_tasks pg f db - offset)
  pub asked_for : All (IsListed pg f) page
  pub ascending : str_eq (lower direction) "asc" ≡ true → InOrder (IsUpTo pg column) page
  pub descending :
      str_eq (lower direction) "asc" ≡ false → InOrder (λ t u. IsUpTo pg column u t) page
  pub complete :
      (t : Task)
      → Memᴰ t db.tasks
      → IsListed pg f t
      → offset ≡ 0
      → count_tasks pg f db ≤ limit
      → Memᴰ t page

listed-same : (pg : Postgres) (f : Filter) (t : Task) → listed pg f t ≡ counted pg f t
unfolding listed counted
listed-same pg f t = refl

-- Where PostgreSQL's order of texts is an order, a page of `list_tasks` is as long as `count_tasks`
-- of the same filters says: as long as its limit if that many rows are left behind the offset, and
-- else it has all that are left. Each of its rows is what the filters ask for, and no row stands
-- behind a later one in the order of the column, or before it where the direction is not "asc".
-- Without an offset, and with a limit of at least the count, each task that the filters ask for is
-- on the page.
pub list_tasks-IsPage :
    (pg : Postgres) (f : Filter) (column direction : String) (limit offset : ℕ) (db : Db)
    → IsOrder pg.text_before
    → IsPage pg f column direction limit offset db
        (list_tasks pg f column direction limit offset db)
unfolding list_tasks count_tasks order_by
list_tasks-IsPage pg f column direction limit offset db o =
    let rows = select_where (listed pg f) db.tasks in
    let by = order_by pg column direction in
    let sorted = sort_by by rows in
    let ordered = take-Ordered by limit (drop offset sorted) (
      drop-Ordered by offset sorted
        (sort_by-Ordered by (order_by-IsOrder pg column direction o) rows)) in
    record {
      size =
          length-take limit (drop offset sorted)
          ∙ ap (on_page limit) (
              length-drop offset sorted
              ∙ ap (λ n. n - offset)
                  (length-sort_by by rows
                    ∙ length-select_where (listed pg f) db.tasks
                    ∙ count-same (listed pg f) (counted pg f) db.tasks (listed-same pg f)));
      asked_for = take-All (IsListed pg f) limit (drop offset sorted) (
          drop-All (IsListed pg f) offset sorted (
            sort_by-All (IsListed pg f) by rows
              (All-mono rows (listed-IsListed pg f) (All-select_where (listed pg f) db.tasks))));
      ascending = λ e.
          Ordered-InOrder by _ (take limit (drop offset sorted))
            (λ t u h. column_before-IsUpTo pg column t u (rw e at h)) ordered;
      descending = λ e.
          Ordered-InOrder by _ (take limit (drop offset sorted))
            (λ t u h. column_before-IsUpTo pg column u t (rw e at h)) ordered;
      complete = λ t m asked first fits.
          let long : length sorted ≤ limit =
            rw
              (
                length-sort_by by rows,
                length-select_where (listed pg f) db.tasks,
                count-same (listed pg f) (counted pg f) db.tasks (listed-same pg f),
              )
              fits in
          rw (first, take_all limit sorted long)
            (sort_by-Mem by t rows
              (mem-select_where (listed pg f) db.tasks t m (IsListed-listed pg f t asked)));
    }
