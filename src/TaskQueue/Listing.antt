-- ===== src/TaskQueue/Listing.antt =====
-- `get_task`, `list_tasks` and `count_tasks`: the queries that only read. ILIKE and the order of
-- texts are PostgreSQL's, and are arguments; rows that the order does not tell apart keep the order
-- of the table, where PostgreSQL may give any. `column` and `direction` are sort_by and sort_dir.
pub mod Asked
pub mod Columns
pub mod Pages
use Prim.Native.String.{◌++◌ as ◌+++◌}
use agentic_ops_platform.Prelude.{
  ℕ, ◌-◌, zero, suc, String, ◌≡◌, refl, ap, ◌∙◌, Bool, true, not, ◌&&◌, ◌||◌, ltb, leb, str_eq,
  Option, none, some, List, [], ◌∷◌, if◌then◌else◌, is_some, some_and, arith, length, take, drop,
  select_where, count_where, length-select_where,
}
use agentic_ops_platform.Prelude.Sorted.{sort_by}
use agentic_ops_platform.Py.Text.{lower}
use agentic_ops_platform.Models.{Task, Db}
use agentic_ops_platform.Models.Status.{
  TaskStatus, queued, running, waiting_approval, waiting_user_input, resume_pending, succeeded,
  failed, lost, timed_out,
}
use agentic_ops_platform.Models.Store.{find_task}

unfoldable pub get_task : ℕ → Db → Option Task
get_task task_id db = find_task task_id db

-- What the queries take from PostgreSQL: `pattern` against a text with ILIKE, and which of two
-- texts comes first.
pub record Postgres : Type 0 where
  pub ilike : String → String → Bool
  pub text_before : String → String → Bool

-- The filters that the two functions share; a status that is no status is refused before.
pub record Filter : Type 0 where
  pub workflow : Option String
  pub status : Option TaskStatus
  pub channel : Option String
  pub search : Option String
  pub created_after : Option ℕ
  pub created_before : Option ℕ
  pub include_archived : Bool

-- A filter that is None or empty asks for nothing.
abbrev wanted : Option String → (String → Bool) → Bool
wanted none p = true
wanted (some s) p = str_eq s "" || p s

abbrev wanted_time : Option ℕ → (ℕ → Bool) → Bool
wanted_time none p = true
wanted_time (some t) p = p t

-- The place of a status in the enum, which is its order in PostgreSQL.
abbrev pub status_rank : TaskStatus → ℕ
status_rank queued = 0
status_rank running = 1
status_rank waiting_approval = 2
status_rank waiting_user_input = 3
status_rank resume_pending = 4
status_rank succeeded = 5
status_rank failed = 6
status_rank lost = 7
status_rank timed_out = 8

abbrev wanted_status : Option TaskStatus → TaskStatus → Bool
wanted_status none s = true
wanted_status (some w) s =
    leb (status_rank w) (status_rank s) && leb (status_rank s) (status_rank w)

unfoldable pub found_text : Postgres → Task → String → Bool
found_text pg t s =
    let pattern = ◌+++◌ "%" (◌+++◌ s "%") in
    pg.ilike pattern t.prompt
    || pg.ilike pattern t.workflow
    || some_and t.error (λ e. pg.ilike pattern e)

-- The conditions of list_tasks.
unfoldable pub listed : Postgres → Filter → Task → Bool
unfolding found_text
listed pg f t =
    (f.include_archived || not (is_some t.archived_at))
    && wanted f.workflow (λ w. str_eq t.workflow w)
    && wanted_status f.status t.status
    && wanted f.channel (λ c. some_and t.channel (λ d. str_eq d c))
    && wanted_time f.created_after (λ a. leb a t.created)
    && wanted_time f.created_before (λ b. leb t.created b)
    && wanted f.search (found_text pg t)

-- The conditions of count_tasks, which the source writes out once more.
unfoldable pub counted : Postgres → Filter → Task → Bool
unfolding found_text
counted pg f t =
    (f.include_archived || not (is_some t.archived_at))
    && wanted f.workflow (λ w. str_eq t.workflow w)
    && wanted_status f.status t.status
    && wanted f.channel (λ c. some_and t.channel (λ d. str_eq d c))
    && wanted_time f.created_after (λ a. leb a t.created)
    && wanted_time f.created_before (λ b. leb t.created b)
    && wanted f.search (found_text pg t)

-- sort_columns.get(column, Task.created), ascending
unfoldable pub column_before : Postgres → String → Task → Task → Bool
column_before pg column t u =
    if str_eq column "updated"
    then ltb t.updated u.updated
    else if str_eq column "status"
    then ltb (status_rank t.status) (status_rank u.status)
    else if str_eq column "workflow"
    then pg.text_before t.workflow u.workflow
    else ltb t.created u.created

unfoldable pub order_by : Postgres → String → String → Task → Task → Bool
unfolding column_before
order_by pg column direction t u =
    if str_eq (lower direction) "asc"
    then column_before pg column t u
    else column_before pg column u t

unfoldable pub list_tasks : Postgres → Filter → String → String → ℕ → ℕ → Db → List Task
unfolding listed sort_by order_by
list_tasks pg f column direction limit offset db =
    take limit
      (drop offset (sort_by (order_by pg column direction) (select_where (listed pg f) db.tasks)))

unfoldable pub count_tasks : Postgres → Filter → Db → ℕ
unfolding counted
count_tasks pg f db = count_where (counted pg f) db.tasks
