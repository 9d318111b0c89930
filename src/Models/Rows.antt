-- ===== src/Models/Rows.antt =====
-- One task looked up after an UPDATE of tasks by primary key.
use agentic_ops_platform.Prelude.{
  ℕ, ◌≡◌, ◌≢◌, some, arith, ◌==◌, ap, find-update_where_self, find-update_where_other, find-any,
  true,
}
use agentic_ops_platform.Models.{Task, Db}
use agentic_ops_platform.Models.Store.{has_id, touch, update_tasks, find_task, task_exists}
use agentic_ops_platform.Models.Sound.{KeepsId}

module _ (now task_id : ℕ) (change : Task → Task) (keeps : KeepsId change) (db : Db) where
  pub find_task-update_self :
      {t : Task}
      → find_task task_id db ≡ some t
      → find_task task_id (update_tasks now (has_id task_id) change db) ≡ some (touch now change t)
  find_task-update_self h =
      find-update_where_self (has_id task_id) (has_id task_id) (touch now change)
        (λ x. ap (λ k. k == task_id) (keeps x)) (λ x e. e) db.tasks _ h

  pub find_task-update_other :
      (k : ℕ)
      → k ≢ task_id
      → find_task k (update_tasks now (has_id task_id) change db) ≡ find_task k db
  find_task-update_other k other =
      find-update_where_other (has_id k) (has_id task_id) (touch now change)
        (λ x. ap (λ j. j == k) (keeps x)) (λ x e. ground arith) db.tasks

pub exists_of_find :
    (task_id : ℕ) (db : Db) {t : Task}
    → find_task task_id db ≡ some t
    → task_exists task_id db ≡ true
exists_of_find task_id db h = find-any (has_id task_id) db.tasks _ h
