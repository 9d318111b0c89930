-- ===== src/TaskQueue/Listing/Columns.antt =====
-- The order of a page.
use agentic_ops_platform.Prelude.{
  ℕ, ◌≤◌, String, ◌≡◌, Bool, true, false, ltb, str_eq, List, [], ◌∷◌, if◌then◌else◌, arith, All,
  All-mono, IsOrder,
}
use agentic_ops_platform.Prelude.Sorted.{Ordered}
use agentic_ops_platform.Py.Text.{lower}
use agentic_ops_platform.Models.{Task}
use agentic_ops_platform.TaskQueue.Listing.{Postgres, status_rank, column_before, order_by}

-- The row `t` does not stand behind `u` in the order of the column; an unknown column is `created`.
pub record IsUpTo (pg : Postgres) (column : String) (t u : Task) : Type 0 where
  pub updated : column ≡ "updated" → t.updated ≤ u.updated
  pub status : column ≡ "status" → status_rank t.status ≤ status_rank u.status
  pub workflow : column ≡ "workflow" → pg.text_before u.workflow t.workflow ≡ false
  pub created :
      str_eq column "updated" ≡ false
      → str_eq column "status" ≡ false
      → str_eq column "workflow" ≡ false
      → t.created ≤ u.created

-- A relation of every row to the later ones.
abbrev pub InOrder : (Task → Task → Type 0) → List Task → Type 0
InOrder R [] = Unit
InOrder R (x ∷ xs) = All (R x) xs × InOrder R xs

pub Ordered-InOrder :
    (before : Task → Task → Bool) (R : Task → Task → Type 0) (xs : List Task)
    → ((t u : Task) → before u t ≡ false → R t u)
    → Ordered before xs
    → InOrder R xs
Ordered-InOrder before R [] f h = tt
Ordered-InOrder before R (x ∷ xs) f h =
    (All-mono xs (λ u. f x u) h.0, Ordered-InOrder before R xs f h.1)

pub column_before-IsUpTo :
    (pg : Postgres) (column : String) (t u : Task)
    → column_before pg column u t ≡ false
    → IsUpTo pg column t u
unfolding column_before
column_before-IsUpTo pg column t u h = record {
  updated = λ e. (let k = rw e at h in ground arith);
  status = λ e. (let k = rw e at h in ground arith);
  workflow = λ e. rw e at h;
  created = λ a b c. (let k = rw (a, b, c) at h in ground arith);
}

key-IsOrder : (key : Task → ℕ) → IsOrder (λ (t u : Task). ltb (key t) (key u))
key-IsOrder key = record {
  irrefl = λ t. ground arith;
  neg_trans = λ t u v h k. ground arith;
  asymm = λ t u h. ground arith;
}

text-IsOrder :
    (pg : Postgres)
    → IsOrder pg.text_before
    → IsOrder (λ (t u : Task). pg.text_before t.workflow u.workflow)
text-IsOrder pg o = record {
  irrefl = λ t. o.irrefl t.workflow;
  neg_trans = λ t u v. o.neg_trans t.workflow u.workflow v.workflow;
  asymm = λ t u. o.asymm t.workflow u.workflow;
}

either-IsOrder :
    (b : Bool) (p q : Task → Task → Bool)
    → IsOrder p
    → IsOrder q
    → IsOrder (λ t u. if b then p t u else q t u)
either-IsOrder true p q h k = h
either-IsOrder false p q h k = k

column_before-IsOrder :
    (pg : Postgres) (column : String) → IsOrder pg.text_before → IsOrder (column_before pg column)
unfolding column_before
column_before-IsOrder pg column o =
    either-IsOrder (str_eq column "updated") _ _ (key-IsOrder (λ (t : Task). t.updated)) (
      either-IsOrder (str_eq column "status") _ _ (key-IsOrder (λ (t : Task). status_rank t.status))
        (either-IsOrder (str_eq column "workflow") _ _ (text-IsOrder pg o)
          (key-IsOrder (λ (t : Task). t.created))))

flipped-IsOrder : (p : Task → Task → Bool) → IsOrder p → IsOrder (λ (t u : Task). p u t)
flipped-IsOrder p o = record {
  irrefl = o.irrefl;
  neg_trans = λ t u v h k. o.neg_trans v u t k h;
  asymm = λ t u h. o.asymm u t h;
}

pub order_by-IsOrder :
    (pg : Postgres) (column direction : String)
    → IsOrder pg.text_before
    → IsOrder (order_by pg column direction)
unfolding order_by
order_by-IsOrder pg column direction o =
    either-IsOrder (str_eq (lower direction) "asc") _ _ (column_before-IsOrder pg column o)
      (flipped-IsOrder (column_before pg column) (column_before-IsOrder pg column o))
