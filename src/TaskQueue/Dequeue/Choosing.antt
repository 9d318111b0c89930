-- ===== src/TaskQueue/Dequeue/Choosing.antt =====
-- The loop of `dequeue_task`, against a single query over the rows with room in their workflow.
use agentic_ops_platform.Prelude.{
  ℕ, zero, suc, ◌+◌, ◌≤◌, ◌<◌, String, ◌≡◌, refl, Bool, true, false, not, ◌&&◌, Option, none, some,
  List, [], ◌∷◌, arith, eq_iff, str_eq, if◌then◌else◌, select_where, length, least, IsOrder,
  least_mono, least-none_mono, least-passes, Bool-cases, inl, inr,
}
use agentic_ops_platform.Models.{Task, Db}
use agentic_ops_platform.TaskQueue.Dequeue.{
  Numbers, lookup, contains, Policy, limits, eligible, before, is_full, lex3, Choice, found,
  nothing, choose, rounds, accept,
}

lex3_irrefl : (r p c : ℕ) → lex3 r p c r p c ≡ false
unfolding lex3
lex3_irrefl r p c = ground arith

lex3_asymm : (r p c r' p' c' : ℕ) → lex3 r p c r' p' c' ≡ true → lex3 r' p' c' r p c ≡ false
unfolding lex3
lex3_asymm r p c r' p' c' h = ground arith

lex3_neg_trans :
    (r p c r' p' c' r'' p'' c'' : ℕ)
    → lex3 r p c r' p' c' ≡ false
    → lex3 r' p' c' r'' p'' c'' ≡ false
    → lex3 r p c r'' p'' c'' ≡ false
unfolding lex3
lex3_neg_trans r p c r' p' c' r'' p'' c'' h k = ground arith

pub before-IsOrder : (policy : Policy) → IsOrder (before policy)
unfolding before
before-IsOrder policy = record {
  irrefl = λ a. lex3_irrefl _ _ _;
  neg_trans = λ a b c. lex3_neg_trans _ _ _ _ _ _ _ _ _;
  asymm = λ a b. lex3_asymm _ _ _ _ _ _;
}

-- The rows that may be claimed now: eligible, and in a workflow below its limit.
unfoldable pub ready : Policy → (ℕ → Bool) → Db → Task → Bool
ready policy locked db t = eligible policy locked [] t && not (is_full policy db t.workflow)

unfoldable pub chosen : Option Task → Choice
chosen none = nothing
chosen (some t) = found t

-- What one query would answer that sees the limits of the workflows.
unfoldable pub best_ready : Policy → (ℕ → Bool) → Db → Choice
unfolding ready chosen
best_ready policy locked db =
    chosen (least (before policy) (select_where (ready policy locked db) db.tasks))

-- How many workflows with a limit are not blocked.
free : List String → Numbers → ℕ
free blocked [] = 0
free blocked ((v, n) ∷ ls) = (if contains v blocked then 0 else 1) + free blocked ls

free-le-length : (blocked : List String) (ls : Numbers) → free blocked ls ≤ length ls
unfolding free
free-le-length blocked [] = omega arith
free-le-length blocked ((v, n) ∷ ls) = ground (arith, free-le-length blocked ls)

free_mono :
    (w : String) (blocked : List String) (ls : Numbers) → free (w ∷ blocked) ls ≤ free blocked ls
unfolding free
free_mono w blocked [] = omega arith
free_mono w blocked ((v, n) ∷ ls) = ground (arith, free_mono w blocked ls)

free_falls :
    (w : String) (blocked : List String) (ls : Numbers) (n : ℕ)
    → lookup w ls ≡ some n
    → contains w blocked ≡ false
    → free (w ∷ blocked) ls < free blocked ls
unfolding free
free_falls w blocked [] n h k = cc
free_falls w blocked ((v, m) ∷ ls) n h k = elim (Bool-cases (str_eq v w)) [
  | inl same ↦ let e = (eq_iff v w).0 same in ground (arith, free_mono w blocked ls, eq_iff w v, e)
  | inr other ↦ ground (arith, free_falls w blocked ls n, eq_iff w v, eq_iff v w)
]

-- Every blocked workflow is at its limit.
abbrev AllFull : Policy → Db → List String → Type 0
AllFull policy db blocked = (w : String) → contains w blocked ≡ true → is_full policy db w ≡ true

eligible-of-ready :
    (policy : Policy) (locked : ℕ → Bool) (db : Db) (blocked : List String)
    → AllFull policy db blocked
    → (t : Task) → ready policy locked db t ≡ true
    → eligible policy locked blocked t ≡ true
unfolding ready eligible
eligible-of-ready policy locked db blocked full t h = ground (arith, full t.workflow)

ready_of_eligible :
    (policy : Policy) (locked : ℕ → Bool) (db : Db) (blocked : List String) (t : Task)
    → eligible policy locked blocked t ≡ true
    → is_full policy db t.workflow ≡ false
    → ready policy locked db t ≡ true
unfolding ready eligible
ready_of_eligible policy locked db blocked t h k = ground arith

AllFull-cons :
    (policy : Policy) (db : Db) (blocked : List String) (v : String)
    → AllFull policy db blocked
    → is_full policy db v ≡ true
    → AllFull policy db (v ∷ blocked)
AllFull-cons policy db blocked v full h w m = ground (arith, eq_iff v w, full w)

not_blocked :
    (policy : Policy) (locked : ℕ → Bool) (blocked : List String) (t : Task)
    → eligible policy locked blocked t ≡ true
    → contains t.workflow blocked ≡ false
unfolding eligible
not_blocked policy locked blocked t h = ground arith

limit_of_full :
    (policy : Policy) (db : Db) (w : String)
    → is_full policy db w ≡ true
    → (n : ℕ) × (lookup w (limits policy) ≡ some n)
unfolding is_full
limit_of_full policy db w h = ground arith

-- One round: what the query returns, against what the single query returns.
accept-eq-chosen :
    (policy : Policy) (locked : ℕ → Bool) (db : Db) (blocked : List String) (again : Task → Choice)
    → AllFull policy db blocked
    → ((t : Task)
        → eligible policy locked blocked t ≡ true
        → is_full policy db t.workflow ≡ true
        → again t ≡ best_ready policy locked db)
    → (o : Option Task)
    → least (before policy) (select_where (eligible policy locked blocked) db.tasks) ≡ o
    → accept policy db again o ≡ best_ready policy locked db
unfolding accept best_ready
accept-eq-chosen policy locked db blocked again full next none e =
    rw
      (least-none_mono (before policy) (eligible policy locked blocked) (ready policy locked db)
        (eligible-of-ready policy locked db blocked full) db.tasks e)
      refl
accept-eq-chosen policy locked db blocked again full next (some t) e =
    let p = eligible policy locked blocked in
    let passes = least-passes (before policy) p db.tasks t e in
    elim (Bool-cases (is_full policy db t.workflow)) [
      | inl at_limit ↦ rw at_limit (next t passes at_limit)
      | inr has_room ↦
          rw
            (
              has_room,
              least_mono (before policy) (before-IsOrder policy) p (ready policy locked db)
                  (eligible-of-ready policy locked db blocked full) db.tasks t e
                  (ready_of_eligible policy locked db blocked t passes has_room),
            )
            refl
    ]

-- With fuel for every workflow that is not blocked, the loop answers as the single query.
choose-eq-best_ready :
    (policy : Policy) (locked : ℕ → Bool) (db : Db) (fuel : ℕ) (blocked : List String)
    → free blocked (limits policy) < fuel
    → AllFull policy db blocked
    → choose policy locked db fuel blocked ≡ best_ready policy locked db
unfolding choose
choose-eq-best_ready policy locked db zero blocked room full = absurd (omega arith)
choose-eq-best_ready policy locked db (suc fuel) blocked room full =
    accept-eq-chosen policy locked db blocked _ full
      (λ t passes at_limit.
        let (n, limit) = limit_of_full policy db t.workflow at_limit in
        let falls =
          free_falls t.workflow blocked (limits policy) n limit
            (not_blocked policy locked blocked t passes) in
        choose-eq-best_ready policy locked db fuel (t.workflow ∷ blocked) (omega arith)
          (AllFull-cons policy db blocked t.workflow full at_limit))
      _ refl

-- The loop that blocks full workflows one by one ends within one round for each entry of the
-- limits and one more, and what it answers is the answer of one query over the rows that are
-- ready: eligible and in a workflow below its limit.
pub choose-eq-single_query :
    (policy : Policy) (locked : ℕ → Bool) (db : Db)
    → choose policy locked db (rounds policy) [] ≡ best_ready policy locked db
choose-eq-single_query policy locked db =
    choose-eq-best_ready policy locked db (rounds policy) []
      (omega (arith, free-le-length [] (limits policy))) (λ w h. cc)
