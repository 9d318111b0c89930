-- ===== src/EventCollector/Moves.antt =====
-- What an event does to the row of its task.
use agentic_ops_platform.Prelude.{
  ℕ, max, ◌≤◌, String, ◌≡◌, refl, subst, Bool, true, false, ◌||◌, ◌==◌, Option, none, some, inl,
  inr, Bool-cases, arith, str_eq, if◌then◌else◌, or_else, some_and,
}
use agentic_ops_platform.Py.Json.{Dict, get}
use agentic_ops_platform.Py.Result.{ok, >>=-eq-ok}
use agentic_ops_platform.Models.{Task, Approval}
use agentic_ops_platform.Models.Status.{
  TaskStatus, waiting_approval, waiting_user_input, resume_pending, succeeded, failed, timed_out,
  is_waiting,
}
use agentic_ops_platform.Models.Sound.{KeepsId}
use agentic_ops_platform.Approvals.{is_pending}
use agentic_ops_platform.EventCollector.Tokens.{
  Parsers, monotonic_token_total, extract_incremental_tokens,
}
use agentic_ops_platform.Models.Store.{integer_column}
use agentic_ops_platform.EventCollector.{
  wait_operator, wait_user, resume, float_column, count_tokens, session_tokens, ended, error_text,
  new_total, ends_badly, completes, count_observed, counts, task_update,
}

-- The moves that a session's events may make, whatever their order.
pub data Moves (from : TaskStatus) : TaskStatus → Type 0 where
  stays : Moves from from
  asks_operator : Moves from waiting_approval
  asks_user : Moves from waiting_user_input
  resumes : Moves from resume_pending
  -- a task that waits does not succeed
  succeeds : is_waiting from ≡ false → Moves from succeeded
  fails : Moves from failed
  overruns : Moves from timed_out

-- A change of the row `t`, as one event may make it.
pub record IsUpdate (t : Task) (change : Task → Task) : Type 0 where
  pub keeps_id : KeepsId change
  pub moves : Moves t.status (change t).status
  pub tokens : t.tokens_used ≤ (change t).tokens_used

le_max : (a b : ℕ) → a ≤ max a b
le_max a b = ground arith

integer_column-eq-ok : (n : ℕ) {m : ℕ} → integer_column n ≡ ok m → n ≡ m
unfolding integer_column
integer_column-eq-ok n h = ground arith

total-le :
    (t : Task) (n : ℕ) {m : ℕ} → integer_column (max t.tokens_used n) ≡ ok m → t.tokens_used ≤ m
total-le t n h =
    let same = integer_column-eq-ok (max t.tokens_used n) h in rw (← same) (le_max t.tokens_used n)

idle-IsUpdate : (t : Task) → IsUpdate t (λ x. x)
idle-IsUpdate t = record { keeps_id = λ x. refl; moves = stays; tokens = omega arith }

count_observed-IsUpdate :
    (t : Task) (o : Option ℕ) (change : Task → Task)
    → count_observed (some t) o ≡ ok change
    → IsUpdate t change
unfolding count_observed
count_observed-IsUpdate t none change h =
    let same : (λ x. x) ≡ change = cc in subst (IsUpdate t) same (idle-IsUpdate t)
count_observed-IsUpdate t (some n) change h =
    let (total, fits, e) = >>=-eq-ok (integer_column (monotonic_token_total t.tokens_used n)) _ h in
    let same : count_tokens total ≡ change = cc in
    subst (IsUpdate t) same
      (record { keeps_id = λ x. refl; moves = stays; tokens = total-le t n fits })

counts-IsUpdate :
    (p : Parsers) (payload : Dict) (t : Task) (change : Task → Task)
    → counts p payload (some t) ≡ ok change
    → IsUpdate t change
unfolding counts
counts-IsUpdate p payload t change h =
    let (o, found, e) = >>=-eq-ok (extract_incremental_tokens p payload) _ h in
    count_observed-IsUpdate t o change e

new_total-le :
    (t : Task) (n : ℕ) (o : Option ℕ)
    → new_total n (some t) ≡ ok o
    → t.tokens_used ≤ or_else o t.tokens_used
unfolding new_total
new_total-le t n o h = elim (Bool-cases (n == 0)) [
  | inl zero_ ↦ let same : none ≡ o = cc (rw zero_ at h) in rw (← same) (omega arith)
  | inr more ↦
      let (total, fits, e) =
        >>=-eq-ok (integer_column (monotonic_token_total t.tokens_used n)) _ (rw more at h) in
      let same : some total ≡ o = cc in rw (← same) (total-le t n fits)
]

module _ (status : TaskStatus) (ends : (from : TaskStatus) → Moves from status) (default : String)
    (payload : Dict) where
  ends_badly-IsUpdate :
      (t : Task) (change : Task → Task)
      → ends_badly status default payload (some t) ≡ ok change
      → IsUpdate t change
  unfolding ends_badly
  ends_badly-IsUpdate t change h =
      let (n, _, e1) = >>=-eq-ok (session_tokens payload) _ h in
      let (total, fits, e2) = >>=-eq-ok (new_total n (some t)) _ e1 in
      let (d, _, e3) = >>=-eq-ok (float_column (get "duration_sec" payload)) _ e2 in
      let same : (λ (x : Task).
        ended status payload d (some (error_text default payload)) (or_else total x.tokens_used) x)
          ≡ change =
        cc in
      subst (IsUpdate t) same (record {
        keeps_id = λ x. refl;
        moves = ends t.status;
        tokens = new_total-le t n total fits;
      })

completes-IsUpdate :
    (payload : Dict) (t : Task) (change : Task → Task)
    → completes payload (some t) ≡ ok change
    → IsUpdate t change
unfolding completes
completes-IsUpdate payload t change h = elim (Bool-cases (is_waiting t.status)) [
  | inl waits ↦
      let same : (λ x. x) ≡ change = cc (rw waits at h) in subst (IsUpdate t) same (idle-IsUpdate t)
  | inr works ↦
      let (n, _, e1) = >>=-eq-ok (session_tokens payload) _ (rw works at h) in
      let (total, fits, e2) =
        >>=-eq-ok (integer_column (monotonic_token_total t.tokens_used n)) _ e1 in
      let (d, _, e3) = >>=-eq-ok (float_column (get "duration_sec" payload)) _ e2 in
      let same : ended succeeded payload d none total ≡ change = cc in
      subst (IsUpdate t) same
        (record { keeps_id = λ x. refl; moves = succeeds works; tokens = total-le t n fits })
]

wait_if-IsUpdate :
    (now : ℕ) (t : Task) (b : Bool) (change : Task → Task)
    → ok (if b then wait_operator now else λ x. x) ≡ ok change
    → IsUpdate t change
wait_if-IsUpdate now t true change h =
    let same : wait_operator now ≡ change = cc in
    subst (IsUpdate t) same
      (record { keeps_id = λ x. refl; moves = asks_operator; tokens = omega arith })
wait_if-IsUpdate now t false change h =
    let same : (λ x. x) ≡ change = cc in subst (IsUpdate t) same (idle-IsUpdate t)

waits_user-IsUpdate :
    (now : ℕ) (reason : String) (t : Task) (change : Task → Task)
    → ok (wait_user now reason) ≡ ok change
    → IsUpdate t change
waits_user-IsUpdate now reason t change h =
    let same : wait_user now reason ≡ change = cc in
    subst (IsUpdate t) same
      (record { keeps_id = λ x. refl; moves = asks_user; tokens = omega arith })

resumes-IsUpdate : (t : Task) (change : Task → Task) → ok resume ≡ ok change → IsUpdate t change
resumes-IsUpdate t change h =
    let same : resume ≡ change = cc in
    subst (IsUpdate t) same (record { keeps_id = λ x. refl; moves = resumes; tokens = omega arith })

idles-IsUpdate :
    (t : Task) (change : Task → Task) → ok (λ (x : Task). x) ≡ ok change → IsUpdate t change
idles-IsUpdate t change h =
    let same : (λ x. x) ≡ change = cc in subst (IsUpdate t) same (idle-IsUpdate t)

-- The events of the session itself.
session-IsUpdate :
    (p : Parsers) (payload : Dict) (t : Task) (kind : String) (change : Task → Task)
    → (if str_eq kind "conversation_batch"
        then counts p payload (some t)
        else if str_eq kind "session_complete"
        then completes payload (some t)
        else if str_eq kind "session_error"
        then ends_badly failed "Session error" payload (some t)
        else if str_eq kind "session_timeout"
        then ends_badly timed_out "Session timed out" payload (some t)
        else ok (λ x. x))
      ≡ ok change
    → IsUpdate t change
session-IsUpdate p payload t kind change h = elim (Bool-cases (str_eq kind "conversation_batch")) [
  | inl yes1 ↦ counts-IsUpdate p payload t change (rw yes1 at h)
  | inr no1 ↦ elim (Bool-cases (str_eq kind "session_complete")) [
    | inl yes2 ↦ completes-IsUpdate payload t change (rw (no1, yes2) at h)
    | inr no2 ↦ elim (Bool-cases (str_eq kind "session_error")) [
      | inl yes3 ↦
          ends_badly-IsUpdate failed (λ x. fails) "Session error" payload t change
            (rw (no1, no2, yes3) at h)
      | inr no3 ↦ elim (Bool-cases (str_eq kind "session_timeout")) [
        | inl yes4 ↦
            ends_badly-IsUpdate timed_out (λ x. overruns) "Session timed out" payload t change
              (rw (no1, no2, no3, yes4) at h)
        | inr no4 ↦ idles-IsUpdate t change (rw (no1, no2, no3, no4) at h)
      ]
    ]
  ]
]

pub task_update-IsUpdate :
    (p : Parsers) (now : ℕ) (event_type : String) (payload : Dict) (t : Task)
    (approval : Option Approval) (change : Task → Task)
    → task_update p now event_type payload (some t) approval ≡ ok change
    → IsUpdate t change
unfolding task_update
task_update-IsUpdate p now kind payload t approval change h =
    elim (Bool-cases (str_eq kind "approval_requested")) [
      | inl yes1 ↦ wait_if-IsUpdate now t (some_and approval is_pending) change (rw yes1 at h)
      | inr no1 ↦ elim (Bool-cases (str_eq kind "user_question_requested")) [
        | inl yes2 ↦ waits_user-IsUpdate now _ t change (rw (no1, yes2) at h)
        | inr no2 ↦ elim (Bool-cases (str_eq kind "user_question_delivery_failed")) [
          | inl yes3 ↦ waits_user-IsUpdate now _ t change (rw (no1, no2, yes3) at h)
          | inr no3 ↦
              elim (Bool-cases
                (str_eq kind "user_question_resolved" || str_eq kind "approval_wait_resolved")) [
                  | inl yes4 ↦ resumes-IsUpdate t change (rw (no1, no2, no3, yes4) at h)
                  | inr no4 ↦
                      session-IsUpdate p payload t kind change (rw (no1, no2, no3, no4) at h)
                ]
        ]
      ]
    ]
