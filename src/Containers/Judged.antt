-- ===== src/Containers/Judged.antt =====
-- What the verdict on an exited runtime tells of its exit code and of the stored errors.
use agentic_ops_platform.Prelude.{
  ℕ, str_eq, String, ◌≡◌, ◌≢◌, refl, sym, ap, ◌∙◌, Bool, true, false, ◌&&◌, Option, none, some, inl,
  inr, arith, Bool-cases, Option-cases, All, All-mem, All-kept, any, mem-any, mem-least,
  least-passes, least-none, IsOrder, select_where, any-select_where_meet, All-not_any,
}
use agentic_ops_platform.Prelude.Sorted.{sort_by-any, sort_by-All}
use agentic_ops_platform.Py.Json.{truthy}
use agentic_ops_platform.Py.Result.{Result, ok, >>=-eq-ok}
use agentic_ops_platform.Models.{SessionEvent, Db}
use agentic_ops_platform.Models.Status.{TaskStatus, succeeded, is_terminal}
use agentic_ops_platform.Containers.{RuntimeStatus}
use agentic_ops_platform.Containers.Exit.{
  newer_event, is_error, latest_event, event_of, is_end_of, lifecycle_events, payload_of,
  is_success, by_exit_code, error_status, error_text, verdict,
}

by_exit_code-IsTerminal : (r : RuntimeStatus) → is_terminal (by_exit_code r).0 ≡ true
unfolding by_exit_code
by_exit_code-IsTerminal r = elim (Bool-cases (is_success r.exit_code)) [
  | inl e ↦ rw e refl
  | inr e ↦ rw e refl
]

by_exit_code-succeeded :
    (r : RuntimeStatus) → (by_exit_code r).0 ≡ succeeded → is_success r.exit_code ≡ true
unfolding by_exit_code
by_exit_code-succeeded r h = elim (Bool-cases (is_success r.exit_code)) [
  | inl e ↦ e
  | inr e ↦ cc (rw e at h)
]

error_status-IsFailure :
    (e : SessionEvent) → (is_terminal (error_status e) ≡ true) × (error_status e ≢ succeeded)
error_status-IsFailure e = elim (Bool-cases (str_eq e.event_type "session_timeout")) [
  | inl h ↦ rw h (refl, λ k. cc)
  | inr h ↦ rw h (refl, λ k. cc)
]

same_status :
    (a v : TaskStatus × Option String)
    → ◌≡◌ {A = Result (TaskStatus × Option String)} (ok a) (ok v)
    → a.0 ≡ v.0
same_status a v h = let same : a ≡ v = cc in ap (λ (x : TaskStatus × Option String). x.0) same

-- What a verdict tells.
pub record IsVerdict (r : RuntimeStatus) (error : Option SessionEvent) (status : TaskStatus)
    : Type 0 where
  pub terminal : is_terminal status ≡ true
  pub success :
      status ≡ succeeded → (is_success r.exit_code ≡ true) × (truthy (payload_of error) ≡ false)
  pub clean : is_success r.exit_code ≡ true → error ≡ none → status ≡ succeeded

pub verdict-IsVerdict :
    (r : RuntimeStatus) (error : Option SessionEvent) (v : TaskStatus × Option String)
    → verdict r error ≡ ok v
    → IsVerdict r error v.0
unfolding verdict
verdict-IsVerdict r none v h =
    let same : (by_exit_code r).0 ≡ v.0 = same_status (by_exit_code r) v h in
    rw (← same) (record {
      terminal = by_exit_code-IsTerminal r;
      success = λ e. (by_exit_code-succeeded r e, refl);
      clean = λ e _. unfold by_exit_code in rw e refl;
    })
verdict-IsVerdict r (some e) v h = elim (Bool-cases (truthy e.payload)) [
  | inl full ↦
      let (s, _, made) = >>=-eq-ok (error_text e) _ (rw full at h) in
      let same : error_status e ≡ v.0 = same_status (error_status e, some s) v made in
      rw (← same) (record {
        terminal = (error_status-IsFailure e).0;
        success = λ k. absurd ((error_status-IsFailure e).1 k);
        clean = λ _ k. cc;
      })
  | inr blank ↦
      let same : (by_exit_code r).0 ≡ v.0 = same_status (by_exit_code r) v (rw blank at h) in
      rw (← same) (record {
        terminal = by_exit_code-IsTerminal r;
        success = λ k. (by_exit_code-succeeded r k, blank);
        clean = λ _ k. cc;
      })
]

newer_event-IsOrder : IsOrder newer_event
newer_event-IsOrder = record {
  irrefl = λ e. ground arith;
  neg_trans = λ e f g h k. ground arith;
  asymm = λ e f h. ground arith;
}

-- The task has an event of an error.
abbrev pub is_error_of : ℕ → SessionEvent → Bool
is_error_of task_id e = event_of task_id e && is_error e

any-errors :
    (k : ℕ) (db : Db) → any is_error (lifecycle_events k db) ≡ any (is_error_of k) db.session_events
unfolding lifecycle_events
any-errors k db =
    sort_by-any is_error newer_event (select_where (is_end_of k) db.session_events)
    ∙ any-select_where_meet is_error (is_end_of k) (is_error_of k) (λ e. ground arith)
        db.session_events

pub no_error-none :
    (k : ℕ) (db : Db)
    → any (is_error_of k) db.session_events ≡ false
    → latest_event is_error (lifecycle_events k db) ≡ none
unfolding latest_event
no_error-none k db h = elim (Option-cases (latest_event is_error (lifecycle_events k db))) [
  | inl e ↦ e
  | inr (f, e) ↦
      let hit =
        mem-any is_error (lifecycle_events k db)
          (mem-least newer_event is_error (lifecycle_events k db) f e)
          (least-passes newer_event is_error (lifecycle_events k db) f e) in
      cc (sym (any-errors k db ∙ h) ∙ hit)
]

-- Every event of an error of the task has a payload.
abbrev pub ErrorsTold : ℕ → Db → Type 0
ErrorsTold k db = All (λ e. is_error_of k e ≡ true → truthy e.payload ≡ true) db.session_events

newest-told :
    (k : ℕ) (db : Db) (f : SessionEvent)
    → ErrorsTold k db
    → latest_event is_error (lifecycle_events k db) ≡ some f
    → truthy f.payload ≡ true
unfolding latest_event lifecycle_events
newest-told k db f told h =
    let all =
      sort_by-All (λ e. is_error e ≡ true → truthy e.payload ≡ true) newer_event
        (select_where (is_end_of k) db.session_events)
        (All-kept (is_end_of k) (λ e ended tells on. tells (ground arith)) db.session_events
          told) in
    All-mem (λ e. is_error e ≡ true → truthy e.payload ≡ true) (lifecycle_events k db) f all
      (mem-least newer_event is_error (lifecycle_events k db) f h)
      (least-passes newer_event is_error (lifecycle_events k db) f h)

-- Then, if there is such an event, the newest has a payload.
pub told-truthy :
    (k : ℕ) (db : Db)
    → ErrorsTold k db
    → truthy (payload_of (latest_event is_error (lifecycle_events k db))) ≡ false
    → any (is_error_of k) db.session_events ≡ false
unfolding latest_event
told-truthy k db told h = elim (Option-cases (latest_event is_error (lifecycle_events k db))) [
  | inl e ↦
      sym (any-errors k db)
      ∙ All-not_any is_error (lifecycle_events k db)
          (least-none newer_event newer_event-IsOrder is_error (lifecycle_events k db) e)
  | inr (f, e) ↦ let full = newest-told k db f told e in cc (rw e at h)
]
