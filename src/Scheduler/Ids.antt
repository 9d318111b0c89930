-- ===== src/Scheduler/Ids.antt =====
-- gateway/scheduler.py, `_job_id`: which schedules share the id of a job.
use Prim.Native.Char.{Char, code}
use Prim.Native.String.{[] as ε, ◌∷◌ as ◌▹◌, ◌++◌ as ◌+++◌, char_at}
use text.Mathlib.TextLemmas.{nil-append, cons-append}
use agentic_ops_platform.Prelude.{
  String, ◌≡◌, refl, sym, ap, ◌∙◌, arith, Bool, true, false, ◌==◌, if◌then◌else◌,
}
use agentic_ops_platform.Scheduler.{job_id}

abbrev pub has_colon : String → Bool
has_colon ε = false
has_colon (◌▹◌ c s) = let rest = has_colon s in if code c == 58 then true else rest

heads : {c d : Char} {s t : String} → ◌▹◌ c s ≡ ◌▹◌ d t → c ≡ d
heads e = cc

tails : {c d : Char} {s t : String} → ◌▹◌ c s ≡ ◌▹◌ d t → s ≡ t
tails e = cc

ap2 : {c d : Char} {s t : String} → c ≡ d → s ≡ t → ◌▹◌ c s ≡ ◌▹◌ d t
ap2 e f = cc

colon_first : (c : Char) (s : String) → code c ≡ 58 → has_colon (◌▹◌ c s) ≡ false → ⊥
colon_first c s e h = cc (rw e at h)

no_colon : (c : Char) (s : String) → has_colon (◌▹◌ c s) ≡ false → has_colon s ≡ false
no_colon c s h = ground arith

-- The same text, built from characters.
abbrev glued : String → String → String
glued ε schedule = ◌▹◌ (char_at ":" 0) schedule
glued (◌▹◌ c s) schedule = ◌▹◌ c (glued s schedule)

colon-glued : (agent schedule : String) → ◌+++◌ agent (◌+++◌ ":" schedule) ≡ glued agent schedule
colon-glued ε schedule =
    nil-append (◌+++◌ ":" schedule)
    ∙ cons-append (char_at ":" 0) ε schedule
    ∙ ap (λ t. ◌▹◌ (char_at ":" 0) t) (nil-append schedule)
colon-glued (◌▹◌ c s) schedule =
    cons-append c s (◌+++◌ ":" schedule) ∙ ap (λ t. ◌▹◌ c t) (colon-glued s schedule)

glued-injective :
    (agent agent' schedule schedule' : String)
    → has_colon agent ≡ false
    → has_colon agent' ≡ false
    → glued agent schedule ≡ glued agent' schedule'
    → (agent ≡ agent') × (schedule ≡ schedule')
glued-injective ε ε schedule schedule' h h' e = (refl, tails e)
glued-injective ε (◌▹◌ c s) schedule schedule' h h' e =
    absurd (colon_first c s (sym (ap code (heads e))) h')
glued-injective (◌▹◌ c s) ε schedule schedule' h h' e =
    absurd (colon_first c s (ap code (heads e)) h)
glued-injective (◌▹◌ c s) (◌▹◌ d t) schedule schedule' h h' e =
    let (same, same') =
      glued-injective s t schedule schedule' (no_colon c s h) (no_colon d t h') (tails e) in
    (ap2 (heads e) same, same')

-- Two pairs of an agent and a schedule share the id of a job only if they are the same, where the
-- names of the agents have no colon.
pub job_id-injective :
    (agent agent' schedule schedule' : String)
    → has_colon agent ≡ false
    → has_colon agent' ≡ false
    → job_id agent schedule ≡ job_id agent' schedule'
    → (agent ≡ agent') × (schedule ≡ schedule')
unfolding job_id
job_id-injective agent agent' schedule schedule' h h' e =
    glued-injective agent agent' schedule schedule' h h'
      (sym (colon-glued agent schedule) ∙ e ∙ colon-glued agent' schedule')
