-- ===== src/Scheduler/Cron.antt =====
-- gateway/scheduler.py: the five fields of a cron expression, and the next time that it fires.
use Prim.Native.Char.{code}
use Prim.Native.String.{[] as ε, ◌∷◌ as ◌▹◌, ◌++◌ as ◌+++◌}
use agentic_ops_platform.Prelude.{
  ℕ, String, ◌==◌, ◌≡◌, refl, Option, none, List, [], ◌∷◌, str_eq, if◌then◌else◌,
}
use agentic_ops_platform.Py.Text.{is_space, strip}
use agentic_ops_platform.Py.Slices.{rstrip_code}
use agentic_ops_platform.Py.Result.{Result, ok, raise, value_error, ◌>>=◌}

-- The five arguments of CronTrigger.
pub record Fields : Type 0 where
  pub minute : String
  pub hour : String
  pub day : String
  pub month : String
  pub day_of_week : String

-- trigger.get_next_fire_time(None, reference)
abbrev pub Trigger : Type 0
Trigger = ℕ → Option ℕ

-- CronTrigger(...), which raises for fields that it cannot read
abbrev pub Triggers : Type 0
Triggers = Fields → Result Trigger

-- s.lstrip(c) of one character, by its code
lstrip_code : ℕ → String → String
lstrip_code k ε = ε
lstrip_code k (◌▹◌ c s) = let rest = lstrip_code k s in if code c == k then rest else ◌▹◌ c s

strip_code : ℕ → String → String
unfolding lstrip_code rstrip_code
strip_code k s = rstrip_code k (lstrip_code k s)

closed : String × List String → List String
closed (w, ws) = if str_eq w "" then ws else w ∷ ws

-- the word at the start, and the words behind it
pieces : String → String × List String
unfolding closed
pieces ε = ("", [])
pieces (◌▹◌ c s) = let r = pieces s in if is_space c then ("", closed r) else (◌▹◌ c r.0, r.1)

-- s.split()
unfoldable pub split : String → List String
unfolding closed pieces
split s = closed (pieces s)

-- cron_str.strip().strip('"').strip("'").split()
unfoldable pub cron_parts : String → List String
unfolding split strip_code strip
cron_parts cron = split (strip_code 39 (strip_code 34 (strip cron)))

with_parts : Triggers → String → List String → Result Trigger
with_parts triggers cron (minute ∷ hour ∷ day ∷ month ∷ day_of_week ∷ []) =
    triggers
      (record { minute = minute; hour = hour; day = day; month = month; day_of_week = day_of_week })
with_parts triggers cron parts =
    raise (value_error (◌+++◌ "Expected 5-field cron expression, got: " cron))

unfoldable pub parse_cron : Triggers → String → Result Trigger
unfolding cron_parts with_parts
parse_cron triggers cron = with_parts triggers cron (cron_parts cron)

unfoldable pub next_run_at : Triggers → String → ℕ → Result (Option ℕ)
unfolding parse_cron
next_run_at triggers cron after = parse_cron triggers cron >>= λ trigger. ok (trigger after)

-- The fire time that `compute_next_run` prints; an exception is None.
unfoldable pub compute_next_run : Triggers → String → ℕ → Option ℕ
unfolding next_run_at
compute_next_run triggers cron now = elim (next_run_at triggers cron now) [
  | raise e ↦ none
  | ok next ↦ next
]

parts_run : cron_parts " '*/5  * 1 * mon' " ≡ "*/5" ∷ "*" ∷ "1" ∷ "*" ∷ "mon" ∷ []
unfolding cron_parts split strip
parts_run = refl
