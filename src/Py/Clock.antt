-- ===== src/Py/Clock.antt =====
-- `datetime` and `timedelta`: a moment is the number of microseconds since 1970 in UTC.
use Prim.Native.String.{◌++◌ as ◌+++◌}
use agentic_ops_platform.Prelude.{
  ℕ, ◌+◌, ◌-◌, ◌*◌, ◌/◌, ◌%◌, String, ◌==◌, leb, ltb, if◌then◌else◌, ◌≡◌, refl,
}
use agentic_ops_platform.Py.Text.{padded}

-- timedelta(seconds=n)
abbrev pub seconds : ℕ → ℕ
seconds n = n * 1000000

-- timedelta(days=n)
abbrev pub days : ℕ → ℕ
days n = n * 86400000000

year_day : ℕ → ℕ → ℕ → ℕ → String
unfolding padded
year_day era yoe doy mp =
    let month = if ltb mp 10 then mp + 3 else mp - 9 in
    let year = yoe + era * 400 + (if leb month 2 then 1 else 0) in
    ◌+++◌ (padded 4 year)
      (◌+++◌ "-" (◌+++◌ (padded 2 month) (◌+++◌ "-" (padded 2 (doy - (153 * mp + 2) / 5 + 1)))))

-- The date of a number of days since 1970-01-01, counted in eras of 400 years from March 0000.
date_text : ℕ → String
unfolding year_day
date_text n =
    let z = n + 719468 in
    let era = z / 146097 in
    let doe = z % 146097 in
    let yoe = (doe + doe / 36524 - doe / 1460 - doe / 146096) / 365 in
    let doy = doe - (365 * yoe + yoe / 4 - yoe / 100) in year_day era yoe doy ((5 * doy + 2) / 153)

-- t.isoformat() of an aware moment in UTC
unfoldable pub isoformat : ℕ → String
unfolding date_text padded
isoformat t =
    let s = t / 1000000 in
    let us = t % 1000000 in
    ◌+++◌ (date_text (s / 86400)) (
      ◌+++◌ "T" (
        ◌+++◌ (padded 2 (s / 3600 % 24)) (
          ◌+++◌ ":" (
            ◌+++◌ (padded 2 (s / 60 % 60)) (
              ◌+++◌ ":" (
                ◌+++◌ (padded 2 (s % 60))
                  (◌+++◌ (if us == 0 then "" else ◌+++◌ "." (padded 6 us)) "+00:00")))))))

isoformat_runs : isoformat 1709210096000250 ≡ "2024-02-29T12:34:56.000250+00:00"
unfolding isoformat
isoformat_runs = refl
