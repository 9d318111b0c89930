-- ===== src/Py/Number.antt =====
-- `int(v)`, where the source is content with a natural number: a number below 0 counts as 0.
use Prim.Native.Char.{code}
use Prim.Native.String.{[] as ε, ◌∷◌ as ◌▹◌}
use agentic_ops_platform.Prelude.{
  ℕ, ◌+◌, ◌-◌, ◌*◌, ◌/◌, String, Bool, true, false, ◌&&◌, leb, ◌==◌, Option, none, some,
  if◌then◌else◌, ◌≡◌, refl,
}
use agentic_ops_platform.Py.Text.{strip}
use agentic_ops_platform.Py.Json.{Json, null, flag, num, float, text, arr, obj}
use agentic_ops_platform.Py.Result.{Result, ok, raise, value_error, type_error, ends}

-- The digits behind a digit (`true`) or at a place where a digit must come (`false`), with single
-- underscores between them.
digits : Bool → ℕ → String → Option ℕ
digits true acc ε = some acc
digits false acc ε = none
digits after_digit acc (◌▹◌ c s) =
    let next = digits true (acc * 10 + (code c - 48)) s in
    let gap = digits false acc s in
    if leb 48 (code c) && leb (code c) 57
    then next
    else if code c == 95 && after_digit
    then gap
    else none

negative : Option ℕ → Option ℕ
negative none = none
negative (some n) = some 0

signed : String → Option ℕ
unfolding digits negative
signed ε = none
signed (◌▹◌ c s) =
    let below = negative (digits false 0 s) in
    if code c == 45
    then below
    else if code c == 43
    then digits false 0 s
    else digits false 0 (◌▹◌ c s)

parsed : Option ℕ → Result ℕ
parsed none = raise (value_error "invalid literal for int() with base 10")
parsed (some n) = ok n

parsed-ends : (o : Option ℕ) → ends (parsed o) ≡ true
unfolding parsed
parsed-ends none = refl
parsed-ends (some n) = refl

unfoldable pub int_of : Json → Result ℕ
unfolding signed strip parsed
int_of (num n) = ok n
int_of (float n) = ok (n / 1000000)
int_of (flag true) = ok 1
int_of (flag false) = ok 0
int_of (text s) = parsed (signed (strip s))
int_of _ = raise type_error

pub int_of-ends : (v : Json) → ends (int_of v) ≡ true
unfolding int_of
int_of-ends null = refl
int_of-ends (flag true) = refl
int_of-ends (flag false) = refl
int_of-ends (num n) = refl
int_of-ends (float n) = refl
int_of-ends (text s) = parsed-ends (signed (strip s))
int_of-ends (arr xs) = refl
int_of-ends (obj d) = refl

int_of_runs : int_of (text " 1_200 ") ≡ ok 1200
unfolding int_of
int_of_runs = refl
