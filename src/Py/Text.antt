-- ===== src/Py/Text.antt =====
-- Python's `str` methods that the source calls, and the decimal text of a number.
use Prim.Native.Char.{Char, code}
use Prim.Native.String.{[] as ε, ◌∷◌ as ◌▹◌, ◌++◌ as ◌+++◌, char_at}
use agentic_ops_platform.Prelude.{
  ℕ, zero, suc, ◌-◌, ◌/◌, ◌%◌, String, Bool, ◌&&◌, ◌||◌, ◌==◌, leb, ltb, if◌then◌else◌, ◌≡◌, refl,
  ◌≤◌, arith, Bool-cases, inl, inr, str_eq,
}

-- The characters that `str.strip` and `str.split` take for white space.
unfoldable pub is_space : Char → Bool
is_space ch =
    let c = code ch in
    (leb 9 c && leb c 13)
    || (leb 28 c && leb c 32)
    || c == 133
    || c == 160
    || c == 5760
    || (leb 8192 c && leb c 8202)
    || c == 8232
    || c == 8233
    || c == 8239
    || c == 8287
    || c == 12288

lstrip : String → String
unfolding is_space
lstrip ε = ε
lstrip (◌▹◌ c s) = let rest = lstrip s in if is_space c then rest else ◌▹◌ c s

-- A white space character is kept if something that is none stands behind it.
unfoldable pub rstrip : String → String
unfolding is_space
rstrip ε = ε
rstrip (◌▹◌ c s) = let rest = rstrip s in if str_eq rest "" && is_space c then ε else ◌▹◌ c rest

-- len(s)
abbrev pub text_length : String → ℕ
text_length ε = 0
text_length (◌▹◌ c s) = suc (text_length s)

-- s.strip()
unfoldable pub strip : String → String
unfolding lstrip rstrip
strip s = rstrip (lstrip s)

lower_char : Char → Char
lower_char ch =
    let c = code ch in
    if leb 65 c && leb c 90 then char_at "abcdefghijklmnopqrstuvwxyz" (c - 65) else ch

-- s.lower(), of ASCII letters; other letters stay.
unfoldable pub lower : String → String
unfolding lower_char
lower ε = ε
lower (◌▹◌ c s) = ◌▹◌ (lower_char c) (lower s)

digit : ℕ → String
digit n = ◌▹◌ (char_at "0123456789" n) ε

decimal_from : ℕ → ℕ → String
unfolding digit
decimal_from zero n = digit n
decimal_from (suc fuel) n =
    let more = ◌+++◌ (decimal_from fuel (n / 10)) (digit (n % 10)) in
    if ltb n 10 then digit n else more

-- f"{n}"; every round divides `n` by ten, so `n` rounds are enough.
unfoldable pub decimal : ℕ → String
unfolding decimal_from
decimal n = decimal_from n n

-- f"{n:0{width}}"
unfoldable pub padded : ℕ → ℕ → String
unfolding digit
padded zero n = ε
padded (suc width) n = ◌+++◌ (padded width (n / 10)) (digit (n % 10))

lower-strip : lower (strip "  Approve \n") ≡ "approve"
unfolding strip lower
lower-strip = refl

decimal_runs : decimal 3600 ≡ "3600"
unfolding decimal
decimal_runs = refl

lstrip-le : (s : String) → text_length (lstrip s) ≤ text_length s
unfolding lstrip
lstrip-le ε = omega arith
lstrip-le (◌▹◌ c s) = ground (arith, lstrip-le s)

pub rstrip-le : (s : String) → text_length (rstrip s) ≤ text_length s
unfolding rstrip
rstrip-le ε = omega arith
rstrip-le (◌▹◌ c s) = elim (Bool-cases (str_eq (rstrip s) "" && is_space c)) [
  | inl blank ↦ rw blank (omega arith)
  | inr other ↦ rw other (omega (arith, rstrip-le s))
]

pub strip-le : (s : String) → text_length (strip s) ≤ text_length s
unfolding strip
strip-le s = omega (arith, lstrip-le s, rstrip-le (lstrip s))
