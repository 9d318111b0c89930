-- ===== src/Py/Json.antt =====
-- Values decoded from JSON, as the source reads them: `dict` with text keys, truth, `str`.
-- Numbers in payloads are counters and limits, so they are natural numbers here.
use Prim.Native.Char.{Char, code}
use Prim.Native.String.{[] as ε, ◌∷◌ as ◌▹◌, ◌++◌ as ◌+++◌, char_at}
use agentic_ops_platform.Prelude.{
  ℕ, ◌/◌, ◌%◌, String, Bool, true, false, not, ◌&&◌, ◌||◌, Option, none, some, ◌==◌, ltb, str_eq,
  eq_iff, if◌then◌else◌, or_else, ◌≡◌, refl, arith,
}
use agentic_ops_platform.Py.Text.{decimal, padded}

mutual
  pub data Json : Type 0 where
    null : Json
    flag : Bool → Json
    num : ℕ → Json
    -- a float, in millionths
    float : ℕ → Json
    text : String → Json
    arr : Items → Json
    obj : Dict → Json

  pub data Items : Type 0 where
    nil : Items
    cons : Json → Items → Items

  pub data Dict : Type 0 where
    empty : Dict
    entry : String → Json → Dict → Dict

-- d.get(k)
unfoldable pub get? : String → Dict → Option Json
get? k empty = none
get? k (entry j v d) = let rest = get? k d in if str_eq j k then some v else rest

-- d.get(k), with None for a missing key
unfoldable pub get : String → Dict → Json
unfolding get?
get k d = or_else (get? k d) null

-- d[k] = v: the key keeps its place
unfoldable pub put : String → Json → Dict → Dict
put k v empty = entry k v empty
put k v (entry j w d) = let rest = put k v d in if str_eq j k then entry k v d else entry j w rest

-- d.pop(k, None)
unfoldable pub remove : String → Dict → Dict
remove k empty = empty
remove k (entry j w d) = let rest = remove k d in if str_eq j k then rest else entry j w rest

-- d.update(e), {**d, **e}
unfoldable pub merge : Dict → Dict → Dict
unfolding put
merge d empty = d
merge d (entry k v e) = merge (put k v d) e

unfoldable pub append : Items → Json → Items
append nil v = cons v nil
append (cons x xs) v = cons x (append xs v)

abbrev pub is_empty : Dict → Bool
is_empty empty = true
is_empty (entry k v d) = false

-- bool(v)
unfoldable pub truthy : Json → Bool
truthy null = false
truthy (flag b) = b
truthy (num n) = not (n == 0)
truthy (float n) = not (n == 0)
truthy (text s) = not (str_eq s "")
truthy (arr nil) = false
truthy (arr (cons x xs)) = true
truthy (obj d) = not (is_empty d)

-- v or w
unfoldable pub either : Json → Json → Json
unfolding truthy
either v w = if truthy v then v else w

-- v if isinstance(v, dict) else {}
unfoldable pub as_dict : Json → Dict
as_dict (obj d) = d
as_dict _ = empty

-- the escapes of `repr` of a text, for the quote `q`; characters past ASCII are kept
escape_char : ℕ → Char → String
escape_char q ch =
    let c = code ch in
    if c == 92
    then "\\\\"
    else if c == 10
    then "\\n"
    else if c == 13
    then "\\r"
    else if c == 9
    then "\\t"
    else if c == q
    then ◌+++◌ "\\" (◌▹◌ ch ε)
    else if ltb c 32 || c == 127
    then ◌+++◌ "\\x"
        (◌▹◌ (char_at "0123456789abcdef" (c / 16)) (◌▹◌ (char_at "0123456789abcdef" (c % 16)) ε))
    else ◌▹◌ ch ε

escape : ℕ → String → String
unfolding escape_char
escape q ε = ε
escape q (◌▹◌ c s) = ◌+++◌ (escape_char q c) (escape q s)

has_char : ℕ → String → Bool
has_char q ε = false
has_char q (◌▹◌ c s) = let rest = has_char q s in if code c == q then true else rest

quoted : String → String
unfolding escape has_char
quoted s =
    if has_char 39 s && not (has_char 34 s)
    then ◌+++◌ "\"" (◌+++◌ (escape 34 s) "\"")
    else ◌+++◌ "'" (◌+++◌ (escape 39 s) "'")

mutual
  unfolding quoted decimal padded

  repr : Json → String
  repr null = "None"
  repr (flag true) = "True"
  repr (flag false) = "False"
  repr (num n) = decimal n
  repr (float n) = ◌+++◌ (decimal (n / 1000000)) (◌+++◌ "." (padded 6 (n % 1000000)))
  repr (text s) = quoted s
  repr (arr xs) = ◌+++◌ "[" (◌+++◌ (repr_items xs) "]")
  repr (obj d) = ◌+++◌ "{" (◌+++◌ (repr_dict d) "}")

  repr_items : Items → String
  repr_items nil = ""
  repr_items (cons x nil) = repr x
  repr_items (cons x (cons y ys)) = ◌+++◌ (repr x) (◌+++◌ ", " (repr_items (cons y ys)))

  repr_dict : Dict → String
  repr_dict empty = ""
  repr_dict (entry k v empty) = ◌+++◌ (quoted k) (◌+++◌ ": " (repr v))
  repr_dict (entry k v (entry j w d)) =
      ◌+++◌ (quoted k) (◌+++◌ ": " (◌+++◌ (repr v) (◌+++◌ ", " (repr_dict (entry j w d)))))

-- str(v)
unfoldable pub str : Json → String
unfolding repr
str (text s) = s
str v = repr v

pub get?-put :
    (k j : String) (v : Json) (d : Dict)
    → get? j (put k v d) ≡ (if str_eq k j then some v else get? j d)
unfolding get? put
get?-put k j v empty = refl
get?-put k j v (entry i w d) = ground (arith, eq_iff k j, eq_iff i k, eq_iff i j, get?-put k j v d)

pub get-put :
    (k j : String) (v : Json) (d : Dict) → get j (put k v d) ≡ (if str_eq k j then v else get j d)
unfolding get
get-put k j v d = ground (arith, get?-put k j v d)

str_runs : str (arr (cons (text "it's") (cons null nil))) ≡ "[\"it's\", None]"
unfolding str
str_runs = refl
