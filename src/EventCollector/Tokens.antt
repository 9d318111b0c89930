-- ===== src/EventCollector/Tokens.antt =====
-- gateway/event_collector.py: the token counts that an event reports. `json.loads` and
-- `ast.literal_eval` are arguments that give nothing where they raise; a value of theirs that is
-- neither a dictionary nor a text may stand as `null`. The search of TOKEN_TOTAL_PATTERN is an
-- argument as well.
use agentic_ops_platform.Prelude.{
  ℕ, zero, suc, ◌+◌, max, String, Bool, true, false, ◌||◌, Option, none, some, if◌then◌else◌,
  str_eq,
}
use agentic_ops_platform.Py.Text.{strip, text_length}
use agentic_ops_platform.Py.Number.{int_of}
use agentic_ops_platform.Py.Json.{
  Json, Items, Dict, flag, num, float, text, arr, obj, nil, cons, get, either,
}
use agentic_ops_platform.Py.Result.{Result, ok, raise, out_of_fuel, type_error, ◌>>=◌}

pub record Parsers : Type 0 where
  pub json_loads : String → Option Json
  pub literal_eval : String → Option Json
  -- int(match.group(1)) of the first match
  pub search_total : String → Option ℕ

-- isinstance(v, (int, float))
abbrev pub is_number : Json → Bool
is_number (flag b) = true
is_number (num n) = true
is_number (float n) = true
is_number _ = false

-- int(v or 0)
unfoldable pub count_of : Json → Result ℕ
unfolding int_of either
count_of v = int_of (either v (num 0))

-- The usage is a dictionary.
unfoldable pub dict_tokens : Dict → Result (Option ℕ)
unfolding get int_of count_of
dict_tokens d =
    if is_number (get "total_tokens" d)
    then (int_of (get "total_tokens" d) >>= λ n. ok (some n))
    else if is_number (get "input_tokens" d) || is_number (get "output_tokens" d)
    then (count_of (get "input_tokens" d) >>= λ i.
        count_of (get "output_tokens" d) >>= λ o. ok (some (i + o)))
    else ok none

-- The next parser, where one finds no total.
abbrev pub or_next : Result (Option ℕ) → Result (Option ℕ) → Result (Option ℕ)
or_next (ok none) next = next
or_next r next = r

-- A text may hold a text again: the calls are counted by fuel.
unfoldable pub coerce_within : Parsers → ℕ → Json → Result (Option ℕ)
unfolding dict_tokens strip
coerce_within p fuel (obj d) = dict_tokens d
coerce_within p zero (text s) = raise out_of_fuel
coerce_within p (suc fuel) (text s) =
    let stripped = strip s in
    if str_eq stripped ""
    then ok none
    else or_next (elim (p.json_loads stripped) [ none ↦ ok none | some v ↦ coerce_within p fuel v ])
        (or_next
          (elim (p.literal_eval stripped) [ none ↦ ok none | some v ↦ coerce_within p fuel v ])
          (ok (p.search_total stripped)))
coerce_within p fuel _ = ok none

abbrev pub fuel_for : Json → ℕ
fuel_for (text s) = suc (text_length s)
fuel_for _ = 0

unfoldable pub coerce_total_tokens : Parsers → Json → Result (Option ℕ)
unfolding coerce_within
coerce_total_tokens p usage = coerce_within p (fuel_for usage) usage

-- v == s, of a text s
abbrev pub is_text : String → Json → Bool
is_text s (text t) = str_eq t s
is_text s _ = false

-- message.get("subtype") in {"task_progress", "task_notification"}; a list or a dictionary has no
-- hash
unfoldable pub is_progress : Json → Result Bool
is_progress (arr xs) = raise type_error
is_progress (obj d) = raise type_error
is_progress v = ok (is_text "task_progress" v || is_text "task_notification" v)

unfoldable pub payload_tokens : Parsers → Json → Result (Option ℕ)
unfolding coerce_total_tokens get
payload_tokens p (obj d) = coerce_total_tokens p (get "workflow_usage" d) >>= λ o. elim o [
  | some n ↦ ok (some n)
  | none ↦ coerce_total_tokens p (get "usage" d)
]
payload_tokens p _ = ok none

unfoldable pub message_tokens : Parsers → Json → Result (Option ℕ)
unfolding coerce_total_tokens get is_progress payload_tokens
message_tokens p (obj m) =
    if is_text "result" (get "type" m)
    then coerce_total_tokens p (get "usage" m)
    else if is_text "system" (get "type" m)
    then (is_progress (get "subtype" m) >>= λ b.
        if b then payload_tokens p (get "data" m) else ok none)
    else ok none
message_tokens p _ = ok none

abbrev pub latest : Option ℕ → Option ℕ → Option ℕ
latest before none = before
latest before (some n) = some n

unfoldable pub latest_total : Parsers → Option ℕ → Items → Result (Option ℕ)
unfolding message_tokens
latest_total p before nil = ok before
latest_total p before (cons m rest) =
    message_tokens p m >>= λ o. latest_total p (latest before o) rest

unfoldable pub extract_incremental_tokens : Parsers → Dict → Result (Option ℕ)
unfolding latest_total get
extract_incremental_tokens p event_data = elim (get "messages" event_data) [
  | arr messages ↦ latest_total p none messages
  | _ ↦ ok none
]

abbrev pub monotonic_token_total : ℕ → ℕ → ℕ
monotonic_token_total current observed = max current observed
