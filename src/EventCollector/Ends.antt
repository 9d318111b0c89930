-- ===== src/EventCollector/Ends.antt =====
-- How deep the texts of a usage may lie.
use agentic_ops_platform.Prelude.{
  ℕ, zero, suc, ◌≤◌, ◌<◌, ◌||◌, String, ◌≡◌, refl, true, Option, none, some, inl, inr, Bool-cases,
  str_eq, arith, if◌then◌else◌,
}
use agentic_ops_platform.Py.Text.{strip, text_length, strip-le}
use agentic_ops_platform.Py.Number.{int_of, int_of-ends}
use agentic_ops_platform.Py.Json.{Json, Dict, null, flag, num, float, text, arr, obj, get, either}
use agentic_ops_platform.Py.Result.{Result, ok, raise, ends, >>=-ends}
use agentic_ops_platform.EventCollector.Tokens.{
  Parsers, is_number, count_of, dict_tokens, or_next, coerce_within, fuel_for, coerce_total_tokens,
}

-- A text that a parser reads from a text stands between quotes there.
pub record ReadsShorter (p : Parsers) : Type 0 where
  pub loads : (s t : String) → p.json_loads s ≡ some (text t) → text_length t < text_length s
  pub evals : (s t : String) → p.literal_eval s ≡ some (text t) → text_length t < text_length s

-- What is read is shorter than `n`.
abbrev IsWithin : ℕ → Option Json → Type 0
IsWithin n o = (v : Json) → o ≡ some v → fuel_for v ≤ n

shorter-IsWithin :
    (n : ℕ) (s : String) (o : Option Json)
    → ((t : String) → o ≡ some (text t) → text_length t < text_length s)
    → text_length s ≤ n
    → IsWithin n o
shorter-IsWithin n s o reads le null e = omega arith
shorter-IsWithin n s o reads le (flag b) e = omega arith
shorter-IsWithin n s o reads le (num k) e = omega arith
shorter-IsWithin n s o reads le (float k) e = omega arith
shorter-IsWithin n s o reads le (text t) e = let lt = reads t e in omega arith
shorter-IsWithin n s o reads le (arr xs) e = omega arith
shorter-IsWithin n s o reads le (obj d) e = omega arith

-- One parser's result, by what the recursive call gives.
abbrev parsed : (Json → Result (Option ℕ)) → Option Json → Result (Option ℕ)
parsed again o = elim o [ none ↦ ok none | some v ↦ again v ]

abbrev from_text : Parsers → (Json → Result (Option ℕ)) → String → Result (Option ℕ)
from_text p again t =
    if str_eq t ""
    then ok none
    else or_next (parsed again (p.json_loads t))
        (or_next (parsed again (p.literal_eval t)) (ok (p.search_total t)))

parsed-same :
    (f g : Json → Result (Option ℕ)) (n : ℕ) (o : Option Json)
    → IsWithin n o
    → ((v : Json) → fuel_for v ≤ n → f v ≡ g v)
    → parsed f o ≡ parsed g o
parsed-same f g n none within same = refl
parsed-same f g n (some v) within same = same v (within v refl)

parsed-ends :
    (f : Json → Result (Option ℕ)) (n : ℕ) (o : Option Json)
    → IsWithin n o
    → ((v : Json) → fuel_for v ≤ n → ends (f v) ≡ true)
    → ends (parsed f o) ≡ true
parsed-ends f n none within end_ = refl
parsed-ends f n (some v) within end_ = end_ v (within v refl)

or_next-ends :
    (r next : Result (Option ℕ)) → ends r ≡ true → ends next ≡ true → ends (or_next r next) ≡ true
or_next-ends (ok none) next one two = two
or_next-ends (ok (some n)) next one two = refl
or_next-ends (raise e) next one two = one

module _ (p : Parsers) (reads : ReadsShorter p) (n : ℕ) (s : String) (le : text_length s ≤ n) where
  loads-IsWithin : IsWithin n (p.json_loads (strip s))
  loads-IsWithin =
      shorter-IsWithin n (strip s) (p.json_loads (strip s)) (reads.loads (strip s))
        (omega (arith, strip-le s))

  evals-IsWithin : IsWithin n (p.literal_eval (strip s))
  evals-IsWithin =
      shorter-IsWithin n (strip s) (p.literal_eval (strip s)) (reads.evals (strip s))
        (omega (arith, strip-le s))

  from_text-same :
      (f g : Json → Result (Option ℕ))
      → ((v : Json) → fuel_for v ≤ n → f v ≡ g v)
      → from_text p f (strip s) ≡ from_text p g (strip s)
  from_text-same f g same =
      rw
        (
          parsed-same f g n (p.json_loads (strip s)) loads-IsWithin same,
          parsed-same f g n (p.literal_eval (strip s)) evals-IsWithin same,
        )
        refl

  from_text-ends :
      (f : Json → Result (Option ℕ))
      → ((v : Json) → fuel_for v ≤ n → ends (f v) ≡ true)
      → ends (from_text p f (strip s)) ≡ true
  from_text-ends f end_ = elim (Bool-cases (str_eq (strip s) "")) [
    | inl blank ↦ rw blank refl
    | inr more ↦ rw more (
        or_next-ends _ _ (parsed-ends f n (p.json_loads (strip s)) loads-IsWithin end_)
          (or_next-ends _ _ (parsed-ends f n (p.literal_eval (strip s)) evals-IsWithin end_) refl))
  ]

count_of-ends : (v : Json) → ends (count_of v) ≡ true
unfolding count_of
count_of-ends v = int_of-ends (either v (num 0))

dict_tokens-ends : (d : Dict) → ends (dict_tokens d) ≡ true
unfolding dict_tokens
dict_tokens-ends d = elim (Bool-cases (is_number (get "total_tokens" d))) [
  | inl total ↦
      rw total (
        >>=-ends (int_of (get "total_tokens" d)) _ (int_of-ends (get "total_tokens" d)) (λ n. refl))
  | inr none_ ↦
      elim (Bool-cases (is_number (get "input_tokens" d) || is_number (get "output_tokens" d))) [
        | inl parts ↦
            rw (none_, parts)
              (>>=-ends (count_of (get "input_tokens" d)) _ (count_of-ends (get "input_tokens" d))
                (λ i.
                  >>=-ends (count_of (get "output_tokens" d)) _
                    (count_of-ends (get "output_tokens" d)) (λ o. refl)))
        | inr neither ↦ rw (none_, neither) refl
      ]
]

module _ (p : Parsers) (reads : ReadsShorter p) where
  coerce_within-same :
      (n m : ℕ) (v : Json)
      → fuel_for v ≤ n
      → fuel_for v ≤ m
      → coerce_within p n v ≡ coerce_within p m v
  unfolding coerce_within
  coerce_within-same zero m (text s) le le' = absurd (omega arith)
  coerce_within-same (suc n) zero (text s) le le' = absurd (omega arith)
  coerce_within-same (suc n) (suc m) (text s) le le' =
      from_text-same p reads (text_length s) s (omega arith) (coerce_within p n) (coerce_within p m)
        (λ v h. coerce_within-same n m v (omega arith) (omega arith))
  coerce_within-same n m null le le' = refl
  coerce_within-same n m (flag b) le le' = refl
  coerce_within-same n m (num k) le le' = refl
  coerce_within-same n m (float k) le le' = refl
  coerce_within-same n m (arr xs) le le' = refl
  coerce_within-same n m (obj d) le le' = refl

  coerce_within-ends : (n : ℕ) (v : Json) → fuel_for v ≤ n → ends (coerce_within p n v) ≡ true
  unfolding coerce_within
  coerce_within-ends zero (text s) le = absurd (omega arith)
  coerce_within-ends (suc n) (text s) le =
      from_text-ends p reads (text_length s) s (omega arith) (coerce_within p n)
        (λ v h. coerce_within-ends n v (omega arith))
  coerce_within-ends n null le = refl
  coerce_within-ends n (flag b) le = refl
  coerce_within-ends n (num k) le = refl
  coerce_within-ends n (float k) le = refl
  coerce_within-ends n (arr xs) le = refl
  coerce_within-ends n (obj d) le = dict_tokens-ends d

-- Where the two parsers read from a text only texts that are shorter, the fuel of
-- `_coerce_total_tokens`, one more than a text has characters, is enough for its calls of itself,
-- and any further fuel gives the same result.
pub coerce_total_tokens-ends :
    (p : Parsers) (usage : Json) (fuel : ℕ)
    → ReadsShorter p
    → fuel_for usage ≤ fuel
    → (ends (coerce_total_tokens p usage) ≡ true)
      × (coerce_within p fuel usage ≡ coerce_total_tokens p usage)
unfolding coerce_total_tokens
coerce_total_tokens-ends p usage fuel reads enough = (
  coerce_within-ends p reads (fuel_for usage) usage (omega arith),
  coerce_within-same p reads fuel (fuel_for usage) usage enough (omega arith),
)
