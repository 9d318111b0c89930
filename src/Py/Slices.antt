-- ===== src/Py/Slices.antt =====
-- Parts of a text: `s[:n]`, `s[n:]`, `s.startswith(t)`, `s.rstrip(c)`, `sep.join(parts)`.
use Prim.Native.Char.{code}
use Prim.Native.String.{[] as ε, ◌∷◌ as ◌▹◌, ◌++◌ as ◌+++◌}
use agentic_ops_platform.Prelude.{
  ℕ, zero, suc, String, Bool, true, false, ◌&&◌, ◌==◌, str_eq, List, [], ◌∷◌, if◌then◌else◌, ◌≡◌,
  refl,
}

-- s[:n]
unfoldable pub take_text : ℕ → String → String
take_text zero s = ε
take_text (suc n) ε = ε
take_text (suc n) (◌▹◌ c s) = ◌▹◌ c (take_text n s)

-- s[n:]
unfoldable pub drop_text : ℕ → String → String
drop_text zero s = s
drop_text (suc n) ε = ε
drop_text (suc n) (◌▹◌ c s) = drop_text n s

-- s.startswith(t)
unfoldable pub starts_with : String → String → Bool
starts_with s ε = true
starts_with ε (◌▹◌ d t) = false
starts_with (◌▹◌ c s) (◌▹◌ d t) =
    let rest = starts_with s t in if code c == code d then rest else false

-- s.rstrip(c) of one character, by its code
unfoldable pub rstrip_code : ℕ → String → String
rstrip_code k ε = ε
rstrip_code k (◌▹◌ c s) =
    let rest = rstrip_code k s in if str_eq rest "" && code c == k then ε else ◌▹◌ c rest

-- sep.join(parts)
unfoldable pub join : String → List String → String
join sep [] = ""
join sep (p ∷ []) = p
join sep (p ∷ q ∷ ps) = ◌+++◌ p (◌+++◌ sep (join sep (q ∷ ps)))

join_runs : join ", " ("a" ∷ "b" ∷ "c" ∷ []) ≡ "a, b, c"
unfolding join
join_runs = refl

slices_run : drop_text 2 (rstrip_code 47 "a://") ≡ ""
unfolding drop_text rstrip_code
slices_run = refl
