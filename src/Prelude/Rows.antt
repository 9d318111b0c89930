-- ===== src/Prelude/Rows.antt =====
-- Tables as lists of rows: `SELECT ... WHERE`, `UPDATE ... WHERE`, `DELETE ... WHERE`, and counts.
use Prim.Native.Nat.{ℕ, ◌+◌, ◌≤◌, ◌<◌}
use mathlib.Core.Path.{◌≡◌, refl, sym, ap}
use mathlib.Core.Logic.{inl, inr}
use mathlib.Core.Bool.{Bool, true, false, not}
use mathlib.Core.Option.{Option, none, some}
use mathlib.Core.List.{List, [], ◌∷◌, ◌++◌, Memᴰ}
use native.Mathlib.Omega.{arith}
use agentic_ops_platform.Prelude.Tests.{if◌then◌else◌, Bool-cases}
use agentic_ops_platform.Prelude.Lists.{length}

-- Holds of every row.
abbrev pub All {ℓ κ} : {A : Type ℓ} → (A → Type κ) → List A → Type κ
All P [] = Unit
All P (x ∷ xs) = P x × All P xs

module _ {ℓ} {A : Type ℓ} where
  abbrev pub select_where : (A → Bool) → List A → List A
  select_where p [] = []
  select_where p (x ∷ xs) = let rest = select_where p xs in if p x then x ∷ rest else rest

  abbrev pub update_where : (A → Bool) → (A → A) → List A → List A
  update_where p f [] = []
  update_where p f (x ∷ xs) = (if p x then f x else x) ∷ update_where p f xs

  abbrev pub delete_where : (A → Bool) → List A → List A
  delete_where p = select_where (λ x. not (p x))

  abbrev pub count_where : (A → Bool) → List A → ℕ
  count_where p [] = 0
  count_where p (x ∷ xs) = (if p x then 1 else 0) + count_where p xs

  -- The first row that passes; a query by primary key has at most one.
  abbrev pub find_where : (A → Bool) → List A → Option A
  find_where p [] = none
  find_where p (x ∷ xs) = let rest = find_where p xs in if p x then some x else rest

  abbrev pub any : (A → Bool) → List A → Bool
  any p [] = false
  any p (x ∷ xs) = let rest = any p xs in if p x then true else rest

module _ {ℓ κ μ} {A : Type ℓ} {P : A → Type κ} {Q : A → Type μ} where
  pub All-mono : (xs : List A) → ((x : A) → P x → Q x) → All P xs → All Q xs
  All-mono [] f h = tt
  All-mono (x ∷ xs) f h = (f x h.0, All-mono xs f h.1)

module _ {ℓ κ} {A : Type ℓ} (P : A → Type κ) where
  pub All-snoc : (xs : List A) (x : A) → All P xs → P x → All P (xs ++ x ∷ [])
  All-snoc [] x h p = (p, tt)
  All-snoc (y ∷ ys) x h p = (h.0, All-snoc ys x h.1 p)

  pub All-update_where :
      (w : A → Bool) (f : A → A) (xs : List A)
      → ((x : A) → P x → P (f x))
      → All P xs
      → All P (update_where w f xs)
  All-update_where w f [] keep h = tt
  All-update_where w f (x ∷ xs) keep h = (
    elim (Bool-cases (w x)) [ inl e ↦ rw e (keep x h.0) | inr e ↦ rw e h.0 ],
    All-update_where w f xs keep h.1,
  )

module _ {ℓ} {A : Type ℓ} (p : A → Bool) where
  pub count-append :
      (xs ys : List A) → count_where p (xs ++ ys) ≡ count_where p xs + count_where p ys
  count-append [] ys = omega arith
  count-append (x ∷ xs) ys = omega (arith, count-append xs ys)

  pub length-select_where : (xs : List A) → length (select_where p xs) ≡ count_where p xs
  length-select_where [] = refl
  length-select_where (x ∷ xs) = ground (arith, length-select_where xs)

  pub not-any-count : (xs : List A) → any p xs ≡ false → count_where p xs ≡ 0
  not-any-count [] h = refl
  not-any-count (x ∷ xs) h = ground (arith, not-any-count xs)

  pub any-append : (xs ys : List A) → any p xs ≡ true → any p (xs ++ ys) ≡ true
  any-append [] ys h = cc
  any-append (x ∷ xs) ys h = ground (arith, any-append xs ys)

  pub any-append_right : (xs ys : List A) → any p ys ≡ true → any p (xs ++ ys) ≡ true
  any-append_right [] ys h = h
  any-append_right (x ∷ xs) ys h = ground (arith, any-append_right xs ys h)

  pub find-passes : (xs : List A) (x : A) → find_where p xs ≡ some x → p x ≡ true
  find-passes [] x h = cc
  find-passes (y ∷ ys) x h = ground (arith, find-passes ys x)

  pub find-any : (xs : List A) (x : A) → find_where p xs ≡ some x → any p xs ≡ true
  find-any [] x h = cc
  find-any (y ∷ ys) x h = ground (arith, find-any ys x)

  pub find-none : (xs : List A) → find_where p xs ≡ none → any p xs ≡ false
  find-none [] h = refl
  find-none (y ∷ ys) h = ground (arith, find-none ys)

-- An update that a test does not see.
module _ {ℓ} {A : Type ℓ} (p w : A → Bool) (f : A → A) (blind : (x : A) → p (f x) ≡ p x) where
  pub any-update_where : (xs : List A) → any p (update_where w f xs) ≡ any p xs
  any-update_where [] = refl
  any-update_where (x ∷ xs) = ground (arith, blind x, any-update_where xs)

  pub count-update_where : (xs : List A) → count_where p (update_where w f xs) ≡ count_where p xs
  count-update_where [] = refl
  count-update_where (x ∷ xs) = ground (arith, blind x, count-update_where xs)

module _ {ℓ} {A : Type ℓ} (p w : A → Bool) (f : A → A) where
  -- An update adds at most the rows that it changes to those that pass a test.
  pub count-update_where_le :
      (xs : List A) → count_where p (update_where w f xs) ≤ count_where p xs + count_where w xs
  count-update_where_le [] = omega arith
  count-update_where_le (x ∷ xs) = ground (arith, count-update_where_le xs)

  -- An update that makes every changed row fail the test.
  pub count-update_where_off :
      ((x : A) → p (f x) ≡ false)
      → (xs : List A) → count_where p (update_where w f xs) ≤ count_where p xs
  count-update_where_off off [] = omega arith
  count-update_where_off off (x ∷ xs) = ground (arith, off x, count-update_where_off off xs)

  -- One that hits a row which passed.
  pub count-update_where_falls :
      ((x : A) → p (f x) ≡ false)
      → (xs : List A) (t : A) → Memᴰ t xs
      → p t ≡ true
      → w t ≡ true
      → count_where p (update_where w f xs) < count_where p xs
  count-update_where_falls off [] t m h on = elim m [ ]
  count-update_where_falls off (x ∷ xs) t (Memᴰ.head e) h on =
      ground (arith, off x, count-update_where_off off xs)
  count-update_where_falls off (x ∷ xs) t (Memᴰ.tail m) h on =
      ground (arith, off x, count-update_where_falls off xs t m h on)

module _ {ℓ} {A : Type ℓ} (p : A → Bool) where
  pub mem-count : {t : A} (xs : List A) → Memᴰ t xs → p t ≡ true → 0 < count_where p xs
  mem-count [] m h = elim m [ ]
  mem-count (x ∷ xs) (Memᴰ.head e) h = ground arith
  mem-count (x ∷ xs) (Memᴰ.tail m) h = ground (arith, mem-count xs m h)

  pub zero-All : (xs : List A) → count_where p xs ≡ 0 → All (λ x. p x ≡ false) xs
  zero-All [] h = tt
  zero-All (x ∷ xs) h = (ground arith, zero-All xs (ground arith))

  pub All-zero : (xs : List A) → All (λ x. p x ≡ false) xs → count_where p xs ≡ 0
  All-zero [] h = refl
  All-zero (x ∷ xs) h = ground (arith, h.0, All-zero xs h.1)

  -- A row that passes a test which one row at most passes is the only one to pass it.
  pub unique-All :
      (t : A) (xs : List A)
      → Memᴰ t xs
      → p t ≡ true
      → count_where p xs ≤ 1
      → All (λ x. p x ≡ true → x ≡ t) xs
  unique-All t [] m h le = elim m [ ]
  unique-All t (x ∷ xs) (Memᴰ.head e) h le =
      (λ _. sym e, All-mono xs (λ y off on. cc) (zero-All xs (ground arith)))
  unique-All t (x ∷ xs) (Memᴰ.tail m) h le =
      (λ on. absurd (ground (arith, mem-count xs m h)), unique-All t xs m h (ground (arith)))

  pub mem-any : {t : A} (xs : List A) → Memᴰ t xs → p t ≡ true → any p xs ≡ true
  mem-any [] m h = elim m [ ]
  mem-any (x ∷ xs) (Memᴰ.head e) h = ground arith
  mem-any (x ∷ xs) (Memᴰ.tail m) h = ground (arith, mem-any xs m h)

-- An update that a test does not see at the rows that it changes.
module _ {ℓ} {A : Type ℓ} (p w : A → Bool) (f : A → A) where
  pub count-update_where-All :
      (xs : List A)
      → All (λ x. w x ≡ true → p (f x) ≡ p x) xs
      → count_where p (update_where w f xs) ≡ count_where p xs
  count-update_where-All [] h = refl
  count-update_where-All (x ∷ xs) h = ground (arith, h.0, count-update_where-All xs h.1)

module _ {ℓ} {A : Type ℓ} (p : A → Bool) (f : A → A) where
  update_where-none : (xs : List A) → count_where p xs ≡ 0 → update_where p f xs ≡ xs
  update_where-none [] h = refl
  update_where-none (x ∷ xs) h = ground (arith, update_where-none xs)

  -- If one row at most passes, an update changes that row alone.
  pub update_where_unique :
      (ds : List A) (x : A) (xs : List A)
      → count_where p (ds ++ x ∷ xs) ≤ 1
      → p x ≡ true
      → update_where p f (ds ++ x ∷ xs) ≡ ds ++ f x ∷ xs
  update_where_unique [] x xs le h = ground (arith, update_where-none xs)
  update_where_unique (d ∷ ds) x xs le h =
      ground (arith, update_where_unique ds x xs, count-append p ds (x ∷ xs))

pub append-snoc {ℓ} :
    {A : Type ℓ} (ds : List A) (x : A) (xs : List A) → ds ++ x ∷ xs ≡ (ds ++ x ∷ []) ++ xs
append-snoc [] x xs = refl
append-snoc (d ∷ ds) x xs = ap (λ l. d ∷ l) (append-snoc ds x xs)

-- Lookups by a test after an update.
module _ {ℓ} {A : Type ℓ} (p w : A → Bool) (f : A → A) where
  pub find-update_where_self :
      ((x : A) → p (f x) ≡ p x)
      → ((x : A) → p x ≡ true → w x ≡ true)
      → (xs : List A) (t : A) → find_where p xs ≡ some t
      → find_where p (update_where w f xs) ≡ some (f t)
  find-update_where_self blind all [] t h = cc
  find-update_where_self blind all (x ∷ xs) t h =
      ground (arith, blind x, all x, find-update_where_self blind all xs t)

  pub find-update_where_other :
      ((x : A) → p (f x) ≡ p x)
      → ((x : A) → p x ≡ true → w x ≡ false)
      → (xs : List A) → find_where p (update_where w f xs) ≡ find_where p xs
  find-update_where_other blind none_ [] = refl
  find-update_where_other blind none_ (x ∷ xs) =
      ground (arith, blind x, none_ x, find-update_where_other blind none_ xs)
