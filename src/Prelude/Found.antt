-- ===== src/Prelude/Found.antt =====
-- The row that a query by key finds, after rows were added or changed.
use mathlib.Core.Path.{◌≡◌, refl}
use mathlib.Core.Logic.{inl, inr}
use mathlib.Core.Bool.{Bool, true, false}
use mathlib.Core.Option.{some}
use mathlib.Core.List.{List, [], ◌∷◌, ◌++◌}
use native.Mathlib.Omega.{arith}
use agentic_ops_platform.Prelude.Tests.{Bool-cases}
use agentic_ops_platform.Prelude.Rows.{All, find_where, update_where, select_where}

module _ {ℓ} {A : Type ℓ} (p : A → Bool) where
  pub find-append :
      (xs ys : List A) (t : A) → find_where p xs ≡ some t → find_where p (xs ++ ys) ≡ some t
  find-append [] ys t h = cc
  find-append (x ∷ xs) ys t h = ground (arith, find-append xs ys t)

  -- A row that is found keeps a test that holds of every row.
  pub All-find {κ} :
      (P : A → Type κ) (xs : List A) (t : A) → All P xs → find_where p xs ≡ some t → P t
  All-find P [] t h e = cc
  All-find P (x ∷ xs) t h e = elim (Bool-cases (p x)) [
    | inl hit ↦ (let same : x ≡ t = cc (rw hit at e) in rw (← same) h.0)
    | inr miss ↦ All-find P xs t h.1 (rw miss at e)
  ]

module _ {ℓ} {A : Type ℓ} (p w : A → Bool) (f : A → A)
    (blind : (x : A) → w x ≡ true → p (f x) ≡ p x) where
  -- An UPDATE that does not hit the row that is found.
  pub find-update_where_kept :
      (xs : List A) (t : A)
      → find_where p xs ≡ some t
      → w t ≡ false
      → find_where p (update_where w f xs) ≡ some t
  find-update_where_kept [] t h off = cc
  find-update_where_kept (x ∷ xs) t h off = ground (arith, blind x, find-update_where_kept xs t)

  -- An UPDATE that hits it.
  pub find-update_where_hit :
      (xs : List A) (t : A)
      → find_where p xs ≡ some t
      → w t ≡ true
      → find_where p (update_where w f xs) ≡ some (f t)
  find-update_where_hit [] t h on = cc
  find-update_where_hit (x ∷ xs) t h on = ground (arith, blind x, find-update_where_hit xs t)

module _ {ℓ} {A : Type ℓ} (p : A → Bool) (f : A → A) (off : (x : A) → p (f x) ≡ false) where
  -- After an UPDATE whose rows fail its own test, the test selects no row, and the UPDATE does no
  -- more.
  pub select-update_where_off : (xs : List A) → select_where p (update_where p f xs) ≡ []
  select-update_where_off [] = refl
  select-update_where_off (x ∷ xs) = ground (arith, off x, select-update_where_off xs)
