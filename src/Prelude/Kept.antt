-- ===== src/Prelude/Kept.antt =====
-- Rows that a selection keeps, and what holds of every row holds of a member.
use Prim.Native.Nat.{◌≤◌}
use mathlib.Core.Path.{◌≡◌, refl, sym, subst}
use mathlib.Core.Logic.{inl, inr}
use mathlib.Core.Bool.{Bool, true, false, ◌&&◌}
use mathlib.Core.List.{List, [], ◌∷◌, ◌++◌, Memᴰ}
use native.Mathlib.Omega.{arith}
use agentic_ops_platform.Prelude.Tests.{Bool-cases}
use agentic_ops_platform.Prelude.Rows.{All, any, select_where, count_where, update_where}

module _ {ℓ} {A : Type ℓ} (p q : A → Bool) where
  pub count-select_where_le : (xs : List A) → count_where p (select_where q xs) ≤ count_where p xs
  count-select_where_le [] = omega arith
  count-select_where_le (x ∷ xs) = ground (arith, count-select_where_le xs)

module _ {ℓ κ μ} {A : Type ℓ} {P : A → Type κ} {Q : A → Type μ} (q : A → Bool) where
  -- Of the rows that a test leaves, what holds of all rows and what the test says give more.
  pub All-kept :
      ((x : A) → q x ≡ true → P x → Q x) → (xs : List A) → All P xs → All Q (select_where q xs)
  All-kept more [] h = tt
  All-kept more (x ∷ xs) h = elim (Bool-cases (q x)) [
    | inl kept ↦ rw kept (more x kept h.0, All-kept more xs h.1)
    | inr gone ↦ rw gone (All-kept more xs h.1)
  ]

pub All-mem {ℓ κ} : {A : Type ℓ} (P : A → Type κ) (xs : List A) (x : A) → All P xs → Memᴰ x xs → P x
All-mem P [] x h m = elim m [ ]
All-mem P (y ∷ ys) x h (Memᴰ.head e) = subst P (sym e) h.0
All-mem P (y ∷ ys) x h (Memᴰ.tail m) = All-mem P ys x h.1 m

-- An update of rows that fail a test, before it and after, is not seen by a selection.
module _ {ℓ} {A : Type ℓ} (p w : A → Bool) (f : A → A) where
  pub select-update_where_other :
      (xs : List A)
      → All (λ x. w x ≡ true → (p x ≡ false) × (p (f x) ≡ false)) xs
      → select_where p (update_where w f xs) ≡ select_where p xs
  select-update_where_other [] h = refl
  select-update_where_other (x ∷ xs) h = elim (Bool-cases (w x)) [
    | inl hit ↦
        let (before, after) = h.0 hit in rw (hit, before, after) (select-update_where_other xs h.1)
    | inr miss ↦ rw (miss, select-update_where_other xs h.1) refl
  ]

module _ {ℓ} {A : Type ℓ} (p w : A → Bool) where
  -- A selection from rows that pass a weaker test.
  pub select-select_where_other :
      ((x : A) → p x ≡ true → w x ≡ true)
      → (xs : List A) → select_where p (select_where w xs) ≡ select_where p xs
  select-select_where_other both [] = refl
  select-select_where_other both (x ∷ xs) =
      ground (arith, both x, select-select_where_other both xs)

module _ {ℓ} {A : Type ℓ} (p : A → Bool) where
  pub select-append_other :
      (xs : List A) (x : A) → p x ≡ false → select_where p (xs ++ x ∷ []) ≡ select_where p xs
  select-append_other [] x off = rw off refl
  select-append_other (y ∷ ys) x off = rw (select-append_other ys x off) refl

  pub All-not_any : (xs : List A) → All (λ x. p x ≡ false) xs → any p xs ≡ false
  All-not_any [] h = refl
  All-not_any (x ∷ xs) h = rw (h.0, All-not_any xs h.1) refl

  pub select_where-All : (xs : List A) → All (λ x. p x ≡ true) (select_where p xs)
  select_where-All [] = tt
  select_where-All (x ∷ xs) = elim (Bool-cases (p x)) [
    | inl hit ↦ rw hit (hit, select_where-All xs)
    | inr miss ↦ rw miss (select_where-All xs)
  ]

module _ {ℓ} {A : Type ℓ} (p q r : A → Bool) (meet : (x : A) → (q x && p x) ≡ r x) where
  pub any-select_where_meet : (xs : List A) → any p (select_where q xs) ≡ any r xs
  any-select_where_meet [] = refl
  any-select_where_meet (x ∷ xs) = ground (arith, meet x, any-select_where_meet xs)

module _ {ℓ κ} {A : Type ℓ} (P : A → Type κ) (w : A → Bool) (f : A → A) where
  -- After an update, the rows that pass its test are those that it made.
  pub update_where-All :
      ((x : A) → P (f x)) → (xs : List A) → All (λ x. w x ≡ true → P x) (update_where w f xs)
  update_where-All made [] = tt
  update_where-All made (x ∷ xs) = (
    elim (Bool-cases (w x)) [ inl hit ↦ rw hit (λ _. made x) | inr miss ↦ rw miss (λ on. cc) ],
    update_where-All made xs,
  )
