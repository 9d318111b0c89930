-- ===== src/Prelude/Members.antt =====
-- Members of lists, and the tests that they pass.
use mathlib.Core.Path.{◌≡◌, refl, sym, ap, ◌∙◌}
use mathlib.Core.Logic.{◌⊎◌, inl, inr}
use mathlib.Core.Bool.{Bool, true}
use mathlib.Core.List.{List, [], ◌∷◌, ◌++◌, Memᴰ}
use agentic_ops_platform.Prelude.Tests.{Bool-cases}
use agentic_ops_platform.Prelude.Rows.{any, select_where}

module _ {ℓ} {A : Type ℓ} where
  pub mem-cons : (x y : A) (ys : List A) → Memᴰ x (y ∷ ys) → (x ≡ y) ⊎ Memᴰ x ys
  mem-cons x y ys (Memᴰ.head e) = inl e
  mem-cons x y ys (Memᴰ.tail m) = inr m

  pub mem-append_left : (xs ys : List A) (x : A) → Memᴰ x xs → Memᴰ x (xs ++ ys)
  mem-append_left [] ys x m = elim m [ ]
  mem-append_left (z ∷ zs) ys x (Memᴰ.head e) = Memᴰ.head e
  mem-append_left (z ∷ zs) ys x (Memᴰ.tail m) = Memᴰ.tail (mem-append_left zs ys x m)

  pub mem-snoc : (xs : List A) (x : A) → Memᴰ x (xs ++ x ∷ [])
  mem-snoc [] x = Memᴰ.head refl
  mem-snoc (y ∷ ys) x = Memᴰ.tail (mem-snoc ys x)

  pub snoc-mem : (xs : List A) (x y : A) → Memᴰ y (xs ++ x ∷ []) → Memᴰ y xs ⊎ (y ≡ x)
  snoc-mem [] x y (Memᴰ.head e) = inr e
  snoc-mem [] x y (Memᴰ.tail m) = inl m
  snoc-mem (z ∷ zs) x y (Memᴰ.head e) = inl (Memᴰ.head e)
  snoc-mem (z ∷ zs) x y (Memᴰ.tail m) = elim (snoc-mem zs x y m) [
    | inl m' ↦ inl (Memᴰ.tail m')
    | inr e ↦ inr e
  ]

module _ {ℓ} {A : Type ℓ} (p : A → Bool) where
  pub any-Mem : (xs : List A) → any p xs ≡ true → (x : A) × Memᴰ x xs × (p x ≡ true)
  any-Mem [] h = cc
  any-Mem (x ∷ xs) h = elim (Bool-cases (p x)) [
    | inl hit ↦ (x, Memᴰ.head refl, hit)
    | inr miss ↦ let (y, m, hit) = any-Mem xs (rw miss at h) in (y, Memᴰ.tail m, hit)
  ]

  pub mem-select_where : (xs : List A) (x : A) → Memᴰ x xs → p x ≡ true → Memᴰ x (select_where p xs)
  mem-select_where [] x m h = elim m [ ]
  mem-select_where (y ∷ ys) x (Memᴰ.head e) h =
      let on : p y ≡ true = ap p (sym e) ∙ h in rw on (Memᴰ.head e)
  mem-select_where (y ∷ ys) x (Memᴰ.tail m) h = elim (Bool-cases (p y)) [
    | inl hit ↦ rw hit (Memᴰ.tail (mem-select_where ys x m h))
    | inr miss ↦ rw miss (mem-select_where ys x m h)
  ]

  pub select_where-mem :
      (xs : List A) (x : A) → Memᴰ x (select_where p xs) → Memᴰ x xs × (p x ≡ true)
  select_where-mem [] x m = elim m [ ]
  select_where-mem (y ∷ ys) x m = elim (Bool-cases (p y)) [
    | inl hit ↦ elim (mem-cons x y (select_where p ys) (rw hit at m)) [
      | inl e ↦ (Memᴰ.head e, ap p e ∙ hit)
      | inr m1 ↦ let (m2, h) = select_where-mem ys x m1 in (Memᴰ.tail m2, h)
    ]
    | inr miss ↦ let (m', h) = select_where-mem ys x (rw miss at m) in (Memᴰ.tail m', h)
  ]
