-- ===== src/Prelude/Sorted.antt =====
-- `ORDER BY`: insertion sort, which keeps the order of rows that no test tells apart.
use mathlib.Core.Path.{◌≡◌, refl}
use Prim.Native.Nat.{suc}
use mathlib.Core.Bool.{Bool, false}
use mathlib.Core.List.{List, [], ◌∷◌, Memᴰ}
use native.Mathlib.Omega.{arith}
use mathlib.Core.Logic.{inl, inr}
use agentic_ops_platform.Prelude.Tests.{if◌then◌else◌, Bool-cases}
use agentic_ops_platform.Prelude.Rows.{All, All-mono, any}
use agentic_ops_platform.Prelude.Members.{mem-cons}
use agentic_ops_platform.Prelude.Lists.{length}
use agentic_ops_platform.Prelude.Least.{IsOrder}

module _ {ℓ} {A : Type ℓ} (before : A → A → Bool) where
  insert_by : A → List A → List A
  insert_by x [] = x ∷ []
  insert_by x (y ∷ ys) = let rest = insert_by x ys in if before y x then y ∷ rest else x ∷ y ∷ ys

  unfoldable pub sort_by : List A → List A
  unfolding insert_by
  sort_by [] = []
  sort_by (x ∷ xs) = insert_by x (sort_by xs)

module _ {ℓ κ} {A : Type ℓ} (P : A → Type κ) (before : A → A → Bool) where
  insert-All : (x : A) (xs : List A) → P x → All P xs → All P (insert_by before x xs)
  unfolding insert_by
  insert-All x [] h hs = (h, tt)
  insert-All x (y ∷ ys) h hs = elim (Bool-cases (before y x)) [
    | inl e ↦ rw e (hs.0, insert-All x ys h hs.1)
    | inr e ↦ rw e (h, hs)
  ]

  pub sort_by-All : (xs : List A) → All P xs → All P (sort_by before xs)
  unfolding sort_by
  sort_by-All [] h = tt
  sort_by-All (x ∷ xs) h = insert-All x (sort_by before xs) h.0 (sort_by-All xs h.1)

module _ {ℓ} {A : Type ℓ} (p : A → Bool) (before : A → A → Bool) where
  insert-any : (x : A) (xs : List A) → any p (insert_by before x xs) ≡ any p (x ∷ xs)
  unfolding insert_by
  insert-any x [] = refl
  insert-any x (y ∷ ys) = ground (arith, insert-any x ys)

  pub sort_by-any : (xs : List A) → any p (sort_by before xs) ≡ any p xs
  unfolding sort_by
  sort_by-any [] = refl
  sort_by-any (x ∷ xs) = ground (arith, insert-any x (sort_by before xs), sort_by-any xs)

-- No row comes before an earlier one.
abbrev pub Ordered {ℓ} : {A : Type ℓ} → (A → A → Bool) → List A → Type ℓ
Ordered before [] = Unit
Ordered before (x ∷ xs) = All (λ y. before y x ≡ false) xs × Ordered before xs

module _ {ℓ} {A : Type ℓ} (before : A → A → Bool) where
  length-insert_by : (x : A) (xs : List A) → length (insert_by before x xs) ≡ suc (length xs)
  unfolding insert_by
  length-insert_by x [] = refl
  length-insert_by x (y ∷ ys) = ground (arith, length-insert_by x ys)

  pub length-sort_by : (xs : List A) → length (sort_by before xs) ≡ length xs
  unfolding sort_by
  length-sort_by [] = refl
  length-sort_by (x ∷ xs) = omega (arith, length-insert_by x (sort_by before xs), length-sort_by xs)

module _ {ℓ} {A : Type ℓ} (before : A → A → Bool) (order : IsOrder before) where
  insert-Ordered :
      (x : A) (xs : List A) → Ordered before xs → Ordered before (insert_by before x xs)
  unfolding insert_by
  insert-Ordered x [] h = (tt, tt)
  insert-Ordered x (y ∷ ys) h = elim (Bool-cases (before y x)) [
    | inl e ↦ rw e (
      insert-All (λ z. before z y ≡ false) before x ys (order.asymm y x e) h.0,
      insert-Ordered x ys h.1,
    )
    | inr e ↦ rw e ((e, All-mono ys (λ z k. order.neg_trans z y x k e) h.0), h)
  ]

  pub sort_by-Ordered : (xs : List A) → Ordered before (sort_by before xs)
  unfolding sort_by
  sort_by-Ordered [] = tt
  sort_by-Ordered (x ∷ xs) = insert-Ordered x (sort_by before xs) (sort_by-Ordered xs)

-- No row is lost.
module _ {ℓ} {A : Type ℓ} (before : A → A → Bool) where
  insert-Mem : (x y : A) (ys : List A) → Memᴰ x (y ∷ ys) → Memᴰ x (insert_by before y ys)
  unfolding insert_by
  insert-Mem x y [] m = m
  insert-Mem x y (z ∷ zs) m = elim (Bool-cases (before z y)) [
    | inl e ↦ rw e (elim (mem-cons x y (z ∷ zs) m) [
      | inl same ↦ Memᴰ.tail (insert-Mem x y zs (Memᴰ.head same))
      | inr later ↦ elim (mem-cons x z zs later) [
        | inl same ↦ Memᴰ.head same
        | inr last ↦ Memᴰ.tail (insert-Mem x y zs (Memᴰ.tail last))
      ]
    ])
    | inr e ↦ rw e m
  ]

  pub sort_by-Mem : (x : A) (xs : List A) → Memᴰ x xs → Memᴰ x (sort_by before xs)
  unfolding sort_by
  sort_by-Mem x [] m = m
  sort_by-Mem x (y ∷ ys) m = elim (mem-cons x y ys m) [
    | inl same ↦ insert-Mem x y (sort_by before ys) (Memᴰ.head same)
    | inr later ↦ insert-Mem x y (sort_by before ys) (Memᴰ.tail (sort_by-Mem x ys later))
  ]
