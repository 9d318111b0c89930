-- ===== src/Prelude/Least.antt =====
-- `ORDER BY ... LIMIT 1`: the first of the least rows, for a strict order given by a test.
use mathlib.Core.Path.{◌≡◌, refl, sym, ap, ◌∙◌, subst}
use mathlib.Core.Bool.{Bool, true, false}
use mathlib.Core.Option.{Option, none, some}
use mathlib.Core.List.{List, [], ◌∷◌, Memᴰ}
use native.Mathlib.Omega.{arith}
use agentic_ops_platform.Prelude.Tests.{if◌then◌else◌, Bool-cases}
use agentic_ops_platform.Prelude.Rows.{All, All-mono, select_where}
use mathlib.Core.Logic.{◌⊎◌, inl, inr}

-- A row without a row below it among two, and of two rows at least one is not below the other.
pub record IsOrder {ℓ} {A : Type ℓ} (before : A → A → Bool) : Type ℓ where
  pub irrefl : (a : A) → before a a ≡ false
  pub neg_trans : (a b c : A) → before a b ≡ false → before b c ≡ false → before a c ≡ false
  pub asymm : (a b : A) → before a b ≡ true → before b a ≡ false

module _ {ℓ} {A : Type ℓ} (before : A → A → Bool) where
  abbrev better : A → Option A → Option A
  better t none = some t
  better t (some u) = if before u t then some u else some t

  unfoldable pub least : List A → Option A
  least [] = none
  least (t ∷ ts) = better t (least ts)

  abbrev pub NotBelow : A → Option A → Type 0
  NotBelow u none = Unit
  NotBelow u (some v) = before v u ≡ false

module _ {ℓ} {A : Type ℓ} (before : A → A → Bool) (p q : A → Bool)
    (sub : (a : A) → q a ≡ true → p a ≡ true) where
  pub least-none_mono :
      (xs : List A)
      → least before (select_where p xs) ≡ none
      → least before (select_where q xs) ≡ none
  unfolding least
  least-none_mono [] h = refl
  least-none_mono (x ∷ xs) h = ground (arith, sub x, least-none_mono xs)

module _ {ℓ} {A : Type ℓ} (before : A → A → Bool) (p : A → Bool) where
  pub least-passes : (xs : List A) (t : A) → least before (select_where p xs) ≡ some t → p t ≡ true
  unfolding least
  least-passes [] t h = cc
  least-passes (x ∷ xs) t h = ground (arith, least-passes xs t)

-- One row more, under a test that has been computed.
module _ {ℓ} {A : Type ℓ} (before : A → A → Bool) where
  abbrev extend : Bool → A → Option A → Option A
  extend true x o = better before x o
  extend false x o = o

  least-cons :
      (p : A → Bool) (x : A) (xs : List A)
      → least before (select_where p (x ∷ xs)) ≡ extend (p x) x (least before (select_where p xs))
  unfolding least
  least-cons p x xs = elim (Bool-cases (p x)) [ inl e ↦ rw e | inr e ↦ rw e ]

module _ {ℓ} {A : Type ℓ} (before : A → A → Bool) (order : IsOrder before) where
  extend-NotBelow :
      (b c : Bool) (x u : A) (o r : Option A)
      → (c ≡ true → b ≡ true)
      → (o ≡ none → r ≡ none)
      → ((w : A) → o ≡ some w → NotBelow before w r)
      → extend before b x o ≡ some u
      → NotBelow before u (extend before c x r)
  extend-NotBelow false false x u o r cb on os h = os u h
  extend-NotBelow false true x u o r cb on os h = absurd (cc (cb refl))
  extend-NotBelow true c x u none none cb on os h = ground (arith, order.irrefl x)
  extend-NotBelow true c x u none (some v) cb on os h = cc (on refl)
  extend-NotBelow true c x u (some w) none cb on os h =
      ground (arith, order.irrefl x, order.asymm w x)
  extend-NotBelow true c x u (some w) (some v) cb on os h =
      ground
        (arith, os w refl, order.irrefl x, order.asymm w x, order.neg_trans v w x, order.asymm v x)

  extend_mono :
      (b c : Bool) (x t : A) (o r : Option A)
      → (c ≡ true → b ≡ true)
      → (x ≡ t → c ≡ true)
      → (o ≡ none → r ≡ none)
      → ((w : A) → o ≡ some w → NotBelow before w r)
      → (o ≡ some t → r ≡ some t)
      → extend before b x o ≡ some t
      → extend before c x r ≡ some t
  extend_mono false false x t o r cb xc on os ih h = ih h
  extend_mono false true x t o r cb xc on os ih h = absurd (cc (cb refl))
  extend_mono true c x t none none cb xc on os ih h = ground arith
  extend_mono true c x t none (some v) cb xc on os ih h = cc (on refl)
  extend_mono true c x t (some w) none cb xc on os ih h = ground arith
  extend_mono true c x t (some w) (some v) cb xc on os ih h =
      ground (arith, os w refl, order.neg_trans v w x)

module _ {ℓ} {A : Type ℓ} (before : A → A → Bool) (order : IsOrder before) (p q : A → Bool)
    (sub : (a : A) → q a ≡ true → p a ≡ true) where
  least-NotBelow :
      (xs : List A) (u : A)
      → least before (select_where p xs) ≡ some u
      → NotBelow before u (least before (select_where q xs))
  unfolding least
  least-NotBelow [] u h = cc
  least-NotBelow (x ∷ xs) u h = rw (least-cons before q x xs) (
      extend-NotBelow before order (p x) (q x) x u _ _ (sub x) (least-none_mono before p q sub xs)
        (least-NotBelow xs) (sym (least-cons before p x xs) ∙ h))

  -- The least row that passes the weaker test is the least that passes the stronger one, if it
  -- does.
  pub least_mono :
      (xs : List A) (t : A)
      → least before (select_where p xs) ≡ some t
      → q t ≡ true
      → least before (select_where q xs) ≡ some t
  unfolding least
  least_mono [] t h k = cc
  least_mono (x ∷ xs) t h k = rw (least-cons before q x xs) (
      extend_mono before order (p x) (q x) x t _ _ (sub x) (λ e. ap q e ∙ k)
        (least-none_mono before p q sub xs) (least-NotBelow xs) (λ e. least_mono xs t e k)
        (sym (least-cons before p x xs) ∙ h))

module _ {ℓ} {A : Type ℓ} (before : A → A → Bool) where
  pub mem-least :
      (p : A → Bool) (xs : List A) (t : A) → least before (select_where p xs) ≡ some t → Memᴰ t xs
  unfolding least
  mem-least p [] t h = cc
  mem-least p (x ∷ xs) t h =
      elim (extend-cases (p x) (least before (select_where p xs))
        (sym (least-cons before p x xs) ∙ h)) [
          | inl e ↦ Memᴰ.head (sym e)
          | inr e ↦ Memᴰ.tail (mem-least p xs t e)
        ]
    where
      extend-cases :
          (b : Bool) (o : Option A) → extend before b x o ≡ some t → (x ≡ t) ⊎ (o ≡ some t)
      extend-cases b o e = ground arith

-- What the answer of the query says of every row.
module _ {ℓ} {A : Type ℓ} (before : A → A → Bool) (order : IsOrder before) (p : A → Bool) where
  abbrev Minimal : List A → Option A → Type 0
  Minimal xs none = All (λ u. p u ≡ false) xs
  Minimal xs (some t) = All (λ u. p u ≡ true → before u t ≡ false) xs

  Minimal-extend :
      (b : Bool) (x : A) (xs : List A) (o : Option A)
      → p x ≡ b
      → Minimal xs o
      → Minimal (x ∷ xs) (extend before b x o)
  Minimal-extend false x xs none e h = (e, h)
  Minimal-extend false x xs (some w) e h = (λ on. cc, h)
  Minimal-extend true x xs none e h = (λ _. order.irrefl x, All-mono xs (λ u off on. cc) h)
  Minimal-extend true x xs (some w) e h = elim (Bool-cases (before w x)) [
    | inl below ↦ rw below (λ _. order.asymm w x below, h)
    | inr other ↦
        rw other (λ _. order.irrefl x, All-mono xs (λ u f on. order.neg_trans u w x (f on) other) h)
  ]

  pub Minimal-least : (xs : List A) → Minimal xs (least before (select_where p xs))
  unfolding least
  Minimal-least [] = tt
  Minimal-least (x ∷ xs) =
      rw (least-cons before p x xs) (Minimal-extend (p x) x xs _ refl (Minimal-least xs))

  -- No row that passes is below the least one.
  pub least_minimal :
      (xs : List A) (t : A)
      → least before (select_where p xs) ≡ some t
      → All (λ u. p u ≡ true → before u t ≡ false) xs
  least_minimal xs t h = subst (Minimal xs) h (Minimal-least xs)

  -- If there is no least row, no row passes.
  pub least-none :
      (xs : List A) → least before (select_where p xs) ≡ none → All (λ u. p u ≡ false) xs
  least-none xs h = subst (Minimal xs) h (Minimal-least xs)
