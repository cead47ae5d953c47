-- ===== src/Prelude/Sort.antt =====
-- A stable sort by insertion, as `Array.prototype.sort` with a comparator, and what it keeps.
use mathlib.Core.Path.{◌≡◌, refl, ◌∙◌}
use mathlib.Core.Logic.{inl, inr}
use mathlib.Core.Bool.{Bool}
use mathlib.Core.List.{List, [], ◌∷◌, map}
use native.Mathlib.Omega.{arith}
use rival_hub_broadcast.Prelude.Tests.{if◌then◌else◌, Bool-cases}
use rival_hub_broadcast.Prelude.Lists.{All, length, select}

-- `le x y` says that the comparator does not put `y` before `x`.
module _ {ℓ} {A : Type ℓ} (le : A → A → Bool) where
  abbrev pub insert_sorted : A → List A → List A
  insert_sorted x [] = x ∷ []
  insert_sorted x (y ∷ ys) = if le x y then x ∷ y ∷ ys else y ∷ insert_sorted x ys

  abbrev pub sort : List A → List A
  sort [] = []
  sort (x ∷ xs) = insert_sorted x (sort xs)

  -- As many entries pass a test after the sort as before.
  pub count-insert_sorted :
      (p : A → Bool) (x : A) (xs : List A)
      → length (select p (insert_sorted x xs)) ≡ length (select p (x ∷ xs))
  count-insert_sorted p x [] = refl
  count-insert_sorted p x (y ∷ ys) = ground (arith, count-insert_sorted p x ys)

  pub count-sort : (p : A → Bool) (xs : List A) → length (select p (sort xs)) ≡ length (select p xs)
  count-sort p [] = refl
  count-sort p (x ∷ xs) = count-insert_sorted p x (sort xs) ∙ ground (arith, count-sort p xs)

  pub length-insert_sorted : (x : A) (xs : List A) → length (insert_sorted x xs) ≡ length (x ∷ xs)
  length-insert_sorted x [] = refl
  length-insert_sorted x (y ∷ ys) = ground (arith, length-insert_sorted x ys)

  pub length-sort : (xs : List A) → length (sort xs) ≡ length xs
  length-sort [] = refl
  length-sort (x ∷ xs) = omega (arith, length-insert_sorted x (sort xs), length-sort xs)

  module _ {κ} (P : A → Type κ) where
    pub All-insert_sorted : (x : A) (xs : List A) → P x → All P xs → All P (insert_sorted x xs)
    All-insert_sorted x [] p h = (p, tt)
    All-insert_sorted x (y ∷ ys) p h = elim (Bool-cases (le x y)) [
      | inl before ↦ rw before (p, h)
      | inr after ↦ rw after (h.0, All-insert_sorted x ys p h.1)
    ]

    pub All-sort : (xs : List A) → All P xs → All P (sort xs)
    All-sort [] h = tt
    All-sort (x ∷ xs) h = All-insert_sorted x (sort xs) h.0 (All-sort xs h.1)

-- As many entries pass a test that a function does not change.
pub count-map {ℓ} :
    {A : Type ℓ} (f : A → A) (p : A → Bool) (xs : List A)
    → ((a : A) → p (f a) ≡ p a)
    → length (select p (map f xs)) ≡ length (select p xs)
count-map f p [] h = refl
count-map f p (x ∷ xs) h = ground (arith, h x, count-map f p xs h)

pub length-map {ℓ κ} :
    {A : Type ℓ} {B : Type κ} (f : A → B) (xs : List A) → length (map f xs) ≡ length xs
length-map f [] = refl
length-map f (x ∷ xs) = omega (arith, length-map f xs)
