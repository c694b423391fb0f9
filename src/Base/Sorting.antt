-- ===== src/Base/Sorting.antt =====
-- `array.sort(compare)`, which is stable: an insertion sort over the test `compare(a, b) <= 0`.
use Prim.Native.Nat.{suc}
use mathlib.Core.Path.{◌≡◌, refl, ◌∙◌, ap}
use mathlib.Core.Bool.{Bool, true, false, ◌||◌}
use mathlib.Core.List.{List, [], ◌∷◌}
use native.Mathlib.Omega.{arith}
use livepoly_server.Base.Tests.{if◌then◌else◌}
use livepoly_server.Base.Lists.{All, any, length}

module _ {ℓ} {A : Type ℓ} (le : A → A → Bool) where
  abbrev pub insert_by : A → List A → List A
  insert_by x [] = x ∷ []
  insert_by x (y ∷ ys) = let rest = insert_by x ys in if le x y then x ∷ y ∷ ys else y ∷ rest

  abbrev pub sort_by : List A → List A
  sort_by [] = []
  sort_by (x ∷ xs) = insert_by x (sort_by xs)

module _ {ℓ κ} {A : Type ℓ} (le : A → A → Bool) (P : A → Type κ) where
  All-insert_by : (x : A) (ys : List A) → P x → All P ys → All P (insert_by le x ys)
  All-insert_by x [] p a = (p, tt)
  All-insert_by x (y ∷ ys) p a = at_head (le x y) (All-insert_by x ys p a.1)
    where
      at_head :
          (b : Bool)
          → All P (insert_by le x ys)
          → All P (if b then x ∷ y ∷ ys else y ∷ insert_by le x ys)
      at_head true r = (p, a)
      at_head false r = (a.0, r)

  -- Sorting keeps what holds of every element.
  pub All-sort_by : (xs : List A) → All P xs → All P (sort_by le xs)
  All-sort_by [] a = tt
  All-sort_by (x ∷ xs) a = All-insert_by x (sort_by le xs) a.0 (All-sort_by xs a.1)

module _ {ℓ} {A : Type ℓ} (le : A → A → Bool) where
  length-insert_by : (x : A) (ys : List A) → length (insert_by le x ys) ≡ suc (length ys)
  length-insert_by x [] = refl
  length-insert_by x (y ∷ ys) = ground (arith, length-insert_by x ys)

  pub length-sort_by : (xs : List A) → length (sort_by le xs) ≡ length xs
  length-sort_by [] = refl
  length-sort_by (x ∷ xs) = length-insert_by x (sort_by le xs) ∙ ap suc (length-sort_by xs)

module _ {ℓ} {A : Type ℓ} (le : A → A → Bool) (test : A → Bool) where
  any-insert_by : (x : A) (ys : List A) → any test (insert_by le x ys) ≡ (test x || any test ys)
  any-insert_by x [] = refl
  any-insert_by x (y ∷ ys) = ground (arith, any-insert_by x ys)

  -- Sorting keeps whether some element passes a test.
  pub any-sort_by : (xs : List A) → any test (sort_by le xs) ≡ any test xs
  any-sort_by [] = refl
  any-sort_by (x ∷ xs) = any-insert_by x (sort_by le xs) ∙ ap (λ b. test x || b) (any-sort_by xs)
