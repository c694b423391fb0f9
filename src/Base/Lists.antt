-- ===== src/Base/Lists.antt =====
-- Lists measured and indexed by native numbers, and the array methods that the engine calls.
use Prim.Native.Nat.{ℕ, zero, suc, ◌+◌, ◌<◌}
use mathlib.Core.Path.{◌≡◌, refl, subst}
use mathlib.Core.Bool.{Bool, true, false, ◌&&◌, ◌||◌}
use mathlib.Core.List.{List, [], ◌∷◌, map}
use mathlib.Core.Option.{Option, none, some}
use native.Mathlib.Omega.{arith}
use mathlib.Core.Logic.{inl, inr}
use livepoly_server.Base.Tests.{if◌then◌else◌, ◌==◌, Bool-cases, some_eq, none_ne_some}

module _ {ℓ} {A : Type ℓ} where
  abbrev pub length : List A → ℕ
  length [] = 0
  length (x ∷ xs) = suc (length xs)

  abbrev pub get_elem? : List A → ℕ → Option A
  get_elem? [] i = none
  get_elem? (x ∷ xs) zero = some x
  get_elem? (x ∷ xs) (suc i) = get_elem? xs i

  -- `array.some`
  abbrev pub any : (A → Bool) → List A → Bool
  any p [] = false
  any p (x ∷ xs) = p x || any p xs

  -- `array.every`
  abbrev pub all : (A → Bool) → List A → Bool
  all p [] = true
  all p (x ∷ xs) = p x && all p xs

  -- `array.filter`
  abbrev pub filter : (A → Bool) → List A → List A
  filter p [] = []
  filter p (x ∷ xs) = let rest = filter p xs in if p x then x ∷ rest else rest

  -- `array.find`
  abbrev pub find : (A → Bool) → List A → Option A
  find p [] = none
  find p (x ∷ xs) = if p x then some x else find p xs

  abbrev pub All {κ} : (A → Type κ) → List A → Type κ
  All P [] = Unit
  All P (x ∷ xs) = P x × All P xs

  abbrev pub sum_by : (A → ℕ) → List A → ℕ
  sum_by m [] = 0
  sum_by m (x ∷ xs) = m x + sum_by m xs

-- `array.includes` on keys.
abbrev pub includes : List ℕ → ℕ → Bool
includes [] k = false
includes (j ∷ js) k = j == k || includes js k

module _ {ℓ} {A : Type ℓ} where
  -- `array.findIndex`, counted from `i`; -1 is `none`.
  abbrev pub find_index_from : ℕ → (A → Bool) → List A → Option ℕ
  find_index_from i p [] = none
  find_index_from i p (x ∷ xs) = if p x then some i else find_index_from (suc i) p xs

  pub get_elem?_of_lt : (xs : List A) (i : ℕ) → i < length xs → (x : A) × (get_elem? xs i ≡ some x)
  get_elem?_of_lt [] i h = elim h [ ]
  get_elem?_of_lt (x ∷ xs) zero h = (x, refl)
  get_elem?_of_lt (x ∷ xs) (suc i) h = get_elem?_of_lt xs i (omega arith)

  pub All-get_elem? {κ} :
      (P : A → Type κ) (xs : List A) (i : ℕ) {x : A} → All P xs → get_elem? xs i ≡ some x → P x
  All-get_elem? P [] i h e = cc
  All-get_elem? P (y ∷ ys) zero h e = ground (arith, h.0)
  All-get_elem? P (y ∷ ys) (suc i) h e = All-get_elem? P ys i h.1 e

  pub All-filter {κ} :
      (P : A → Type κ) (p : A → Bool) (xs : List A)
      → ((x : A) → p x ≡ true → P x)
      → All P (filter p xs)
  All-filter P p [] h = tt
  All-filter P p (x ∷ xs) h =
      elim (p x) as (λ b. p x ≡ b → All P (if b then x ∷ filter p xs else filter p xs)) [
        | true ↦ λ e. (h x e, All-filter P p xs h)
        | false ↦ λ e. All-filter P p xs h
      ]
        refl

  pub All-filter_of {κ} :
      (P : A → Type κ) (p : A → Bool) (xs : List A) → All P xs → All P (filter p xs)
  All-filter_of P p [] h = tt
  All-filter_of P p (x ∷ xs) h = kept (p x) (All-filter_of P p xs h.1)
    where
      kept : (b : Bool) → All P (filter p xs) → All P (if b then x ∷ filter p xs else filter p xs)
      kept true a = (h.0, a)
      kept false a = a

  pub All-find {κ} :
      (P : A → Type κ) (p : A → Bool) (xs : List A) {x : A} → All P xs → find p xs ≡ some x → P x
  All-find P p [] h e = absurd (none_ne_some e)
  All-find P p (y ∷ ys) {x} h e = elim (Bool-cases (p y)) [
    | inl t ↦ subst P (some_eq (rw t at e)) h.0
    | inr t ↦ All-find P p ys {x = x} h.1 (rw t at e)
  ]

  pub All-map {κ} :
      (P : A → Type κ) (f : A → A) (xs : List A)
      → ((x : A) → P x → P (f x))
      → All P xs
      → All P (map f xs)
  All-map P f [] h a = tt
  All-map P f (x ∷ xs) h a = (h x a.0, All-map P f xs h a.1)
