-- ===== src/Base/Absent.antt =====
-- Keys that no entry of a list has, and distinct keys under sorting and appending.
use Prim.Native.Nat.{ℕ}
use mathlib.Core.Path.{◌≡◌, refl, sym}
use mathlib.Core.Logic.{inl, inr}
use mathlib.Core.Bool.{Bool, false}
use mathlib.Core.List.{List, [], ◌∷◌, ◌++◌}
use mathlib.Core.Option.{none}
use native.Mathlib.Omega.{arith}
use livepoly_server.Base.Tests.{◌==◌, Bool-cases, none_ne_some}
use livepoly_server.Base.Lists.{All}
use livepoly_server.Base.Keyed.{find_by, Distinct}
use livepoly_server.Base.Sorting.{insert_by, sort_by}

module _ {ℓ} {A : Type ℓ} (key : A → ℕ) where
  -- No entry of a list has a key.
  abbrev pub Lacks : ℕ → List A → Type 0
  Lacks k xs = All (λ x. (key x == k) ≡ false) xs

  pub Lacks-none : (k : ℕ) (xs : List A) → Lacks k xs → find_by key k xs ≡ none
  Lacks-none k [] h = refl
  Lacks-none k (x ∷ xs) h = rw (h.0) (Lacks-none k xs h.1)

  pub Lacks-of : (k : ℕ) (xs : List A) → find_by key k xs ≡ none → Lacks k xs
  Lacks-of k [] e = tt
  Lacks-of k (x ∷ xs) e = elim (Bool-cases (key x == k)) [
    | inl t ↦ absurd (none_ne_some (sym (rw t at e)))
    | inr t ↦ (t, Lacks-of k xs (rw t at e))
  ]

  swap_false : (a b : ℕ) → (a == b) ≡ false → (b == a) ≡ false
  swap_false a b h = ground arith

  Lacks-insert_by :
      (le : A → A → Bool) (k : ℕ) (x : A) (xs : List A)
      → (key x == k) ≡ false
      → Lacks k xs
      → Lacks k (insert_by le x xs)
  Lacks-insert_by le k x [] h a = (h, tt)
  Lacks-insert_by le k x (y ∷ ys) h a = elim (Bool-cases (le x y)) [
    | inl t ↦ rw t (h, a)
    | inr t ↦ rw t (a.0, Lacks-insert_by le k x ys h a.1)
  ]

  Distinct-insert_by :
      (le : A → A → Bool) (x : A) (xs : List A)
      → Lacks (key x) xs
      → Distinct key xs
      → Distinct key (insert_by le x xs)
  Distinct-insert_by le x [] a d = (refl, tt)
  Distinct-insert_by le x (y ∷ ys) a d = elim (Bool-cases (le x y)) [
    | inl t ↦ rw t (Lacks-none (key x) (y ∷ ys) a, d)
    | inr t ↦ rw t (
      Lacks-none (key y) (insert_by le x ys) (
          Lacks-insert_by le (key y) x ys (swap_false (key y) (key x) a.0)
            (Lacks-of (key y) ys d.0)),
      Distinct-insert_by le x ys a.1 d.1,
    )
  ]

  Lacks-sort_by : (le : A → A → Bool) (k : ℕ) (xs : List A) → Lacks k xs → Lacks k (sort_by le xs)
  Lacks-sort_by le k [] a = tt
  Lacks-sort_by le k (x ∷ xs) a =
      Lacks-insert_by le k x (sort_by le xs) a.0 (Lacks-sort_by le k xs a.1)

  pub Distinct-sort_by :
      (le : A → A → Bool) (xs : List A) → Distinct key xs → Distinct key (sort_by le xs)
  Distinct-sort_by le [] d = tt
  Distinct-sort_by le (x ∷ xs) d =
      Distinct-insert_by le x (sort_by le xs)
        (Lacks-sort_by le (key x) xs (Lacks-of (key x) xs d.0)) (Distinct-sort_by le xs d.1)

  Lacks-append : (k : ℕ) (xs ys : List A) → Lacks k xs → Lacks k ys → Lacks k (xs ++ ys)
  Lacks-append k [] ys a b = b
  Lacks-append k (x ∷ xs) ys a b = (a.0, Lacks-append k xs ys a.1 b)

  pub Distinct-append :
      (xs ys : List A)
      → Distinct key xs
      → Distinct key ys
      → All (λ x. Lacks (key x) ys) xs
      → Distinct key (xs ++ ys)
  Distinct-append [] ys d e h = e
  Distinct-append (x ∷ xs) ys d e h = (
    Lacks-none (key x) (xs ++ ys) (Lacks-append (key x) xs ys (Lacks-of (key x) xs d.0) h.0),
    Distinct-append xs ys d.1 e h.1,
  )
