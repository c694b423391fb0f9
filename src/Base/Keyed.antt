-- ===== src/Base/Keyed.antt =====
-- Tables kept as arrays of records with a key: `find` and `map` by key, as the engine uses them
-- for players and for properties.
use Prim.Native.Nat.{ℕ, ◌+◌}
use mathlib.Core.Path.{◌≡◌, refl, subst, sym, ap}
use mathlib.Core.Logic.{inl, inr}
use mathlib.Core.Bool.{Bool, true, false, ◌&&◌}
use mathlib.Core.List.{List, [], ◌∷◌, map}
use mathlib.Core.Option
use mathlib.Core.Option.{Option, none, some}
use native.Mathlib.Omega.{arith}
use livepoly_server.Base.Tests.{if◌then◌else◌, ◌==◌, ==→eq, Bool-cases, some_eq, none_ne_some}
use livepoly_server.Base.Lists.{All, sum_by}

module _ {ℓ} {A : Type ℓ} (key : A → ℕ) where
  -- `xs.find((candidate) => candidate.key === k)`
  abbrev pub find_by : ℕ → List A → Option A
  find_by k [] = none
  find_by k (x ∷ xs) = if key x == k then some x else find_by k xs

  -- `xs.map((candidate) => candidate.key !== k ? candidate : f(candidate))`
  abbrev pub update_by : ℕ → (A → A) → List A → List A
  update_by k f [] = []
  update_by k f (x ∷ xs) = (if key x == k then f x else x) ∷ update_by k f xs

  -- No two entries have one key.
  abbrev pub Distinct : List A → Type ℓ
  Distinct [] = Unit
  Distinct (x ∷ xs) = (find_by (key x) xs ≡ none) × Distinct xs

module _ {ℓ} {A : Type ℓ} (key : A → ℕ) where
  pub find_by-key : (k : ℕ) (xs : List A) {x : A} → find_by key k xs ≡ some x → key x ≡ k
  find_by-key k [] e = cc
  find_by-key k (y ∷ ys) {x} e = ground (arith, find_by-key k ys {x = x})

  pub All-find_by {κ} :
      (P : A → Type κ) (k : ℕ) (xs : List A) {x : A} → All P xs → find_by key k xs ≡ some x → P x
  All-find_by P k [] h e = cc
  All-find_by P k (y ∷ ys) {x} h e = elim (Bool-cases (key y == k)) [
    | inl t ↦ subst P (some_eq (rw t at e)) h.0
    | inr t ↦ All-find_by P k ys h.1 (rw t at e)
  ]

module _ {ℓ} {A : Type ℓ} (key : A → ℕ) (f : A → A) (keeps : (x : A) → key (f x) ≡ key x) where
  pub find_by-update_by-none :
      (j k : ℕ) (xs : List A)
      → find_by key j xs ≡ none
      → find_by key j (update_by key k f xs) ≡ none
  find_by-update_by-none j k [] h = refl
  find_by-update_by-none j k (x ∷ xs) h = ground (arith, keeps x, find_by-update_by-none j k xs)

  -- What an update leaves of the entry with its key, and of any other.
  pub find_by-update_by-some :
      (k : ℕ) (xs : List A) {x : A}
      → find_by key k xs ≡ some x
      → find_by key k (update_by key k f xs) ≡ some (f x)
  find_by-update_by-some k [] e = cc
  find_by-update_by-some k (y ∷ ys) {x} e = elim (Bool-cases (key y == k)) [
    | inl t ↦ rw (t, keeps y, t, some_eq (rw t at e)) refl
    | inr t ↦ rw (t, t) (find_by-update_by-some k ys (rw t at e))
  ]

  pub find_by-update_by-other :
      (j k : ℕ) (xs : List A)
      → (k == j) ≡ false
      → find_by key j (update_by key k f xs) ≡ find_by key j xs
  find_by-update_by-other j k [] h = refl
  find_by-update_by-other j k (x ∷ xs) h =
      ground (arith, keeps x, h, find_by-update_by-other j k xs h)

  pub Distinct-update_by :
      (k : ℕ) (xs : List A) → Distinct key xs → Distinct key (update_by key k f xs)
  Distinct-update_by k [] d = tt
  Distinct-update_by k (x ∷ xs) d =
      ground
        (arith, keeps x, d.0, Distinct-update_by k xs d.1, find_by-update_by-none (key x) k xs d.0)

-- The same as a test.
module _ {ℓ} {A : Type ℓ} (key : A → ℕ) where
  unfoldable is_absent : Option A → Bool
  is_absent none = true
  is_absent (some x) = false

  unfoldable pub is_distinct : List A → Bool
  unfolding is_absent
  is_distinct [] = true
  is_distinct (x ∷ xs) = is_absent (find_by key (key x) xs) && is_distinct xs

  is_absent_sound : (o : Option A) (b : Bool) → (is_absent o && b) ≡ true → (o ≡ none) × (b ≡ true)
  unfolding is_absent
  is_absent_sound none b h = (refl, h)
  is_absent_sound (some x) b h = cc

  pub is_distinct_sound : (xs : List A) → is_distinct xs ≡ true → Distinct key xs
  unfolding is_distinct
  is_distinct_sound [] h = tt
  is_distinct_sound (x ∷ xs) h =
      let parts = is_absent_sound (find_by key (key x) xs) (is_distinct xs) h in
      (parts.0, is_distinct_sound xs parts.1)

-- A `map` that keeps the keys.
module _ {ℓ} {A : Type ℓ} (key : A → ℕ) (f : A → A) (keeps : (x : A) → key (f x) ≡ key x) where
  find_by-map-none :
      (k : ℕ) (xs : List A) → find_by key k xs ≡ none → find_by key k (map f xs) ≡ none
  find_by-map-none k [] e = refl
  find_by-map-none k (x ∷ xs) e = ground (arith, keeps x, find_by-map-none k xs)

  pub find_by-map :
      (k : ℕ) (xs : List A) → find_by key k (map f xs) ≡ Option.map f (find_by key k xs)
  find_by-map k [] = refl
  find_by-map k (x ∷ xs) = ground (arith, keeps x, find_by-map k xs)

  pub Distinct-map : (xs : List A) → Distinct key xs → Distinct key (map f xs)
  Distinct-map [] d = tt
  Distinct-map (x ∷ xs) d = (rw (keeps x) (find_by-map-none (key x) xs d.0), Distinct-map xs d.1)

-- Sums over a table under an update of one entry.
module _ {ℓ} {A : Type ℓ} (key : A → ℕ) (m : A → ℕ) (f : A → A) where
  pub sum_by-update_by_absent :
      (k : ℕ) (xs : List A)
      → find_by key k xs ≡ none
      → sum_by m (update_by key k f xs) ≡ sum_by m xs
  sum_by-update_by_absent k [] e = refl
  sum_by-update_by_absent k (x ∷ xs) e = ground (arith, sum_by-update_by_absent k xs)

  pub sum_by-update_by :
      (k : ℕ) (xs : List A) {x : A}
      → Distinct key xs
      → find_by key k xs ≡ some x
      → sum_by m (update_by key k f xs) + m x ≡ sum_by m xs + m (f x)
  sum_by-update_by k [] d e = cc
  sum_by-update_by k (y ∷ ys) {x} d e = elim (Bool-cases (key y == k)) [
    | inl t ↦
        let found : y ≡ x = some_eq (rw t at e) in
        let absent : find_by key k ys ≡ none = rw (==→eq (key y) k t) at (d.0) in
        rw (t, ← found) (omega (arith, sum_by-update_by_absent k ys absent))
    | inr t ↦ rw t (omega (arith, sum_by-update_by k ys {x = x} d.1 (rw t at e)))
  ]

  pub sum_by-update_by_keep :
      ((x : A) → m (f x) ≡ m x)
      → (k : ℕ) (xs : List A) → sum_by m (update_by key k f xs) ≡ sum_by m xs
  sum_by-update_by_keep h k [] = refl
  sum_by-update_by_keep h k (x ∷ xs) = ground (arith, h x, sum_by-update_by_keep h k xs)

module _ {ℓ κ} {A : Type ℓ} (key : A → ℕ) (f : A → A) (P : A → Type κ) where
  update_by_absent : (k : ℕ) (xs : List A) → find_by key k xs ≡ none → update_by key k f xs ≡ xs
  update_by_absent k [] e = refl
  update_by_absent k (x ∷ xs) e = elim (Bool-cases (key x == k)) [
    | inl t ↦ absurd (none_ne_some (sym (rw t at e)))
    | inr t ↦ rw t (ap (λ zs. x ∷ zs) (update_by_absent k xs (rw t at e)))
  ]

  pub All-update_by :
      ((x : A) → P x → P (f x)) → (k : ℕ) (xs : List A) → All P xs → All P (update_by key k f xs)
  All-update_by h k [] a = tt
  All-update_by h k (x ∷ xs) (p, a) = (at_key (key x == k), All-update_by h k xs a)
    where
      at_key : (b : Bool) → P (if b then f x else x)
      at_key true = h x p
      at_key false = p

  -- With distinct keys, only the entry that is found changes.
  pub All-update_by_at :
      (k : ℕ) (xs : List A) {x : A}
      → Distinct key xs
      → find_by key k xs ≡ some x
      → P (f x)
      → All P xs
      → All P (update_by key k f xs)
  All-update_by_at k [] d e p a = tt
  All-update_by_at k (y ∷ ys) {x} d e p a = elim (Bool-cases (key y == k)) [
    | inl t ↦
        let found : y ≡ x = some_eq (rw t at e) in
        let absent : find_by key k ys ≡ none = rw (==→eq (key y) k t) at (d.0) in
        rw t (subst (λ z. P (f z)) (sym found) p, rw (update_by_absent k ys absent) a.1)
    | inr t ↦ rw t (a.0, All-update_by_at k ys {x = x} d.1 (rw t at e) p a.1)
  ]
