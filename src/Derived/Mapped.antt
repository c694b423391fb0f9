-- ===== src/Derived/Mapped.antt =====
-- Lists that are mapped with a function that may throw, as src/game/engine, src/game/results and
-- src/game/stats do: the elements keep their keys.
use livepoly_server.Base.{
  ℕ, suc, ◌≡◌, refl, ap, Bool, true, false, List, [], ◌∷◌, ◌||◌, ◌==◌, ==_refl, length, any, All,
}
use livepoly_server.Types.{Result}
use livepoly_server.Ensures.{Ensures, returns, then-Ensures}
use livepoly_server.Derived.{map_result}

or_true : (b : Bool) {c : Bool} → c ≡ true → (b || c) ≡ true
or_true true e = refl
or_true false e = e

module _ {ℓ κ μ} {A : Type ℓ} {B : Type κ} (a_key : A → ℕ) (b_key : B → ℕ) (R : A → Type μ) where
  -- The key of an element is in the list that was mapped.
  abbrev pub is_mapped : List B → A → Bool
  is_mapped ys a = any (λ b. b_key b == a_key a) ys

  pub record CoversAll (xs : List A) (ys : List B) : Type (ℓ ⊔ κ ⊔ μ) where
    pub as_many : length ys ≡ length xs
    pub each_one : All (λ a. (is_mapped ys a ≡ true) × R a) xs

  mapped-cons :
      (b : B) (ys : List B) (xs : List A)
      → All (λ a. (is_mapped ys a ≡ true) × R a) xs
      → All (λ a. (is_mapped (b ∷ ys) a ≡ true) × R a) xs
  mapped-cons b ys [] h = tt
  mapped-cons b ys (a ∷ xs) h =
      ((or_true (b_key b == a_key a) (h.0).0, (h.0).1), mapped-cons b ys xs h.1)

  pub map_result-CoversAll :
      (f : A → Result B)
      → ((a : A) → Ensures (λ b. (b_key b ≡ a_key a) × R a) (f a))
      → (xs : List A) → Ensures (CoversAll xs) (map_result f xs)
  unfolding map_result
  map_result-CoversAll f h [] = returns (record { as_many = refl; each_one = tt })
  map_result-CoversAll f h (a ∷ xs) = then-Ensures (f a) _ (h a) λ b own.
      then-Ensures (map_result f xs) _ (map_result-CoversAll f h xs) λ ys covers. returns (record {
        as_many = ap suc covers.as_many;
        each_one =
            ((rw (own.0, ==_refl (a_key a)) refl, own.1), mapped-cons b ys xs covers.each_one);
      })
