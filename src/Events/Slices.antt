-- ===== src/Events/Slices.antt =====
-- The parts of a list that a page of events keeps and leaves.
use livepoly_server.Base.{
  ℕ, zero, suc, ◌+◌, ◌-◌, ◌≤◌, ◌≡◌, ◌∙◌, refl, ap, List, [], ◌∷◌, ◌++◌, map, ltb, length, arith,
  All,
}
use livepoly_server.Events.{take, reverse}

unfoldable pub drop {ℓ} : {A : Type ℓ} → ℕ → List A → List A
drop zero xs = xs
drop (suc n) [] = []
drop (suc n) (x ∷ xs) = drop n xs

module _ {ℓ} {A : Type ℓ} where
  pub take-drop : (n : ℕ) (xs : List A) → take n xs ++ drop n xs ≡ xs
  unfolding take drop
  take-drop zero xs = refl
  take-drop (suc n) [] = refl
  take-drop (suc n) (x ∷ xs) = ap (λ ys. x ∷ ys) (take-drop n xs)

  pub take-take : (n : ℕ) (xs : List A) → take n (take (suc n) xs) ≡ take n xs
  unfolding take
  take-take zero xs = refl
  take-take (suc n) [] = refl
  take-take (suc n) (x ∷ xs) = ap (λ ys. x ∷ ys) (take-take n xs)

  pub take-all : (n : ℕ) (xs : List A) → length xs ≤ n → take n xs ≡ xs
  unfolding take
  take-all zero [] h = refl
  take-all zero (x ∷ xs) h = absurd (omega (arith, h))
  take-all (suc n) [] h = refl
  take-all (suc n) (x ∷ xs) h = ap (λ ys. x ∷ ys) (take-all n xs (omega (arith, h)))

  pub drop-drop : (m n k : ℕ) (xs : List A) → k ≡ m + n → drop n (drop m xs) ≡ drop k xs
  unfolding drop
  drop-drop zero n k xs e = ap (λ i. drop i xs) (omega (arith, e))
  drop-drop (suc m) n zero [] e = absurd (omega (arith, e))
  drop-drop (suc m) n zero (x ∷ xs) e = absurd (omega (arith, e))
  drop-drop (suc m) zero (suc k) [] e = refl
  drop-drop (suc m) (suc n) (suc k) [] e = refl
  drop-drop (suc m) n (suc k) (x ∷ xs) e = drop-drop m n k xs (omega (arith, e))

  pub length-drop : (n : ℕ) (xs : List A) → length (drop n xs) ≡ length xs - n
  unfolding drop
  length-drop zero xs = omega arith
  length-drop (suc n) [] = omega arith
  length-drop (suc n) (x ∷ xs) = let rest = length-drop n xs in omega (arith, rest)

  -- One more than a limit is asked for, to see whether there are more.
  pub has_more-take : (n : ℕ) (xs : List A) → ltb n (length (take (suc n) xs)) ≡ ltb n (length xs)
  unfolding take
  has_more-take zero [] = refl
  has_more-take zero (x ∷ xs) = ground arith
  has_more-take (suc n) [] = refl
  has_more-take (suc n) (x ∷ xs) = let rest = has_more-take n xs in ground (arith, rest)

pub drop-all {ℓ} : {A : Type ℓ} (n : ℕ) (xs : List A) → length xs ≤ n → drop n xs ≡ []
unfolding drop
drop-all zero [] h = refl
drop-all zero (x ∷ xs) h = absurd (omega (arith, h))
drop-all (suc n) [] h = refl
drop-all (suc n) (x ∷ xs) h = drop-all n xs (omega (arith, h))

pub map-append {ℓ κ} :
    {A : Type ℓ} {B : Type κ} (f : A → B) (xs ys : List A) → map f xs ++ map f ys ≡ map f (xs ++ ys)
map-append f [] ys = refl
map-append f (x ∷ xs) ys = ap (λ zs. f x ∷ zs) (map-append f xs ys)

module _ {ℓ} {A : Type ℓ} where
  take-append : (n : ℕ) (xs ys : List A) → n ≤ length xs → take n (xs ++ ys) ≡ take n xs
  unfolding take
  take-append zero xs ys h = refl
  take-append (suc n) [] ys h = absurd (omega (arith, h))
  take-append (suc n) (x ∷ xs) ys h = ap (λ zs. x ∷ zs) (take-append n xs ys (omega (arith, h)))

  length-snoc : (xs : List A) (x : A) → length (xs ++ x ∷ []) ≡ suc (length xs)
  length-snoc [] x = refl
  length-snoc (y ∷ ys) x = ap suc (length-snoc ys x)

  length-reverse : (xs : List A) → length (reverse xs) ≡ length xs
  unfolding reverse
  length-reverse [] = refl
  length-reverse (x ∷ xs) = length-snoc (reverse xs) x ∙ ap suc (length-reverse xs)

  reverse-snoc : (xs : List A) (x : A) → reverse (xs ++ x ∷ []) ≡ x ∷ reverse xs
  unfolding reverse
  reverse-snoc [] x = refl
  reverse-snoc (y ∷ ys) x = ap (λ zs. zs ++ y ∷ []) (reverse-snoc ys x)

  reverse-reverse : (xs : List A) → reverse (reverse xs) ≡ xs
  unfolding reverse
  reverse-reverse [] = refl
  reverse-reverse (x ∷ xs) = reverse-snoc (reverse xs) x ∙ ap (λ zs. x ∷ zs) (reverse-reverse xs)

  -- The last elements of a list, read from its end.
  pub reverse-take-reverse :
      (n k : ℕ) (xs : List A) → k ≡ length xs - n → reverse (take n (reverse xs)) ≡ drop k xs
  unfolding reverse drop
  reverse-take-reverse n zero xs e =
      let count = length-reverse xs in
      rw (take-all n (reverse xs) (omega (arith, e, count))) (reverse-reverse xs)
  reverse-take-reverse n (suc k) [] e = absurd (omega (arith, e))
  reverse-take-reverse n (suc k) (x ∷ xs) e =
      let count = length-reverse xs in
      rw (take-append n (reverse xs) (x ∷ []) (omega (arith, e, count)))
        (reverse-take-reverse n k xs (omega (arith, e)))

  All-snoc {κ} : (P : A → Type κ) (xs : List A) {x : A} → All P xs → P x → All P (xs ++ x ∷ [])
  All-snoc P [] h p = (p, tt)
  All-snoc P (y ∷ ys) h p = (h.0, All-snoc P ys h.1 p)

  pub All-reverse {κ} : (P : A → Type κ) (xs : List A) → All P xs → All P (reverse xs)
  unfolding reverse
  All-reverse P [] h = tt
  All-reverse P (x ∷ xs) h = All-snoc P (reverse xs) (All-reverse P xs h.1) h.0

  pub length-append : (xs ys : List A) → length (xs ++ ys) ≡ length xs + length ys
  length-append [] ys = omega arith
  length-append (x ∷ xs) ys = let rest = length-append xs ys in omega (arith, rest)

  pub drop-append : (xs ys : List A) → drop (length xs) (xs ++ ys) ≡ ys
  unfolding drop
  drop-append [] ys = refl
  drop-append (x ∷ xs) ys = drop-append xs ys
