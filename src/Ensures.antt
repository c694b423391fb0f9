-- ===== src/Ensures.antt =====
-- Postconditions of operations that may throw: what holds of the result, if there is one.
use livepoly_server.Base.{Bool, true, false, Option, none, some, ◌≡◌, refl, subst, if◌then◌else◌}
use livepoly_server.Types.{Result, ok, err, ◌>>=◌, ◌>>◌, throw_if, or_throw, GameEngineErrorCode}

pub data Ensures {ℓ κ} {A : Type ℓ} (P : A → Type κ) : Result A → Type (ℓ ⊔ κ) where
  returns : {a : A} → P a → Ensures P (ok a)
  throws : {e : GameEngineErrorCode} → Ensures P (err e)

module _ {ℓ κ} {A : Type ℓ} (P : A → Type κ) where
  Holds : Result A → Type κ
  Holds (ok a) = P a
  Holds (err e) = Unit

  Holds-of : {r : Result A} → Ensures P r → Holds r
  unfolding Holds
  Holds-of (returns p) = p
  Holds-of throws = tt

  -- What a result that was returned satisfies.
  pub Ensures-ok : {r : Result A} {a : A} → Ensures P r → r ≡ ok a → P a
  unfolding Holds
  Ensures-ok h e = subst Holds e (Holds-of h)

module _ {ℓ κ μ} {A : Type ℓ} {P : A → Type κ} {Q : A → Type μ} where
  -- Two postconditions of one operation.
  pub both-Ensures : {r : Result A} → Ensures P r → Ensures Q r → Ensures (λ a. P a × Q a) r
  unfolding Holds
  both-Ensures (returns p) k = returns (p, Holds-of Q k)
  both-Ensures throws k = throws

-- A weaker postcondition.
pub map-Ensures {ℓ κ μ} :
    {A : Type ℓ} {P : A → Type κ} {Q : A → Type μ} {r : Result A}
    → Ensures P r
    → ((a : A) → P a → Q a)
    → Ensures Q r
map-Ensures (returns p) h = returns (h _ p)
map-Ensures throws h = throws

module _ {ℓ κ μ} {A : Type ℓ} {B : Type κ} {Q : B → Type μ} where
  -- A chain: the rest may use that the first step returned.
  pub bind-Ensures :
      (m : Result A) (f : A → Result B)
      → ((a : A) → m ≡ ok a → Ensures Q (f a))
      → Ensures Q (m >>= f)
  unfolding ◌>>=◌
  bind-Ensures (ok a) f h = h a refl
  bind-Ensures (err e) f h = throws

  -- A chain over a step with a postcondition of its own.
  pub then-Ensures {ν} :
      {P : A → Type ν} (m : Result A) (f : A → Result B)
      → Ensures P m
      → ((a : A) → P a → Ensures Q (f a))
      → Ensures Q (m >>= f)
  unfolding ◌>>=◌
  then-Ensures m f (returns p) h = h _ p
  then-Ensures m f throws h = throws

module _ {ℓ κ} {B : Type ℓ} {Q : B → Type κ} where
  -- A search that must succeed.
  pub or_throw-Ensures :
      (o : Option B) (e : GameEngineErrorCode)
      → ((b : B) → o ≡ some b → Q b)
      → Ensures Q (or_throw o e)
  or_throw-Ensures none e h = throws
  or_throw-Ensures (some b) e h = returns (h b refl)

  pub if-Ensures :
      (b : Bool) (m n : Result B)
      → (b ≡ true → Ensures Q m)
      → (b ≡ false → Ensures Q n)
      → Ensures Q (if b then m else n)
  if-Ensures true m n h k = h refl
  if-Ensures false m n h k = k refl

  -- A guard: what follows it may use that its test failed.
  pub guard-Ensures :
      (b : Bool) (e : GameEngineErrorCode) (k : Result B)
      → (b ≡ false → Ensures Q k)
      → Ensures Q (throw_if b e >> k)
  unfolding ◌>>=◌
  guard-Ensures true e k h = throws
  guard-Ensures false e k h = h refl

-- The same for a match on an option and on a Boolean.
module _ {ℓ κ μ} {A : Type ℓ} {B : Type κ} {Q : B → Type μ} where
  pub option-Ensures :
      (o : Option A) (m : Result B) (f : A → Result B)
      → (o ≡ none → Ensures Q m)
      → ((a : A) → o ≡ some a → Ensures Q (f a))
      → Ensures Q (elim o [ none ↦ m | some a ↦ f a ])
  option-Ensures none m f h k = h refl
  option-Ensures (some a) m f h k = k a refl

module _ {ℓ κ} {B : Type ℓ} {Q : B → Type κ} where
  pub bool-Ensures :
      (b : Bool) (m n : Result B)
      → (b ≡ true → Ensures Q m)
      → (b ≡ false → Ensures Q n)
      → Ensures Q (elim b [ true ↦ m | false ↦ n ])
  bool-Ensures true m n h k = h refl
  bool-Ensures false m n h k = k refl
