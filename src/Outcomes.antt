-- ===== src/Outcomes.antt =====
-- What the services around the engine return or throw: the exceptions of NestJS that they raise, or
-- the engine's own error, as src/game/commands, src/game/state and src/game/results use them.
use livepoly_server.Base.{◌≡◌, ◌≢◌, refl, ap, subst, Bool, true, false, Option, none, some}
use livepoly_server.Types.{GameEngineErrorCode, Result, ok, err}

pub data ServiceError : Type 0 where
  bad_request not_found conflict internal_server_error forbidden too_many_requests : ServiceError
  engine_error : GameEngineErrorCode → ServiceError

pub data Outcome {ℓ} (A : Type ℓ) : Type ℓ where
  failed : (error : ServiceError) → Outcome A
  done : (value : A) → Outcome A

-- The next step of a service, which runs only if the one before it returned. It is shut, so that the
-- rules for chains apply to it.
unfoldable pub after {ℓ κ} : {A : Type ℓ} {B : Type κ} → Outcome A → (A → Outcome B) → Outcome B
after (failed error) next = failed error
after (done value) next = next value

abbrev pub fail_if : Bool → ServiceError → Outcome (Unit {0})
fail_if true error = failed error
fail_if false error = done tt

abbrev pub or_fail {ℓ} : {A : Type ℓ} → Option A → ServiceError → Outcome A
or_fail none error = failed error
or_fail (some value) error = done value

-- An exception of the engine passes through a service.
abbrev pub of_engine {ℓ} : {A : Type ℓ} → Result A → Outcome A
of_engine (err code) = failed (engine_error code)
of_engine (ok value) = done value

pub failed_ne_done {ℓ} : {A : Type ℓ} {e : ServiceError} {a : A} → failed e ≢ done a
failed_ne_done h = cc

pub done_eq {ℓ} : {A : Type ℓ} {a b : A} → done a ≡ done b → a ≡ b
done_eq h = cc

pub or_fail-done {ℓ} :
    {A : Type ℓ} {a : A} (o : Option A) (e : ServiceError) → or_fail o e ≡ done a → o ≡ some a
or_fail-done none e h = absurd (failed_ne_done h)
or_fail-done (some b) e h = ap some (done_eq h)

pub fail_if-done : {a : Unit {0}} (b : Bool) (e : ServiceError) → fail_if b e ≡ done a → b ≡ false
fail_if-done true e h = absurd (failed_ne_done h)
fail_if-done false e h = refl

-- What holds of the value, if there is one.
pub data Gives {ℓ κ} {A : Type ℓ} (P : A → Type κ) : Outcome A → Type (ℓ ⊔ κ) where
  gives : {a : A} → P a → Gives P (done a)
  gives_none : {e : ServiceError} → Gives P (failed e)

-- A chain: the rest may use that the first step returned.
pub after-Gives {ℓ κ μ} :
    {A : Type ℓ} {B : Type κ} {Q : B → Type μ} (step : Outcome A) (next : A → Outcome B)
    → ((a : A) → step ≡ done a → Gives Q (next a))
    → Gives Q (after step next)
unfolding after
after-Gives (failed e) next h = gives_none
after-Gives (done a) next h = h a refl

module _ {ℓ κ} {A : Type ℓ} (P : A → Type κ) where
  Given : Outcome A → Type κ
  Given (failed e) = Unit
  Given (done a) = P a

  Given-of : {o : Outcome A} → Gives P o → Given o
  unfolding Given
  Given-of (gives p) = p
  Given-of gives_none = tt

-- What a value that was returned satisfies.
pub Gives-done {ℓ κ} :
    {A : Type ℓ} {P : A → Type κ} {o : Outcome A} {a : A} → Gives P o → o ≡ done a → P a
unfolding Given
Gives-done {P = P} h e = subst (Given P) e (Given-of P h)
