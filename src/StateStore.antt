-- ===== src/StateStore.antt =====
-- The states of games in Redis: src/game/state/game-state.service.ts. The serialized texts are only
-- compared, so a text is a number, as keys are; an empty or missing value is `none`. `JSON.stringify`
-- and `JSON.parse` are the arguments `stringify` and `parse`, where a text that does not parse is
-- `none`. Events for observability are left out.
pub mod Atomic
use livepoly_server.Base.{ℕ, zero, suc, Bool, true, false, Option, none, some, ◌==◌, if◌then◌else◌}
use livepoly_server.Outcomes.{
  Outcome, done, failed, after, or_fail, not_found, conflict, internal_server_error,
}

abbrev pub update_max_attempts : ℕ
update_max_attempts = 5

module _ {ℓ} {State : Type ℓ} (stringify : State → ℕ) (parse : ℕ → Option State) where
  abbrev parse_state : ℕ → Outcome State
  parse_state text = or_fail (parse text) internal_server_error

  unfoldable pub get : Option ℕ → Outcome State
  get stored = after (or_fail stored not_found) parse_state

  unfoldable pub set : State → Option ℕ
  set state = some (stringify state)

-- The result of the script, and the value that it leaves.
pub data CompareAndSet : Type 0 where
  missing changed stored : CompareAndSet

unfoldable pub compare_and_set : Option ℕ → ℕ → ℕ → CompareAndSet × Option ℕ
compare_and_set none expected next = (missing, none)
compare_and_set (some current) expected next =
    if current == expected then (stored, some next) else (changed, some current)

-- What other clients do to the value before an attempt reads it, and between its read and its write.
pub record Interference : Type 0 where
  pub before_read : Option ℕ → Option ℕ
  pub before_write : Option ℕ → Option ℕ

-- `Next` is what the updater computes, and `stringify` writes its state: for the method itself it is
-- the state, and for a command also the result that its updater sets aside.
module _ {ℓ κ} {State : Type ℓ} {Next : Type κ} (stringify : Next → ℕ)
    (parse : ℕ → Option State) where
  -- The end of an attempt: the next attempt runs only if the value was changed.
  abbrev conclude :
      Next
      → (Option ℕ → Outcome Next × Option ℕ)
      → CompareAndSet × Option ℕ
      → Outcome Next × Option ℕ
  conclude next retry (missing, value) = (failed not_found, value)
  conclude next retry (changed, value) = retry value
  conclude next retry (stored, value) = (done next, value)

  abbrev write :
      (Option ℕ → Option ℕ)
      → ℕ
      → Option ℕ
      → (Option ℕ → Outcome Next × Option ℕ)
      → Outcome Next
      → Outcome Next × Option ℕ
  write before_write expected value retry (failed error) = (failed error, before_write value)
  write before_write expected value retry (done next) =
      conclude next retry (compare_and_set (before_write value) expected (stringify next))

  abbrev attempt_on :
      (State → Outcome Next)
      → (Option ℕ → Option ℕ)
      → (Option ℕ → Outcome Next × Option ℕ)
      → Option ℕ
      → Outcome Next × Option ℕ
  attempt_on updater before_write retry none = (failed not_found, none)
  attempt_on updater before_write retry (some current) =
      write before_write current (some current) retry
        (after (or_fail (parse current) internal_server_error) updater)

  -- The loop, with the attempts that are left. The updater may differ from one attempt to the next,
  -- since it reads the clock; `others` is what other clients do meanwhile.
  unfoldable pub update :
      ℕ → (ℕ → State → Outcome Next) → (ℕ → Interference) → Option ℕ → Outcome Next × Option ℕ
  update zero updater others value = (failed conflict, value)
  update (suc attempts) updater others value =
      attempt_on (updater attempts) (others attempts).before_write
        (λ changed_value. update attempts updater others changed_value)
        ((others attempts).before_read value)
