-- ===== src/Assertions.antt =====
-- The guards of the engine: src/game/engine/game-engine-assertions.ts.
use livepoly_server.Base.{
  ℕ, Bool, true, false, Option, none, some, List, [], ◌∷◌, not, ◌&&◌, ◌||◌, ◌==◌, ltb, any, length,
  find_by,
}
use livepoly_server.Types.{
  GameEngineState, awaiting_first_turn, awaiting_roll, awaiting_property_decision,
  awaiting_debt_resolution, awaiting_turn_end, finished, cancelled, phase_is, Result, ok, err,
  ◌>>=◌, ◌>>◌, throw_if, or_throw, game_not_active, debt_resolution_required, roll_not_allowed,
  buy_not_allowed, turn_end_not_allowed, player_not_found, not_current_turn, invalid_dice,
}
use livepoly_server.Store.{player_key}

-- `Boolean(value)` of an object or `null`
abbrev pub is_set {ℓ} : {A : Type ℓ} → Option A → Bool
is_set none = false
is_set (some a) = true

abbrev pub is_game_terminal : GameEngineState → Bool
is_game_terminal state = phase_is state.phase finished || phase_is state.phase cancelled

abbrev pub assert_game_active : GameEngineState → Result (Unit {0})
assert_game_active state = throw_if (is_game_terminal state) game_not_active

abbrev pub assert_no_debt_resolution : GameEngineState → Result (Unit {0})
assert_no_debt_resolution state =
    throw_if (phase_is state.phase awaiting_debt_resolution || is_set state.debt)
      debt_resolution_required

unfoldable pub assert_can_roll : GameEngineState → Result (Unit {0})
assert_can_roll state = do
  assert_game_active state
  assert_no_debt_resolution state
  throw_if
      (not (phase_is state.phase awaiting_first_turn) && not (phase_is state.phase awaiting_roll))
      roll_not_allowed

unfoldable pub assert_can_buy_property : GameEngineState → Result (Unit {0})
assert_can_buy_property state = do
  assert_game_active state
  assert_no_debt_resolution state
  throw_if (not (phase_is state.phase awaiting_property_decision)) buy_not_allowed

unfoldable pub assert_can_end_turn : GameEngineState → Result (Unit {0})
assert_can_end_turn state = do
  assert_game_active state
  assert_no_debt_resolution state
  throw_if (not (phase_is state.phase awaiting_turn_end)) turn_end_not_allowed

unfoldable pub assert_current_turn : GameEngineState → ℕ → Result (Unit {0})
assert_current_turn state room_player_id = do
  player ← or_throw (find_by player_key room_player_id state.players) player_not_found
  throw_if player.bankrupt player_not_found
  throw_if (not (state.current_turn_room_player_id == room_player_id)) not_current_turn

-- A JavaScript number in a command: a natural number, or any other value (negative, fractional, NaN
-- or infinite), which every check of the engine refuses in the same way.
pub data JsNumber : Type 0 where
  natural : ℕ → JsNumber
  other : JsNumber

-- `!Number.isInteger(value) || value < 1 || value > 6`
abbrev pub is_bad_die : JsNumber → Bool
is_bad_die (JsNumber.natural n) = ltb n 1 || ltb 6 n
is_bad_die JsNumber.other = true

-- The dice that are accepted are returned, since the source asserts their type.
unfoldable pub assert_valid_dice : List JsNumber → Result (ℕ × ℕ)
assert_valid_dice dice = do
  throw_if (not (length dice == 2) || any is_bad_die dice) invalid_dice
  as_dice_roll dice
  where
    as_dice_roll : List JsNumber → Result (ℕ × ℕ)
    as_dice_roll (JsNumber.natural a ∷ JsNumber.natural b ∷ []) = ok (a, b)
    as_dice_roll _ = err invalid_dice
