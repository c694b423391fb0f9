-- ===== src/Finish.antt =====
-- The end of a game by time, or after the last human left: src/game/engine/game-engine-finish.ts.
use livepoly_server.Base.{ℕ, Bool, false, Option, none, some, List, [], ◌∷◌, map, ltb, ◌==◌}
use livepoly_server.Types.{
  GameEngineState, GameEngineResult, GameEngineEvent, PlayerNetWorth, finished, Result, ok, err,
  ◌>>=◌, ◌>>◌, throw_if, invalid_finish_time, game_time_not_expired,
}
use livepoly_server.Assertions.{JsNumber, assert_game_active}
use livepoly_server.Derived.{
  calculate_net_worth_standings, get_net_worth_winner, get_net_worth_winners,
}

-- `!Number.isInteger(finishedAt) || finishedAt <= 0`; the time that is accepted is returned.
unfoldable pub assert_finish_time : JsNumber → Result ℕ
assert_finish_time JsNumber.other = err invalid_finish_time
assert_finish_time (JsNumber.natural n) = throw_if (n == 0) invalid_finish_time >> ok n

-- `expiresAt && finishedAt < expiresAt`: an expiry of 0 is no expiry, and nothing is before it.
abbrev pub is_before_expiry : Option ℕ → ℕ → Bool
is_before_expiry none finished_at = false
is_before_expiry (some expires_at) finished_at = ltb finished_at expires_at

abbrev pub room_player_id_of : Option PlayerNetWorth → Option ℕ
room_player_id_of none = none
room_player_id_of (some standing) = some standing.room_player_id

abbrev pub room_player_ids : List PlayerNetWorth → List ℕ
room_player_ids standings = map (λ standing. standing.room_player_id) standings

-- The state of a finished game.
abbrev pub closed : GameEngineState → GameEngineState
closed state = record state {
  phase = finished;
  should_current_player_play_again = false;
  consecutive_doubles_count = 0;
  auction = none;
  pending_tile_key = none;
  trade_offer = none;
  debt = none;
}

unfoldable pub finish_game_by_time : GameEngineState → JsNumber → Result GameEngineResult
unfolding assert_finish_time
finish_game_by_time state time = do
  assert_game_active state
  finished_at ← assert_finish_time time
  throw_if (is_before_expiry state.expires_at finished_at) game_time_not_expired
  standings ← calculate_net_worth_standings state
  ok (record {
    state = closed state;
    events =
        GameEngineEvent.game_finished_by_time finished_at
          (room_player_id_of (get_net_worth_winner standings))
          (room_player_ids (get_net_worth_winners standings)) standings
        ∷ [];
  })

unfoldable pub finish_game_after_last_human_left :
    GameEngineState → JsNumber → Result GameEngineResult
unfolding assert_finish_time
finish_game_after_last_human_left state time = do
  assert_game_active state
  finished_at ← assert_finish_time time
  standings ← calculate_net_worth_standings state
  ok (record {
    state = closed state;
    events =
        GameEngineEvent.game_finished_after_last_human_left finished_at
          (room_player_id_of (get_net_worth_winner standings))
          (room_player_ids (get_net_worth_winners standings)) standings
        ∷ [];
  })
