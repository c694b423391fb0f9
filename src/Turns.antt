-- ===== src/Turns.antt =====
-- The end of a turn: src/game/engine/game-engine-turns.ts.
pub mod Next
pub mod Total
use livepoly_server.Base.{
  ℕ, zero, ◌+◌, ◌%◌, Bool, false, Option, none, some, List, [], ◌∷◌, not, leb, ◌==◌, filter, length,
  get_elem?, find_index_from, sort_by, if◌then◌else◌,
}
use livepoly_server.Types.{
  GameEngineState, GameEnginePlayer, GameEngineResult, GameEngineEvent, awaiting_roll, Result, ok,
  ◌>>=◌, ◌>>◌, throw_if, or_throw, no_active_players, player_not_found, plain_error,
}

-- `left.seatNumber - right.seatNumber <= 0`
abbrev pub seat_le : GameEnginePlayer → GameEnginePlayer → Bool
seat_le left right = leb left.seat_number right.seat_number

-- `getActivePlayers`: the players that are not bankrupt, in seat order.
abbrev pub get_active_players : GameEngineState → List GameEnginePlayer
get_active_players state = sort_by seat_le (filter (λ player. not player.bankrupt) state.players)

-- The player after the current one in a list, around its end.
unfoldable pub next_in : List GameEnginePlayer → ℕ → Result GameEnginePlayer
next_in active_players current_turn_room_player_id = do
  throw_if (length active_players == 0) no_active_players
  current_index ←
      or_throw
        (find_index_from 0 (λ player. player.room_player_id == current_turn_room_player_id)
          active_players)
        player_not_found
  or_throw (get_elem? active_players ((current_index + 1) % length active_players)) plain_error

unfoldable pub find_next_active_player : GameEngineState → Result GameEnginePlayer
unfolding next_in
find_next_active_player state = next_in (get_active_players state) state.current_turn_room_player_id

-- The same player rolls again after doubles.
abbrev pub play_again : GameEngineState → ℕ → GameEngineResult
play_again state room_player_id = record {
  state = record state {
    phase = awaiting_roll;
    last_dice_roll = none;
    trade_offer = none;
    should_current_player_play_again = false;
  };
  events = GameEngineEvent.turn_ended room_player_id room_player_id state.turn_number ∷ [];
}

abbrev pub pass_turn : GameEngineState → ℕ → GameEnginePlayer → GameEngineResult
pass_turn state room_player_id next_player = record {
  state = record state {
    phase = awaiting_roll;
    turn_number = state.turn_number + 1;
    current_turn_room_player_id = next_player.room_player_id;
    consecutive_doubles_count = 0;
    should_current_player_play_again = false;
    last_dice_roll = none;
    trade_offer = none;
  };
  events =
      GameEngineEvent.turn_ended room_player_id next_player.room_player_id (state.turn_number + 1)
      ∷ [];
}

unfoldable pub end_turn : GameEngineState → ℕ → Result GameEngineResult
end_turn state room_player_id =
    if state.should_current_player_play_again
    then ok (play_again state room_player_id)
    else (find_next_active_player state >>= λ next_player.
        ok (pass_turn state room_player_id next_player))
