-- ===== src/MissedTurns.antt =====
-- Missed turns: src/game/engine/game-engine-missed-turns.ts.
pub mod Once
use livepoly_server.Base.{ℕ, ◌+◌, Option, none, some, not, ◌||◌, is_key, find_by, if◌then◌else◌}
use livepoly_server.Types.{GameEngineState, GameEnginePlayer, is_human}
use livepoly_server.Store.{player_key, update_player}

abbrev or_zero : Option ℕ → ℕ
or_zero none = 0
or_zero (some n) = n

abbrev pub with_missed_turn : ℕ → GameEnginePlayer → GameEnginePlayer
with_missed_turn turn_number player =
    if not (is_human player.player_type)
      || (player.bankrupt || is_key player.last_missed_turn_number turn_number)
    then player
    else record player {
      consecutive_missed_turns = some (or_zero player.consecutive_missed_turns + 1);
      last_missed_turn_number = some turn_number;
    }

unfoldable pub increment_missed_turn : GameEngineState → Option ℕ → ℕ → GameEngineState
increment_missed_turn state none turn_number = state
increment_missed_turn state (some room_player_id) turn_number =
    update_player state room_player_id (with_missed_turn turn_number)

abbrev pub without_missed_turns : GameEnginePlayer → GameEnginePlayer
without_missed_turns player =
    if is_human player.player_type
    then record player { consecutive_missed_turns = some 0; last_missed_turn_number = none }
    else player

unfoldable pub reset_missed_turn : GameEngineState → Option ℕ → GameEngineState
reset_missed_turn state none = state
reset_missed_turn state (some room_player_id) =
    update_player state room_player_id without_missed_turns

unfoldable pub get_consecutive_missed_turns : GameEngineState → ℕ → ℕ
get_consecutive_missed_turns state room_player_id =
    elim (find_by player_key room_player_id state.players) [
      | none ↦ 0
      | some player ↦ or_zero player.consecutive_missed_turns
    ]
