-- ===== src/Dice.antt =====
-- Dice: src/game/engine/game-engine-dice.ts.
use livepoly_server.Base.{ℕ, ◌+◌, Bool, false, ◌==◌, ◌&&◌, ltb, leb, if◌then◌else◌}
use livepoly_server.Types.{GameEngineState}

abbrev pub is_doubles : ℕ × ℕ → Bool
is_doubles (a, b) = a == b

unfoldable pub apply_doubles_state : GameEngineState → ℕ × ℕ → GameEngineState
apply_doubles_state state dice =
    let consecutive_doubles_count = state.consecutive_doubles_count + 1 in
    if is_doubles dice
    then record state {
      consecutive_doubles_count = consecutive_doubles_count;
      should_current_player_play_again = ltb consecutive_doubles_count 3;
    }
    else record state { consecutive_doubles_count = 0; should_current_player_play_again = false }

unfoldable pub is_third_consecutive_doubles : GameEngineState → ℕ × ℕ → Bool
is_third_consecutive_doubles state dice =
    is_doubles dice && leb 3 (state.consecutive_doubles_count + 1)
