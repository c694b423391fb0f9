-- ===== src/Jail/Send.antt =====
-- Going to jail: `sendPlayerToJail` of src/game/engine/game-engine-jail.ts.
use livepoly_server.Base.{ℕ, true, false, none, [], ◌∷◌}
use livepoly_server.Types.{
  GameEngineState, GameEnginePlayer, GameEngineResult, GameEngineEvent, awaiting_turn_end,
}
use livepoly_server.Board.{get_game_board}
use livepoly_server.Store.{update_player}

abbrev pub jailed_at : ℕ → GameEnginePlayer → GameEnginePlayer
jailed_at jail_position player = record player {
  position = jail_position;
  in_jail = true;
  jail_turn_count = 0;
}

unfoldable pub send_player_to_jail : GameEngineState → ℕ → GameEngineResult
send_player_to_jail state room_player_id =
    let jail_position = (get_game_board state.board_key).jail_position in
    record {
      state =
          update_player
            (record state {
              phase = awaiting_turn_end;
              pending_tile_key = none;
              consecutive_doubles_count = 0;
              should_current_player_play_again = false;
            })
            room_player_id (jailed_at jail_position);
      events = GameEngineEvent.player_sent_to_jail room_player_id jail_position ∷ [];
    }
