-- ===== src/Properties.antt =====
-- Buying: src/game/engine/game-engine-properties.ts.
use livepoly_server.Base.{ℕ, false, Option, none, some, List, [], ◌∷◌, map, filter, not}
use livepoly_server.Types.{
  GameEngineState, GameEngineProperty, GameEngineResult, GameEngineEvent, GameBoardKey,
  awaiting_turn_end, Result, ok, ◌>>=◌, ◌>>◌, throw_if, or_throw, no_property_decision,
  tile_not_ownable, property_already_owned,
}
use livepoly_server.Board.{
  GameTile, get_game_board, find_tile, is_ownable_tile, tile_key_of, tile_price,
}
use livepoly_server.Store.{find_property_state, update_property_state}
use livepoly_server.Assertions.{is_set}
use livepoly_server.Money.{debit_player}

abbrev pub unowned_property : GameTile → GameEngineProperty
unowned_property tile = record {
  tile_key = tile_key_of tile;
  owner_room_player_id = none;
  house_count = 0;
  has_hotel = false;
  mortgaged = false;
}

unfoldable pub create_initial_property_state : GameBoardKey → List GameEngineProperty
create_initial_property_state board_key =
    map unowned_property (filter is_ownable_tile (get_game_board board_key).tiles)

-- `{ ...property, ownerRoomPlayerId }`
abbrev pub with_owner : Option ℕ → GameEngineProperty → GameEngineProperty
with_owner owner p = record p { owner_room_player_id = owner }

unfoldable pub buy_property : GameEngineState → ℕ → Result GameEngineResult
unfolding find_property_state
buy_property state room_player_id = do
  tile_key ← or_throw state.pending_tile_key no_property_decision
  tile ← or_throw (find_tile (get_game_board state.board_key) tile_key) tile_not_ownable
  throw_if (not (is_ownable_tile tile)) tile_not_ownable
  property ← find_property_state state (tile_key_of tile)
  throw_if (is_set property.owner_room_player_id) property_already_owned
  next_state ← debit_player state room_player_id (tile_price tile)
  ok (record {
    state =
        update_property_state
          (record next_state { phase = awaiting_turn_end; pending_tile_key = none })
          (tile_key_of tile) (with_owner (some room_player_id));
    events =
        GameEngineEvent.property_bought room_player_id (tile_key_of tile) (tile_price tile) ∷ [];
  })
