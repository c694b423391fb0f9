-- ===== src/Store.antt =====
-- Access to the players and properties of a state by key: the searches and the `map`s by key that
-- the files of src/game/engine/ repeat.
use livepoly_server.Base.{ℕ, Bool, find_by, update_by, sum_by, is_key}
use livepoly_server.Types.{
  GameEngineState, GameEnginePlayer, GameEngineProperty, Result, or_throw, player_not_found,
  tile_not_ownable,
}

abbrev pub player_key : GameEnginePlayer → ℕ
player_key p = p.room_player_id

abbrev pub property_key : GameEngineProperty → ℕ
property_key p = p.tile_key

-- `findPlayer`
unfoldable pub find_player : GameEngineState → ℕ → Result GameEnginePlayer
find_player state room_player_id =
    or_throw (find_by player_key room_player_id state.players) player_not_found

-- `{ ...state, players: state.players.map(...) }` with a change of one player.
abbrev pub update_player :
    GameEngineState → ℕ → (GameEnginePlayer → GameEnginePlayer) → GameEngineState
update_player state room_player_id change = record state {
  players = update_by player_key room_player_id change state.players;
}

-- `findPropertyState`
unfoldable pub find_property_state : GameEngineState → ℕ → Result GameEngineProperty
find_property_state state tile_key =
    or_throw (find_by property_key tile_key state.properties) tile_not_ownable

-- `updatePropertyState`
abbrev pub update_property_state :
    GameEngineState → ℕ → (GameEngineProperty → GameEngineProperty) → GameEngineState
update_property_state state tile_key change = record state {
  properties = update_by property_key tile_key change state.properties;
}

-- `{ ...player, cash }`
abbrev pub with_cash : (ℕ → ℕ) → GameEnginePlayer → GameEnginePlayer
with_cash f p = record p { cash = f p.cash }

-- `property.ownerRoomPlayerId === roomPlayerId`
abbrev pub is_owned_by : GameEngineProperty → ℕ → Bool
is_owned_by p room_player_id = is_key p.owner_room_player_id room_player_id

-- The cash of all players.
abbrev pub total_cash : GameEngineState → ℕ
total_cash state = sum_by (λ p. p.cash) state.players
