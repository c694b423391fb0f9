-- ===== src/Mortgage.antt =====
-- Mortgages: src/game/engine/game-engine-mortgage.ts.
pub mod Cost
pub mod Bounds
use livepoly_server.Base.{
  ℕ, ◌+◌, Bool, true, false, Option, none, some, List, [], ◌∷◌, not, ◌&&◌, ◌||◌, ltb, is_key,
}
use livepoly_server.Types.{
  GameEngineState, GameEngineProperty, GameEngineResult, GameEngineEvent, GameEngineDebt,
  awaiting_turn_end, awaiting_debt_resolution, phase_is, Result, ok, err, ◌>>=◌, ◌>>◌, throw_if,
  or_throw, mortgage_not_allowed, property_not_owned, property_has_buildings,
  property_already_mortgaged, property_not_mortgaged,
}
use livepoly_server.Board.{
  GameTile, GameBoard, PropertyTile, get_game_board, find_tile, is_ownable_tile, set_tiles_of,
  tile_key_of, tile_mortgage_value,
}
use livepoly_server.Store.{find_property_state, update_property_state, is_owned_by}
use livepoly_server.Assertions.{assert_game_active, assert_current_turn}
use livepoly_server.Money.{debit_player, credit_player}
use livepoly_server.Mortgage.Cost.{get_unmortgage_cost}

-- `state.debt?.roomPlayerId === roomPlayerId`
abbrev pub owes : Option GameEngineDebt → ℕ → Bool
owes none room_player_id = false
owes (some debt) room_player_id = is_key (some debt.room_player_id) room_player_id

-- The test that the mortgage and building guards share: the turn's end, or the own debt.
abbrev pub can_manage : GameEngineState → ℕ → Bool → Bool
can_manage state room_player_id allow_debt_resolution =
    phase_is state.phase awaiting_turn_end
    || (allow_debt_resolution
        && (phase_is state.phase awaiting_debt_resolution && owes state.debt room_player_id))

unfoldable pub assert_can_manage_mortgage : GameEngineState → ℕ → Bool → Result (Unit {0})
assert_can_manage_mortgage state room_player_id allow_debt_resolution = do
  assert_game_active state
  throw_if (not (can_manage state room_player_id allow_debt_resolution)) mortgage_not_allowed
  assert_current_turn state room_player_id

abbrev pub assert_owned_by : GameEngineProperty → ℕ → Result (Unit {0})
assert_owned_by property room_player_id =
    throw_if (not (is_owned_by property room_player_id)) property_not_owned

unfoldable pub get_mortgageable_tile_by_key : GameBoard → ℕ → Result GameTile
get_mortgageable_tile_by_key board tile_key = do
  tile ← or_throw (find_tile board tile_key) mortgage_not_allowed
  throw_if (not (is_ownable_tile tile)) mortgage_not_allowed
  ok tile

abbrev pub has_building : GameEngineProperty → Bool
has_building property = ltb 0 property.house_count || property.has_hotel

-- `setTiles.some(...)`: the search throws on a tile with no property, unless it stopped before.
unfoldable pub has_building_in_set : GameEngineState → List PropertyTile → Result Bool
has_building_in_set state [] = ok false
has_building_in_set state (set_tile ∷ set_tiles) =
    let rest = has_building_in_set state set_tiles in
    find_property_state state set_tile.key >>= λ property. elim (has_building property) [
      | true ↦ ok true
      | false ↦ rest
    ]

unfoldable pub assert_no_buildings_for_mortgage :
    GameEngineState → GameBoard → GameTile → Result (Unit {0})
unfolding has_building_in_set
assert_no_buildings_for_mortgage state board (GameTile.property tile) = do
  has_building_in_set_tiles ← has_building_in_set state (set_tiles_of board.tiles tile.set_key)
  throw_if has_building_in_set_tiles property_has_buildings
assert_no_buildings_for_mortgage state board _ = ok tt

-- `{ ...property, mortgaged }`
abbrev pub with_mortgaged : Bool → GameEngineProperty → GameEngineProperty
with_mortgaged b p = record p { mortgaged = b }

unfoldable pub mortgage_property : GameEngineState → ℕ → ℕ → Result GameEngineResult
mortgage_property state room_player_id tile_key = do
  let board = get_game_board state.board_key
  assert_can_manage_mortgage state room_player_id true
  tile ← get_mortgageable_tile_by_key board tile_key
  property ← find_property_state state (tile_key_of tile)
  assert_owned_by property room_player_id
  throw_if property.mortgaged property_already_mortgaged
  assert_no_buildings_for_mortgage state board tile
  credited_state ← credit_player state room_player_id (tile_mortgage_value tile)
  ok (record {
    state = update_property_state credited_state property.tile_key (with_mortgaged true);
    events =
        GameEngineEvent.property_mortgaged room_player_id property.tile_key
          (tile_mortgage_value tile)
        ∷ [];
  })

unfoldable pub unmortgage_property : GameEngineState → ℕ → ℕ → Result GameEngineResult
unmortgage_property state room_player_id tile_key = do
  assert_can_manage_mortgage state room_player_id false
  tile ← get_mortgageable_tile_by_key (get_game_board state.board_key) tile_key
  property ← find_property_state state (tile_key_of tile)
  assert_owned_by property room_player_id
  throw_if (not property.mortgaged) property_not_mortgaged
  let amount = get_unmortgage_cost (tile_mortgage_value tile)
  debited_state ← debit_player state room_player_id amount
  ok (record {
    state = update_property_state debited_state property.tile_key (with_mortgaged false);
    events = GameEngineEvent.property_unmortgaged room_player_id property.tile_key amount ∷ [];
  })
