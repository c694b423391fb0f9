-- ===== src/Buildings.antt =====
-- Houses and hotels: src/game/engine/game-engine-buildings.ts.
use livepoly_server.Base.{
  ℕ, ◌+◌, ◌-◌, ◌/◌, Bool, true, false, Option, none, some, List, [], ◌∷◌, not, ◌&&◌, ◌||◌, ltb,
  ◌==◌, any, all, filter, map, min, max, is_key, if◌then◌else◌,
}
use livepoly_server.Types.{
  GameEngineState, GameEngineProperty, GameEngineResult, GameEngineEvent, awaiting_debt_resolution,
  phase_is, Result, ok, err, ◌>>=◌, ◌>>◌, throw_if, or_throw, building_not_allowed,
  debt_resolution_required, property_set_not_owned, property_mortgaged, building_limit_reached,
  uneven_building, no_building_to_sell,
}
use livepoly_server.Board.{
  GameTile, GameBoard, PropertyTile, get_game_board, find_tile, set_tiles_of,
}
use livepoly_server.Store.{find_property_state, update_property_state, is_owned_by}
use livepoly_server.Assertions.{assert_game_active, assert_current_turn, is_set}
use livepoly_server.Money.{debit_player, credit_player}
use livepoly_server.Mortgage.{can_manage}

unfoldable pub assert_can_manage_buildings : GameEngineState → ℕ → Bool → Result (Unit {0})
assert_can_manage_buildings state room_player_id allow_debt_resolution = do
  assert_game_active state
  throw_if (not (can_manage state room_player_id allow_debt_resolution)) building_not_allowed
  assert_current_turn state room_player_id

unfoldable pub get_property_tile_by_key : GameBoard → ℕ → Result PropertyTile
get_property_tile_by_key board tile_key =
    or_throw (find_tile board tile_key) building_not_allowed >>= as_property_tile
  where
    as_property_tile : GameTile → Result PropertyTile
    as_property_tile (GameTile.property tile) = ok tile
    as_property_tile _ = err building_not_allowed

-- `setTiles.map((setTile) => findPropertyState(state, setTile.key))`
unfoldable pub set_properties :
    GameEngineState → List PropertyTile → Result (List GameEngineProperty)
set_properties state [] = ok []
set_properties state (set_tile ∷ set_tiles) =
    let rest = set_properties state set_tiles in
    find_property_state state set_tile.key >>= λ property.
    (rest >>= λ properties. ok (property ∷ properties))

unfoldable pub get_owned_set_properties :
    GameEngineState → GameBoard → PropertyTile → ℕ → Result (List GameEngineProperty)
unfolding set_properties
get_owned_set_properties state board tile room_player_id = do
  properties ← set_properties state (set_tiles_of board.tiles tile.set_key)
  throw_if (any (λ property. not (is_owned_by property room_player_id)) properties)
      property_set_not_owned
  ok properties

-- `Math.min(...counts)` and `Math.max(...counts)`; of no numbers they are infinite, `none` here.
unfoldable pub math_min : List ℕ → Option ℕ
math_min [] = none
math_min (n ∷ ns) = some (elim (math_min ns) [ none ↦ n | some m ↦ min n m ])

unfoldable pub math_max : List ℕ → Option ℕ
math_max [] = none
math_max (n ∷ ns) = some (elim (math_max ns) [ none ↦ n | some m ↦ max n m ])

unfoldable pub assert_can_build_house_evenly :
    GameEngineProperty → List GameEngineProperty → Result (Unit {0})
unfolding math_min
assert_can_build_house_evenly property properties =
    let non_hotel_house_counts =
      map (λ candidate. candidate.house_count)
        (filter (λ candidate. not candidate.has_hotel) properties) in
    throw_if (not (is_key (math_min non_hotel_house_counts) property.house_count)) uneven_building

abbrev can_upgrade_beside : GameEngineProperty → GameEngineProperty → Bool
can_upgrade_beside property candidate =
    if candidate.tile_key == property.tile_key
    then (candidate.house_count == 4) && not candidate.has_hotel
    else candidate.has_hotel || (candidate.house_count == 4)

unfoldable pub assert_can_build_hotel_evenly :
    GameEngineProperty → List GameEngineProperty → Result (Unit {0})
assert_can_build_hotel_evenly property properties = do
  throw_if (not (property.house_count == 4)) building_limit_reached
  throw_if (not (all (can_upgrade_beside property) properties)) uneven_building

unfoldable pub assert_can_sell_house_evenly :
    GameEngineProperty → List GameEngineProperty → Result (Unit {0})
unfolding math_max
assert_can_sell_house_evenly property properties = do
  throw_if (any (λ candidate. candidate.has_hotel) properties) uneven_building
  throw_if
      (not (
        is_key (math_max (map (λ candidate. candidate.house_count) properties))
          property.house_count))
      uneven_building

-- `{ ...property, houseCount, hasHotel }`
abbrev pub with_buildings : ℕ → Bool → GameEngineProperty → GameEngineProperty
with_buildings house_count has_hotel p = record p {
  house_count = house_count;
  has_hotel = has_hotel;
}

-- `{ ...property, houseCount }`
abbrev pub with_houses : ℕ → GameEngineProperty → GameEngineProperty
with_houses house_count p = record p { house_count = house_count }

-- The two ends of `buildProperty`.
unfoldable pub build_house :
    GameEngineState
    → ℕ
    → PropertyTile
    → GameEngineProperty
    → List GameEngineProperty
    → Result GameEngineResult
build_house state room_player_id tile property properties = do
  assert_can_build_house_evenly property properties
  debited_state ← debit_player state room_player_id tile.house_cost
  let next_house_count = property.house_count + 1
  ok (record {
    state = update_property_state debited_state property.tile_key (with_houses next_house_count);
    events =
        GameEngineEvent.property_house_built room_player_id property.tile_key next_house_count
          tile.house_cost
        ∷ [];
  })

unfoldable pub build_hotel :
    GameEngineState
    → ℕ
    → PropertyTile
    → GameEngineProperty
    → List GameEngineProperty
    → Result GameEngineResult
build_hotel state room_player_id tile property properties = do
  assert_can_build_hotel_evenly property properties
  debited_state ← debit_player state room_player_id tile.house_cost
  ok (record {
    state = update_property_state debited_state property.tile_key (with_buildings 0 true);
    events =
        GameEngineEvent.property_hotel_built room_player_id property.tile_key tile.house_cost ∷ [];
  })

unfoldable pub build_property : GameEngineState → ℕ → ℕ → Result GameEngineResult
build_property state room_player_id tile_key = do
  let board = get_game_board state.board_key
  assert_can_manage_buildings state room_player_id false
  throw_if (phase_is state.phase awaiting_debt_resolution || is_set state.debt)
      debt_resolution_required
  tile ← get_property_tile_by_key board tile_key
  properties ← get_owned_set_properties state board tile room_player_id
  property ← find_property_state state tile.key
  throw_if (any (λ candidate. candidate.mortgaged) properties) property_mortgaged
  throw_if property.has_hotel building_limit_reached
  if ltb property.house_count 4
      then build_house state room_player_id tile property properties
      else build_hotel state room_player_id tile property properties

-- The two ends of `sellBuilding`.
unfoldable pub sell_hotel : GameEngineState → ℕ → GameEngineProperty → ℕ → Result GameEngineResult
sell_hotel state room_player_id property sell_amount = do
  credited_state ← credit_player state room_player_id sell_amount
  ok (record {
    state = update_property_state credited_state property.tile_key (with_buildings 4 false);
    events = GameEngineEvent.property_hotel_sold room_player_id property.tile_key sell_amount ∷ [];
  })

unfoldable pub sell_house :
    GameEngineState → ℕ → GameEngineProperty → List GameEngineProperty → ℕ → Result GameEngineResult
sell_house state room_player_id property properties sell_amount = do
  throw_if (property.house_count == 0) no_building_to_sell
  assert_can_sell_house_evenly property properties
  credited_state ← credit_player state room_player_id sell_amount
  let next_house_count = property.house_count - 1
  ok (record {
    state = update_property_state credited_state property.tile_key (with_houses next_house_count);
    events =
        GameEngineEvent.property_house_sold room_player_id property.tile_key next_house_count
          sell_amount
        ∷ [];
  })

unfoldable pub sell_building : GameEngineState → ℕ → ℕ → Result GameEngineResult
sell_building state room_player_id tile_key = do
  let board = get_game_board state.board_key
  assert_can_manage_buildings state room_player_id true
  tile ← get_property_tile_by_key board tile_key
  properties ← get_owned_set_properties state board tile room_player_id
  property ← find_property_state state tile.key
  let sell_amount = tile.house_cost / 2
  if property.has_hotel
      then sell_hotel state room_player_id property sell_amount
      else sell_house state room_player_id property properties sell_amount
