-- ===== src/Derived.antt =====
-- Derived views of a state: src/game/engine/game-engine-derived-state.ts.
pub mod Ranking
pub mod Mapped
use livepoly_server.Base.{
  ℕ, ◌+◌, ◌-◌, ◌*◌, Bool, true, false, Option, none, some, List, [], ◌∷◌, not, ◌&&◌, ◌||◌, ltb, leb,
  ◌==◌, filter, length, sort_by, find_by, if◌then◌else◌,
}
use livepoly_server.Types.{
  GameEngineState, GameEnginePlayer, GameEngineProperty, PlayerNetWorth, Result, ok, err, ◌>>=◌,
  ◌>>◌, throw_if, or_throw, player_not_found, tile_not_ownable,
}
use livepoly_server.Board.{
  GameTile, GameBoard, get_game_board, find_tile, is_ownable_tile, tile_price, tile_mortgage_value,
  half_house_cost,
}
use livepoly_server.Store.{player_key, property_key, find_player, find_property_state, is_owned_by}
use livepoly_server.Assertions.{is_game_terminal}
use livepoly_server.Turns.{get_active_players}

-- `array.map` with a function that may throw.
unfoldable pub map_result {ℓ κ} :
    {A : Type ℓ} {B : Type κ} → (A → Result B) → List A → Result (List B)
map_result f [] = ok []
map_result f (x ∷ xs) = let rest = map_result f xs in f x >>= λ y. (rest >>= λ ys. ok (y ∷ ys))

unfoldable pub get_tile_owner_room_player_id : GameEngineState → ℕ → Result (Option ℕ)
unfolding find_property_state
get_tile_owner_room_player_id state tile_key =
    find_property_state state tile_key >>= λ property. ok property.owner_room_player_id

unfoldable pub get_owned_properties : GameEngineState → ℕ → Result (List GameEngineProperty)
unfolding find_player
get_owned_properties state room_player_id = do
  find_player state room_player_id
  ok (filter (λ property. is_owned_by property room_player_id) state.properties)

unfoldable pub can_player_act : GameEngineState → ℕ → Result Bool
unfolding find_player
can_player_act state room_player_id =
    if is_game_terminal state
    then ok false
    else (find_player state room_player_id >>= λ player.
        ok (not player.bankrupt && (state.current_turn_room_player_id == player.room_player_id)))

-- `houseCount + (hasHotel ? 5 : 0)`
abbrev pub building_count : GameEngineProperty → ℕ
building_count property = property.house_count + (if property.has_hotel then 5 else 0)

-- The difference is exact where a tile's mortgage value is at most its price, as on the board.
unfoldable pub calculate_asset_net_worth : GameTile → GameEngineProperty → ℕ
calculate_asset_net_worth tile property =
    tile_price tile
    + building_count property * half_house_cost tile
    - (if property.mortgaged then tile_mortgage_value tile else 0)

unfoldable pub get_asset_tile_by_key : GameBoard → ℕ → Result GameTile
get_asset_tile_by_key board tile_key = do
  tile ← or_throw (find_tile board tile_key) tile_not_ownable
  throw_if (not (is_ownable_tile tile)) tile_not_ownable
  ok tile

-- `ownedProperties.reduce(...)` from 0.
unfoldable pub asset_value_of : GameBoard → List GameEngineProperty → Result ℕ
asset_value_of board [] = ok 0
asset_value_of board (property ∷ properties) =
    let rest = asset_value_of board properties in
    get_asset_tile_by_key board property.tile_key >>= λ tile.
    (rest >>= λ total. ok (calculate_asset_net_worth tile property + total))

unfoldable pub calculate_player_net_worth :
    GameEngineState → GameBoard → GameEnginePlayer → Result PlayerNetWorth
unfolding asset_value_of
calculate_player_net_worth state board player = do
  owned_properties ← get_owned_properties state player.room_player_id
  asset_value ← asset_value_of board owned_properties
  ok (record {
    room_player_id = player.room_player_id;
    seat_number = player.seat_number;
    cash = player.cash;
    owned_property_count = length owned_properties;
    asset_value = asset_value;
    net_worth = player.cash + asset_value;
  })

-- The comparison of the standings is at most 0.
abbrev pub standing_le : PlayerNetWorth → PlayerNetWorth → Bool
standing_le left right =
    if not (right.net_worth == left.net_worth)
    then leb right.net_worth left.net_worth
    else if not (right.cash == left.cash)
    then leb right.cash left.cash
    else if not (right.owned_property_count == left.owned_property_count)
    then leb right.owned_property_count left.owned_property_count
    else leb left.seat_number right.seat_number

unfoldable pub calculate_net_worth_standings : GameEngineState → Result (List PlayerNetWorth)
unfolding map_result
calculate_net_worth_standings state =
    map_result (calculate_player_net_worth state (get_game_board state.board_key))
      (get_active_players state)
    >>= λ standings. ok (sort_by standing_le standings)

unfoldable pub get_net_worth_winner : List PlayerNetWorth → Option PlayerNetWorth
get_net_worth_winner [] = none
get_net_worth_winner (standing ∷ standings) = some standing

unfoldable pub get_net_worth_winners : List PlayerNetWorth → List PlayerNetWorth
get_net_worth_winners [] = []
get_net_worth_winners (first ∷ standings) =
    filter (λ standing. standing.net_worth == first.net_worth) (first ∷ standings)
