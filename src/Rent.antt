-- ===== src/Rent.antt =====
-- Rent: src/game/engine/game-engine-rent.ts.
pub mod Tables
use livepoly_server.Base.{
  ℕ, zero, suc, ◌+◌, ◌*◌, Bool, true, false, Option, none, some, List, [], ◌∷◌, ◌==◌, ◌||◌, ltb,
  all, filter, length, get_elem?, find_by, is_key, if◌then◌else◌,
}
use livepoly_server.Types.{
  GameEngineState, GameEngineProperty, GameEngineDebtReason, GameEngineResult, GameEngineEvent,
  GameTileKind, Result, ok, err, ◌>>=◌, or_throw, tile_not_ownable, plain_error,
}
use livepoly_server.Board.{
  GameTile, PropertyTile, get_game_board, find_tile, is_ownable_tile, set_tiles_of, tile_key_of,
}
use livepoly_server.Store.{property_key}
use livepoly_server.Money.{transfer_player_cash_or_create_debt}

-- `state.properties.find(...)?.ownerRoomPlayerId`
abbrev pub owner_of : GameEngineState → ℕ → Option ℕ
owner_of state tile_key = elim (find_by property_key tile_key state.properties) [
  | none ↦ none
  | some property ↦ property.owner_room_player_id
]

-- `ownsFullPropertySet`, for the owner of the tile.
unfoldable pub owns_full_property_set : GameEngineState → PropertyTile → Bool
owns_full_property_set state tile = elim (owner_of state tile.key) [
  | none ↦ false
  | some owner ↦
      all (λ set_tile. is_key (owner_of state set_tile.key) owner)
        (set_tiles_of (get_game_board state.board_key).tiles tile.set_key)
]

abbrev pub is_airport : GameTile → Bool
is_airport (GameTile.airport t) = true
is_airport _ = false

abbrev pub is_utility : GameTile → Bool
is_utility (GameTile.utility t) = true
is_utility _ = false

-- `countOwnedTilesByKind`, with the test of the kind as an argument.
unfoldable pub count_owned_tiles_by_kind : GameEngineState → (GameTile → Bool) → ℕ → ℕ
count_owned_tiles_by_kind state is_kind current_tile_key = elim (owner_of state current_tile_key) [
  | none ↦ 0
  | some owner ↦ length (
      filter (λ tile. is_key (owner_of state (tile_key_of tile)) owner)
        (filter is_kind (get_game_board state.board_key).tiles))
]

-- `amounts[count - 1] ?? amounts[0]`; an empty table would give `undefined`.
unfoldable pub by_owned_count : List ℕ → ℕ → Result ℕ
by_owned_count amounts zero = or_throw (get_elem? amounts 0) plain_error
by_owned_count amounts (suc i) = elim (get_elem? amounts i) [
  | none ↦ or_throw (get_elem? amounts 0) plain_error
  | some amount ↦ ok amount
]

-- `tile.rentByHouseCount[property.houseCount - 1]`, where the count is positive. Past the table
-- JavaScript gives `undefined`, and the payment is not a number; that case is an error here.
unfoldable pub by_house_count : List ℕ → ℕ → Result ℕ
by_house_count amounts zero = err plain_error
by_house_count amounts (suc i) = or_throw (get_elem? amounts i) plain_error

unfoldable pub property_rent : GameEngineState → PropertyTile → GameEngineProperty → Result ℕ
unfolding by_house_count
property_rent state tile property =
    if property.has_hotel
    then ok tile.hotel_rent
    else if ltb 0 property.house_count
    then by_house_count tile.rent_by_house_count property.house_count
    else if owns_full_property_set state tile
    then ok (tile.base_rent * 2)
    else ok tile.base_rent

unfoldable pub calculate_rent : GameEngineState → GameTile → ℕ × ℕ → Result ℕ
unfolding property_rent by_owned_count
calculate_rent state (GameTile.property tile) dice =
    or_throw (find_by property_key tile.key state.properties) tile_not_ownable
    >>= property_rent state tile
calculate_rent state (GameTile.airport tile) dice =
    by_owned_count tile.rent_by_owned_count (count_owned_tiles_by_kind state is_airport tile.key)
calculate_rent state (GameTile.utility tile) (a, b) =
    by_owned_count tile.rent_multiplier_by_owned_count
      (count_owned_tiles_by_kind state is_utility tile.key)
    >>= λ multiplier. ok ((a + b) * multiplier)
calculate_rent state _ dice = err plain_error

-- `{ state, events: [] }`
abbrev pub unchanged : GameEngineState → GameEngineResult
unchanged state = record { state = state; events = [] }

-- The payment to the owner.
unfoldable pub charge_rent :
    GameEngineState → ℕ → ℕ → ℕ → GameTile → ℕ × ℕ → Result GameEngineResult
charge_rent state payer_room_player_id owner tile_key tile dice =
    calculate_rent state tile dice >>= λ amount.
    (transfer_player_cash_or_create_debt state payer_room_player_id owner amount
        GameEngineDebtReason.rent
      >>= λ payment_result. ok (record {
        state = payment_result.state;
        events =
            if payment_result.paid
            then GameEngineEvent.rent_paid payer_room_player_id owner tile_key amount ∷ []
            else payment_result.events;
      }))

-- The owner to whom rent is due: none on a tile of the bank's, of the payer's or mortgaged.
abbrev pub rent_owner : Option GameEngineProperty → ℕ → Option ℕ
rent_owner none payer_room_player_id = none
rent_owner (some property) payer_room_player_id =
    if property.mortgaged || is_key property.owner_room_player_id payer_room_player_id
    then none
    else property.owner_room_player_id

unfoldable pub pay_rent : GameEngineState → ℕ → ℕ → ℕ × ℕ → Result GameEngineResult
pay_rent state payer_room_player_id tile_key dice =
    elim (rent_owner (find_by property_key tile_key state.properties) payer_room_player_id) [
      | none ↦ ok (unchanged state)
      | some owner ↦ elim (find_tile (get_game_board state.board_key) tile_key) [
        | none ↦ ok (unchanged state)
        | some tile ↦
            if is_ownable_tile tile
            then charge_rent state payer_room_player_id owner tile_key tile dice
            else ok (unchanged state)
      ]
    ]
