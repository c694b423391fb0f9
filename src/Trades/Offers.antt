-- ===== src/Trades/Offers.antt =====
-- Trade offers and their validation: src/game/engine/game-engine-trades.ts.
use livepoly_server.Base.{
  ℕ, Bool, true, false, Option, none, some, List, [], ◌∷◌, not, ◌&&◌, ◌||◌, ltb, ◌==◌, any,
  includes, length,
}
use livepoly_server.Types.{
  GameEngineState, GameEngineTradeOffer, Result, ok, err, ◌>>=◌, ◌>>◌, throw_if, or_throw,
  invalid_trade, insufficient_funds, property_not_owned, tile_not_ownable,
}
use livepoly_server.Board.{GameTile, get_game_board, find_tile, is_ownable_tile}
use livepoly_server.Store.{find_player, find_property_state, is_owned_by}
use livepoly_server.Assertions.{JsNumber}
use livepoly_server.Auctions.{unique}

pub record ProposeTradeInput : Type 0 where
  pub room_player_id : ℕ
  pub to_room_player_id : ℕ
  pub offered_cash : JsNumber
  pub requested_cash : JsNumber
  pub offered_property_keys : List ℕ
  pub requested_property_keys : List ℕ
  pub trade_id : Option ℕ

unfoldable pub normalize_cash : JsNumber → Result ℕ
normalize_cash (JsNumber.natural value) = ok value
normalize_cash JsNumber.other = err invalid_trade

-- `values.map(trim)`, without the empty texts.
unfoldable pub trimmed : (ℕ → Option ℕ) → List ℕ → List ℕ
trimmed trim [] = []
trimmed trim (value ∷ values) =
    let rest = trimmed trim values in elim (trim value) [ none ↦ rest | some key ↦ key ∷ rest ]

unfoldable pub unique_property_keys : (ℕ → Option ℕ) → List ℕ → Result (List ℕ)
unfolding trimmed
unique_property_keys trim values = do
  let unique_values = unique (trimmed trim values)
  throw_if (not (length unique_values == length values)) invalid_trade
  ok unique_values

-- The offer that `proposeTrade` builds from its input.
unfoldable pub offer_of : (ℕ → Option ℕ) → ProposeTradeInput → ℕ → ℕ → Result GameEngineTradeOffer
unfolding normalize_cash
offer_of trim input fresh_id now = do
  offered_cash ← normalize_cash input.offered_cash
  requested_cash ← normalize_cash input.requested_cash
  offered_property_keys ← unique_property_keys trim input.offered_property_keys
  requested_property_keys ← unique_property_keys trim input.requested_property_keys
  ok (record {
    id = elim input.trade_id [ none ↦ fresh_id | some id ↦ id ];
    from_room_player_id = input.room_player_id;
    to_room_player_id = input.to_room_player_id;
    offered_cash = offered_cash;
    requested_cash = requested_cash;
    offered_property_keys = offered_property_keys;
    requested_property_keys = requested_property_keys;
    created_at = now;
  })

unfoldable pub get_tradeable_tile : GameEngineState → ℕ → Result GameTile
get_tradeable_tile state tile_key = do
  tile ← or_throw (find_tile (get_game_board state.board_key) tile_key) tile_not_ownable
  throw_if (not (is_ownable_tile tile)) tile_not_ownable
  ok tile

unfoldable pub assert_properties_owned_by : GameEngineState → List ℕ → ℕ → Result (Unit {0})
assert_properties_owned_by state [] owner = ok tt
assert_properties_owned_by state (tile_key ∷ tile_keys) owner =
    find_property_state state tile_key >>= λ property.
    (throw_if (not (is_owned_by property owner)) property_not_owned
      >> (get_tradeable_tile state tile_key >> assert_properties_owned_by state tile_keys owner))

abbrev is_empty : List ℕ → Bool
is_empty [] = true
is_empty (key ∷ keys) = false

unfoldable pub validate_trade : GameEngineState → GameEngineTradeOffer → Result (Unit {0})
unfolding find_player assert_properties_owned_by
validate_trade state trade = do
  from_player ← find_player state trade.from_room_player_id
  to_player ← find_player state trade.to_room_player_id
  throw_if (from_player.bankrupt || to_player.bankrupt) invalid_trade
  throw_if (ltb from_player.cash trade.offered_cash || ltb to_player.cash trade.requested_cash)
      insufficient_funds
  throw_if
      (((trade.offered_cash == 0) && is_empty trade.offered_property_keys)
        || ((trade.requested_cash == 0) && is_empty trade.requested_property_keys))
      invalid_trade
  throw_if (any (includes trade.offered_property_keys) trade.requested_property_keys) invalid_trade
  assert_properties_owned_by state trade.offered_property_keys trade.from_room_player_id
  assert_properties_owned_by state trade.requested_property_keys trade.to_room_player_id
