-- ===== src/Trades/Bots.antt =====
-- How a bot judges an offer: `shouldBotAcceptTrade` and its helpers in
-- src/game/engine/game-engine-trades.ts, with GAME_BOTS of src/game/game.constants.ts. Values are
-- kept in quarters, since the weights 0, 0.75 and 1.75 are exact in quarters; the product with the
-- margin is that of doubles.
use livepoly_server.Base.{
  ℕ, ◌+◌, ◌*◌, ◌^◌, Bool, true, false, Option, none, some, List, [], ◌∷◌, leb, includes, sum_by,
  if◌then◌else◌, any, round_double,
}
use livepoly_server.Types.{
  GameEngineState, GameEngineTradeOffer, BotDifficulty, easy, normal, hard, Result, ok, ◌>>=◌,
}
use livepoly_server.Board.{
  GameTile, PropertyTile, PropertySetKey, set_is, get_game_board, set_tiles_of, tile_price,
  half_house_cost,
}
use livepoly_server.Store.{find_player, find_property_state, is_owned_by}
use livepoly_server.Derived.{building_count}
use livepoly_server.Trades.Offers.{get_tradeable_tile}

-- `tradeSetCompletionWeight`, in quarters.
abbrev weight_quarters : BotDifficulty → ℕ
weight_quarters easy = 0
weight_quarters normal = 3
weight_quarters hard = 7

-- The doubles 0.95, 1.1 and 1.3 of `tradeAcceptanceMargin`, times 2^53.
abbrev margin_significand : BotDifficulty → ℕ
margin_significand easy = 8556839292003942
margin_significand normal = 9907919180215092
margin_significand hard = 11709359031163290

-- `botReceives >= botGives * margin`, for both in quarters.
unfoldable pub is_accepted_margin : BotDifficulty → ℕ → ℕ → Bool
is_accepted_margin difficulty bot_receives bot_gives =
    leb (round_double (bot_gives * margin_significand difficulty)) (bot_receives * 2 ^ 53)

-- The `reduce` of `getTradeValue`.
unfoldable pub property_values : GameEngineState → List ℕ → Result ℕ
property_values state [] = ok 0
property_values state (tile_key ∷ tile_keys) =
    let rest = property_values state tile_keys in
    find_property_state state tile_key >>= λ property.
    (get_tradeable_tile state tile_key >>= λ tile.
    (rest >>= λ total.
    ok (tile_price tile + building_count property * half_house_cost tile + total)))

unfoldable pub get_trade_value : GameEngineState → ℕ → List ℕ → Result ℕ
unfolding property_values
get_trade_value state cash property_keys =
    property_values state property_keys >>= λ total. ok (cash + total)

-- `setTiles.every(...)`: the search throws on a tile with no property.
unfoldable pub completes_set :
    GameEngineState → ℕ → List ℕ → List ℕ → List PropertyTile → Result Bool
completes_set state room_player_id incoming outgoing [] = ok true
completes_set state room_player_id incoming outgoing (set_tile ∷ set_tiles) =
    let rest = completes_set state room_player_id incoming outgoing set_tiles in
    elim (includes outgoing set_tile.key) [
      | true ↦ ok false
      | false ↦ elim (includes incoming set_tile.key) [
        | true ↦ rest
        | false ↦ find_property_state state set_tile.key >>= λ property.
            elim (is_owned_by property room_player_id) [ true ↦ rest | false ↦ ok false ]
      ]
    ]

abbrev has_set : List PropertySetKey → PropertySetKey → Bool
has_set set_keys set_key = any (λ k. set_is k set_key) set_keys

-- The loop of `getSetCompletionValue` over the incoming keys, with the sets found so far.
unfoldable pub completed_set_keys :
    GameEngineState
    → ℕ
    → List ℕ
    → List ℕ
    → List ℕ
    → List PropertySetKey
    → Result (List PropertySetKey)
completed_set_keys state room_player_id incoming outgoing [] completed = ok completed
completed_set_keys state room_player_id incoming outgoing (tile_key ∷ tile_keys) completed =
    get_tradeable_tile state tile_key >>= λ tile.
    (with_tile tile >>= λ next.
    completed_set_keys state room_player_id incoming outgoing tile_keys next)
  where
    with_tile : GameTile → Result (List PropertySetKey)
    with_tile (GameTile.property tile) = elim (has_set completed tile.set_key) [
      | true ↦ ok completed
      | false ↦
          completes_set state room_player_id incoming outgoing
            (set_tiles_of (get_game_board state.board_key).tiles tile.set_key)
          >>= λ completes. ok (if completes then tile.set_key ∷ completed else completed)
    ]
    with_tile _ = ok completed

abbrev set_value_of : List PropertySetKey → GameTile → ℕ
set_value_of set_keys (GameTile.property tile) =
    if has_set set_keys tile.set_key then tile.price else 0
set_value_of set_keys _ = 0

unfoldable pub get_set_completion_value : GameEngineState → ℕ → List ℕ → List ℕ → Result ℕ
unfolding completed_set_keys completes_set
get_set_completion_value state room_player_id incoming outgoing =
    completed_set_keys state room_player_id incoming outgoing incoming [] >>= λ set_keys.
    ok (sum_by (set_value_of set_keys) (get_game_board state.board_key).tiles)

abbrev difficulty_or_normal : Option BotDifficulty → BotDifficulty
difficulty_or_normal none = normal
difficulty_or_normal (some difficulty) = difficulty

unfoldable pub should_bot_accept_trade : GameEngineState → GameEngineTradeOffer → Result Bool
unfolding find_player get_trade_value get_set_completion_value is_accepted_margin
should_bot_accept_trade state trade = do
  bot ← find_player state trade.to_room_player_id
  let difficulty = difficulty_or_normal bot.bot_difficulty
  received ← get_trade_value state trade.offered_cash trade.offered_property_keys
  received_sets ←
      get_set_completion_value state trade.to_room_player_id trade.offered_property_keys
        trade.requested_property_keys
  given ← get_trade_value state trade.requested_cash trade.requested_property_keys
  given_sets ←
      get_set_completion_value state trade.from_room_player_id trade.requested_property_keys
        trade.offered_property_keys
  ok (
      is_accepted_margin difficulty (4 * received + received_sets * weight_quarters difficulty)
        (4 * given + given_sets * weight_quarters difficulty))
