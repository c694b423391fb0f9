-- ===== src/Engine.antt =====
-- The engine's entry points, with their guards, and the dispatch over intents:
-- src/game/engine/game-engine.service.ts and src/game/engine/game-engine-intents.ts. The states are
-- values here, so `cloneGameState` (src/game/engine/game-engine-cloner.ts) has no counterpart.
use livepoly_server.Base.{ℕ, Option, List}
use livepoly_server.Types.{GameEngineState, GameEngineResult, Result, ◌>>=◌, ◌>>◌}
use livepoly_server.Assertions.{
  JsNumber, assert_can_roll, assert_can_buy_property, assert_can_end_turn, assert_current_turn,
  assert_valid_dice,
}
use livepoly_server.Properties.{buy_property}
use livepoly_server.Mortgage.{mortgage_property, unmortgage_property}
use livepoly_server.Buildings.{build_property, sell_building}
use livepoly_server.Debt.{pay_debt}
use livepoly_server.Turns.{end_turn}
use livepoly_server.Finish.{finish_game_by_time, finish_game_after_last_human_left}
use livepoly_server.Auctions.{decline_property_purchase, place_auction_bid, pass_auction_bid}
use livepoly_server.Jail.{pay_jail_fine, use_get_out_of_jail_card}
use livepoly_server.Movement.{roll_and_move}
use livepoly_server.Bankruptcy.{declare_bankruptcy}
use livepoly_server.AutoDebt.{auto_resolve_debt}
use livepoly_server.Trades.{
  ProposeTradeInput, propose_trade, accept_trade, reject_trade, cancel_trade,
}

-- The payloads are the arguments, in the order of the source's fields.
pub data GameEngineIntent : Type 0 where
  roll_and_move_intent : ℕ → List JsNumber → GameEngineIntent
  buy_property_intent decline_property_purchase_intent : ℕ → GameEngineIntent
  place_auction_bid_intent : ℕ → JsNumber → GameEngineIntent
  pass_auction_bid_intent : ℕ → GameEngineIntent
  build_property_intent sell_building_intent : ℕ → ℕ → GameEngineIntent
  mortgage_property_intent unmortgage_property_intent : ℕ → ℕ → GameEngineIntent
  propose_trade_intent : ProposeTradeInput → GameEngineIntent
  accept_trade_intent reject_trade_intent cancel_trade_intent : ℕ → ℕ → GameEngineIntent
  declare_bankruptcy_intent : ℕ → Option ℕ → GameEngineIntent
  pay_debt_intent auto_resolve_debt_intent : ℕ → GameEngineIntent
  pay_jail_fine_intent use_get_out_of_jail_card_intent : ℕ → GameEngineIntent
  end_turn_intent : ℕ → GameEngineIntent
  finish_game_by_time_intent finish_game_after_last_human_left_intent : JsNumber → GameEngineIntent

-- What the engine asks of its platform: `Date.now()`, `randomUUID()` and `String.prototype.trim`
-- (`none` for a text that is empty once trimmed).
pub record Platform : Type 0 where
  pub now : ℕ
  pub fresh_id : ℕ
  pub trim : ℕ → Option ℕ

unfoldable pub reduce_game_engine_intent :
    Platform → GameEngineState → GameEngineIntent → Result GameEngineResult
reduce_game_engine_intent platform state (roll_and_move_intent id dice) = do
  assert_can_roll state
  assert_current_turn state id
  roll ← assert_valid_dice dice
  roll_and_move state id roll
reduce_game_engine_intent platform state (buy_property_intent id) = do
  assert_can_buy_property state
  assert_current_turn state id
  buy_property state id
reduce_game_engine_intent platform state (decline_property_purchase_intent id) = do
  assert_can_buy_property state
  assert_current_turn state id
  decline_property_purchase state id platform.now
reduce_game_engine_intent platform state (place_auction_bid_intent id amount) =
    place_auction_bid state id amount platform.now
reduce_game_engine_intent platform state (pass_auction_bid_intent id) =
    pass_auction_bid state id platform.now
reduce_game_engine_intent platform state (build_property_intent id tile_key) =
    assert_current_turn state id >> build_property state id tile_key
reduce_game_engine_intent platform state (sell_building_intent id tile_key) =
    assert_current_turn state id >> sell_building state id tile_key
reduce_game_engine_intent platform state (mortgage_property_intent id tile_key) =
    assert_current_turn state id >> mortgage_property state id tile_key
reduce_game_engine_intent platform state (unmortgage_property_intent id tile_key) =
    assert_current_turn state id >> unmortgage_property state id tile_key
reduce_game_engine_intent platform state (propose_trade_intent input) =
    propose_trade platform.trim state input platform.fresh_id platform.now
reduce_game_engine_intent platform state (accept_trade_intent id trade_id) =
    accept_trade state id trade_id
reduce_game_engine_intent platform state (reject_trade_intent id trade_id) =
    reject_trade state id trade_id
reduce_game_engine_intent platform state (cancel_trade_intent id trade_id) =
    cancel_trade state id trade_id
reduce_game_engine_intent platform state (declare_bankruptcy_intent id creditor) =
    declare_bankruptcy state id creditor
reduce_game_engine_intent platform state (pay_debt_intent id) = pay_debt state id
reduce_game_engine_intent platform state (auto_resolve_debt_intent id) = auto_resolve_debt state id
reduce_game_engine_intent platform state (pay_jail_fine_intent id) =
    assert_current_turn state id >> pay_jail_fine state id
reduce_game_engine_intent platform state (use_get_out_of_jail_card_intent id) =
    assert_current_turn state id >> use_get_out_of_jail_card state id
reduce_game_engine_intent platform state (end_turn_intent id) = do
  assert_can_end_turn state
  assert_current_turn state id
  end_turn state id
reduce_game_engine_intent platform state (finish_game_by_time_intent time) =
    finish_game_by_time state time
reduce_game_engine_intent platform state (finish_game_after_last_human_left_intent time) =
    finish_game_after_last_human_left state time
