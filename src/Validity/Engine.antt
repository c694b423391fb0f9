-- ===== src/Validity/Engine.antt =====
-- The invariant across the dispatch over intents: `reduceGameEngineIntent` and the states it
-- reaches.
use livepoly_server.Base.{◌≡◌}
use livepoly_server.Types.{GameEngineState, GameEngineResult, ok}
use livepoly_server.Ensures.{Ensures, Ensures-ok, bind-Ensures}
use livepoly_server.Engine.{
  GameEngineIntent, roll_and_move_intent, buy_property_intent, decline_property_purchase_intent,
  place_auction_bid_intent, pass_auction_bid_intent, build_property_intent, sell_building_intent,
  mortgage_property_intent, unmortgage_property_intent, propose_trade_intent, accept_trade_intent,
  reject_trade_intent, cancel_trade_intent, declare_bankruptcy_intent, pay_debt_intent,
  auto_resolve_debt_intent, pay_jail_fine_intent, use_get_out_of_jail_card_intent, end_turn_intent,
  finish_game_by_time_intent, finish_game_after_last_human_left_intent, Platform,
  reduce_game_engine_intent,
}
use livepoly_server.Validity.Defs.{IsValid, LeadsToValid}
use livepoly_server.Validity.Properties.{
  buy_property-IsValid, mortgage_property-IsValid, unmortgage_property-IsValid,
  build_property-IsValid, sell_building-IsValid,
}
use livepoly_server.Validity.Turns.{
  end_turn-IsValid, finish_game_by_time-IsValid, finish_game_after_last_human_left-IsValid,
  pay_debt-IsValid, decline_property_purchase-IsValid, place_auction_bid-IsValid,
  pass_auction_bid-IsValid,
}
use livepoly_server.Validity.Moves.{roll_and_move-IsValid}
use livepoly_server.Validity.Jail.{pay_jail_fine-IsValid, use_get_out_of_jail_card-IsValid}
use livepoly_server.Validity.Debts.{declare_bankruptcy-IsValid, auto_resolve_debt-IsValid}
use livepoly_server.Validity.Trades.{
  propose_trade-IsValid, accept_trade-IsValid, reject_trade-IsValid, cancel_trade-IsValid,
}

-- From a valid state, every intent on every platform either throws or leads to a valid state.
pub reduce-IsValid :
    (platform : Platform) (state : GameEngineState) (intent : GameEngineIntent)
    → IsValid state
    → Ensures LeadsToValid (reduce_game_engine_intent platform state intent)
unfolding reduce_game_engine_intent
reduce-IsValid platform state (roll_and_move_intent id dice) v =
    bind-Ensures _ _ λ _ _.
      bind-Ensures _ _ λ _ _. bind-Ensures _ _ λ roll _. roll_and_move-IsValid state id roll v
reduce-IsValid platform state (buy_property_intent id) v =
    bind-Ensures _ _ λ _ _. bind-Ensures _ _ λ _ _. buy_property-IsValid state id v
reduce-IsValid platform state (decline_property_purchase_intent id) v =
    bind-Ensures _ _
      λ _ _. bind-Ensures _ _ λ _ _. decline_property_purchase-IsValid state id platform.now v
reduce-IsValid platform state (place_auction_bid_intent id amount) v =
    place_auction_bid-IsValid state id amount platform.now v
reduce-IsValid platform state (pass_auction_bid_intent id) v =
    pass_auction_bid-IsValid state id platform.now v
reduce-IsValid platform state (build_property_intent id key) v =
    bind-Ensures _ _ λ _ _. build_property-IsValid state id key v
reduce-IsValid platform state (sell_building_intent id key) v =
    bind-Ensures _ _ λ _ _. sell_building-IsValid state id key v
reduce-IsValid platform state (mortgage_property_intent id key) v =
    bind-Ensures _ _ λ _ _. mortgage_property-IsValid state id key v
reduce-IsValid platform state (unmortgage_property_intent id key) v =
    bind-Ensures _ _ λ _ _. unmortgage_property-IsValid state id key v
reduce-IsValid platform state (propose_trade_intent input) v =
    propose_trade-IsValid platform.trim state input platform.fresh_id platform.now v
reduce-IsValid platform state (accept_trade_intent id trade_id) v =
    accept_trade-IsValid state id trade_id v
reduce-IsValid platform state (reject_trade_intent id trade_id) v =
    reject_trade-IsValid state id trade_id v
reduce-IsValid platform state (cancel_trade_intent id trade_id) v =
    cancel_trade-IsValid state id trade_id v
reduce-IsValid platform state (declare_bankruptcy_intent id creditor) v =
    declare_bankruptcy-IsValid state id creditor v
reduce-IsValid platform state (pay_debt_intent id) v = pay_debt-IsValid state id v
reduce-IsValid platform state (auto_resolve_debt_intent id) v = auto_resolve_debt-IsValid state id v
reduce-IsValid platform state (pay_jail_fine_intent id) v =
    bind-Ensures _ _ λ _ _. pay_jail_fine-IsValid state id v
reduce-IsValid platform state (use_get_out_of_jail_card_intent id) v =
    bind-Ensures _ _ λ _ _. use_get_out_of_jail_card-IsValid state id v
reduce-IsValid platform state (end_turn_intent id) v =
    bind-Ensures _ _ λ _ _. bind-Ensures _ _ λ _ _. end_turn-IsValid state id v
reduce-IsValid platform state (finish_game_by_time_intent time) v =
    finish_game_by_time-IsValid state time v
reduce-IsValid platform state (finish_game_after_last_human_left_intent time) v =
    finish_game_after_last_human_left-IsValid state time v

-- The states that sequences of intents lead to, each intent on a platform of its own.
pub data Reachable (start : GameEngineState) : GameEngineState → Type 0 where
  at_start : Reachable start start
  after_intent :
      {state : GameEngineState} (platform : Platform) (intent : GameEngineIntent)
      (result : GameEngineResult)
      → Reachable start state
      → reduce_game_engine_intent platform state intent ≡ ok result
      → Reachable start result.state

-- Every state that a game reaches from a valid state is valid.
pub Reachable-IsValid :
    (start state : GameEngineState) → IsValid start → Reachable start state → IsValid state
Reachable-IsValid start state v at_start = v
Reachable-IsValid start state v (after_intent platform intent result reached step) =
    Ensures-ok LeadsToValid (reduce-IsValid platform _ intent (Reachable-IsValid start _ v reached))
      step
