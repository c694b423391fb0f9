-- ===== src/Terminal.antt =====
-- Games that are over: the guards `assertGameActive` and those on the phase, for every intent of
-- `reduceGameEngineIntent` (src/game/engine/game-engine.service.ts).
use livepoly_server.Base.{ℕ, ◌≡◌, refl, true, false, Bool, none, not, ◌||◌}
use livepoly_server.Types.{
  GameEngineState, GameEngineErrorCode, GamePhase, phase_is, finished, cancelled,
  awaiting_auction_bid, awaiting_debt_resolution, awaiting_first_turn, awaiting_roll,
  awaiting_property_decision, awaiting_turn_end, Result, ◌>>=◌, throw_if,
}
use livepoly_server.Ensures.{Ensures, throws, bind-Ensures, then-Ensures}
use livepoly_server.Assertions.{
  is_game_terminal, assert_game_active, assert_can_roll, assert_can_buy_property,
  assert_can_end_turn,
}
use livepoly_server.Mortgage.{mortgage_property, unmortgage_property, assert_can_manage_mortgage}
use livepoly_server.Buildings.{build_property, sell_building, assert_can_manage_buildings}
use livepoly_server.Debt.{pay_debt}
use livepoly_server.Finish.{finish_game_by_time, finish_game_after_last_human_left}
use livepoly_server.Auctions.{assert_active_auction, place_auction_bid, pass_auction_bid}
use livepoly_server.Bankruptcy.{declare_bankruptcy}
use livepoly_server.AutoDebt.{assert_active_debt, auto_resolve_debt}
use livepoly_server.Trades.{
  assert_can_trade, assert_trade_offer, propose_trade, accept_trade, reject_trade, cancel_trade,
}
use livepoly_server.Engine.{
  GameEngineIntent, roll_and_move_intent, buy_property_intent, decline_property_purchase_intent,
  place_auction_bid_intent, pass_auction_bid_intent, build_property_intent, sell_building_intent,
  mortgage_property_intent, unmortgage_property_intent, propose_trade_intent, accept_trade_intent,
  reject_trade_intent, cancel_trade_intent, declare_bankruptcy_intent, pay_debt_intent,
  auto_resolve_debt_intent, pay_jail_fine_intent, use_get_out_of_jail_card_intent, end_turn_intent,
  finish_game_by_time_intent, finish_game_after_last_human_left_intent, Platform,
  reduce_game_engine_intent,
}

-- An operation that throws.
abbrev pub Throws {ℓ} : {A : Type ℓ} → Result A → Type ℓ
Throws r = Ensures (λ _. ⊥) r

-- A chain throws when its first step does.
Throws-first {ℓ κ} :
    {A : Type ℓ} {B : Type κ} (m : Result A) (f : A → Result B) → Throws m → Throws (m >>= f)
Throws-first m f h = then-Ensures m f h λ _ e. absurd e

throw_if-Throws : (b : Bool) (e : GameEngineErrorCode) → b ≡ true → Throws (throw_if b e)
throw_if-Throws b e h = rw h throws

-- The phases that are over are none of the others.
other_phase :
    (p : GamePhase)
    → (phase_is p finished || phase_is p cancelled) ≡ true
    → (not (phase_is p awaiting_auction_bid) ≡ true)
      × (not (phase_is p awaiting_debt_resolution) ≡ true)
other_phase finished h = (refl, refl)
other_phase cancelled h = (refl, refl)
other_phase awaiting_first_turn h = (refl, refl)
other_phase awaiting_roll h = (refl, refl)
other_phase awaiting_property_decision h = (refl, refl)
other_phase awaiting_turn_end h = (refl, refl)
other_phase awaiting_auction_bid h = cc
other_phase awaiting_debt_resolution h = cc

-- `payJailFine` and `useGetOutOfJailCard`, which have no guard on the phase.
abbrev pub leaves_jail : GameEngineIntent → Bool
leaves_jail (pay_jail_fine_intent id) = true
leaves_jail (use_get_out_of_jail_card_intent id) = true
leaves_jail _ = false

module _ (state : GameEngineState) (over : is_game_terminal state ≡ true) where
  active-Throws : Throws (assert_game_active state)
  active-Throws = throw_if-Throws _ _ over

  can_roll-Throws : Throws (assert_can_roll state)
  unfolding assert_can_roll
  can_roll-Throws = Throws-first _ _ active-Throws

  can_buy-Throws : Throws (assert_can_buy_property state)
  unfolding assert_can_buy_property
  can_buy-Throws = Throws-first _ _ active-Throws

  can_end-Throws : Throws (assert_can_end_turn state)
  unfolding assert_can_end_turn
  can_end-Throws = Throws-first _ _ active-Throws

  mortgage-Throws : (id key : ℕ) → Throws (mortgage_property state id key)
  unfolding mortgage_property assert_can_manage_mortgage
  mortgage-Throws id key = Throws-first _ _ (Throws-first _ _ active-Throws)

  unmortgage-Throws : (id key : ℕ) → Throws (unmortgage_property state id key)
  unfolding unmortgage_property assert_can_manage_mortgage
  unmortgage-Throws id key = Throws-first _ _ (Throws-first _ _ active-Throws)

  build-Throws : (id key : ℕ) → Throws (build_property state id key)
  unfolding build_property assert_can_manage_buildings
  build-Throws id key = Throws-first _ _ (Throws-first _ _ active-Throws)

  sell-Throws : (id key : ℕ) → Throws (sell_building state id key)
  unfolding sell_building assert_can_manage_buildings
  sell-Throws id key = Throws-first _ _ (Throws-first _ _ active-Throws)

  auction-Throws : Throws (assert_active_auction state)
  unfolding assert_active_auction
  auction-Throws = Throws-first _ _ (throw_if-Throws _ _ (other_phase state.phase over).0)

  pay_debt-Throws : (id : ℕ) → Throws (pay_debt state id)
  unfolding pay_debt
  pay_debt-Throws id = Throws-first _ _ (throw_if-Throws _ _ (other_phase state.phase over).1)

  active_debt-Throws : (id : ℕ) → Throws (assert_active_debt state id)
  unfolding assert_active_debt
  active_debt-Throws id = throw_if-Throws _ _ (rw (other_phase state.phase over).1 refl)

  offer-Throws :
      state.trade_offer ≡ none → (trade_id : ℕ) → Throws (assert_trade_offer state trade_id)
  unfolding assert_trade_offer
  offer-Throws no_offer trade_id = Throws-first _ _ (rw no_offer throws)

-- In a game that is finished or cancelled and has no trade offer, every intent throws, except for
-- the two that leave jail.
pub reduce-Throws :
    (platform : Platform) (state : GameEngineState) (intent : GameEngineIntent)
    → is_game_terminal state ≡ true
    → state.trade_offer ≡ none
    → leaves_jail intent ≡ false
    → Throws (reduce_game_engine_intent platform state intent)
unfolding reduce_game_engine_intent place_auction_bid pass_auction_bid propose_trade
    assert_can_trade accept_trade reject_trade cancel_trade declare_bankruptcy auto_resolve_debt
    finish_game_by_time finish_game_after_last_human_left
reduce-Throws platform state (roll_and_move_intent id dice) over no_offer j =
    Throws-first _ _ (can_roll-Throws state over)
reduce-Throws platform state (buy_property_intent id) over no_offer j =
    Throws-first _ _ (can_buy-Throws state over)
reduce-Throws platform state (decline_property_purchase_intent id) over no_offer j =
    Throws-first _ _ (can_buy-Throws state over)
reduce-Throws platform state (place_auction_bid_intent id amount) over no_offer j =
    Throws-first _ _ (auction-Throws state over)
reduce-Throws platform state (pass_auction_bid_intent id) over no_offer j =
    Throws-first _ _ (auction-Throws state over)
reduce-Throws platform state (build_property_intent id key) over no_offer j =
    bind-Ensures _ _ λ _ _. build-Throws state over id key
reduce-Throws platform state (sell_building_intent id key) over no_offer j =
    bind-Ensures _ _ λ _ _. sell-Throws state over id key
reduce-Throws platform state (mortgage_property_intent id key) over no_offer j =
    bind-Ensures _ _ λ _ _. mortgage-Throws state over id key
reduce-Throws platform state (unmortgage_property_intent id key) over no_offer j =
    bind-Ensures _ _ λ _ _. unmortgage-Throws state over id key
reduce-Throws platform state (propose_trade_intent input) over no_offer j =
    Throws-first _ _ (Throws-first _ _ (active-Throws state over))
reduce-Throws platform state (accept_trade_intent id trade_id) over no_offer j =
    Throws-first _ _ (offer-Throws state over no_offer trade_id)
reduce-Throws platform state (reject_trade_intent id trade_id) over no_offer j =
    Throws-first _ _ (offer-Throws state over no_offer trade_id)
reduce-Throws platform state (cancel_trade_intent id trade_id) over no_offer j =
    Throws-first _ _ (offer-Throws state over no_offer trade_id)
reduce-Throws platform state (declare_bankruptcy_intent id creditor) over no_offer j =
    Throws-first _ _ (active-Throws state over)
reduce-Throws platform state (pay_debt_intent id) over no_offer j = pay_debt-Throws state over id
reduce-Throws platform state (auto_resolve_debt_intent id) over no_offer j =
    Throws-first _ _ (active_debt-Throws state over id)
reduce-Throws platform state (pay_jail_fine_intent id) over no_offer j = cc
reduce-Throws platform state (use_get_out_of_jail_card_intent id) over no_offer j = cc
reduce-Throws platform state (end_turn_intent id) over no_offer j =
    Throws-first _ _ (can_end-Throws state over)
reduce-Throws platform state (finish_game_by_time_intent time) over no_offer j =
    Throws-first _ _ (active-Throws state over)
reduce-Throws platform state (finish_game_after_last_human_left_intent time) over no_offer j =
    Throws-first _ _ (active-Throws state over)
