-- ===== src/Trades.antt =====
-- Trades: src/game/engine/game-engine-trades.ts. `trim` is `String.prototype.trim` on keys, with
-- `none` for a text that is empty then; `fresh_id` is `randomUUID()` and `now` is `Date.now()`.
mod Offers
mod Bots
pub mod Ownership
pub use Offers.*
pub use Bots.*
use livepoly_server.Base.{
  ℕ, ◌+◌, ◌*◌, ◌/◌, Bool, true, false, Option, none, some, List, [], ◌∷◌, ◌++◌, map, not, ◌&&◌,
  ◌||◌, ltb, leb, ◌==◌, includes, if◌then◌else◌,
}
use livepoly_server.Types.{
  GameEngineState, GameEnginePlayer, GameEngineProperty, GameEngineTradeOffer, GameEngineResult,
  GameEngineEvent, PlayerType, human, bot, awaiting_first_turn, awaiting_roll,
  awaiting_property_decision, awaiting_turn_end, phase_is, Result, ok, err, ◌>>=◌, ◌>>◌, throw_if,
  or_throw, trade_not_allowed, trade_not_found, invalid_trade, debt_resolution_required,
}
use livepoly_server.Board.{GameTile, half_house_cost}
use livepoly_server.Store.{
  property_key, find_player, find_property_state, update_player, update_property_state,
}
use livepoly_server.Assertions.{JsNumber, is_set, assert_game_active}
use livepoly_server.Money.{credit_player, transfer_player_cash}
use livepoly_server.Properties.{with_owner}
use livepoly_server.Buildings.{with_buildings}
use livepoly_server.Derived.{building_count}

unfoldable pub assert_can_trade : GameEngineState → ℕ → Result (Unit {0})
unfolding find_player
assert_can_trade state room_player_id = do
  assert_game_active state
  throw_if
      (not (
        phase_is state.phase awaiting_first_turn
        || (phase_is state.phase awaiting_roll
            || (phase_is state.phase awaiting_property_decision
                || phase_is state.phase awaiting_turn_end))))
      trade_not_allowed
  throw_if (is_set state.debt) debt_resolution_required
  player ← find_player state room_player_id
  throw_if player.bankrupt invalid_trade

unfoldable pub assert_trade_offer : GameEngineState → ℕ → Result GameEngineTradeOffer
assert_trade_offer state trade_id = do
  trade ← or_throw state.trade_offer trade_not_found
  throw_if (not (trade.id == trade_id)) trade_not_found
  ok trade

-- One round of `liquidateTradeBuildings`.
unfoldable pub liquidate_trade_tile :
    GameEngineState → ℕ → ℕ → ℕ → GameEngineProperty → GameTile → Result GameEngineResult
liquidate_trade_tile state trade_id room_player_id tile_key property tile =
    let amount = building_count property * half_house_cost tile in
    if leb amount 0
    then ok (record { state = state; events = [] })
    else (credit_player state room_player_id amount >>= λ credited_state. ok (record {
      state = update_property_state credited_state tile_key (with_buildings 0 false);
      events =
          GameEngineEvent.trade_buildings_liquidated trade_id room_player_id tile_key amount ∷ [];
    }))

unfoldable pub liquidate_trade_buildings :
    GameEngineState → ℕ → ℕ → List ℕ → Result GameEngineResult
liquidate_trade_buildings state trade_id room_player_id [] =
    ok (record { state = state; events = [] })
liquidate_trade_buildings state trade_id room_player_id (tile_key ∷ tile_keys) =
    find_property_state state tile_key >>= λ property.
    (get_tradeable_tile state tile_key >>= λ tile.
    (liquidate_trade_tile state trade_id room_player_id tile_key property tile >>= λ first.
    (liquidate_trade_buildings first.state trade_id room_player_id tile_keys >>= λ rest.
    ok (record { state = rest.state; events = first.events ++ rest.events }))))

-- `if (amount > 0) nextState = transferPlayerCash(...)`
unfoldable pub transfer_if_positive : GameEngineState → ℕ → ℕ → ℕ → Result GameEngineState
transfer_if_positive state from_room_player_id to_room_player_id amount =
    if ltb 0 amount
    then transfer_player_cash state from_room_player_id to_room_player_id amount
    else ok state

abbrev pub transferred : List ℕ → ℕ → GameEngineProperty → GameEngineProperty
transferred tile_keys owner property =
    if includes tile_keys property.tile_key then with_owner (some owner) property else property

unfoldable pub transfer_properties : List ℕ → ℕ → List GameEngineProperty → List GameEngineProperty
transfer_properties tile_keys owner properties = map (transferred tile_keys owner) properties

-- The two transfers of `acceptTradeOffer`, and its last state.
unfoldable pub exchanged : GameEngineState → GameEngineTradeOffer → GameEngineState
exchanged state trade = record state {
  properties =
      transfer_properties trade.requested_property_keys trade.from_room_player_id
        (transfer_properties trade.offered_property_keys trade.to_room_player_id state.properties);
  trade_offer = none;
}

unfoldable pub accept_trade_offer :
    GameEngineState → GameEngineTradeOffer → List GameEngineEvent → Result GameEngineResult
accept_trade_offer state trade previous_events = do
  let from = trade.from_room_player_id
  let to = trade.to_room_player_id
  validate_trade state trade
  from_liquidation ← liquidate_trade_buildings state trade.id from trade.offered_property_keys
  to_liquidation ←
      liquidate_trade_buildings from_liquidation.state trade.id to trade.requested_property_keys
  offered_state ← transfer_if_positive to_liquidation.state from to trade.offered_cash
  requested_state ← transfer_if_positive offered_state to from trade.requested_cash
  ok (record {
    state = exchanged requested_state trade;
    events =
        previous_events
        ++ (from_liquidation.events
            ++ (to_liquidation.events ++ (GameEngineEvent.trade_accepted trade.id from to ∷ [])));
  })

abbrev pub with_proposal : ℕ → GameEnginePlayer → GameEnginePlayer
with_proposal turn_number player = record player {
  last_bot_trade_proposal_turn_number = some turn_number;
}

abbrev pub marked_if : PlayerType → GameEngineState → ℕ → GameEngineState
marked_if human state room_player_id = state
marked_if bot state room_player_id =
    update_player state room_player_id (with_proposal state.turn_number)

unfoldable pub mark_bot_trade_proposal : GameEngineState → ℕ → Result GameEngineState
unfolding find_player
mark_bot_trade_proposal state room_player_id = find_player state room_player_id >>= λ player.
    ok (marked_if player.player_type state room_player_id)

abbrev proposed_event : GameEngineTradeOffer → GameEngineEvent
proposed_event trade =
    GameEngineEvent.trade_proposed trade.id trade.from_room_player_id trade.to_room_player_id
      trade.offered_cash trade.requested_cash trade.offered_property_keys
      trade.requested_property_keys

abbrev rejected_event : GameEngineTradeOffer → ℕ → GameEngineEvent
rejected_event trade rejected_by =
    GameEngineEvent.trade_rejected trade.id trade.from_room_player_id trade.to_room_player_id
      rejected_by

-- The offer before its target: a bot answers at once, a human is asked.
unfoldable pub answer_proposal :
    PlayerType → GameEngineState → GameEngineTradeOffer → Result GameEngineResult
answer_proposal human state trade = ok (record {
  state = record state { trade_offer = some trade };
  events = proposed_event trade ∷ [];
})
answer_proposal bot state trade = should_bot_accept_trade state trade >>= λ accepts. elim accepts [
  | true ↦ accept_trade_offer state trade (proposed_event trade ∷ [])
  | false ↦ ok (record {
    state = record state { trade_offer = none };
    events = proposed_event trade ∷ rejected_event trade trade.to_room_player_id ∷ [];
  })
]

unfoldable pub propose_trade :
    (ℕ → Option ℕ) → GameEngineState → ProposeTradeInput → ℕ → ℕ → Result GameEngineResult
unfolding find_player
propose_trade trim state input fresh_id now = do
  assert_can_trade state input.room_player_id
  throw_if (input.room_player_id == input.to_room_player_id) invalid_trade
  throw_if (is_set state.trade_offer) trade_not_allowed
  trade ← offer_of trim input fresh_id now
  validate_trade state trade
  proposed_state ← mark_bot_trade_proposal state trade.from_room_player_id
  target ← find_player proposed_state trade.to_room_player_id
  answer_proposal target.player_type proposed_state trade

unfoldable pub accept_trade : GameEngineState → ℕ → ℕ → Result GameEngineResult
accept_trade state room_player_id trade_id = do
  trade ← assert_trade_offer state trade_id
  throw_if (not (trade.to_room_player_id == room_player_id)) trade_not_allowed
  accept_trade_offer state trade []

unfoldable pub reject_trade : GameEngineState → ℕ → ℕ → Result GameEngineResult
reject_trade state room_player_id trade_id = do
  trade ← assert_trade_offer state trade_id
  throw_if (not (trade.to_room_player_id == room_player_id)) trade_not_allowed
  ok (record {
    state = record state { trade_offer = none };
    events = rejected_event trade room_player_id ∷ [];
  })

unfoldable pub cancel_trade : GameEngineState → ℕ → ℕ → Result GameEngineResult
cancel_trade state room_player_id trade_id = do
  trade ← assert_trade_offer state trade_id
  throw_if (not (trade.from_room_player_id == room_player_id)) trade_not_allowed
  ok (record {
    state = record state { trade_offer = none };
    events =
        GameEngineEvent.trade_cancelled trade.id trade.from_room_player_id trade.to_room_player_id
        ∷ [];
  })
