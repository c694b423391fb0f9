-- ===== src/Validity/Trades.antt =====
-- The invariant across trades.
use livepoly_server.Base.{
  ℕ, ◌≡◌, ◌*◌, refl, false, Option, some, List, [], ◌∷◌, ltb, leb, if-holds, includes, arith,
}
use livepoly_server.Types.{
  GameEngineState, GameEngineProperty, GameEngineTradeOffer, GameEngineEvent, PlayerType, human,
  bot,
}
use livepoly_server.Ensures.{Ensures, returns, bind-Ensures, then-Ensures, if-Ensures, bool-Ensures}
use livepoly_server.Board.{GameTile, half_house_cost}
use livepoly_server.Store.{property_key}
use livepoly_server.Derived.{building_count}
use livepoly_server.Buildings.{with_buildings}
use livepoly_server.Trades
use livepoly_server.Validity.Defs.{IsBuildable, PropertiesValid, IsValid, LeadsToValid}
use livepoly_server.Validity.Store.{players_update, properties_update, properties_map}
use livepoly_server.Validity.Payments.{credit_player-IsValid, transfer_player_cash-IsValid}
use livepoly_server.Validity.Properties.{with_owner-IsBuildable}

liquidate_trade_tile-IsValid :
    (state : GameEngineState) (trade id key : ℕ) (property : GameEngineProperty) (tile : GameTile)
    → IsValid state
    → Ensures LeadsToValid (Trades.liquidate_trade_tile state trade id key property tile)
unfolding Trades.liquidate_trade_tile
liquidate_trade_tile-IsValid state trade id key property tile v =
    let amount = building_count property * half_house_cost tile in
    if-Ensures (leb amount 0) _ _ (λ _. returns v)
      λ _. then-Ensures _ _ (credit_player-IsValid state id amount v) λ next w. returns (
        w.0,
        properties_update (with_buildings 0 false) (λ p. refl)
            (λ p b. record { houses_capped = omega arith; hotel_alone = λ _. refl }) key
            next.properties w.1,
      )

liquidate_trade_buildings-IsValid :
    (state : GameEngineState) (trade id : ℕ) (keys : List ℕ)
    → IsValid state
    → Ensures LeadsToValid (Trades.liquidate_trade_buildings state trade id keys)
unfolding Trades.liquidate_trade_buildings
liquidate_trade_buildings-IsValid state trade id [] v = returns v
liquidate_trade_buildings-IsValid state trade id (key ∷ keys) v = bind-Ensures _ _ λ property _.
    bind-Ensures _ _ λ tile _.
      then-Ensures _ _ (liquidate_trade_tile-IsValid state trade id key property tile v) λ first w.
        then-Ensures _ _ (liquidate_trade_buildings-IsValid first.state trade id keys w)
          λ rest x. returns x

transfer_if_positive-IsValid :
    (state : GameEngineState) (from to amount : ℕ)
    → IsValid state
    → Ensures IsValid (Trades.transfer_if_positive state from to amount)
unfolding Trades.transfer_if_positive
transfer_if_positive-IsValid state from to amount v =
    if-Ensures (ltb 0 amount) _ _ (λ _. transfer_player_cash-IsValid state from to amount v)
      (λ _. returns v)

transferred-key :
    (keys : List ℕ) (owner : ℕ) (p : GameEngineProperty)
    → property_key (Trades.transferred keys owner p) ≡ property_key p
transferred-key keys owner p =
    if-holds (λ q. property_key q ≡ property_key p) (includes keys p.tile_key) refl refl

transfer_properties-PropertiesValid :
    (keys : List ℕ) (owner : ℕ) (properties : List GameEngineProperty)
    → PropertiesValid properties
    → PropertiesValid (Trades.transfer_properties keys owner properties)
unfolding Trades.transfer_properties
transfer_properties-PropertiesValid keys owner properties v =
    properties_map (Trades.transferred keys owner) (transferred-key keys owner)
      (λ p b.
        if-holds IsBuildable (includes keys p.tile_key) (with_owner-IsBuildable (some owner) p b) b)
      properties v

exchanged-IsValid :
    (state : GameEngineState) (trade : GameEngineTradeOffer)
    → IsValid state
    → IsValid (Trades.exchanged state trade)
unfolding Trades.exchanged
exchanged-IsValid state trade v = (
  v.0,
  transfer_properties-PropertiesValid trade.requested_property_keys trade.from_room_player_id _ (
      transfer_properties-PropertiesValid trade.offered_property_keys trade.to_room_player_id
        state.properties v.1),
)

accept_trade_offer-IsValid :
    (state : GameEngineState) (trade : GameEngineTradeOffer) (events : List GameEngineEvent)
    → IsValid state
    → Ensures LeadsToValid (Trades.accept_trade_offer state trade events)
unfolding Trades.accept_trade_offer
accept_trade_offer-IsValid state trade events v =
    let from = trade.from_room_player_id in
    let to = trade.to_room_player_id in
    bind-Ensures _ _ λ _ _.
      then-Ensures _ _
        (liquidate_trade_buildings-IsValid state trade.id from trade.offered_property_keys v)
        λ a va.
          then-Ensures _ _
            (liquidate_trade_buildings-IsValid a.state trade.id to trade.requested_property_keys va)
            λ b vb.
              then-Ensures _ _ (transfer_if_positive-IsValid b.state from to trade.offered_cash vb)
                λ c vc.
                  then-Ensures _ _ (transfer_if_positive-IsValid c to from trade.requested_cash vc)
                    λ d vd. returns (exchanged-IsValid d trade vd)

marked_if-IsValid :
    (kind : PlayerType) (state : GameEngineState) (id : ℕ)
    → IsValid state
    → IsValid (Trades.marked_if kind state id)
marked_if-IsValid human state id v = v
marked_if-IsValid bot state id v = (
  players_update (Trades.with_proposal state.turn_number) (λ p. refl) (λ p h. h) id state.players
      v.0,
  v.1,
)

mark_bot_trade_proposal-IsValid :
    (state : GameEngineState) (id : ℕ)
    → IsValid state
    → Ensures IsValid (Trades.mark_bot_trade_proposal state id)
unfolding Trades.mark_bot_trade_proposal
mark_bot_trade_proposal-IsValid state id v =
    bind-Ensures _ _ λ player _. returns (marked_if-IsValid player.player_type state id v)

answer_proposal-IsValid :
    (kind : PlayerType) (state : GameEngineState) (trade : GameEngineTradeOffer)
    → IsValid state
    → Ensures LeadsToValid (Trades.answer_proposal kind state trade)
unfolding Trades.answer_proposal
answer_proposal-IsValid human state trade v = returns v
answer_proposal-IsValid bot state trade v = bind-Ensures _ _ λ accepts _.
    bool-Ensures accepts _ _ (λ _. accept_trade_offer-IsValid state trade _ v) (λ _. returns v)

pub propose_trade-IsValid :
    (trim : ℕ → Option ℕ) (state : GameEngineState) (input : Trades.ProposeTradeInput)
    (fresh_id now : ℕ)
    → IsValid state
    → Ensures LeadsToValid (Trades.propose_trade trim state input fresh_id now)
unfolding Trades.propose_trade
propose_trade-IsValid trim state input fresh_id now v = bind-Ensures _ _ λ _ _.
    bind-Ensures _ _ λ _ _. bind-Ensures _ _ λ _ _. bind-Ensures _ _ λ trade _.
      bind-Ensures _ _ λ _ _.
        then-Ensures _ _ (mark_bot_trade_proposal-IsValid state trade.from_room_player_id v)
          λ proposed w.
            bind-Ensures _ _ λ target _. answer_proposal-IsValid target.player_type proposed trade w

pub accept_trade-IsValid :
    (state : GameEngineState) (id trade_id : ℕ)
    → IsValid state
    → Ensures LeadsToValid (Trades.accept_trade state id trade_id)
unfolding Trades.accept_trade
accept_trade-IsValid state id trade_id v =
    bind-Ensures _ _ λ trade _. bind-Ensures _ _ λ _ _. accept_trade_offer-IsValid state trade [] v

pub reject_trade-IsValid :
    (state : GameEngineState) (id trade_id : ℕ)
    → IsValid state
    → Ensures LeadsToValid (Trades.reject_trade state id trade_id)
unfolding Trades.reject_trade
reject_trade-IsValid state id trade_id v =
    bind-Ensures _ _ λ trade _. bind-Ensures _ _ λ _ _. returns v

pub cancel_trade-IsValid :
    (state : GameEngineState) (id trade_id : ℕ)
    → IsValid state
    → Ensures LeadsToValid (Trades.cancel_trade state id trade_id)
unfolding Trades.cancel_trade
cancel_trade-IsValid state id trade_id v =
    bind-Ensures _ _ λ trade _. bind-Ensures _ _ λ _ _. returns v
