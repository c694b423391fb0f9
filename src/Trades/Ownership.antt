-- ===== src/Trades/Ownership.antt =====
-- Who owns what after an accepted trade: `transferProperties` and the end of `acceptTradeOffer` in
-- src/game/engine/game-engine-trades.ts.
use mathlib.Core.Option
use livepoly_server.Base.{
  update_by, ◌==◌, [], ◌∷◌, false, ℕ, ◌≡◌, refl, ap, ◌∙◌, Option, none, some, List, includes,
  find_by, find_by-map, sym, some_eq, none_ne_some, ==→eq, arith, leb, ltb, ◌*◌, if◌then◌else◌,
  if-holds, Bool-cases, inl, inr,
}
use livepoly_server.Types.{
  GameEngineState, GameEngineProperty, GameEngineTradeOffer, GameEngineEvent,
}
use livepoly_server.Store.{property_key, update_property_state}
use livepoly_server.Properties.{with_owner}
use livepoly_server.Board.{GameTile, half_house_cost}
use livepoly_server.Derived.{building_count}
use livepoly_server.Buildings.{with_buildings}
use livepoly_server.Money.{transfer_player_cash}
use livepoly_server.Money.Frame.{
  SameProperties, credit_player-SameProperties, debit_player-SameProperties,
}
use livepoly_server.Ensures.{
  Ensures, returns, bind-Ensures, then-Ensures, if-Ensures, map-Ensures, or_throw-Ensures,
  guard-Ensures,
}
use livepoly_server.Trades.{
  exchanged, transferred, transfer_properties, liquidate_trade_tile, liquidate_trade_buildings,
  transfer_if_positive, accept_trade_offer, accept_trade, assert_trade_offer,
}

-- The tile of a property and its owner.
abbrev deed : GameEngineProperty → ℕ × Option ℕ
deed p = (p.tile_key, p.owner_room_player_id)

abbrev owner_by : GameEngineTradeOffer → ℕ × Option ℕ → Option ℕ
owner_by trade (tile_key, owner) =
    if includes trade.requested_property_keys tile_key
    then some trade.from_room_player_id
    else if includes trade.offered_property_keys tile_key
    then some trade.to_room_player_id
    else owner

-- The owner that a trade gives to a property.
abbrev pub owner_after : GameEngineTradeOffer → GameEngineProperty → Option ℕ
owner_after trade p = owner_by trade (deed p)

transferred-key :
    (keys : List ℕ) (owner : ℕ) (p : GameEngineProperty)
    → property_key (transferred keys owner p) ≡ property_key p
transferred-key keys owner p =
    if-holds (λ q. property_key q ≡ property_key p) (includes keys p.tile_key) refl refl

transferred_twice :
    (trade : GameEngineTradeOffer) (p : GameEngineProperty)
    → transferred trade.requested_property_keys trade.from_room_player_id
        (transferred trade.offered_property_keys trade.to_room_player_id p)
      ≡ with_owner (owner_after trade p) p
transferred_twice trade p = elim (Bool-cases (includes trade.offered_property_keys p.tile_key)) [
  | inl offered ↦ elim (Bool-cases (includes trade.requested_property_keys p.tile_key)) [
    | inl requested ↦ rw (offered, requested) refl
    | inr not_requested ↦ rw (offered, not_requested) refl
  ]
  | inr not_offered ↦ elim (Bool-cases (includes trade.requested_property_keys p.tile_key)) [
    | inl requested ↦ rw (not_offered, requested) refl
    | inr not_requested ↦ rw (not_offered, not_requested) refl
  ]
]

exchanged-owner :
    (state : GameEngineState) (trade : GameEngineTradeOffer) (key : ℕ)
    → (find_by property_key key (exchanged state trade).properties
        ≡ Option.map
            (λ p. with_owner (owner_after trade p) p)
            (find_by property_key key state.properties))
      × ((exchanged state trade).trade_offer ≡ none)
unfolding exchanged transfer_properties
exchanged-owner state trade key = (
  find_by-map property_key (transferred trade.requested_property_keys trade.from_room_player_id)
        (transferred-key trade.requested_property_keys trade.from_room_player_id) key _
      ∙ (ap (Option.map (transferred trade.requested_property_keys trade.from_room_player_id)) (
            find_by-map property_key
              (transferred trade.offered_property_keys trade.to_room_player_id)
              (transferred-key trade.offered_property_keys trade.to_room_player_id) key
              state.properties)
          ∙ both (find_by property_key key state.properties)),
  refl,
)
  where
    both :
        (o : Option GameEngineProperty)
        → Option.map
            (transferred trade.requested_property_keys trade.from_room_player_id)
            (Option.map (transferred trade.offered_property_keys trade.to_room_player_id) o)
          ≡ Option.map (λ p. with_owner (owner_after trade p) p) o
    both none = refl
    both (some p) = ap some (transferred_twice trade p)

-- Between two states, every tile keeps its owner.
SameDeeds : GameEngineState → GameEngineState → Type 0
SameDeeds state next =
    (key : ℕ)
    → Option.map deed (find_by property_key key next.properties)
      ≡ Option.map deed (find_by property_key key state.properties)

deeds-update_by :
    (f : GameEngineProperty → GameEngineProperty)
    → ((p : GameEngineProperty) → deed (f p) ≡ deed p)
    → (key changed : ℕ) (properties : List GameEngineProperty)
    → Option.map deed (find_by property_key key (update_by property_key changed f properties))
      ≡ Option.map deed (find_by property_key key properties)
deeds-update_by f keeps key changed [] = refl
deeds-update_by f keeps key changed (p ∷ ps) = elim (Bool-cases (property_key p == changed)) [
  | inl t ↦
      let same_key : (property_key (f p) == key) ≡ (property_key p == key) =
        ap (λ d. d.0 == key) (keeps p) in
      elim (Bool-cases (property_key p == key)) [
        | inl k ↦ rw (t, same_key ∙ k, k) (ap some (keeps p))
        | inr k ↦ rw (t, same_key ∙ k, k) (deeds-update_by f keeps key changed ps)
      ]
  | inr t ↦ elim (Bool-cases (property_key p == key)) [
    | inl k ↦ rw (t, k) refl
    | inr k ↦ rw (t, k) (deeds-update_by f keeps key changed ps)
  ]
]

-- Equal properties have equal owners.
SameProperties-SameDeeds :
    (state next : GameEngineState) → SameProperties state next → SameDeeds state next
unfolding SameDeeds
SameProperties-SameDeeds state next e key =
    ap (λ properties. Option.map deed (find_by property_key key properties)) e

SameDeeds-refl : (state : GameEngineState) → SameDeeds state state
unfolding SameDeeds
SameDeeds-refl state key = refl

SameDeeds-trans :
    (state next last : GameEngineState)
    → SameDeeds state next
    → SameDeeds next last
    → SameDeeds state last
unfolding SameDeeds
SameDeeds-trans state next last h k key = k key ∙ h key

without_buildings-SameDeeds :
    (state : GameEngineState) (key : ℕ)
    → SameDeeds state (update_property_state state key (with_buildings 0 false))
unfolding SameDeeds
without_buildings-SameDeeds state changed key =
    deeds-update_by (with_buildings 0 false) (λ p. refl) key changed state.properties

liquidate_tile-SameDeeds :
    (state : GameEngineState) (trade_id id key : ℕ) (property : GameEngineProperty)
    (tile : GameTile)
    → Ensures
        (λ result. SameDeeds state result.state)
        (liquidate_trade_tile state trade_id id key property tile)
unfolding liquidate_trade_tile
liquidate_tile-SameDeeds state trade_id id key property tile =
    if-Ensures (leb (building_count property * half_house_cost tile) 0) _ _
      (λ _. returns (SameDeeds-refl state))
      (λ _. then-Ensures _ _ (credit_player-SameProperties state id _) λ credited same. returns (
        SameDeeds-trans state credited _ (SameProperties-SameDeeds state credited same)
          (without_buildings-SameDeeds credited key)))

liquidate-SameDeeds :
    (state : GameEngineState) (trade_id id : ℕ) (keys : List ℕ)
    → Ensures
        (λ result. SameDeeds state result.state)
        (liquidate_trade_buildings state trade_id id keys)
unfolding liquidate_trade_buildings
liquidate-SameDeeds state trade_id id [] = returns (SameDeeds-refl state)
liquidate-SameDeeds state trade_id id (key ∷ keys) = bind-Ensures _ _ λ property _.
    bind-Ensures _ _ λ tile _.
      then-Ensures _ _ (liquidate_tile-SameDeeds state trade_id id key property tile) λ first same.
        then-Ensures _ _ (liquidate-SameDeeds first.state trade_id id keys)
          λ rest more. returns (SameDeeds-trans state first.state rest.state same more)

transfer-SameDeeds :
    (state : GameEngineState) (from to amount : ℕ)
    → Ensures (SameDeeds state) (transfer_if_positive state from to amount)
unfolding transfer_if_positive transfer_player_cash
transfer-SameDeeds state from to amount =
    if-Ensures (ltb 0 amount) _ _
      (λ _. then-Ensures _ _ (debit_player-SameProperties state from amount) λ debited same.
        map-Ensures (credit_player-SameProperties debited to amount)
          λ credited more. SameProperties-SameDeeds state credited (more ∙ same))
      (λ _. returns (SameDeeds-refl state))

-- What an accepted trade does: the trade is the one that is offered, with this id and to this player;
-- every tile that it requests is owned by the player who offers it, every tile that it offers by the
-- other player, and any other tile by its owner from before.
pub record Exchanges (state : GameEngineState) (id trade_id : ℕ) (next : GameEngineState)
    : Type 0 where
  pub trade : GameEngineTradeOffer
  pub offered : state.trade_offer ≡ some trade
  pub own_id : trade.id ≡ trade_id
  pub to_player : trade.to_room_player_id ≡ id
  pub owners :
      (key : ℕ)
      → Option.map (λ p. p.owner_room_player_id) (find_by property_key key next.properties)
        ≡ Option.map (owner_after trade) (find_by property_key key state.properties)
  pub no_offer : next.trade_offer ≡ none

traded_owner :
    (trade : GameEngineTradeOffer) (now before : Option GameEngineProperty)
    → Option.map deed now ≡ Option.map deed before
    → Option.map
        (λ p. p.owner_room_player_id)
        (Option.map (λ p. with_owner (owner_after trade p) p) now)
      ≡ Option.map (owner_after trade) before
traded_owner trade none none e = refl
traded_owner trade none (some q) e = absurd (none_ne_some e)
traded_owner trade (some p) none e = absurd (none_ne_some (sym e))
traded_owner trade (some p) (some q) e = ap (λ d. some (owner_by trade d)) (some_eq e)

owners_exchanged :
    (state settled : GameEngineState) (trade : GameEngineTradeOffer)
    → SameDeeds state settled
    → (key : ℕ)
    → Option.map
        (λ p. p.owner_room_player_id)
        (find_by property_key key (exchanged settled trade).properties)
      ≡ Option.map (owner_after trade) (find_by property_key key state.properties)
unfolding SameDeeds
owners_exchanged state settled trade same key =
    ap (Option.map (λ p. p.owner_room_player_id)) (exchanged-owner settled trade key).0
    ∙ traded_owner trade (find_by property_key key settled.properties) _ (same key)

accept_offer-Exchanges :
    (state : GameEngineState) (trade : GameEngineTradeOffer) (events : List GameEngineEvent)
    (id trade_id : ℕ)
    → state.trade_offer ≡ some trade
    → trade.id ≡ trade_id
    → trade.to_room_player_id ≡ id
    → Ensures
        (λ result. Exchanges state id trade_id result.state)
        (accept_trade_offer state trade events)
unfolding accept_trade_offer
accept_offer-Exchanges state trade events id trade_id offer own to_player =
    let from = trade.from_room_player_id in
    let to = trade.to_room_player_id in
    bind-Ensures _ _ λ _ _.
      then-Ensures _ _ (liquidate-SameDeeds state trade.id from trade.offered_property_keys)
        λ first same1.
          then-Ensures _ _
            (liquidate-SameDeeds first.state trade.id to trade.requested_property_keys)
            λ second same2.
              then-Ensures _ _ (transfer-SameDeeds second.state from to trade.offered_cash)
                λ third same3.
                  then-Ensures _ _ (transfer-SameDeeds third to from trade.requested_cash)
                    λ last same4.
                      let both = SameDeeds-trans state first.state second.state same1 same2 in
                      let all_four =
                        SameDeeds-trans state second.state last both
                          (SameDeeds-trans second.state third last same3 same4) in
                      returns (record {
                        trade = trade;
                        offered = offer;
                        own_id = own;
                        to_player = to_player;
                        owners = owners_exchanged state last trade all_four;
                        no_offer = (exchanged-owner last trade 0).1;
                      })

trade_offer-IsOffered :
    (state : GameEngineState) (trade_id : ℕ)
    → Ensures
        (λ trade. (state.trade_offer ≡ some trade) × (trade.id ≡ trade_id))
        (assert_trade_offer state trade_id)
unfolding assert_trade_offer
trade_offer-IsOffered state trade_id =
    then-Ensures _ _ (or_throw-Ensures state.trade_offer _ λ trade e. e) λ trade e.
      guard-Ensures _ _ _ λ own. returns (e, ==→eq trade.id trade_id (ground (arith, own)))

-- The acceptance of a trade either throws, or the trade is the one that is offered, with this id and
-- to this player, and then every tile that it requests is owned by the player who offers it, every
-- tile that it offers by the other player, every other tile by its owner from before, and no trade
-- offer is left.
pub accept_trade-Exchanges :
    (state : GameEngineState) (id trade_id : ℕ)
    → Ensures (λ result. Exchanges state id trade_id result.state) (accept_trade state id trade_id)
unfolding accept_trade
accept_trade-Exchanges state id trade_id =
    then-Ensures _ _ (trade_offer-IsOffered state trade_id) λ trade (offer, own).
      guard-Ensures _ _ _ λ to_player.
        accept_offer-Exchanges state trade [] id trade_id offer own
          (==→eq trade.to_room_player_id id (ground (arith, to_player)))
