-- ===== src/Auctions/Bids.antt =====
-- Accepted bids: `placeAuctionBid` of src/game/engine/game-engine-auctions.ts.
use livepoly_server.Base.{
  ℕ, ◌≡◌, ◌≤◌, ◌<◌, refl, false, none, some, ◌⊎◌, inl, inr, arith, ltb, leb, Bool-cases, update_by,
}
use livepoly_server.Types.{
  GameEngineState, GameEngineAuction, GameEngineEvent, GameEnginePlayer, ok,
}
use livepoly_server.Ensures.{
  Ensures, returns, throws, bind-Ensures, then-Ensures, guard-Ensures, map-Ensures,
  or_throw-Ensures,
}
use livepoly_server.Assertions.{JsNumber}
use livepoly_server.Store.{property_key, find_player}
use livepoly_server.Properties.{with_owner}
use livepoly_server.Money.Frame.{debit_player-SameProperties}
use livepoly_server.Auctions.{
  place_auction_bid, accept_bid, with_bid, complete_auction_with_winner, sell_to_winner,
  advance_auction, get_next_auction_bidder_room_player_id, get_next_auction_bid_expires_at,
  assert_auction_bid, get_minimum_auction_bid, assert_active_auction,
}

-- A bid that is higher than the last one, and at least 10 where it is the first.
abbrev pub Raises : GameEngineAuction → JsNumber → ℕ → Type 0
Raises auction bid amount =
    (bid ≡ JsNumber.natural amount)
    × (auction.current_bid < amount)
    × ((1 ≤ auction.current_bid) ⊎ (10 ≤ amount))

floor :
    (auction : GameEngineAuction) (amount : ℕ)
    → ltb amount (get_minimum_auction_bid auction) ≡ false
    → (1 ≤ auction.current_bid) ⊎ (10 ≤ amount)
unfolding get_minimum_auction_bid
floor auction amount h = elim (Bool-cases (leb auction.current_bid 0)) [
  | inl first ↦ inr (ground arith)
  | inr later ↦ inl (ground arith)
]

assert_auction_bid-Raises :
    (auction : GameEngineAuction) (bid : JsNumber)
    → Ensures (Raises auction bid) (assert_auction_bid auction bid)
unfolding assert_auction_bid get_minimum_auction_bid
assert_auction_bid-Raises auction JsNumber.other = throws
assert_auction_bid-Raises auction (JsNumber.natural amount) =
    guard-Ensures _ _ _ λ enough. returns (refl, ground arith, floor auction amount enough)

-- The auction goes on with the bid as the highest one, or it is over and the bidder owns the tile.
abbrev pub Leads : GameEngineState → GameEngineAuction → ℕ → ℕ → GameEngineState → Type 0
Leads state auction id amount next =
    ((raised : GameEngineAuction) × (next.auction ≡ some raised)
      × (raised.tile_key ≡ auction.tile_key)
      × (raised.current_bid ≡ amount)
      × (raised.highest_bidder_room_player_id ≡ some id))
    ⊎ ((next.auction ≡ none)
        × (next.properties
            ≡ update_by property_key auction.tile_key (with_owner (some id)) state.properties))

sell_to_winner-Leads :
    (state : GameEngineState) (auction sold : GameEngineAuction) (event : GameEngineEvent)
    (id amount : ℕ)
    → sold.tile_key ≡ auction.tile_key
    → Ensures
        (λ result. Leads state auction id amount result.state)
        (sell_to_winner state sold event id)
unfolding sell_to_winner
sell_to_winner-Leads state auction sold event id amount same_tile =
    then-Ensures _ _ (debit_player-SameProperties state id sold.current_bid)
      λ next same. returns (inr (refl, rw (same, same_tile) refl))

accept_bid-Leads :
    (state : GameEngineState) (auction : GameEngineAuction) (id amount now : ℕ)
    → Ensures
        (λ result. Leads state auction id amount result.state)
        (accept_bid state auction id amount now)
unfolding accept_bid complete_auction_with_winner
accept_bid-Leads state auction id amount now =
    let next = with_bid auction id amount (get_next_auction_bid_expires_at state now) in
    let event = GameEngineEvent.auction_bid_placed id auction.tile_key amount in
    elim (get_next_auction_bidder_room_player_id next id)
      as (λ o.
        Ensures (λ result. Leads state auction id amount result.state)
          (elim o [
            | none ↦ complete_auction_with_winner state next event
            | some bidder ↦
                advance_auction state (record next { current_bidder_room_player_id = some bidder })
                  event
          ])) [
            | none ↦ sell_to_winner-Leads state auction next event id amount refl
            | some bidder ↦ returns (
                inl (
                  record next { current_bidder_room_player_id = some bidder },
                  refl,
                  refl,
                  refl,
                  refl,
                ))
          ]

active_auction-is_set :
    (state : GameEngineState)
    → Ensures (λ auction. state.auction ≡ some auction) (assert_active_auction state)
unfolding assert_active_auction
active_auction-is_set state = bind-Ensures _ _ λ _ _. or_throw-Ensures _ _ λ auction e. e

-- A bid that is accepted is a natural number, higher than the last bid, at least 10 unless there was
-- a bid before, and at most the bidder's cash. It then leads the auction, or the auction is over and the bidder owns the tile.
pub place_auction_bid-Leads :
    (state : GameEngineState) (id : ℕ) (bid : JsNumber) (now : ℕ)
    → Ensures
        (λ result.
          (auction : GameEngineAuction) × (amount : ℕ) × (bidder : GameEnginePlayer)
          × (state.auction ≡ some auction)
          × Raises auction bid amount
          × (find_player state id ≡ ok bidder)
          × (amount ≤ bidder.cash)
          × Leads state auction id amount result.state)
        (place_auction_bid state id bid now)
unfolding place_auction_bid
place_auction_bid-Leads state id bid now =
    then-Ensures _ _ (active_auction-is_set state) λ auction is_active. bind-Ensures _ _ λ _ _.
      bind-Ensures _ _ λ _ _.
        then-Ensures _ _ (assert_auction_bid-Raises auction bid) λ amount raises.
          bind-Ensures _ _ λ bidder found. guard-Ensures _ _ _ λ enough.
            map-Ensures (accept_bid-Leads state auction id amount now) λ result leads.
              (auction, amount, bidder, is_active, raises, found, ground arith, leads)
