-- ===== src/Auctions.antt =====
-- Auctions: src/game/engine/game-engine-auctions.ts. `Date.now()` is the argument `now`.
mod Bidders
pub mod Bids
pub use Bidders.*
use livepoly_server.Base.{
  ℕ, ◌+◌, ◌-◌, Bool, true, false, Option, none, some, List, [], ◌∷◌, ◌++◌, map, not, ◌&&◌, ◌||◌,
  ltb, leb, ◌==◌, is_key, filter, includes, length, min, if◌then◌else◌,
}
use livepoly_server.Types.{
  GameEngineState, GameEngineAuction, GameEngineResult, GameEngineEvent, awaiting_auction_bid,
  awaiting_turn_end, phase_is, Result, ok, err, ◌>>=◌, ◌>>◌, throw_if, or_throw,
  no_property_decision, tile_not_ownable, property_already_owned, no_active_auction,
  invalid_auction_bid, insufficient_funds, auction_player_not_active, auction_player_not_current,
}
use livepoly_server.Board.{get_game_board, find_tile, is_ownable_tile, tile_key_of}
use livepoly_server.Store.{find_player, find_property_state, update_property_state}
use livepoly_server.Assertions.{JsNumber, is_set}
use livepoly_server.Money.{debit_player}
use livepoly_server.Properties.{with_owner}
use livepoly_server.Turns.{get_active_players}

-- `GAME_TURN_TIMER.auctionBidTimeoutMs`
abbrev pub auction_bid_timeout_ms : ℕ
auction_bid_timeout_ms = 25_000

abbrev pub minimum_auction_bid : ℕ
minimum_auction_bid = 10

-- `getNextAuctionBidExpiresAt`; an expiry of 0 counts as none.
unfoldable pub get_next_auction_bid_expires_at : GameEngineState → ℕ → ℕ
get_next_auction_bid_expires_at state now = elim state.expires_at [
  | none ↦ now + auction_bid_timeout_ms
  | some expires_at ↦
      if expires_at == 0
      then now + auction_bid_timeout_ms
      else min (now + auction_bid_timeout_ms) expires_at
]

-- `getAuctionBidDelay`; a truncated difference is `Math.max(..., 0)`.
unfoldable pub get_auction_bid_delay : GameEngineState → ℕ → ℕ
get_auction_bid_delay state now = elim state.auction [
  | none ↦ auction_bid_timeout_ms
  | some auction ↦ elim auction.bid_expires_at [
    | none ↦ auction_bid_timeout_ms
    | some t ↦ if t == 0 then auction_bid_timeout_ms else t - now
  ]
]

unfoldable pub decline_property_purchase : GameEngineState → ℕ → ℕ → Result GameEngineResult
unfolding find_property_state
decline_property_purchase state room_player_id now = do
  tile_key ← or_throw state.pending_tile_key no_property_decision
  tile ← or_throw (find_tile (get_game_board state.board_key) tile_key) tile_not_ownable
  throw_if (not (is_ownable_tile tile)) tile_not_ownable
  property ← find_property_state state (tile_key_of tile)
  throw_if (is_set property.owner_room_player_id) property_already_owned
  let active_room_player_ids = map (λ player. player.room_player_id) (get_active_players state)
  ok (record {
    state = record state {
      phase = awaiting_auction_bid;
      pending_tile_key = none;
      auction = some (record {
        tile_key = tile_key_of tile;
        current_bid = 0;
        highest_bidder_room_player_id = none;
        current_bidder_room_player_id = first_of active_room_player_ids;
        bid_expires_at = some (get_next_auction_bid_expires_at state now);
        active_room_player_ids = active_room_player_ids;
        passed_room_player_ids = [];
      });
    };
    events =
        GameEngineEvent.property_purchase_declined room_player_id (tile_key_of tile)
        ∷ GameEngineEvent.auction_started (tile_key_of tile) active_room_player_ids
        ∷ [];
  })

unfoldable pub assert_active_auction : GameEngineState → Result GameEngineAuction
assert_active_auction state = do
  throw_if (not (phase_is state.phase awaiting_auction_bid)) no_active_auction
  or_throw state.auction no_active_auction

unfoldable pub assert_auction_player_active : GameEngineAuction → ℕ → Result (Unit {0})
assert_auction_player_active auction room_player_id =
    throw_if
      (not (includes auction.active_room_player_ids room_player_id)
        || includes auction.passed_room_player_ids room_player_id)
      auction_player_not_active

unfoldable pub assert_auction_player_can_act : GameEngineAuction → ℕ → Result (Unit {0})
assert_auction_player_can_act auction room_player_id =
    throw_if (not (is_key (get_current_auction_bidder_room_player_id auction) room_player_id))
      auction_player_not_current

unfoldable pub get_minimum_auction_bid : GameEngineAuction → ℕ
get_minimum_auction_bid auction =
    if leb auction.current_bid 0 then minimum_auction_bid else auction.current_bid + 1

unfoldable pub complete_auction_without_winner :
    GameEngineState → GameEngineAuction → GameEngineEvent → GameEngineResult
complete_auction_without_winner state auction pass_event = record {
  state =
      update_property_state (record state { phase = awaiting_turn_end; auction = none })
        auction.tile_key (with_owner none);
  events = pass_event ∷ [];
}

-- The sale to the highest bidder.
unfoldable pub sell_to_winner :
    GameEngineState → GameEngineAuction → GameEngineEvent → ℕ → Result GameEngineResult
sell_to_winner state auction trigger_event winner =
    debit_player state winner auction.current_bid >>= λ debited_state. ok (record {
      state =
          update_property_state (record debited_state { phase = awaiting_turn_end; auction = none })
            auction.tile_key (with_owner (some winner));
      events =
          trigger_event
          ∷ GameEngineEvent.auction_won winner auction.tile_key auction.current_bid
          ∷ [];
    })

unfoldable pub complete_auction_with_winner :
    GameEngineState → GameEngineAuction → GameEngineEvent → Result GameEngineResult
complete_auction_with_winner state auction trigger_event =
    elim auction.highest_bidder_room_player_id [
      | none ↦ ok (complete_auction_without_winner state auction trigger_event)
      | some winner ↦ sell_to_winner state auction trigger_event winner
    ]

-- The auction after a bid, before the next bidder is chosen.
abbrev pub with_bid : GameEngineAuction → ℕ → ℕ → ℕ → GameEngineAuction
with_bid auction room_player_id amount expires_at = record auction {
  current_bid = amount;
  highest_bidder_room_player_id = some room_player_id;
  current_bidder_room_player_id = none;
  bid_expires_at = some expires_at;
}

-- The state and events after an auction has gone on to its next bidder, if there is one.
abbrev pub advance_auction :
    GameEngineState → GameEngineAuction → GameEngineEvent → Result GameEngineResult
advance_auction state auction event =
    ok (record { state = record state { auction = some auction }; events = event ∷ [] })

unfoldable pub accept_bid :
    GameEngineState → GameEngineAuction → ℕ → ℕ → ℕ → Result GameEngineResult
accept_bid state auction room_player_id amount now =
    let bid_event = GameEngineEvent.auction_bid_placed room_player_id auction.tile_key amount in
    let next_auction =
      with_bid auction room_player_id amount (get_next_auction_bid_expires_at state now) in
    elim (get_next_auction_bidder_room_player_id next_auction room_player_id) [
      | none ↦ complete_auction_with_winner state next_auction bid_event
      | some next_bidder ↦
          advance_auction state
            (record next_auction { current_bidder_room_player_id = some next_bidder }) bid_event
    ]

-- `!Number.isInteger(amount) || amount < minimumBid`; the amount that is accepted is returned.
unfoldable pub assert_auction_bid : GameEngineAuction → JsNumber → Result ℕ
unfolding get_minimum_auction_bid
assert_auction_bid auction JsNumber.other = err invalid_auction_bid
assert_auction_bid auction (JsNumber.natural amount) =
    throw_if (ltb amount (get_minimum_auction_bid auction)) invalid_auction_bid >> ok amount

unfoldable pub place_auction_bid : GameEngineState → ℕ → JsNumber → ℕ → Result GameEngineResult
unfolding assert_active_auction assert_auction_bid find_player
place_auction_bid state room_player_id bid now = do
  auction ← assert_active_auction state
  assert_auction_player_active auction room_player_id
  assert_auction_player_can_act auction room_player_id
  amount ← assert_auction_bid auction bid
  bidder ← find_player state room_player_id
  throw_if (ltb bidder.cash amount) insufficient_funds
  accept_bid state auction room_player_id amount now

-- The auction after a pass.
unfoldable pub with_pass : GameEngineState → GameEngineAuction → ℕ → ℕ → GameEngineAuction
with_pass state auction room_player_id now =
    let passed = record auction {
      passed_room_player_ids = unique (auction.passed_room_player_ids ++ room_player_id ∷ []);
    } in
    record passed {
      current_bidder_room_player_id = get_next_auction_bidder_room_player_id passed room_player_id;
      bid_expires_at = some (get_next_auction_bid_expires_at state now);
    }

unfoldable pub pass_auction_bid : GameEngineState → ℕ → ℕ → Result GameEngineResult
unfolding assert_active_auction with_pass
pass_auction_bid state room_player_id now = do
  auction ← assert_active_auction state
  assert_auction_player_active auction room_player_id
  assert_auction_player_can_act auction room_player_id
  let next_auction = with_pass state auction room_player_id now
  let pass_event = GameEngineEvent.auction_bid_passed room_player_id auction.tile_key
  let active_count = length (active_bidders next_auction)
  if is_set next_auction.highest_bidder_room_player_id && leb active_count 1
      then complete_auction_with_winner state next_auction pass_event
      else (if not (is_set next_auction.highest_bidder_room_player_id) && (active_count == 0)
          then ok (complete_auction_without_winner state next_auction pass_event)
          else advance_auction state next_auction pass_event)
