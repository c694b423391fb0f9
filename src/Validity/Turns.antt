-- ===== src/Validity/Turns.antt =====
-- The invariant across auctions, debts, the end of a turn and the end of a game.
use livepoly_server.Base.{
  ℕ, refl, true, false, Option, none, some, ◌&&◌, leb, not, ◌==◌, length, if◌then◌else◌, Bool,
}
use livepoly_server.Types.{GameEngineState, GameEngineAuction, GameEngineEvent, ok}
use livepoly_server.Ensures.{Ensures, returns, bind-Ensures, then-Ensures, if-Ensures}
use livepoly_server.Assertions.{JsNumber, is_set}
use livepoly_server.Auctions.{
  decline_property_purchase, place_auction_bid, pass_auction_bid, accept_bid, with_bid,
  complete_auction_with_winner, complete_auction_without_winner, sell_to_winner,
  get_next_auction_bidder_room_player_id, get_next_auction_bid_expires_at, with_pass,
  active_bidders, advance_auction,
}
use livepoly_server.Debt.{pay_debt, pay_creditor, released, is_jail_fine, release_player_from_jail}
use livepoly_server.Turns.{end_turn}
use livepoly_server.Finish.{finish_game_by_time, finish_game_after_last_human_left}
use livepoly_server.Validity.Defs.{IsValid, LeadsToValid}
use livepoly_server.Validity.Store.{players_update}
use livepoly_server.Validity.Properties.{with_owner-PropertiesValid}
use livepoly_server.Validity.Payments.{debit_player-IsValid, transfer_player_cash-IsValid}

pub end_turn-IsValid :
    (state : GameEngineState) (id : ℕ) → IsValid state → Ensures LeadsToValid (end_turn state id)
unfolding end_turn
end_turn-IsValid state id v =
    if-Ensures state.should_current_player_play_again _ _ (λ _. returns v)
      (λ _. bind-Ensures _ _ λ _ _. returns v)

pub finish_game_by_time-IsValid :
    (state : GameEngineState) (time : JsNumber)
    → IsValid state
    → Ensures LeadsToValid (finish_game_by_time state time)
unfolding finish_game_by_time
finish_game_by_time-IsValid state time v =
    bind-Ensures _ _
      λ _ _. bind-Ensures _ _ λ _ _. bind-Ensures _ _ λ _ _. bind-Ensures _ _ λ _ _. returns v

pub finish_game_after_last_human_left-IsValid :
    (state : GameEngineState) (time : JsNumber)
    → IsValid state
    → Ensures LeadsToValid (finish_game_after_last_human_left state time)
unfolding finish_game_after_last_human_left
finish_game_after_last_human_left-IsValid state time v =
    bind-Ensures _ _ λ _ _. bind-Ensures _ _ λ _ _. bind-Ensures _ _ λ _ _. returns v

-- A release from jail.
pub released-IsValid :
    (state : GameEngineState) (id : ℕ) → IsValid state → IsValid (release_player_from_jail state id)
released-IsValid state id v =
    (players_update released (λ p. refl) (λ p h. h) id state.players v.0, v.1)

pay_creditor-IsValid :
    (state : GameEngineState) (id : ℕ) (creditor : Option ℕ) (amount : ℕ)
    → IsValid state
    → Ensures IsValid (pay_creditor state id creditor amount)
unfolding pay_creditor
pay_creditor-IsValid state id none amount v = debit_player-IsValid state id amount v
pay_creditor-IsValid state id (some creditor) amount v =
    transfer_player_cash-IsValid state id creditor amount v

released_if-IsValid :
    (b : Bool) (state : GameEngineState) (id : ℕ)
    → IsValid state
    → IsValid (if b then release_player_from_jail state id else state)
released_if-IsValid true state id v = released-IsValid state id v
released_if-IsValid false state id v = v

pub pay_debt-IsValid :
    (state : GameEngineState) (id : ℕ) → IsValid state → Ensures LeadsToValid (pay_debt state id)
unfolding pay_debt
pay_debt-IsValid state id v = bind-Ensures _ _ λ _ _. bind-Ensures _ _ λ debt _.
    bind-Ensures _ _ λ _ _.
      then-Ensures _ _ (pay_creditor-IsValid state id debt.creditor_room_player_id debt.amount v)
        λ paid w. returns (released_if-IsValid (is_jail_fine debt.reason) paid id w)

pub decline_property_purchase-IsValid :
    (state : GameEngineState) (id now : ℕ)
    → IsValid state
    → Ensures LeadsToValid (decline_property_purchase state id now)
unfolding decline_property_purchase
decline_property_purchase-IsValid state id now v = bind-Ensures _ _ λ _ _.
    bind-Ensures _ _
      λ _ _. bind-Ensures _ _ λ _ _. bind-Ensures _ _ λ _ _. bind-Ensures _ _ λ _ _. returns v

without_winner-IsValid :
    (state : GameEngineState) (auction : GameEngineAuction) (event : GameEngineEvent)
    → IsValid state
    → LeadsToValid (complete_auction_without_winner state auction event)
unfolding complete_auction_without_winner
without_winner-IsValid state auction event v =
    (v.0, with_owner-PropertiesValid auction.tile_key none state.properties v.1)

sell_to_winner-IsValid :
    (state : GameEngineState) (auction : GameEngineAuction) (event : GameEngineEvent) (winner : ℕ)
    → IsValid state
    → Ensures LeadsToValid (sell_to_winner state auction event winner)
unfolding sell_to_winner
sell_to_winner-IsValid state auction event winner v =
    then-Ensures _ _ (debit_player-IsValid state winner auction.current_bid v) λ next w.
      returns (w.0, with_owner-PropertiesValid auction.tile_key (some winner) next.properties w.1)

with_winner-IsValid :
    (state : GameEngineState) (auction : GameEngineAuction) (event : GameEngineEvent)
    → IsValid state
    → Ensures LeadsToValid (complete_auction_with_winner state auction event)
unfolding complete_auction_with_winner
with_winner-IsValid state auction event v =
    elim auction.highest_bidder_room_player_id
      as (λ o. Ensures LeadsToValid (elim o [
        | none ↦ ok (complete_auction_without_winner state auction event)
        | some winner ↦ sell_to_winner state auction event winner
      ])) [
        | none ↦ returns (without_winner-IsValid state auction event v)
        | some winner ↦ sell_to_winner-IsValid state auction event winner v
      ]

accept_bid-IsValid :
    (state : GameEngineState) (auction : GameEngineAuction) (id amount now : ℕ)
    → IsValid state
    → Ensures LeadsToValid (accept_bid state auction id amount now)
unfolding accept_bid
accept_bid-IsValid state auction id amount now v =
    let next = with_bid auction id amount (get_next_auction_bid_expires_at state now) in
    let event = GameEngineEvent.auction_bid_placed id auction.tile_key amount in
    elim (get_next_auction_bidder_room_player_id next id)
      as (λ o. Ensures LeadsToValid (elim o [
        | none ↦ complete_auction_with_winner state next event
        | some bidder ↦
            advance_auction state (record next { current_bidder_room_player_id = some bidder })
              event
      ])) [ none ↦ with_winner-IsValid state next event v | some bidder ↦ returns v ]

pub place_auction_bid-IsValid :
    (state : GameEngineState) (id : ℕ) (bid : JsNumber) (now : ℕ)
    → IsValid state
    → Ensures LeadsToValid (place_auction_bid state id bid now)
unfolding place_auction_bid
place_auction_bid-IsValid state id bid now v = bind-Ensures _ _ λ auction _. bind-Ensures _ _ λ _ _.
    bind-Ensures _ _ λ _ _. bind-Ensures _ _ λ amount _.
      bind-Ensures _ _
        λ _ _. bind-Ensures _ _ λ _ _. accept_bid-IsValid state auction id amount now v

pub pass_auction_bid-IsValid :
    (state : GameEngineState) (id now : ℕ)
    → IsValid state
    → Ensures LeadsToValid (pass_auction_bid state id now)
unfolding pass_auction_bid
pass_auction_bid-IsValid state id now v = bind-Ensures _ _ λ auction _. bind-Ensures _ _ λ _ _.
    bind-Ensures _ _ λ _ _.
      let next = with_pass state auction id now in
      let event = GameEngineEvent.auction_bid_passed id auction.tile_key in
      let active_count = length (active_bidders next) in
      if-Ensures (is_set next.highest_bidder_room_player_id && leb active_count 1) _ _
        (λ _. with_winner-IsValid state next event v)
        (λ _.
          if-Ensures (not (is_set next.highest_bidder_room_player_id) && (active_count == 0)) _ _
            (λ _. returns (without_winner-IsValid state next event v)) (λ _. returns v))
