-- ===== src/Scenarios.antt =====
-- The operations of src/game/engine/ run in the positions of a game.
mod Positions
mod Services
mod Rooms
mod Events
mod Limits
use Positions.*
use livepoly_server.Turns.Total.{end_turn-Returns}
use livepoly_server.Types.{GameEngineResult}
use livepoly_server.Debt.{pay_debt}
use livepoly_server.Debt.Settled.{to_bank, pay_debt-Falls}
use livepoly_server.MissedTurns.{increment_missed_turn}
use livepoly_server.MissedTurns.Once.{increment_missed_turn_twice}
use livepoly_server.Mortgage.Bounds.{unmortgage_cost-near}
use livepoly_server.Store.{total_cash}
use livepoly_server.Base.{◌*◌}
use livepoly_server.Types.{GameEngineDebt}
use livepoly_server.Base.{
  ℕ, ◌+◌, ◌-◌, ◌≡◌, arith, ◌≤◌, ◌<◌, ◌⊎◌, refl, true, false, Option, none, some, List, [], ◌∷◌, All,
  find_by,
}
use mathlib.Core.Option
use livepoly_server.Types.{
  GameEngineState, GameEnginePlayer, GameEngineProperty, GameEngineDebt, GameEngineDebtReason,
  GameEngineAuction, GameEngineTradeOffer, GameEngineEvent, GameMode, GamePhase, GameBoardKey,
  GameCardDeckKey, human, awaiting_property_decision, awaiting_turn_end, awaiting_debt_resolution,
  awaiting_auction_bid, finished, ok, ◌>>=◌,
}
use livepoly_server.Ensures.{Ensures}
use livepoly_server.Board.{GameTile, get_game_board, nigeria, ghana, lagos_airport, find_tile}
use livepoly_server.Store.{property_key, find_player, update_player, with_cash}
use livepoly_server.Assertions.{JsNumber, assert_can_buy_property, assert_current_turn}
use livepoly_server.Properties.{buy_property, with_owner, create_initial_property_state}
use livepoly_server.Mortgage.Cost.{get_unmortgage_cost}
use livepoly_server.Money.{
  PaymentResult, debit_player, transfer_player_cash, debit_player_or_create_debt, owe,
}
use livepoly_server.Money.Ledger.{Conserves, transfer_player_cash-Conserves}
use livepoly_server.Money.Conservation.{
  pay_rent-Conserves, collect_from_each-Conserves, pays_or_owes, IsPaid, IsOwed,
}
use livepoly_server.Rent.{pay_rent, calculate_rent}
use livepoly_server.Rent.Tables.{calculate_rent-Returns}
use livepoly_server.Cards
use livepoly_server.Cards.Decks.{draw_card, get_deck}
use livepoly_server.Cards.Tables.{chance_get_out_of_jail_free, chance_bank_dividend}
use livepoly_server.Cards.Piles.{copies_in_deck, kept, draw_card-copies}
use livepoly_server.Trades.{accept_trade}
use livepoly_server.Trades.Ownership.{Exchanges, accept_trade-Exchanges}
use livepoly_server.Auctions.{place_auction_bid}
use livepoly_server.Auctions.Bids.{Raises, Leads, place_auction_bid-Leads}
use livepoly_server.Derived.{calculate_net_worth_standings, get_net_worth_winners}
use livepoly_server.Derived.Ranking.{Ranked, AtMost, standings-Ranked}
use livepoly_server.Turns.{end_turn}
use livepoly_server.Turns.Next.{TurnEnds, end_turn-TurnEnds}
use livepoly_server.AutoDebt.{liquidate_from, liquidation_fuel}
use livepoly_server.AutoDebt.Rounds.{HasEnded, liquidation-HasEnded}
use livepoly_server.Engine.{
  Platform, reduce_game_engine_intent, buy_property_intent, end_turn_intent,
}
use livepoly_server.Terminal.{Throws, reduce-Throws}
use livepoly_server.Validity.{IsBuildable, PropertiesValid, IsValid, LeadsToValid}
use livepoly_server.Validity.Engine.{at_start, after_intent, reduce-IsValid, Reachable-IsValid}
use livepoly_server.Validity.Start.{initial-PropertiesValid}

Reachable-IsValid_example : IsValid bought
unfolding reduce_game_engine_intent assert_can_buy_property assert_current_turn buy_property
    debit_player find_player find_tile get_game_board ◌>>=◌
Reachable-IsValid_example = Reachable-IsValid offered bought offered-IsValid (
    after_intent platform (buy_property_intent 1)
      (record { state = bought; events = GameEngineEvent.property_bought 1 nigeria 60 ∷ [] })
      at_start refl)

reduce-IsValid_example :
    Ensures LeadsToValid (reduce_game_engine_intent platform offered (buy_property_intent 1))
reduce-IsValid_example = reduce-IsValid platform offered (buy_property_intent 1) offered-IsValid

liquidation-HasEnded_example :
    Ensures (HasEnded 1) (liquidate_from (liquidation_fuel indebted) indebted 1 [])
liquidation-HasEnded_example = liquidation-HasEnded indebted 1 indebted-IsValid

reduce-Throws_example : Throws (reduce_game_engine_intent platform over (end_turn_intent 1))
reduce-Throws_example = reduce-Throws platform over (end_turn_intent 1) refl refl refl

pays_or_owes_example :
    (result : PaymentResult) × (debit_player_or_create_debt offered 2 200 GameEngineDebtReason.tax
        none
      ≡ ok result)
    × (((200 ≤ 90) × IsPaid offered 2 200 result (player 2 90))
        ⊎ ((90 < 200) × IsOwed offered 2 200 result GameEngineDebtReason.tax none))
unfolding find_player
pays_or_owes_example = pays_or_owes offered 2 200 GameEngineDebtReason.tax none (player 2 90) refl

transfer_player_cash-Conserves_example :
    Ensures (Conserves offered) (transfer_player_cash offered 1 2 50)
transfer_player_cash-Conserves_example =
    transfer_player_cash-Conserves offered 1 2 50 (refl, (refl, tt))

pay_rent-Conserves_example :
    Ensures (λ result. Conserves offered result.state) (pay_rent offered 1 lagos_airport (3, 4))
pay_rent-Conserves_example = pay_rent-Conserves offered 1 lagos_airport (3, 4) (refl, (refl, tt))

collect_from_each-Conserves_example :
    Ensures (λ result. Conserves offered result.state) (Cards.collect_from_each offered 1 10)
collect_from_each-Conserves_example = collect_from_each-Conserves offered 1 10 (refl, (refl, tt))

place_auction_bid-Leads_example :
    Ensures
      (λ result.
        (auction : GameEngineAuction) × (amount : ℕ) × (bidder : GameEnginePlayer)
        × (auctioned.auction ≡ some auction)
        × Raises auction (JsNumber.natural 20) amount
        × (find_player auctioned 2 ≡ ok bidder)
        × (amount ≤ bidder.cash)
        × Leads auctioned auction 2 amount result.state)
      (place_auction_bid auctioned 2 (JsNumber.natural 20) 1_000)
place_auction_bid-Leads_example = place_auction_bid-Leads auctioned 2 (JsNumber.natural 20) 1_000

calculate_rent-Returns_example :
    (amount : ℕ) × (calculate_rent offered airport_tile (3, 4) ≡ ok amount)
unfolding get_game_board find_tile
calculate_rent-Returns_example =
    calculate_rent-Returns offered lagos_airport airport_tile (holding lagos_airport (some 2) 0)
      (3, 4) offered-IsValid refl refl refl

draw_card-copies_example :
    Ensures
      (λ drawn.
        (copies_in_deck chance_get_out_of_jail_free (get_deck drawn.0 GameCardDeckKey.chance)
            + kept chance_get_out_of_jail_free drawn.1
          ≡ copies_in_deck chance_get_out_of_jail_free (get_deck offered GameCardDeckKey.chance))
        × (drawn.0.players ≡ offered.players)
        × (drawn.0.properties ≡ offered.properties))
      (draw_card offered GameCardDeckKey.chance)
draw_card-copies_example =
    draw_card-copies offered GameCardDeckKey.chance chance_get_out_of_jail_free

-- Player 1 offers player 2 cash for the airport.
abbrev traded : GameEngineState
traded = record offered { trade_offer = some trade }

accept_trade-Exchanges_example :
    Ensures (λ result. Exchanges traded 2 9 result.state) (accept_trade traded 2 9)
accept_trade-Exchanges_example = accept_trade-Exchanges traded 2 9

standings-Ranked_example :
    Ensures
      (λ standings.
        Ranked standings
        × All (λ winner. AtMost winner.net_worth standings) (get_net_worth_winners standings))
      (calculate_net_worth_standings offered)
standings-Ranked_example = standings-Ranked offered

end_turn-TurnEnds_example : Ensures (λ result. TurnEnds bought result.state) (end_turn bought 1)
end_turn-TurnEnds_example = end_turn-TurnEnds bought 1

-- The interest on a mortgage of 100 is rounded up from more than 110.
unmortgage_cost_of_airport : get_unmortgage_cost 100 ≡ 111
unfolding get_unmortgage_cost
unmortgage_cost_of_airport = refl

pay_debt-Falls_example :
    Ensures
      (λ result.
        (debt : GameEngineDebt) × (payable.debt ≡ some debt)
        × (debt.room_player_id ≡ 1)
        × (result.state.debt ≡ none)
        × (result.state.phase ≡ awaiting_turn_end)
        × (total_cash result.state + to_bank debt.creditor_room_player_id debt.amount
            ≡ total_cash payable))
      (pay_debt payable 1)
pay_debt-Falls_example = pay_debt-Falls payable 1 (refl, (refl, tt))

increment_missed_turn_twice_example :
    increment_missed_turn (increment_missed_turn offered (some 1) 4) (some 1) 4
    ≡ increment_missed_turn offered (some 1) 4
increment_missed_turn_twice_example = increment_missed_turn_twice offered (some 1) 4

unmortgage_cost-near_example :
    (11 * 100 ≤ 10 * get_unmortgage_cost 100) × (10 * get_unmortgage_cost 100 ≤ 11 * 100 + 10)
unmortgage_cost-near_example = unmortgage_cost-near 100 (omega arith)

end_turn-Returns_example : (result : GameEngineResult) × (end_turn bought 1 ≡ ok result)
end_turn-Returns_example = end_turn-Returns bought 1 (player 1 440) refl refl
