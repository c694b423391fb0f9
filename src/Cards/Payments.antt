-- ===== src/Cards/Payments.antt =====
-- The cards that only move cash: `collectFromEachPlayer`, `payEachPlayer` and `payPropertyRepairs`
-- of src/game/engine/game-engine-cards.ts.
use livepoly_server.Base.{
  ℕ, ◌*◌, none, List, [], ◌∷◌, not, ◌&&◌, ltb, ◌==◌, filter, length, sum_by, min, if◌then◌else◌,
}
use livepoly_server.Types.{
  GameEngineState, GameEnginePlayer, GameEngineProperty, GameEngineDebtReason, GameEngineResult,
  Result, ok, ◌>>=◌, ◌>>◌,
}
use livepoly_server.Store.{find_player, is_owned_by}
use livepoly_server.Money.{transfer_player_cash, debit_player_or_create_debt}
use livepoly_server.Rent.{unchanged}

-- A payment for a card, to the bank.
unfoldable pub pay_for_card : GameEngineState → ℕ → ℕ → Result GameEngineResult
pay_for_card state room_player_id amount =
    debit_player_or_create_debt state room_player_id amount GameEngineDebtReason.card none
    >>= λ payment_result.
        ok (record { state = payment_result.state; events = payment_result.events })

-- The other players who are not bankrupt.
abbrev pub other_players : GameEngineState → ℕ → List GameEnginePlayer
other_players state room_player_id =
    filter (λ player. not (player.room_player_id == room_player_id) && not player.bankrupt)
      state.players

-- The `reduce` of `collectFromEachPlayer`: the amount is cut to the cash that each had before.
unfoldable pub collect_from :
    GameEngineState → ℕ → ℕ → List GameEnginePlayer → Result GameEngineState
collect_from state room_player_id amount [] = ok state
collect_from state room_player_id amount (player ∷ players) =
    transfer_player_cash state player.room_player_id room_player_id (min player.cash amount)
    >>= λ next_state. collect_from next_state room_player_id amount players

unfoldable pub collect_from_each : GameEngineState → ℕ → ℕ → Result GameEngineResult
unfolding find_player
collect_from_each state room_player_id amount = do
  find_player state room_player_id
  next_state ← collect_from state room_player_id amount (other_players state room_player_id)
  ok (unchanged next_state)

-- The `reduce` of `payEachPlayer`.
unfoldable pub pay_to : GameEngineState → ℕ → ℕ → List GameEnginePlayer → Result GameEngineState
pay_to state room_player_id amount [] = ok state
pay_to state room_player_id amount (player ∷ players) =
    transfer_player_cash state room_player_id player.room_player_id amount >>= λ next_state.
    pay_to next_state room_player_id amount players

unfoldable pub pay_each : GameEngineState → ℕ → ℕ → Result GameEngineResult
unfolding find_player
pay_each state room_player_id amount = do
  paying_player ← find_player state room_player_id
  let total_amount = length (other_players state room_player_id) * amount
  if ltb paying_player.cash total_amount
      then pay_for_card state room_player_id total_amount
      else (pay_to state room_player_id amount (other_players state room_player_id)
          >>= λ next_state. ok (unchanged next_state))

abbrev pub repair_cost : ℕ → ℕ → GameEngineProperty → ℕ
repair_cost house_amount hotel_amount property =
    if property.has_hotel then hotel_amount else property.house_count * house_amount

unfoldable pub pay_property_repairs : GameEngineState → ℕ → ℕ → ℕ → Result GameEngineResult
pay_property_repairs state room_player_id house_amount hotel_amount =
    let amount =
      sum_by (repair_cost house_amount hotel_amount)
        (filter (λ property. is_owned_by property room_player_id) state.properties) in
    if amount == 0 then ok (unchanged state) else pay_for_card state room_player_id amount
