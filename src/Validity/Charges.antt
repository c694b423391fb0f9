-- ===== src/Validity/Charges.antt =====
-- The invariant across going to jail, taxes, rent and the payments of cards.
use livepoly_server.Base.{
  ℕ, refl, none, List, [], ◌∷◌, ltb, ◌==◌, sum_by, filter, length, ◌*◌, find_by,
}
use livepoly_server.Types.{GameEngineState, GameEnginePlayer, GameEngineDebtReason}
use livepoly_server.Ensures.{
  Ensures, returns, bind-Ensures, then-Ensures, if-Ensures, option-Ensures,
}
use livepoly_server.Board.{GameTile, get_game_board, find_tile, is_ownable_tile}
use livepoly_server.Board.Size.{jail-lt-size}
use livepoly_server.Store.{property_key, is_owned_by}
use livepoly_server.Jail.Send.{send_player_to_jail, jailed_at}
use livepoly_server.Tax.{pay_tax}
use livepoly_server.Rent.{pay_rent, charge_rent, rent_owner}
use livepoly_server.Cards
use livepoly_server.Validity.Defs.{IsValid, LeadsToValid}
use livepoly_server.Validity.Store.{players_update}
use livepoly_server.Validity.Payments.{
  transfer_player_cash-IsValid, debit_player_or_create_debt-IsValid,
  transfer_player_cash_or_create_debt-IsValid,
}

pub send_player_to_jail-IsValid :
    (state : GameEngineState) (id : ℕ) → IsValid state → LeadsToValid (send_player_to_jail state id)
unfolding send_player_to_jail
send_player_to_jail-IsValid state id v = (
  players_update (jailed_at (get_game_board state.board_key).jail_position) (λ p. refl)
      (λ p h. jail-lt-size state.board_key) id state.players v.0,
  v.1,
)

pub pay_tax-IsValid :
    (state : GameEngineState) (id key : ℕ)
    → IsValid state
    → Ensures LeadsToValid (pay_tax state id key)
unfolding pay_tax
pay_tax-IsValid state id key v = bind-Ensures _ _ λ tile _.
    then-Ensures _ _
      (debit_player_or_create_debt-IsValid state id tile.amount GameEngineDebtReason.tax none v)
      λ result w. returns w

charge_rent-IsValid :
    (state : GameEngineState) (payer owner key : ℕ) (tile : GameTile) (dice : ℕ × ℕ)
    → IsValid state
    → Ensures LeadsToValid (charge_rent state payer owner key tile dice)
unfolding charge_rent
charge_rent-IsValid state payer owner key tile dice v = bind-Ensures _ _ λ amount _.
    then-Ensures _ _
      (transfer_player_cash_or_create_debt-IsValid state payer owner amount
        GameEngineDebtReason.rent v)
      λ result w. returns w

pub pay_rent-IsValid :
    (state : GameEngineState) (payer key : ℕ) (dice : ℕ × ℕ)
    → IsValid state
    → Ensures LeadsToValid (pay_rent state payer key dice)
unfolding pay_rent
pay_rent-IsValid state payer key dice v =
    option-Ensures (rent_owner (find_by property_key key state.properties) payer) _ _
      (λ _. returns v)
      λ owner _.
        option-Ensures (find_tile (get_game_board state.board_key) key) _ _ (λ _. returns v)
          λ tile _.
            if-Ensures (is_ownable_tile tile) _ _
              (λ _. charge_rent-IsValid state payer owner key tile dice v) (λ _. returns v)

pub pay_for_card-IsValid :
    (state : GameEngineState) (id amount : ℕ)
    → IsValid state
    → Ensures LeadsToValid (Cards.pay_for_card state id amount)
unfolding Cards.pay_for_card
pay_for_card-IsValid state id amount v =
    then-Ensures _ _
      (debit_player_or_create_debt-IsValid state id amount GameEngineDebtReason.card none v)
      λ result w. returns w

collect_from-IsValid :
    (state : GameEngineState) (id amount : ℕ) (players : List GameEnginePlayer)
    → IsValid state
    → Ensures IsValid (Cards.collect_from state id amount players)
unfolding Cards.collect_from
collect_from-IsValid state id amount [] v = returns v
collect_from-IsValid state id amount (player ∷ players) v =
    then-Ensures _ _ (transfer_player_cash-IsValid state player.room_player_id id _ v)
      λ next w. collect_from-IsValid next id amount players w

pay_to-IsValid :
    (state : GameEngineState) (id amount : ℕ) (players : List GameEnginePlayer)
    → IsValid state
    → Ensures IsValid (Cards.pay_to state id amount players)
unfolding Cards.pay_to
pay_to-IsValid state id amount [] v = returns v
pay_to-IsValid state id amount (player ∷ players) v =
    then-Ensures _ _ (transfer_player_cash-IsValid state id player.room_player_id amount v)
      λ next w. pay_to-IsValid next id amount players w

pub collect_from_each-IsValid :
    (state : GameEngineState) (id amount : ℕ)
    → IsValid state
    → Ensures LeadsToValid (Cards.collect_from_each state id amount)
unfolding Cards.collect_from_each
collect_from_each-IsValid state id amount v = bind-Ensures _ _ λ _ _.
    then-Ensures _ _ (collect_from-IsValid state id amount (Cards.other_players state id) v)
      λ next w. returns w

pub pay_each-IsValid :
    (state : GameEngineState) (id amount : ℕ)
    → IsValid state
    → Ensures LeadsToValid (Cards.pay_each state id amount)
unfolding Cards.pay_each
pay_each-IsValid state id amount v = bind-Ensures _ _ λ payer _.
    if-Ensures (ltb payer.cash (length (Cards.other_players state id) * amount)) _ _
      (λ _. pay_for_card-IsValid state id _ v)
      (λ _.
        then-Ensures _ _ (pay_to-IsValid state id amount (Cards.other_players state id) v)
          λ next w. returns w)

pub pay_property_repairs-IsValid :
    (state : GameEngineState) (id house_amount hotel_amount : ℕ)
    → IsValid state
    → Ensures LeadsToValid (Cards.pay_property_repairs state id house_amount hotel_amount)
unfolding Cards.pay_property_repairs
pay_property_repairs-IsValid state id house_amount hotel_amount v =
    let amount =
      sum_by (Cards.repair_cost house_amount hotel_amount)
        (filter (λ property. is_owned_by property id) state.properties) in
    if-Ensures (amount == 0) _ _ (λ _. returns v) (λ _. pay_for_card-IsValid state id amount v)
