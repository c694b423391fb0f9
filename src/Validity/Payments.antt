-- ===== src/Validity/Payments.antt =====
-- The invariant across payments, which change cash alone.
use livepoly_server.Base.{ℕ, ◌+◌, ◌-◌, Option, refl, leb}
use livepoly_server.Types.{GameEngineState, GameEngineDebt, GameEngineDebtReason}
use livepoly_server.Ensures.{Ensures, returns, bind-Ensures, then-Ensures, if-Ensures}
use livepoly_server.Store.{update_player, with_cash}
use livepoly_server.Money.{
  PaymentResult, debit_player, credit_player, transfer_player_cash, debit_player_or_create_debt,
  transfer_player_cash_or_create_debt, owe, create_debt_state,
}
use livepoly_server.Validity.Defs.{IsValid}
use livepoly_server.Validity.Store.{players_update}

with_cash-IsValid :
    (state : GameEngineState) (id : ℕ) (f : ℕ → ℕ)
    → IsValid state
    → IsValid (update_player state id (with_cash f))
with_cash-IsValid state id f v =
    (players_update (with_cash f) (λ p. refl) (λ p h. h) id state.players v.0, v.1)

pub debit_player-IsValid :
    (state : GameEngineState) (id amount : ℕ)
    → IsValid state
    → Ensures IsValid (debit_player state id amount)
unfolding debit_player
debit_player-IsValid state id amount v = bind-Ensures _ _ λ player _.
    bind-Ensures _ _ λ _ _. returns (with_cash-IsValid state id (λ cash. cash - amount) v)

pub credit_player-IsValid :
    (state : GameEngineState) (id amount : ℕ)
    → IsValid state
    → Ensures IsValid (credit_player state id amount)
unfolding credit_player
credit_player-IsValid state id amount v =
    bind-Ensures _ _ λ _ _. returns (with_cash-IsValid state id (λ cash. cash + amount) v)

pub transfer_player_cash-IsValid :
    (state : GameEngineState) (from to amount : ℕ)
    → IsValid state
    → Ensures IsValid (transfer_player_cash state from to amount)
unfolding transfer_player_cash
transfer_player_cash-IsValid state from to amount v =
    then-Ensures _ _ (debit_player-IsValid state from amount v)
      λ debited w. credit_player-IsValid debited to amount w

abbrev pub PaysValid : PaymentResult → Type 0
PaysValid result = IsValid result.state

owe-IsValid :
    (state : GameEngineState) (debt : GameEngineDebt) → IsValid state → PaysValid (owe state debt)
unfolding create_debt_state
owe-IsValid state debt v = v

pub debit_player_or_create_debt-IsValid :
    (state : GameEngineState) (id amount : ℕ) (reason : GameEngineDebtReason) (creditor : Option ℕ)
    → IsValid state
    → Ensures PaysValid (debit_player_or_create_debt state id amount reason creditor)
unfolding debit_player_or_create_debt
debit_player_or_create_debt-IsValid state id amount reason creditor v = bind-Ensures _ _ λ player _.
    if-Ensures (leb amount player.cash) _ _
      (λ _. then-Ensures _ _ (debit_player-IsValid state id amount v) λ debited w. returns w)
      (λ _. returns (owe-IsValid state _ v))

pub transfer_player_cash_or_create_debt-IsValid :
    (state : GameEngineState) (from to amount : ℕ) (reason : GameEngineDebtReason)
    → IsValid state
    → Ensures PaysValid (transfer_player_cash_or_create_debt state from to amount reason)
unfolding transfer_player_cash_or_create_debt
transfer_player_cash_or_create_debt-IsValid state from to amount reason v =
    bind-Ensures _ _ λ debtor _. bind-Ensures _ _ λ _ _.
      if-Ensures (leb amount debtor.cash) _ _
        (λ _.
          then-Ensures _ _ (transfer_player_cash-IsValid state from to amount v)
            λ paid w. returns w)
        (λ _. returns (owe-IsValid state _ v))
