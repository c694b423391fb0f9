-- ===== src/Money.antt =====
-- Payments: src/game/engine/game-engine-money.ts. Cash and amounts are natural numbers, so the
-- tests `amount < 0`, which throw a plain error, have no counterpart.
pub mod Ledger
pub mod Frame
pub mod Conservation
use livepoly_server.Base.{
  ℕ, ◌+◌, ◌-◌, Bool, true, false, Option, none, some, List, [], ◌∷◌, if◌then◌else◌, ltb, leb,
}
use livepoly_server.Types.{
  GameEngineState, GameEngineDebt, GameEngineDebtReason, GameEngineEvent, awaiting_debt_resolution,
  Result, ok, err, ◌>>=◌, ◌>>◌, throw_if, insufficient_funds,
}
use livepoly_server.Store.{find_player, update_player, with_cash}

unfoldable pub debit_player : GameEngineState → ℕ → ℕ → Result GameEngineState
unfolding find_player
debit_player state room_player_id amount = do
  player ← find_player state room_player_id
  throw_if (ltb player.cash amount) insufficient_funds
  ok (update_player state room_player_id (with_cash (λ cash. cash - amount)))

unfoldable pub credit_player : GameEngineState → ℕ → ℕ → Result GameEngineState
unfolding find_player
credit_player state room_player_id amount = do
  find_player state room_player_id
  ok (update_player state room_player_id (with_cash (λ cash. cash + amount)))

unfoldable pub transfer_player_cash : GameEngineState → ℕ → ℕ → ℕ → Result GameEngineState
transfer_player_cash state from_room_player_id to_room_player_id amount = do
  debited_state ← debit_player state from_room_player_id amount
  credit_player debited_state to_room_player_id amount

unfoldable pub create_debt_state : GameEngineState → GameEngineDebt → GameEngineState
create_debt_state state debt = record state {
  phase = awaiting_debt_resolution;
  pending_tile_key = none;
  auction = none;
  debt = some debt;
  should_current_player_play_again = false;
}

-- `{ state, events, paid }`
pub record PaymentResult : Type 0 where
  pub state : GameEngineState
  pub events : List GameEngineEvent
  pub paid : Bool

-- The result of a payment that the debtor cannot make.
abbrev pub owe : GameEngineState → GameEngineDebt → PaymentResult
owe state debt = record {
  state = create_debt_state state debt;
  events =
      GameEngineEvent.payment_required debt.room_player_id debt.creditor_room_player_id debt.amount
        debt.reason
      ∷ [];
  paid = false;
}

unfoldable pub debit_player_or_create_debt :
    GameEngineState → ℕ → ℕ → GameEngineDebtReason → Option ℕ → Result PaymentResult
unfolding find_player
debit_player_or_create_debt state room_player_id amount reason creditor_room_player_id = do
  player ← find_player state room_player_id
  if leb amount player.cash
      then (debit_player state room_player_id amount >>= λ debited_state.
          ok (record { state = debited_state; events = []; paid = true }))
      else ok (
          owe state (record {
            room_player_id = room_player_id;
            creditor_room_player_id = creditor_room_player_id;
            amount = amount;
            reason = reason;
          }))

unfoldable pub transfer_player_cash_or_create_debt :
    GameEngineState → ℕ → ℕ → ℕ → GameEngineDebtReason → Result PaymentResult
unfolding find_player
transfer_player_cash_or_create_debt state from_room_player_id to_room_player_id amount reason = do
  debtor ← find_player state from_room_player_id
  find_player state to_room_player_id
  if leb amount debtor.cash
      then (transfer_player_cash state from_room_player_id to_room_player_id amount
          >>= λ paid_state. ok (record { state = paid_state; events = []; paid = true }))
      else ok (
          owe state (record {
            room_player_id = from_room_player_id;
            creditor_room_player_id = some to_room_player_id;
            amount = amount;
            reason = reason;
          }))
