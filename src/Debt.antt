-- ===== src/Debt.antt =====
-- Paying a debt: src/game/engine/game-engine-debt.ts.
pub mod Settled
use livepoly_server.Base.{
  ℕ, Bool, true, false, Option, none, some, List, [], ◌∷◌, not, ◌==◌, if◌then◌else◌,
}
use livepoly_server.Types.{
  GameEngineState, GameEnginePlayer, GameEngineDebt, GameEngineDebtReason, GameEngineResult,
  GameEngineEvent, awaiting_debt_resolution, awaiting_turn_end, phase_is, Result, ok, ◌>>=◌, ◌>>◌,
  throw_if, or_throw, no_active_debt, debt_resolution_required,
}
use livepoly_server.Store.{update_player}
use livepoly_server.Money.{debit_player, transfer_player_cash}

-- `{ ...player, inJail: false, jailTurnCount: 0 }`
abbrev pub released : GameEnginePlayer → GameEnginePlayer
released player = record player { in_jail = false; jail_turn_count = 0 }

abbrev pub release_player_from_jail : GameEngineState → ℕ → GameEngineState
release_player_from_jail state room_player_id = update_player state room_player_id released

abbrev pub is_jail_fine : GameEngineDebtReason → Bool
is_jail_fine GameEngineDebtReason.jail_fine = true
is_jail_fine _ = false

-- The payment itself, to the creditor or to the bank.
unfoldable pub pay_creditor : GameEngineState → ℕ → Option ℕ → ℕ → Result GameEngineState
pay_creditor state room_player_id (some creditor_room_player_id) amount =
    transfer_player_cash state room_player_id creditor_room_player_id amount
pay_creditor state room_player_id none amount = debit_player state room_player_id amount

abbrev pub debt_paid_events : ℕ → GameEngineDebt → List GameEngineEvent
debt_paid_events room_player_id debt =
    GameEngineEvent.debt_paid room_player_id debt.creditor_room_player_id debt.amount debt.reason
    ∷ (if is_jail_fine debt.reason
        then GameEngineEvent.player_released_from_jail room_player_id ∷ []
        else [])

-- The state once the debt is paid.
abbrev pub settled : GameEngineState → GameEngineState
settled state = record state {
  phase = awaiting_turn_end;
  debt = none;
  pending_tile_key = none;
  auction = none;
  should_current_player_play_again = false;
}

unfoldable pub pay_debt : GameEngineState → ℕ → Result GameEngineResult
pay_debt state room_player_id = do
  throw_if (not (phase_is state.phase awaiting_debt_resolution)) no_active_debt
  debt ← or_throw state.debt no_active_debt
  throw_if (not (debt.room_player_id == room_player_id)) debt_resolution_required
  paid_state ← pay_creditor state room_player_id debt.creditor_room_player_id debt.amount
  let next_state =
      if is_jail_fine debt.reason
      then release_player_from_jail paid_state room_player_id
      else paid_state
  ok (record { state = settled next_state; events = debt_paid_events room_player_id debt })
