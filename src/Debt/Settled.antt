-- ===== src/Debt/Settled.antt =====
-- What a paid debt costs: `payDebt` of src/game/engine/game-engine-debt.ts.
use livepoly_server.Base.{
  ℕ, ◌+◌, ◌≡◌, refl, Option, none, some, true, false, Bool, Distinct, if◌then◌else◌,
  sum_by-update_by_keep, Distinct-update_by, arith,
}
use livepoly_server.Types.{GameEngineState, GameEngineDebt, awaiting_turn_end, or_throw-ok}
use livepoly_server.Ensures.{Ensures, returns, bind-Ensures, then-Ensures, map-Ensures}
use livepoly_server.Store.{player_key, total_cash}
use livepoly_server.Debt.{pay_debt, pay_creditor, is_jail_fine, release_player_from_jail, released}
use livepoly_server.Money.Ledger.{debit_player-Costs, transfer_player_cash-Conserves}

-- What leaves the game: the amount of a debt to the bank, and nothing for a debt to a player.
abbrev pub to_bank : Option ℕ → ℕ → ℕ
to_bank none amount = amount
to_bank (some creditor) amount = 0

-- The players' ids stay distinct, and their cash falls by the given amount.
abbrev Falls : ℕ → GameEngineState → GameEngineState → Type 0
Falls amount state next =
    Distinct player_key next.players × (total_cash next + amount ≡ total_cash state)

pay_creditor-Falls :
    (state : GameEngineState) (id : ℕ) (creditor : Option ℕ) (amount : ℕ)
    → Distinct player_key state.players
    → Ensures (Falls (to_bank creditor amount) state) (pay_creditor state id creditor amount)
unfolding pay_creditor
pay_creditor-Falls state id none amount d = debit_player-Costs state id amount d
pay_creditor-Falls state id (some creditor) amount d =
    map-Ensures (transfer_player_cash-Conserves state id creditor amount d)
      λ next c. (c.0, omega (arith, c.1))

released-Falls :
    (b : Bool) (state next : GameEngineState) (id amount : ℕ)
    → Falls amount state next
    → Falls amount state (if b then release_player_from_jail next id else next)
released-Falls false state next id amount f = f
released-Falls true state next id amount f = (
  Distinct-update_by player_key released (λ p. refl) id next.players f.0,
  omega (
    arith,
    f.1,
    sum_by-update_by_keep player_key (λ p. p.cash) released (λ p. refl) id next.players,
  ),
)

-- Where the players' ids are distinct, a debt that is paid was the player's own. It is gone then, the
-- turn may end, and the cash of all players together falls by the amount of a debt to the bank, and
-- not at all for a debt to a player.
pub pay_debt-Falls :
    (state : GameEngineState) (id : ℕ)
    → Distinct player_key state.players
    → Ensures
        (λ result.
          (debt : GameEngineDebt) × (state.debt ≡ some debt)
          × (debt.room_player_id ≡ id)
          × (result.state.debt ≡ none)
          × (result.state.phase ≡ awaiting_turn_end)
          × (total_cash result.state + to_bank debt.creditor_room_player_id debt.amount
              ≡ total_cash state))
        (pay_debt state id)
unfolding pay_debt
pay_debt-Falls state id d = bind-Ensures _ _ λ _ _. bind-Ensures _ _ λ debt found.
    bind-Ensures _ _ λ _ own.
      then-Ensures _ _ (pay_creditor-Falls state id debt.creditor_room_player_id debt.amount d)
        λ paid falls. returns (
          debt,
          or_throw-ok _ _ found,
          ground arith,
          refl,
          refl,
          (released-Falls (is_jail_fine debt.reason) state paid id
              (to_bank debt.creditor_room_player_id debt.amount) falls).1,
        )
