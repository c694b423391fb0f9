-- ===== src/Money/Conservation.antt =====
-- The cash in the game across the payments between players
-- (src/game/engine/game-engine-{money,rent,cards}.ts).
use livepoly_server.Base.{
  ℕ, ◌≡◌, ◌≤◌, ◌<◌, refl, ◌∙◌, Option, List, [], ◌∷◌, ◌⊎◌, inl, inr, true, false, ◌==◌, some,
  find_by-update_by-some, find_by-update_by-other, arith, leb, min, Distinct, find_by, ◌-◌,
  Bool-cases,
}
use livepoly_server.Types.{
  GameEngineState, GameEnginePlayer, GameEngineDebt, GameEngineDebtReason, GameEngineResult, ok,
  ◌>>=◌, or_throw-ok, player_not_found, awaiting_debt_resolution,
}
use livepoly_server.Ensures.{
  Ensures, returns, bind-Ensures, then-Ensures, if-Ensures, option-Ensures, map-Ensures,
}
use livepoly_server.Board.{GameTile, get_game_board, find_tile, is_ownable_tile}
use livepoly_server.Store.{player_key, property_key, with_cash, find_player, update_player}
use livepoly_server.Money.{
  PaymentResult, debit_player, debit_player_or_create_debt, transfer_player_cash_or_create_debt,
  create_debt_state, owe,
}
use livepoly_server.Money.Ledger.{Conserves, transfer_player_cash-Conserves}
use livepoly_server.Rent.{pay_rent, charge_rent, rent_owner}
use livepoly_server.Cards

abbrev ResultConserves : GameEngineState → GameEngineResult → Type 0
ResultConserves state result = Conserves state result.state

abbrev PaymentConserves : GameEngineState → PaymentResult → Type 0
PaymentConserves state result = Conserves state result.state

transfer_or_owe-Conserves :
    (state : GameEngineState) (from to amount : ℕ) (reason : GameEngineDebtReason)
    → Distinct player_key state.players
    → Ensures
        (PaymentConserves state)
        (transfer_player_cash_or_create_debt state from to amount reason)
unfolding transfer_player_cash_or_create_debt create_debt_state
transfer_or_owe-Conserves state from to amount reason d = bind-Ensures _ _ λ debtor _.
    bind-Ensures _ _ λ _ _.
      if-Ensures (leb amount debtor.cash) _ _
        (λ _.
          then-Ensures _ _ (transfer_player_cash-Conserves state from to amount d)
            λ next c. returns c)
        (λ _. returns (d, refl))

charge_rent-Conserves :
    (state : GameEngineState) (payer owner key : ℕ) (tile : GameTile) (dice : ℕ × ℕ)
    → Distinct player_key state.players
    → Ensures (ResultConserves state) (charge_rent state payer owner key tile dice)
unfolding charge_rent
charge_rent-Conserves state payer owner key tile dice d = bind-Ensures _ _ λ amount _.
    then-Ensures _ _
      (transfer_or_owe-Conserves state payer owner amount GameEngineDebtReason.rent d)
      λ result c. returns c

-- Where the players' ids are distinct, a landing that may cost rent either throws, or leaves the
-- cash of all players together as it was, and the ids distinct, whether the rent is paid or owed.
pub pay_rent-Conserves :
    (state : GameEngineState) (payer key : ℕ) (dice : ℕ × ℕ)
    → Distinct player_key state.players
    → Ensures (λ result. Conserves state result.state) (pay_rent state payer key dice)
unfolding pay_rent
pay_rent-Conserves state payer key dice d =
    option-Ensures (rent_owner (find_by property_key key state.properties) payer) _ _
      (λ _. returns (d, refl))
      λ owner _.
        option-Ensures (find_tile (get_game_board state.board_key) key) _ _ (λ _. returns (d, refl))
          λ tile _.
            if-Ensures (is_ownable_tile tile) _ _
              (λ _. charge_rent-Conserves state payer owner key tile dice d)
              (λ _. returns (d, refl))

collect_from-Conserves :
    (state : GameEngineState) (id amount : ℕ) (players : List GameEnginePlayer)
    → Distinct player_key state.players
    → Ensures (Conserves state) (Cards.collect_from state id amount players)
unfolding Cards.collect_from
collect_from-Conserves state id amount [] d = returns (d, refl)
collect_from-Conserves state id amount (p ∷ players) d =
    then-Ensures _ _
      (transfer_player_cash-Conserves state p.room_player_id id (min p.cash amount) d)
      λ next c.
        map-Ensures (collect_from-Conserves next id amount players c.0) λ last e. (e.0, e.1 ∙ c.1)

-- Where the players' ids are distinct, a card that collects from each player either throws or
-- leaves the cash of all players together as it was, and the ids distinct.
pub collect_from_each-Conserves :
    (state : GameEngineState) (id amount : ℕ)
    → Distinct player_key state.players
    → Ensures (λ result. Conserves state result.state) (Cards.collect_from_each state id amount)
unfolding Cards.collect_from_each
collect_from_each-Conserves state id amount d = bind-Ensures _ _ λ _ _.
    then-Ensures _ _ (collect_from-Conserves state id amount (Cards.other_players state id) d)
      λ next c. returns c

module _ (state : GameEngineState) (id amount : ℕ) (result : PaymentResult) where
  -- The payment was made: the payer has the amount less, and nothing else has changed.
  pub record IsPaid (payer : GameEnginePlayer) : Type 0 where
    pub paid : result.paid ≡ true
    pub payer_after : find_player result.state id ≡ ok (with_cash (λ cash. cash - amount) payer)
    pub others_after :
        (other : ℕ)
        → (id == other) ≡ false
        → find_by player_key other result.state.players ≡ find_by player_key other state.players
    pub same_properties : result.state.properties ≡ state.properties
    pub same_debt : result.state.debt ≡ state.debt

  -- The debt is recorded, the game waits for it, and nobody has paid.
  pub record IsOwed (reason : GameEngineDebtReason) (creditor : Option ℕ) : Type 0 where
    pub not_paid : result.paid ≡ false
    pub same_players : result.state.players ≡ state.players
    pub still_owned : result.state.properties ≡ state.properties
    pub awaits : result.state.phase ≡ awaiting_debt_resolution
    pub recorded :
        (debt : GameEngineDebt) × (result.state.debt ≡ some debt)
        × (debt.room_player_id ≡ id)
        × (debt.amount ≡ amount)
        × (debt.reason ≡ reason)
        × (debt.creditor_room_player_id ≡ creditor)

-- A payment of a player who is found never throws. It is made exactly when his cash is enough, down
-- to the exact amount: he has the amount less, and no other player and no property changes.
-- Otherwise the debt is recorded with its amount, reason and creditor, the game waits for it, and no
-- player and no property changes.
pub pays_or_owes :
    (state : GameEngineState) (id amount : ℕ) (reason : GameEngineDebtReason) (creditor : Option ℕ)
    (payer : GameEnginePlayer)
    → find_player state id ≡ ok payer
    → (result : PaymentResult) × (debit_player_or_create_debt state id amount reason creditor
        ≡ ok result)
      × (((amount ≤ payer.cash) × IsPaid state id amount result payer)
          ⊎ ((payer.cash < amount) × IsOwed state id amount result reason creditor))
unfolding debit_player_or_create_debt debit_player find_player ◌>>=◌ create_debt_state
pays_or_owes state id amount reason creditor payer found =
    let there = or_throw-ok (find_by player_key id state.players) player_not_found found in
    elim (Bool-cases (leb amount payer.cash)) [
      | inl enough ↦ (
        record {
          state = update_player state id (with_cash (λ cash. cash - amount));
          events = [];
          paid = true;
        },
        rw found (ground arith),
        inl (
          ground arith,
          record {
            paid = refl;
            payer_after =
                rw
                  (find_by-update_by-some player_key (with_cash (λ cash. cash - amount)) (λ p. refl)
                    id state.players there)
                  refl;
            others_after = λ other h.
                find_by-update_by-other player_key (with_cash (λ cash. cash - amount)) (λ p. refl)
                  other id state.players h;
            same_properties = refl;
            same_debt = refl;
          },
        ),
      )
      | inr little ↦ (
        owe state (record {
          room_player_id = id;
          creditor_room_player_id = creditor;
          amount = amount;
          reason = reason;
        }),
        rw (found, little) refl,
        inr (
          ground arith,
          record {
            not_paid = refl;
            same_players = refl;
            still_owned = refl;
            awaits = refl;
            recorded = (_, refl, refl, refl, refl, refl);
          },
        ),
      )
    ]
