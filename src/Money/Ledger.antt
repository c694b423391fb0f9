-- ===== src/Money/Ledger.antt =====
-- What the payments of src/game/engine/game-engine-money.ts do to the players' cash.
use livepoly_server.Base.{
  ℕ, ◌+◌, ◌-◌, ◌≡◌, refl, some, arith, Distinct, find_by, sum_by-update_by, Distinct-update_by,
}
use livepoly_server.Types.{GameEngineState, or_throw-ok}
use livepoly_server.Ensures.{Ensures, returns, bind-Ensures, then-Ensures, map-Ensures}
use livepoly_server.Store.{player_key, with_cash, total_cash, update_player}
use livepoly_server.Money.{debit_player, credit_player, transfer_player_cash}

pub update_player-cash :
    (state : GameEngineState) (id : ℕ) (f : ℕ → ℕ) {p : _}
    → Distinct player_key state.players
    → find_by player_key id state.players ≡ some p
    → total_cash (update_player state id (with_cash f)) + p.cash ≡ total_cash state + f p.cash
update_player-cash state id f {p} d e =
    sum_by-update_by player_key (λ q. q.cash) (with_cash f) id state.players {x = p} d e

-- The players' ids stay distinct, and the cash that leaves the game is the given amount.
abbrev pub Costs : ℕ → GameEngineState → GameEngineState → Type 0
Costs amount state next =
    Distinct player_key next.players × (total_cash next + amount ≡ total_cash state)

-- The same for cash that comes into the game.
abbrev pub Gains : ℕ → GameEngineState → GameEngineState → Type 0
Gains amount state next =
    Distinct player_key next.players × (total_cash next ≡ total_cash state + amount)

-- The same for cash that only changes hands.
abbrev pub Conserves : GameEngineState → GameEngineState → Type 0
Conserves state next = Distinct player_key next.players × (total_cash next ≡ total_cash state)

with_cash-Distinct :
    (state : GameEngineState) (id : ℕ) (f : ℕ → ℕ)
    → Distinct player_key state.players
    → Distinct player_key (update_player state id (with_cash f)).players
with_cash-Distinct state id f d =
    Distinct-update_by player_key (with_cash f) (λ p. refl) id state.players d

pub debit_player-Costs :
    (state : GameEngineState) (id amount : ℕ)
    → Distinct player_key state.players
    → Ensures (Costs amount state) (debit_player state id amount)
unfolding debit_player
debit_player-Costs state id amount d = bind-Ensures _ _ λ p found. bind-Ensures _ _ λ _ enough.
    returns (
      with_cash-Distinct state id (λ cash. cash - amount) d,
      ground (
        arith,
        update_player-cash state id (λ cash. cash - amount) {p = p} d (or_throw-ok _ _ found),
      ),
    )

pub credit_player-Gains :
    (state : GameEngineState) (id amount : ℕ)
    → Distinct player_key state.players
    → Ensures (Gains amount state) (credit_player state id amount)
unfolding credit_player
credit_player-Gains state id amount d = bind-Ensures _ _ λ p found. returns (
  with_cash-Distinct state id (λ cash. cash + amount) d,
  ground (
    arith,
    update_player-cash state id (λ cash. cash + amount) {p = p} d (or_throw-ok _ _ found),
  ),
)

-- Where the players' ids are distinct, a transfer either throws or leaves the cash of all players
-- together as it was, and the ids distinct.
pub transfer_player_cash-Conserves :
    (state : GameEngineState) (from to amount : ℕ)
    → Distinct player_key state.players
    → Ensures (Conserves state) (transfer_player_cash state from to amount)
unfolding transfer_player_cash
transfer_player_cash-Conserves state from to amount d =
    then-Ensures _ _ (debit_player-Costs state from amount d) λ debited c.
      map-Ensures (credit_player-Gains debited to amount c.0)
        λ next g. (g.0, omega (arith, c.1, g.1))
