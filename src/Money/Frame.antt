-- ===== src/Money/Frame.antt =====
-- The properties of a state across a payment.
use livepoly_server.Base.{ℕ, ◌≡◌, refl}
use livepoly_server.Types.{GameEngineState}
use livepoly_server.Ensures.{Ensures, returns, bind-Ensures}
use livepoly_server.Money.{debit_player, credit_player}

-- The states have the same properties.
abbrev pub SameProperties : GameEngineState → GameEngineState → Type 0
SameProperties state next_state = next_state.properties ≡ state.properties

pub debit_player-SameProperties :
    (state : GameEngineState) (id amount : ℕ)
    → Ensures (SameProperties state) (debit_player state id amount)
unfolding debit_player
debit_player-SameProperties state id amount =
    bind-Ensures _ _ λ _ _. bind-Ensures _ _ λ _ _. returns refl

pub credit_player-SameProperties :
    (state : GameEngineState) (id amount : ℕ)
    → Ensures (SameProperties state) (credit_player state id amount)
unfolding credit_player
credit_player-SameProperties state id amount = bind-Ensures _ _ λ _ _. returns refl
