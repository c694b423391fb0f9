-- ===== src/Validity/Jail.antt =====
-- The invariant across rolls in jail and the two ways out of it.
use livepoly_server.Base.{ℕ, ◌+◌, refl, Option, none, some, List, leb}
use livepoly_server.Types.{
  GameEngineState, GameEnginePlayer, GameEngineEvent, GameEngineResult, GameEngineDebtReason,
  Result, ◌>>=◌,
}
use livepoly_server.Ensures.{Ensures, returns, bind-Ensures, then-Ensures, bool-Ensures}
use livepoly_server.Store.{update_player}
use livepoly_server.Dice.{is_doubles}
use livepoly_server.Jail
use livepoly_server.Debt.{release_player_from_jail}
use livepoly_server.Cards.Decks.{return_get_out_of_jail_card_to_deck}
use livepoly_server.Validity.Defs.{IsValid, LeadsToValid}
use livepoly_server.Validity.Store.{players_update}
use livepoly_server.Validity.Payments.{debit_player-IsValid, debit_player_or_create_debt-IsValid}
use livepoly_server.Validity.Turns.{released-IsValid}
use livepoly_server.Validity.Cards.{set_deck-IsValid}

-- The jail rolls, for a continuation that keeps the invariant.
module _ (move : GameEngineState → Result GameEngineResult)
    (move-IsValid : (state : GameEngineState)
      → IsValid state
      → Ensures LeadsToValid (move state)) where
  after_release-IsValid :
      (state : GameEngineState) (events : List GameEngineEvent)
      → IsValid state
      → Ensures LeadsToValid (move state >>= Jail.after_release events)
  unfolding Jail.after_release
  after_release-IsValid state events v =
      then-Ensures _ _ (move-IsValid state v) λ moved w. returns w

  counted-IsValid :
      (state : GameEngineState) (id n : ℕ)
      → IsValid state
      → IsValid (update_player state id (Jail.with_jail_turn_count n))
  counted-IsValid state id n v = (
    players_update (Jail.with_jail_turn_count n) (λ p. refl) (λ p h. h) id state.players v.0,
    v.1,
  )

  force_jail_fine-IsValid :
      (state : GameEngineState) (id : ℕ) (dice : ℕ × ℕ) (n : ℕ)
      → IsValid state
      → Ensures LeadsToValid (Jail.force_jail_fine state id dice n move)
  unfolding Jail.force_jail_fine
  force_jail_fine-IsValid state id dice n v =
      then-Ensures _ _
        (debit_player_or_create_debt-IsValid state id Jail.jail_fine_amount
          GameEngineDebtReason.jail_fine none v)
        λ payment w.
          let counted = update_player payment.state id (Jail.with_jail_turn_count n) in
          let counted_valid : IsValid counted = counted-IsValid payment.state id n w in
          bool-Ensures payment.paid _ _
            (λ _.
              after_release-IsValid (release_player_from_jail counted id) _
                (released-IsValid counted id counted_valid))
            (λ _. returns counted_valid)

  roll_in_jail-IsValid :
      (state : GameEngineState) (id : ℕ) (player : GameEnginePlayer) (dice : ℕ × ℕ)
      → IsValid state
      → Ensures LeadsToValid (Jail.roll_in_jail state id player dice move)
  unfolding Jail.roll_in_jail
  roll_in_jail-IsValid state id player dice v =
      bool-Ensures (is_doubles dice) _ _
        (λ _. after_release-IsValid _ _ (released-IsValid state id v))
        (λ _.
          bool-Ensures (leb Jail.max_jail_turn_count (player.jail_turn_count + 1)) _ _
            (λ _. force_jail_fine-IsValid state id dice (player.jail_turn_count + 1) v)
            (λ _. returns (counted-IsValid state id (player.jail_turn_count + 1) v)))

-- A result that may be missing.
abbrev pub LeadsToValid? : Option GameEngineResult → Type 0
LeadsToValid? none = Unit
LeadsToValid? (some result) = LeadsToValid result

module _ (move : GameEngineState → Result GameEngineResult)
    (move-IsValid : (state : GameEngineState)
      → IsValid state
      → Ensures LeadsToValid (move state)) where
  pub resolve_jailed_roll-IsValid :
      (state : GameEngineState) (id : ℕ) (dice : ℕ × ℕ)
      → IsValid state
      → Ensures LeadsToValid? (Jail.resolve_jailed_roll state id dice move)
  unfolding Jail.resolve_jailed_roll
  resolve_jailed_roll-IsValid state id dice v = bind-Ensures _ _ λ player _.
      bool-Ensures player.in_jail _ _
        (λ _.
          then-Ensures _ _ (roll_in_jail-IsValid move move-IsValid state id player dice v)
            λ result w. returns w)
        (λ _. returns tt)

pub pay_jail_fine-IsValid :
    (state : GameEngineState) (id : ℕ)
    → IsValid state
    → Ensures LeadsToValid (Jail.pay_jail_fine state id)
unfolding Jail.pay_jail_fine
pay_jail_fine-IsValid state id v = bind-Ensures _ _ λ _ _. bind-Ensures _ _ λ _ _.
    then-Ensures _ _ (debit_player-IsValid state id Jail.jail_fine_amount v)
      λ debited w. returns (released-IsValid debited id w)

pub return_card-IsValid :
    (state : GameEngineState) (card : Option ℕ)
    → IsValid state
    → Ensures IsValid (return_get_out_of_jail_card_to_deck state card)
unfolding return_get_out_of_jail_card_to_deck
return_card-IsValid state card v =
    bind-Ensures _ _ λ deck_key _. returns (set_deck-IsValid state deck_key _ v)

pub use_get_out_of_jail_card-IsValid :
    (state : GameEngineState) (id : ℕ)
    → IsValid state
    → Ensures LeadsToValid (Jail.use_get_out_of_jail_card state id)
unfolding Jail.use_get_out_of_jail_card
use_get_out_of_jail_card-IsValid state id v = bind-Ensures _ _ λ player _. bind-Ensures _ _ λ _ _.
    bind-Ensures _ _ λ _ _.
      let keys = player.get_out_of_jail_free_card_keys in
      then-Ensures _ _ (return_card-IsValid state (Jail.first_key keys) v) λ returned w.
        let without = Jail.without_jail_card (Jail.remaining_keys keys) in
        returns (
          released-IsValid (update_player returned id without) id
            (players_update without (λ p. refl) (λ p h. h) id returned.players w.0, w.1))
