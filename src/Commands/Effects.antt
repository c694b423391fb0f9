-- ===== src/Commands/Effects.antt =====
-- The state after a command: src/game/commands/game-commands.service.ts.
use livepoly_server.Base.{
  ℕ, ◌≡◌, refl, ◌∙◌, ◌⊎◌, true, false, Option, none, some, not, ◌&&◌, ◌||◌, is_key, if-holds, inl,
  inr, ◌==◌,
}
use livepoly_server.Types.{GameEngineState, finished, is_human}
use livepoly_server.Ensures.{Ensures, returns, bind-Ensures, then-Ensures}
use livepoly_server.Assertions.{JsNumber, is_game_terminal}
use livepoly_server.Store.{player_key}
use livepoly_server.MissedTurns.{
  increment_missed_turn, reset_missed_turn, with_missed_turn, without_missed_turns,
}
use livepoly_server.Finish.{finish_game_by_time}
use livepoly_server.Engine.{
  Platform, GameEngineIntent, reduce_game_engine_intent, finish_game_by_time_intent,
}
use livepoly_server.Validity.{IsValid, IsOnBoard}
use livepoly_server.Validity.Store.{players_update}
use livepoly_server.Validity.Engine.{reduce-IsValid}
use livepoly_server.Timers.{has_passed}
use livepoly_server.Commands.{
  GameCommandSource, CommandClock, ExecuteGameIntentCommand, apply_command,
  apply_command_source_to_state, apply_turn_deadline, get_effective_intent_for_current_time,
  is_finish_by_time, is_roll_and_move,
}

-- A count of missed turns touches neither the players' ids nor their positions.
missed_turn-IsValid :
    (state : GameEngineState) (id : Option ℕ) (turn_number : ℕ)
    → IsValid state
    → IsValid (increment_missed_turn state id turn_number)
unfolding increment_missed_turn
missed_turn-IsValid state none turn_number v = v
missed_turn-IsValid state (some id) turn_number v = (
  players_update (with_missed_turn turn_number)
      (λ p.
        if-holds (λ q. player_key q ≡ player_key p)
          (not (is_human p.player_type)
            || (p.bankrupt || is_key p.last_missed_turn_number turn_number))
          refl refl)
      (λ p s.
        if-holds IsOnBoard
          (not (is_human p.player_type)
            || (p.bankrupt || is_key p.last_missed_turn_number turn_number))
          s s)
      id state.players v.0,
  v.1,
)

reset_missed_turn-IsValid :
    (state : GameEngineState) (id : Option ℕ) → IsValid state → IsValid (reset_missed_turn state id)
unfolding reset_missed_turn
reset_missed_turn-IsValid state none v = v
reset_missed_turn-IsValid state (some id) v = (
  players_update without_missed_turns
      (λ p. if-holds (λ q. player_key q ≡ player_key p) (is_human p.player_type) refl refl)
      (λ p s. if-holds IsOnBoard (is_human p.player_type) s s) id state.players v.0,
  v.1,
)

source-IsValid :
    (state : GameEngineState) (source : GameCommandSource) (intent : GameEngineIntent)
    (actor : Option ℕ) (turn_player turn_number : ℕ)
    → IsValid state
    → IsValid (apply_command_source_to_state state source intent actor turn_player turn_number)
unfolding apply_command_source_to_state
source-IsValid state source intent none p n v = v
source-IsValid state GameCommandSource.timer intent (some actor) p n v =
    if-holds IsValid (is_roll_and_move intent && (actor == p))
      (missed_turn-IsValid state (some actor) n v) v
source-IsValid state GameCommandSource.player intent (some actor) p n v =
    reset_missed_turn-IsValid state (some actor) v
source-IsValid state GameCommandSource.bot intent (some actor) p n v = v

-- Whatever a command, its source and the clocks are, the command throws or leads from a valid state
-- to a valid state.
pub apply_command-IsValid :
    (platform : Platform) (clock : CommandClock) (command : ExecuteGameIntentCommand)
    (state : GameEngineState)
    → IsValid state
    → Ensures (λ result. IsValid result.state) (apply_command platform clock command state)
unfolding apply_command apply_turn_deadline
apply_command-IsValid platform clock command state v =
    then-Ensures _ _ (reduce-IsValid platform state _ v)
      λ result w. returns (source-IsValid result.state _ _ _ _ _ w)

finish_game_by_time-phase :
    (state : GameEngineState) (time : JsNumber)
    → Ensures (λ result. result.state.phase ≡ finished) (finish_game_by_time state time)
unfolding finish_game_by_time
finish_game_by_time-phase state time =
    bind-Ensures _ _
      λ _ _. bind-Ensures _ _ λ _ _. bind-Ensures _ _ λ _ _. bind-Ensures _ _ λ _ _. returns refl

source-phase :
    (state : GameEngineState) (source : GameCommandSource) (intent : GameEngineIntent)
    (actor : Option ℕ) (turn_player turn_number : ℕ)
    → (apply_command_source_to_state state source intent actor turn_player turn_number).phase
      ≡ state.phase
unfolding apply_command_source_to_state increment_missed_turn reset_missed_turn
source-phase state source intent none p n = refl
source-phase state GameCommandSource.timer intent (some actor) p n =
    if-holds {A = GameEngineState} (λ next. next.phase ≡ state.phase)
      (is_roll_and_move intent && (actor == p)) refl refl
source-phase state GameCommandSource.player intent (some actor) p n = refl
source-phase state GameCommandSource.bot intent (some actor) p n = refl

finish_or_other :
    (intent : GameEngineIntent)
    → ((time : JsNumber) × (intent ≡ finish_game_by_time_intent time))
      ⊎ (is_finish_by_time intent ≡ false)
finish_or_other (finish_game_by_time_intent time) = inl (time, refl)
finish_or_other _ = inr refl

-- The effective intent of a game that has expired.
effective-Finishes :
    (platform : Platform) (state : GameEngineState) (now : ℕ) (intent : GameEngineIntent)
    → is_game_terminal state ≡ false
    → has_passed now state.expires_at ≡ true
    → Ensures
        (λ result. result.state.phase ≡ finished)
        (reduce_game_engine_intent platform state
          (get_effective_intent_for_current_time now state intent))
unfolding get_effective_intent_for_current_time reduce_game_engine_intent
effective-Finishes platform state now intent active expired = elim (finish_or_other intent) [
  | inl (time, e) ↦ rw e (finish_game_by_time-phase state time)
  | inr e ↦ rw (e, active, expired) (finish_game_by_time-phase state (JsNumber.natural now))
]

-- Once the time of a game that is not over has passed, every command throws or finishes the game,
-- whatever its intent is.
pub expired_command-Finishes :
    (platform : Platform) (clock : CommandClock) (command : ExecuteGameIntentCommand)
    (state : GameEngineState)
    → is_game_terminal state ≡ false
    → has_passed clock.at_intent state.expires_at ≡ true
    → Ensures (λ result. result.state.phase ≡ finished) (apply_command platform clock command state)
unfolding apply_command apply_turn_deadline
expired_command-Finishes platform clock command state active expired =
    then-Ensures _ _
      (effective-Finishes platform state clock.at_intent command.intent active expired)
      λ result e. returns (source-phase result.state _ _ _ _ _ ∙ e)
