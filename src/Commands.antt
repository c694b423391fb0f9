-- ===== src/Commands.antt =====
-- Commands: what `executeIntent` of src/game/commands/game-commands.service.ts does with the state
-- that it is given, and the commands that its other methods send. Events for observability and logs
-- are left out.
pub mod Player
pub mod Deadline
pub mod Effects
pub mod Execute
pub mod Recovery
pub mod Stored
use livepoly_server.Base.{
  ℕ, ◌+◌, Bool, true, false, Option, none, some, List, not, ◌&&◌, ◌||◌, ltb, leb, ◌==◌, is_key, min,
  if◌then◌else◌,
}
use livepoly_server.Types.{GameEngineState, GameEngineEvent, GamePhase, phase_is, Result, ok, ◌>>=◌}
use livepoly_server.Assertions.{JsNumber, is_game_terminal, is_set}
use livepoly_server.MissedTurns.{increment_missed_turn, reset_missed_turn}
use livepoly_server.Trades.{ProposeTradeInput}
use livepoly_server.Engine.{
  Platform, reduce_game_engine_intent, GameEngineIntent, roll_and_move_intent, buy_property_intent,
  decline_property_purchase_intent, place_auction_bid_intent, pass_auction_bid_intent,
  build_property_intent, sell_building_intent, mortgage_property_intent, unmortgage_property_intent,
  propose_trade_intent, accept_trade_intent, reject_trade_intent, cancel_trade_intent,
  declare_bankruptcy_intent, pay_debt_intent, auto_resolve_debt_intent, pay_jail_fine_intent,
  use_get_out_of_jail_card_intent, end_turn_intent, finish_game_by_time_intent,
  finish_game_after_last_human_left_intent,
}
use livepoly_server.Timers.{timeout_ms, has_passed}
use livepoly_server.Outcomes.{Outcome, fail_if, bad_request}

pub data GameCommandSource : Type 0 where
  player bot timer : GameCommandSource

pub record ExecuteGameIntentCommand : Type 0 where
  pub game_id : ℕ
  pub room_player_id : Option ℕ
  pub intent : GameEngineIntent
  pub source : Option GameCommandSource

-- The intent stands for its type, which is all that the source keeps of it.
pub record GameCommandResult : Type 0 where
  pub state : GameEngineState
  pub events : List GameEngineEvent
  pub intent_type : GameEngineIntent

-- What `Date.now()` returns in `getEffectiveIntentForCurrentTime` and, twice, in `applyTurnDeadline`.
pub record CommandClock : Type 0 where
  pub at_intent : ℕ
  pub at_check : ℕ
  pub at_deadline : ℕ

unfoldable pub get_intent_actor_room_player_id : GameEngineIntent → Option ℕ
get_intent_actor_room_player_id (roll_and_move_intent id dice) = some id
get_intent_actor_room_player_id (buy_property_intent id) = some id
get_intent_actor_room_player_id (decline_property_purchase_intent id) = some id
get_intent_actor_room_player_id (place_auction_bid_intent id amount) = some id
get_intent_actor_room_player_id (pass_auction_bid_intent id) = some id
get_intent_actor_room_player_id (build_property_intent id tile_key) = some id
get_intent_actor_room_player_id (sell_building_intent id tile_key) = some id
get_intent_actor_room_player_id (mortgage_property_intent id tile_key) = some id
get_intent_actor_room_player_id (unmortgage_property_intent id tile_key) = some id
get_intent_actor_room_player_id (propose_trade_intent input) = some input.room_player_id
get_intent_actor_room_player_id (accept_trade_intent id trade_id) = some id
get_intent_actor_room_player_id (reject_trade_intent id trade_id) = some id
get_intent_actor_room_player_id (cancel_trade_intent id trade_id) = some id
get_intent_actor_room_player_id (declare_bankruptcy_intent id creditor) = some id
get_intent_actor_room_player_id (pay_debt_intent id) = some id
get_intent_actor_room_player_id (auto_resolve_debt_intent id) = some id
get_intent_actor_room_player_id (pay_jail_fine_intent id) = some id
get_intent_actor_room_player_id (use_get_out_of_jail_card_intent id) = some id
get_intent_actor_room_player_id (end_turn_intent id) = some id
get_intent_actor_room_player_id (finish_game_by_time_intent time) = none
get_intent_actor_room_player_id (finish_game_after_last_human_left_intent time) = none

abbrev is_own : Option ℕ → Option ℕ → Bool
is_own none sender = true
is_own (some actor) none = false
is_own (some actor) (some sender) = actor == sender

-- An intent without an actor is let through; any other has to be sent by its actor.
unfoldable pub assert_intent_actor_matches_command : ExecuteGameIntentCommand → Outcome (Unit {0})
assert_intent_actor_matches_command command =
    fail_if (not (is_own (get_intent_actor_room_player_id command.intent) command.room_player_id))
      bad_request

abbrev is_finish_by_time : GameEngineIntent → Bool
is_finish_by_time (finish_game_by_time_intent time) = true
is_finish_by_time _ = false

unfoldable pub get_effective_intent_for_current_time :
    ℕ → GameEngineState → GameEngineIntent → GameEngineIntent
get_effective_intent_for_current_time now state intent =
    if is_finish_by_time intent || (is_game_terminal state || not (has_passed now state.expires_at))
    then intent
    else finish_game_by_time_intent (JsNumber.natural now)

abbrev is_roll_and_move : GameEngineIntent → Bool
is_roll_and_move (roll_and_move_intent id dice) = true
is_roll_and_move _ = false

unfoldable pub apply_command_source_to_state :
    GameEngineState → GameCommandSource → GameEngineIntent → Option ℕ → ℕ → ℕ → GameEngineState
apply_command_source_to_state state source intent none turn_room_player_id turn_number = state
apply_command_source_to_state state timer intent (some actor) turn_room_player_id turn_number =
    if is_roll_and_move intent && (actor == turn_room_player_id)
    then increment_missed_turn state (some actor) turn_number
    else state
apply_command_source_to_state state player intent (some actor) turn_room_player_id turn_number =
    reset_missed_turn state (some actor)
apply_command_source_to_state state bot intent (some actor) turn_room_player_id turn_number = state

-- `expiresAt ? Math.min(time, expiresAt) : time`
unfoldable pub capped : Option ℕ → ℕ → ℕ
capped none time = time
capped (some expires_at) time = if expires_at == 0 then time else min time expires_at

abbrev pub is_same_turn : GameEngineState → GameEngineState → Bool
is_same_turn previous next =
    (previous.turn_number == next.turn_number)
    && ((previous.current_turn_room_player_id == next.current_turn_room_player_id)
        && phase_is previous.phase next.phase)

-- The deadline before the cap: the previous one while it is ahead and the turn is the same.
unfoldable pub next_deadline : ℕ → ℕ → Bool → Option ℕ → ℕ
next_deadline now later same_turn none = later + timeout_ms
next_deadline now later same_turn (some previous) =
    if same_turn && ltb now previous then previous else later + timeout_ms

unfoldable pub apply_turn_deadline : ℕ → ℕ → GameEngineState → GameEngineState → GameEngineState
apply_turn_deadline now later previous next = record next {
  turn_expires_at =
      if is_game_terminal next
      then none
      else some (
          capped next.expires_at
            (next_deadline now later (is_same_turn previous next) previous.turn_expires_at));
}

-- `input.source ?? 'player'`
abbrev source_or_player : Option GameCommandSource → GameCommandSource
source_or_player none = player
source_or_player (some source) = source

-- The updater that `executeIntentWithRecovery` gives to the store.
unfoldable pub apply_command :
    Platform → CommandClock → ExecuteGameIntentCommand → GameEngineState → Result GameCommandResult
apply_command platform clock command state =
    let intent = get_effective_intent_for_current_time clock.at_intent state command.intent in
    reduce_game_engine_intent platform state intent >>= λ result. ok (record {
      state = apply_turn_deadline clock.at_check clock.at_deadline state (
          apply_command_source_to_state result.state (source_or_player command.source) intent
            (get_intent_actor_room_player_id intent) state.current_turn_room_player_id
            state.turn_number);
      events = result.events;
      intent_type = intent;
    })
