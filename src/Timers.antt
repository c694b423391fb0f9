-- ===== src/Timers.antt =====
-- Timeouts of a turn: src/game/timers/game-turn-timer-policy.service.ts and the delays and keys of
-- src/game/timers/game-turn-timer-queue.service.ts. `now` is what `Date.now()` returns.
pub mod Permitted
pub mod Watchdog
use livepoly_server.Base.{
  ℕ, suc, ◌+◌, ◌-◌, Bool, true, false, Option, none, some, List, [], ◌∷◌, not, ◌&&◌, ◌||◌, leb, ltb,
  ◌==◌, find_by, if◌then◌else◌,
}
use livepoly_server.Types.{
  GameEngineState, GameEnginePlayer, GameEngineAuction, GameEngineDebt, GamePhase,
  awaiting_first_turn, awaiting_roll, awaiting_property_decision, awaiting_auction_bid,
  awaiting_debt_resolution, awaiting_turn_end, phase_is, is_human,
}
use livepoly_server.Store.{player_key}
use livepoly_server.Assertions.{JsNumber, is_game_terminal, is_set}
use livepoly_server.Auctions.{get_auction_bid_delay}
use livepoly_server.Auctions.{get_current_auction_bidder_room_player_id}
use livepoly_server.MissedTurns.{get_consecutive_missed_turns}
use livepoly_server.Engine.{
  GameEngineIntent, roll_and_move_intent, decline_property_purchase_intent, pass_auction_bid_intent,
  declare_bankruptcy_intent, auto_resolve_debt_intent, end_turn_intent, finish_game_by_time_intent,
}

abbrev pub timeout_ms : ℕ
timeout_ms = 90000

abbrev max_consecutive_missed_turns : ℕ
max_consecutive_missed_turns = 3

-- `time && now >= time`: a time of 0 is no time.
abbrev pub has_passed : ℕ → Option ℕ → Bool
has_passed now none = false
has_passed now (some time) = not (time == 0) && leb time now

-- `time && now < time`
abbrev is_ahead : ℕ → Option ℕ → Bool
is_ahead now none = false
is_ahead now (some time) = not (time == 0) && ltb now time

unfoldable pub should_forfeit_current_player : GameEngineState → GameEnginePlayer → Bool
should_forfeit_current_player state player =
    is_human player.player_type
    && leb (max_consecutive_missed_turns - 1)
        (get_consecutive_missed_turns state player.room_player_id)

-- The dice of a timeout, from the two values of `Math.floor(Math.random() * 6)`.
abbrev pub roll_dice : ℕ × ℕ → List JsNumber
roll_dice random = JsNumber.natural (random.0 + 1) ∷ JsNumber.natural (random.1 + 1) ∷ []

abbrev intent_of_bidder : Option ℕ → Option GameEngineIntent
intent_of_bidder none = none
intent_of_bidder (some id) = some (pass_auction_bid_intent id)

-- In an auction: `now < bidExpiresAt` waits, otherwise the bidder whose turn it is passes.
unfoldable pub auction_timeout : ℕ → Option GameEngineAuction → Option GameEngineIntent
auction_timeout now none = none
auction_timeout now (some auction) =
    if is_ahead now auction.bid_expires_at
    then none
    else intent_of_bidder (get_current_auction_bidder_room_player_id auction)

-- The intent of a phase, for a player who does not forfeit.
unfoldable pub phase_timeout : ℕ → ℕ × ℕ → GameEngineState → ℕ → GamePhase → Option GameEngineIntent
phase_timeout now random state id awaiting_first_turn =
    some (roll_and_move_intent id (roll_dice random))
phase_timeout now random state id awaiting_roll = some (roll_and_move_intent id (roll_dice random))
phase_timeout now random state id awaiting_property_decision =
    some (decline_property_purchase_intent id)
phase_timeout now random state id awaiting_auction_bid = auction_timeout now state.auction
phase_timeout now random state id awaiting_turn_end = some (end_turn_intent id)
phase_timeout now random state id _ = none

abbrev debt_timeout : Option GameEngineDebt → Option GameEngineIntent
debt_timeout none = none
debt_timeout (some debt) = some (auto_resolve_debt_intent debt.room_player_id)

unfoldable pub player_timeout :
    ℕ → ℕ × ℕ → GameEngineState → GameEnginePlayer → Option GameEngineIntent
player_timeout now random state player =
    if player.bankrupt
    then none
    else if phase_is state.phase awaiting_debt_resolution
    then debt_timeout state.debt
    else if should_forfeit_current_player state player
    then some (declare_bankruptcy_intent player.room_player_id none)
    else phase_timeout now random state player.room_player_id state.phase

unfoldable pub choose_timeout_intent : ℕ → ℕ × ℕ → GameEngineState → Option GameEngineIntent
unfolding player_timeout
choose_timeout_intent now random state =
    if is_game_terminal state
    then none
    else if has_passed now state.expires_at
    then some (finish_game_by_time_intent (JsNumber.natural now))
    else elim (find_by player_key state.current_turn_room_player_id state.players) [
      | none ↦ none
      | some player ↦ player_timeout now random state player
    ]

-- `Math.max(time - now, 0)`, or the full time of a turn when there is no deadline.
abbrev turn_delay : ℕ → Option ℕ → ℕ
turn_delay now none = timeout_ms
turn_delay now (some time) = if time == 0 then timeout_ms else time - now

unfoldable pub get_turn_timer_delay : ℕ → GameEngineState → ℕ
get_turn_timer_delay now state =
    if phase_is state.phase awaiting_auction_bid && is_set state.auction
    then get_auction_bid_delay state now
    else turn_delay now state.turn_expires_at

-- The parts that `getActionStateKey` joins to one string.
pub data ActionStateKey : Type 0 where
  turn_key : (turn_expires_at : Option ℕ) → ActionStateKey
  auction_key :
      (current_bid : ℕ) (highest_bidder current_bidder bid_expires_at : Option ℕ) (passed : List ℕ)
      → ActionStateKey

abbrev auction_state_key : GameEngineState → Bool → Option GameEngineAuction → ActionStateKey
auction_state_key state true (some auction) =
    auction_key auction.current_bid auction.highest_bidder_room_player_id
      auction.current_bidder_room_player_id auction.bid_expires_at auction.passed_room_player_ids
auction_state_key state _ _ = turn_key state.turn_expires_at

unfoldable pub get_action_state_key : GameEngineState → ActionStateKey
get_action_state_key state =
    auction_state_key state (phase_is state.phase awaiting_auction_bid) state.auction

pub record ExecuteTurnTimeoutJob : Type 0 where
  pub game_id : ℕ
  pub turn_number : ℕ
  pub phase : GamePhase
  pub current_turn_room_player_id : ℕ
  pub action_state_key : ActionStateKey

-- `enqueueTurnTimer`: the job with its delay; the queue itself belongs to bullmq.
unfoldable pub enqueue_turn_timer : ℕ → ℕ → GameEngineState → Option (ExecuteTurnTimeoutJob × ℕ)
unfolding get_action_state_key get_turn_timer_delay
enqueue_turn_timer now game_id state =
    if is_game_terminal state
    then none
    else some (
      record {
        game_id = game_id;
        turn_number = state.turn_number;
        phase = state.phase;
        current_turn_room_player_id = state.current_turn_room_player_id;
        action_state_key = get_action_state_key state;
      },
      get_turn_timer_delay now state,
    )
