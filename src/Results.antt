-- ===== src/Results.antt =====
-- The results of a finished game: src/game/results/game-results.service.ts, without its database,
-- caches and queues. `now` is the time of `new Date()`; a date is its time in milliseconds.
pub mod Placements
pub mod Finalize
use livepoly_server.Base.{
  ℕ, suc, ◌+◌, ◌-◌, ◌/◌, Bool, true, false, Option, none, some, List, [], ◌∷◌, map, length, any,
  all, find_by, find, sort_by, leb, not, ◌&&◌, ◌==◌, if◌then◌else◌,
}
use livepoly_server.Types.{
  GameEngineState, GameEnginePlayer, GameEngineEvent, PlayerNetWorth, GameMode, Result, ok, ◌>>=◌,
  is_human,
}
use livepoly_server.Store.{player_key}
use livepoly_server.Assertions.{is_set}
use livepoly_server.Board.{get_game_board}
use livepoly_server.Derived.{
  map_result, calculate_player_net_worth, calculate_net_worth_standings, get_net_worth_winner,
  get_net_worth_winners,
}
use livepoly_server.Finish.{room_player_id_of, room_player_ids}

pub data GameResultEndReason : Type 0 where
  bankruptcy time_elapsed abandoned cancelled : GameResultEndReason

abbrev default_starting_cash : ℕ
default_starting_cash = 1500

pub record SaveRoomPlayerResultInput : Type 0 where
  pub room_id : ℕ
  pub room_player_id : ℕ
  pub user_id : Option ℕ
  pub seat_number : ℕ
  pub starting_cash : ℕ
  pub final_cash : ℕ
  pub final_net_worth : ℕ
  pub placement : ℕ
  pub bankrupt_at : Option ℕ

abbrev is_bankruptcy_finish : GameEngineEvent → Bool
is_bankruptcy_finish (GameEngineEvent.game_finished_by_bankruptcy winner players standings) = true
is_bankruptcy_finish _ = false

abbrev is_time_finish : GameEngineEvent → Bool
is_time_finish (GameEngineEvent.game_finished_by_time at winner tied standings) = true
is_time_finish _ = false

abbrev is_abandoned_finish : GameEngineEvent → Bool
is_abandoned_finish (GameEngineEvent.game_finished_after_last_human_left at winner tied standings) =
    true
is_abandoned_finish _ = false

abbrev is_finish : GameEngineEvent → Bool
is_finish (GameEngineEvent.game_finished_by_bankruptcy winner players standings) = true
is_finish (GameEngineEvent.game_finished_by_time at winner tied standings) = true
is_finish (GameEngineEvent.game_finished_after_last_human_left at winner tied standings) = true
is_finish _ = false

abbrev finished_at_of : ℕ → Option GameEngineEvent → ℕ
finished_at_of now none = now
finished_at_of now (some (GameEngineEvent.game_finished_by_time at winner tied standings)) = at
finished_at_of now
      (some (GameEngineEvent.game_finished_after_last_human_left at winner tied standings)) =
    at
finished_at_of now (some _) = now

unfoldable pub get_completed_at : ℕ → List GameEngineEvent → ℕ
get_completed_at now events = finished_at_of now (find is_finish events)

unfoldable pub get_end_reason : List GameEngineEvent → GameResultEndReason
get_end_reason events =
    if any is_bankruptcy_finish events
    then bankruptcy
    else if any is_time_finish events
    then time_elapsed
    else if any is_abandoned_finish events
    then abandoned
    else cancelled

-- The winner that a finishing event names.
abbrev winner_of : Option GameEngineEvent → Option ℕ
winner_of none = none
winner_of (some (GameEngineEvent.game_finished_by_bankruptcy winner players standings)) = winner
winner_of (some (GameEngineEvent.game_finished_by_time at winner tied standings)) = winner
winner_of (some (GameEngineEvent.game_finished_after_last_human_left at winner tied standings)) =
    winner
winner_of (some _) = none

-- The winner of the first event that names one, or of the standings of the state.
unfoldable pub or_winner : Option ℕ → Result (Option ℕ) → Result (Option ℕ)
or_winner (some winner) rest = ok (some winner)
or_winner none rest = rest

-- A bankruptcy decides even where it names no winner.
unfoldable pub get_winner_room_player_id :
    List GameEngineEvent → GameEngineState → Result (Option ℕ)
unfolding or_winner
get_winner_room_player_id events state =
    if any is_bankruptcy_finish events
    then ok (winner_of (find is_bankruptcy_finish events))
    else or_winner (winner_of (find is_time_finish events)) (
        or_winner (winner_of (find is_abandoned_finish events)) (
          calculate_net_worth_standings state >>= λ standings.
          ok (room_player_id_of (get_net_worth_winner standings))))

-- `Math.max(0, Math.floor((completedAt - startedAt) / 1000))`
abbrev seconds_since : ℕ → Option ℕ → ℕ
seconds_since completed_at none = 0
seconds_since completed_at (some started_at) = (completed_at - started_at) / 1000

unfoldable pub get_duration_seconds : GameEngineState → ℕ → ℕ
get_duration_seconds state completed_at = seconds_since completed_at state.started_at

abbrev bankrupt_of : List GameEnginePlayer → ℕ → Option Bool
bankrupt_of players id = elim (find_by player_key id players) [
  | none ↦ none
  | some player ↦ some player.bankrupt
]

-- `left?.bankrupt !== right?.bankrupt`
abbrev differ : Option Bool → Option Bool → Bool
differ none none = false
differ (some true) (some true) = false
differ (some false) (some false) = false
differ _ _ = true

-- `left?.bankrupt ? 1 : -1` is below 0.
abbrev is_before : Option Bool → Bool
is_before (some true) = false
is_before _ = true

-- The comparison is at most 0.
unfoldable pub compare_final_result_standing :
    List GameEnginePlayer → PlayerNetWorth → PlayerNetWorth → Bool
compare_final_result_standing players left right =
    let left_bankrupt = bankrupt_of players left.room_player_id in
    if not (right.net_worth == left.net_worth)
    then leb right.net_worth left.net_worth
    else if not (right.cash == left.cash)
    then leb right.cash left.cash
    else if not (right.owned_property_count == left.owned_property_count)
    then leb right.owned_property_count left.owned_property_count
    else if differ left_bankrupt (bankrupt_of players right.room_player_id)
    then is_before left_bankrupt
    else leb left.seat_number right.seat_number

unfoldable pub calculate_final_result_standings : GameEngineState → Result (List PlayerNetWorth)
calculate_final_result_standings state =
    map_result (calculate_player_net_worth state (get_game_board state.board_key)) state.players
    >>= λ standings. ok (sort_by (compare_final_result_standing state.players) standings)

abbrev pub standing_key : PlayerNetWorth → ℕ
standing_key standing = standing.room_player_id

-- `new Map(standings.map((standing, index) => [standing.roomPlayerId, index + 1])).get(id)`, where the
-- last entry of an id counts; `index` is that of the first standing, plus 1.
abbrev pub placement_in : ℕ → ℕ → List PlayerNetWorth → Option ℕ
placement_in id index [] = none
placement_in id index (standing ∷ standings) = elim (placement_in id (suc index) standings) [
  | some placement ↦ some placement
  | none ↦ if standing.room_player_id == id then some index else none
]

abbrev net_worth_or : ℕ → Option PlayerNetWorth → ℕ
net_worth_or cash none = cash
net_worth_or cash (some standing) = standing.net_worth

abbrev pub placement_or : ℕ → Option ℕ → ℕ
placement_or last none = last
placement_or last (some placement) = placement

abbrev pub result_of :
    GameEngineState → List PlayerNetWorth → ℕ → GameEnginePlayer → SaveRoomPlayerResultInput
result_of state standings completed_at player = record {
  room_id = state.room_id;
  room_player_id = player.room_player_id;
  user_id = player.user_id;
  seat_number = player.seat_number;
  starting_cash = default_starting_cash;
  final_cash = player.cash;
  final_net_worth = net_worth_or player.cash (find_by standing_key player.room_player_id standings);
  placement = placement_or (length state.players) (placement_in player.room_player_id 1 standings);
  bankrupt_at = if player.bankrupt then some completed_at else none;
}

unfoldable pub build_player_results : GameEngineState → ℕ → Result (List SaveRoomPlayerResultInput)
build_player_results state completed_at = calculate_final_result_standings state >>= λ standings.
    ok (map (result_of state standings completed_at) state.players)

abbrev is_ranked : GameMode → Bool
is_ranked GameMode.ranked = true
is_ranked GameMode.casual = false

abbrev is_user : GameEnginePlayer → Bool
is_user player = is_human player.player_type && is_set player.user_id

unfoldable pub should_refresh_leaderboards : GameEngineState → Bool
should_refresh_leaderboards state = is_ranked state.mode && all is_user state.players

-- The event with which `finalizeExpiredFinishedGame` and `finalizeAbandonedFinishedGame` finalize.
unfoldable pub expired_finish_events : GameEngineState → ℕ → Result (List GameEngineEvent)
expired_finish_events state finished_at = calculate_net_worth_standings state >>= λ standings. ok (
    GameEngineEvent.game_finished_by_time finished_at
      (room_player_id_of (get_net_worth_winner standings))
      (room_player_ids (get_net_worth_winners standings)) standings
    ∷ [])

unfoldable pub abandoned_finish_events : GameEngineState → ℕ → Result (List GameEngineEvent)
abandoned_finish_events state finished_at = calculate_net_worth_standings state >>= λ standings.
    ok (
      GameEngineEvent.game_finished_after_last_human_left finished_at
        (room_player_id_of (get_net_worth_winner standings))
        (room_player_ids (get_net_worth_winners standings)) standings
      ∷ [])
