-- ===== src/Results/Finalize.antt =====
-- `finalizeFinishedGame` of src/game/results/game-results.service.ts. The transaction on the database
-- is an argument; logs, the queue of the leaderboards and the cache are left out.
use livepoly_server.Base.{ℕ, Bool, Option, List, not, if◌then◌else◌}
use livepoly_server.Types.{GameEngineState, GameEngineEvent, finished, phase_is}
use livepoly_server.Outcomes.{Outcome, done, after, fail_if, of_engine, not_found}
use livepoly_server.Results.{
  GameResultEndReason, SaveRoomPlayerResultInput, get_completed_at, get_end_reason,
  get_winner_room_player_id, get_duration_seconds, build_player_results,
}

pub record SaveGameResultsInput : Type 0 where
  pub game_id : ℕ
  pub room_id : ℕ
  pub state : GameEngineState
  pub end_reason : GameResultEndReason
  pub winner_room_player_id : Option ℕ
  pub completed_at : ℕ
  pub duration_seconds : ℕ
  pub player_results : List SaveRoomPlayerResultInput

-- What `findGameForFinalization` and the transaction answer, at the time `now`.
pub record ResultsDatabase : Type 0 where
  pub now : ℕ
  pub has_game : Bool
  pub transaction : SaveGameResultsInput → Outcome (Unit {0})

unfoldable pub finalize_finished_game :
    ResultsDatabase → ℕ → GameEngineState → List GameEngineEvent → Outcome (Unit {0})
finalize_finished_game database game_id state events =
    if not (phase_is state.phase finished)
    then done tt
    else after (fail_if (not database.has_game) not_found) λ _.
      let completed_at = get_completed_at database.now events in
      after (of_engine (get_winner_room_player_id events state)) λ winner.
        after (of_engine (build_player_results state completed_at)) λ player_results.
          database.transaction (record {
            game_id = game_id;
            room_id = state.room_id;
            state = state;
            end_reason = get_end_reason events;
            winner_room_player_id = winner;
            completed_at = completed_at;
            duration_seconds = get_duration_seconds state completed_at;
            player_results = player_results;
          })
