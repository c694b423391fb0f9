-- ===== src/Commands/Execute.antt =====
-- `executeIntent` of src/game/commands/game-commands.service.ts, with its recovery and what it does
-- after a command that succeeded. What the databases of events and snapshots accept is an argument:
-- their failures are swallowed.
use livepoly_server.Base.{ℕ, Bool, Option, List, not, if◌then◌else◌}
use livepoly_server.Types.{GameEngineState, finished, phase_is}
use livepoly_server.Engine.{Platform}
use livepoly_server.Events.{GameEventRow, append_events}
use livepoly_server.Outcomes.{Outcome, done, failed, ServiceError, after, of_engine}
use livepoly_server.Results.Finalize.{ResultsDatabase, finalize_finished_game}
use livepoly_server.StateStore.{Interference, update, update_max_attempts}
use livepoly_server.Snapshots.{GameSnapshotRecord, create_snapshot_after_command, recover_or_throw}
use livepoly_server.Commands.{
  ExecuteGameIntentCommand, GameCommandResult, CommandClock, apply_command,
  assert_intent_actor_matches_command,
}

-- What is stored for a game: the text in Redis, the table of snapshots and its events.
pub record GameWorld : Type 0 where
  pub stored : Option ℕ
  pub snapshots : List GameSnapshotRecord
  pub events : List GameEventRow

-- The surroundings of one run of the command.
pub record Surroundings : Type 0 where
  pub platform : ℕ → Platform
  pub clock : ℕ → CommandClock
  pub others : ℕ → Interference
  pub snapshot_time : ℕ
  pub accepts_events : Bool
  pub accepts_snapshot : Bool
  pub results : ResultsDatabase

module _ (stringify : GameEngineState → ℕ) (parse : ℕ → Option GameEngineState) where
  -- The events and the snapshot, each of which may be refused.
  abbrev recorded : Surroundings → ℕ → GameCommandResult → GameWorld → GameWorld
  recorded around game_id result world = record world {
    events =
        if around.accepts_events then append_events result.events world.events else world.events;
    snapshots =
        if around.accepts_snapshot
        then create_snapshot_after_command around.snapshot_time game_id result.state world.snapshots
        else world.snapshots;
  }

  -- `finalizeGameIfFinished`
  unfoldable pub finalize_game_if_finished :
      Surroundings → ℕ → GameCommandResult → Outcome (Unit {0})
  finalize_game_if_finished around game_id result =
      if not (phase_is result.state.phase finished)
      then done tt
      else finalize_finished_game around.results game_id result.state result.events

  abbrev pub after_update :
      Surroundings
      → ℕ
      → GameWorld
      → Outcome GameCommandResult × Option ℕ
      → Outcome GameCommandResult × GameWorld
  after_update around game_id world (failed error, stored) =
      (failed error, record world { stored = stored })
  after_update around game_id world (done result, stored) = (
    after (finalize_game_if_finished around game_id result) λ _. done result,
    recorded around game_id result (record world { stored = stored }),
  )

  -- The `try` of `executeIntentWithRecovery`: the update, then `afterSuccessfulCommand`.
  unfoldable pub execute_once :
      Surroundings → ExecuteGameIntentCommand → GameWorld → Outcome GameCommandResult × GameWorld
  execute_once around command world = after_update around command.game_id world (
      update (λ result. stringify result.state) parse update_max_attempts
        (λ attempt state.
          of_engine (apply_command (around.platform attempt) (around.clock attempt) command state))
        around.others world.stored)

  -- The second run, in the surroundings `again`, if the game could be recovered.
  abbrev retry_after :
      Surroundings
      → ExecuteGameIntentCommand
      → GameWorld
      → Outcome GameEngineState × Option ℕ
      → Outcome GameCommandResult × GameWorld
  retry_after again command world (failed error, stored) =
      (failed error, record world { stored = stored })
  retry_after again command world (done state, stored) =
      execute_once again command (record world { stored = stored })

  -- The `catch`: a missing state is recovered once.
  unfoldable pub recover_and_retry :
      Surroundings
      → ExecuteGameIntentCommand
      → Outcome GameCommandResult × GameWorld
      → Outcome GameCommandResult × GameWorld
  recover_and_retry again command (failed ServiceError.not_found, world) =
      retry_after again command world
        (recover_or_throw stringify parse command.game_id world.snapshots world.stored)
  recover_and_retry again command (outcome, world) = (outcome, world)

  abbrev pub checked :
      Outcome (Unit {0})
      → GameWorld
      → Outcome GameCommandResult × GameWorld
      → Outcome GameCommandResult × GameWorld
  checked (failed error) world rest = (failed error, world)
  checked (done value) world rest = rest

  unfoldable pub execute_intent :
      Surroundings
      → Surroundings
      → ExecuteGameIntentCommand
      → GameWorld
      → Outcome GameCommandResult × GameWorld
  unfolding recover_and_retry
  execute_intent around again command world =
      checked (assert_intent_actor_matches_command command) world
        (recover_and_retry again command (execute_once around command world))
