-- ===== src/Commands/Recovery.antt =====
-- Commands that are refused, and commands on a game that was lost from Redis:
-- src/game/commands/game-commands.service.ts.
use livepoly_server.Base.{
  ℕ, ◌≡◌, ◌≢◌, ◌⊎◌, inl, inr, refl, sym, ap, ◌∙◌, true, false, Option, none, some, List, All, any,
  ◌==◌, ==→eq, ==_refl, Bool-cases, some_eq, none_ne_some,
}
use livepoly_server.Types.{GameEngineState}
use livepoly_server.Outcomes.{failed, bad_request, not_found}
use livepoly_server.StateStore
use livepoly_server.StateStore.{update}
use livepoly_server.Snapshots.{
  GameSnapshotRecord, find_latest_by_game_id, recover_or_throw, restore_latest_snapshot, is_row_of,
  create_snapshot_after_command,
}
use livepoly_server.Snapshots.Newest.{Precedes, find_latest-create}
use livepoly_server.Snapshots.Recovered.{kind_of, created_after_command}
use livepoly_server.Commands.{
  ExecuteGameIntentCommand, is_own, get_intent_actor_room_player_id,
  assert_intent_actor_matches_command,
}
use livepoly_server.Commands.Execute.{
  GameWorld, Surroundings, execute_once, execute_intent, recover_and_retry,
}

-- The sender is the actor of the intent, or the intent has none.
abbrev pub IsEntitled : ExecuteGameIntentCommand → Type 0
IsEntitled command =
    (get_intent_actor_room_player_id command.intent ≡ none)
    ⊎ (command.room_player_id ≡ get_intent_actor_room_player_id command.intent)

-- The intent has an actor, who is not the sender.
abbrev pub IsForeign : ExecuteGameIntentCommand → Type 0
IsForeign command =
    (actor : ℕ) × (get_intent_actor_room_player_id command.intent ≡ some actor)
    × (command.room_player_id ≢ some actor)

true_ne_false : true ≢ false
true_ne_false e = cc

-- The test of the source decides it.
is_own-cases :
    (actor sender : Option ℕ)
    → ((is_own actor sender ≡ false) × ((a : ℕ) × (actor ≡ some a) × (sender ≢ some a)))
      ⊎ ((is_own actor sender ≡ true) × ((actor ≡ none) ⊎ (sender ≡ actor)))
is_own-cases none sender = inr (refl, inl refl)
is_own-cases (some a) none = inl (refl, (a, refl, λ e. none_ne_some e))
is_own-cases (some a) (some b) = elim (Bool-cases (a == b)) [
  | inl t ↦ inr (t, inr (ap some (sym (==→eq a b t))))
  | inr t ↦ inl (
    t,
    (a, refl, λ e. let same : b ≡ a = some_eq e in true_ne_false (sym (rw same (==_refl a)) ∙ t)),
  )
]

is_own-entitled :
    (actor sender : Option ℕ) → (actor ≡ none) ⊎ (sender ≡ actor) → is_own actor sender ≡ true
is_own-entitled actor sender (inl e) = rw e refl
is_own-entitled none sender (inr e) = refl
is_own-entitled (some a) sender (inr e) = rw e (==_refl a)

module _ (stringify : GameEngineState → ℕ) (parse : ℕ → Option GameEngineState) where
  -- A command whose intent has an actor who is not its sender is a bad request, and nothing that is
  -- stored changes; any other command, of the actor or of an intent without one, is run.
  pub execute_intent-Refused :
      (around again : Surroundings) (command : ExecuteGameIntentCommand) (world : GameWorld)
      → (IsForeign command
          × (execute_intent stringify parse around again command world
              ≡ (failed bad_request, world)))
        ⊎ (IsEntitled command
            × (execute_intent stringify parse around again command world
                ≡ recover_and_retry stringify parse again command
                    (execute_once stringify parse around command world)))
  unfolding execute_intent assert_intent_actor_matches_command
  execute_intent-Refused around again command world =
      elim (is_own-cases (get_intent_actor_room_player_id command.intent) command.room_player_id) [
        | inl (other, foreign) ↦ inl (foreign, rw other refl)
        | inr (own, entitled) ↦ inr (entitled, rw own refl)
      ]

  once_missing :
      (around : Surroundings) (command : ExecuteGameIntentCommand) (world : GameWorld)
      → world.stored ≡ none
      → (around.others 4).before_read none ≡ none
      → execute_once stringify parse around command world
        ≡ (failed not_found, record world { stored = none })
  unfolding execute_once update
  once_missing around command world lost quiet = rw (lost, quiet) refl

  retried :
      (again : Surroundings) (command : ExecuteGameIntentCommand) (world : GameWorld)
      (snapshot : GameSnapshotRecord)
      → find_latest_by_game_id command.game_id world.snapshots ≡ some snapshot
      → recover_and_retry stringify parse again command
          (failed not_found, record world { stored = none })
        ≡ execute_once stringify parse again command
            (record world { stored = some (stringify snapshot.state) })
  unfolding recover_and_retry recover_or_throw restore_latest_snapshot StateStore.set
  retried again command world snapshot found = rw found refl

  -- Where the sender may send the command, and the earlier snapshots of the game are of earlier turns,
  -- or of the same turn and created before: a command on a game that was lost from Redis after the
  -- snapshot of a command, and is missing when it is read, does exactly what it does in the second
  -- run's surroundings where the state of that snapshot is still stored.
  pub execute_intent-Recovered :
      (around again : Surroundings) (command : ExecuteGameIntentCommand) (world : GameWorld)
      (now created_at : ℕ) (state : GameEngineState) (rows : List GameSnapshotRecord)
      → IsEntitled command
      → world.stored ≡ none
      → world.snapshots ≡ create_snapshot_after_command now command.game_id state rows
      → (around.others 4).before_read none ≡ none
      → All (Precedes command.game_id (kind_of state) state.turn_number created_at) rows
      → (any (is_row_of command.game_id (kind_of state) state.turn_number) rows ≡ false
          → now ≡ created_at)
      → execute_intent stringify parse around again command world
        ≡ execute_once stringify parse again command
            (record world { stored = some (stringify state) })
  unfolding execute_intent assert_intent_actor_matches_command
  execute_intent-Recovered around again command world now created_at state rows entitled lost
        written quiet before first =
      let newest =
        find_latest-create command.game_id (kind_of state) created_at state now rows before first in
      let found : find_latest_by_game_id command.game_id world.snapshots ≡ some newest.0 =
        ap (find_latest_by_game_id command.game_id)
          (written ∙ created_after_command now command.game_id state rows)
        ∙ newest.1 in
      rw
        (
          is_own-entitled (get_intent_actor_room_player_id command.intent) command.room_player_id
              entitled,
          once_missing around command world lost quiet,
          retried again command world newest.0 found,
          newest.2,
        )
        refl
