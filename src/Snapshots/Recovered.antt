-- ===== src/Snapshots/Recovered.antt =====
-- Recovery of a lost state: src/game/recovery/game-recovery.service.ts.
use livepoly_server.Base.{
  ℕ, ◌%◌, ◌≡◌, refl, true, false, Option, none, some, List, All, any, ◌==◌, arith, if◌then◌else◌,
  Bool-cases, inl, inr,
}
use livepoly_server.Types.{GameEngineState}
use livepoly_server.Assertions.{is_game_terminal}
use livepoly_server.Outcomes.{done, after}
use livepoly_server.StateStore
use livepoly_server.Snapshots.{
  GameSnapshotType, GameSnapshotRecord, turn, final, is_row_of, create,
  create_snapshot_after_command, create_final_snapshot, restore_latest_snapshot, get_or_recover,
  every_n_turns,
}
use livepoly_server.Snapshots.Newest.{Precedes, find_latest-create}

-- The type of a snapshot after a command.
abbrev pub kind_of : GameEngineState → GameSnapshotType
kind_of state = if is_game_terminal state then final else turn

every_turn : (n : ℕ) → (n % every_n_turns == 0) ≡ true
every_turn n = ground arith

pub created_after_command :
    (now game_id : ℕ) (state : GameEngineState) (rows : List GameSnapshotRecord)
    → create_snapshot_after_command now game_id state rows
      ≡ create now game_id (kind_of state) state rows
unfolding create_snapshot_after_command create_final_snapshot
created_after_command now game_id state rows = elim (Bool-cases (is_game_terminal state)) [
  | inl t ↦ rw t refl
  | inr t ↦ rw (t, every_turn state.turn_number) refl
]

module _ (stringify : GameEngineState → ℕ) (parse : ℕ → Option GameEngineState) where
  -- After the snapshot of a command, a game that is lost from Redis is recovered in exactly the state
  -- of that command, and stored again. The earlier snapshots of the game are of earlier turns, or of
  -- the same turn and created before this one's row.
  pub get_or_recover-create_snapshot_after_command :
      (now created_at game_id : ℕ) (state : GameEngineState) (rows : List GameSnapshotRecord)
      → All (Precedes game_id (kind_of state) state.turn_number created_at) rows
      → (any (is_row_of game_id (kind_of state) state.turn_number) rows ≡ false → now ≡ created_at)
      → get_or_recover stringify parse game_id
          (create_snapshot_after_command now game_id state rows)
          none
        ≡ (done state, some (stringify state))
  unfolding get_or_recover StateStore.get restore_latest_snapshot StateStore.set after
  get_or_recover-create_snapshot_after_command now created_at game_id state rows before first =
      let found =
        find_latest-create game_id (kind_of state) created_at state now rows before first in
      rw (created_after_command now game_id state rows, found.1, found.2) refl
