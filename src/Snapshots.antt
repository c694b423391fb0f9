-- ===== src/Snapshots.antt =====
-- Snapshots of a game, in src/game/snapshots/game-snapshots.service.ts with the queries of
-- game-snapshots.repository.ts, and the recovery from them, in
-- src/game/recovery/game-recovery.service.ts. The table is a list of rows; the database inserts a row
-- or, for the same game, type and turn, replaces the state of the row that is there.
pub mod Newest
pub mod Recovered
use livepoly_server.Base.{
  ℕ, ◌%◌, Bool, true, false, Option, none, some, List, [], ◌∷◌, ◌++◌, map, any, not, ◌&&◌, ◌||◌,
  ◌==◌, ltb, if◌then◌else◌,
}
use livepoly_server.Types.{GameEngineState}
use livepoly_server.Assertions.{is_game_terminal}
use livepoly_server.Outcomes.{Outcome, done, failed, ServiceError, not_found}
use livepoly_server.StateStore
use livepoly_server.StateStore.{set}

pub data GameSnapshotType : Type 0 where
  start turn final : GameSnapshotType

abbrev pub snapshot_type_code : GameSnapshotType → ℕ
snapshot_type_code start = 0
snapshot_type_code turn = 1
snapshot_type_code final = 2

pub record GameSnapshotRecord : Type 0 where
  pub game_id : ℕ
  pub room_id : ℕ
  pub snapshot_type : GameSnapshotType
  pub turn_number : ℕ
  pub state : GameEngineState
  pub created_at : ℕ

abbrev every_n_turns : ℕ
every_n_turns = 1

-- The columns of the unique index.
abbrev pub is_row_of : ℕ → GameSnapshotType → ℕ → GameSnapshotRecord → Bool
is_row_of game_id snapshot_type turn_number row =
    (row.game_id == game_id)
    && ((snapshot_type_code row.snapshot_type == snapshot_type_code snapshot_type)
        && (row.turn_number == turn_number))

abbrev pub with_state :
    ℕ → GameSnapshotType → GameEngineState → GameSnapshotRecord → GameSnapshotRecord
with_state game_id snapshot_type state row =
    if is_row_of game_id snapshot_type state.turn_number row
    then record row { state = state }
    else row

-- `create`: the insertion, or the update on conflict.
unfoldable pub create :
    ℕ → ℕ → GameSnapshotType → GameEngineState → List GameSnapshotRecord → List GameSnapshotRecord
create now game_id snapshot_type state rows =
    if any (is_row_of game_id snapshot_type state.turn_number) rows
    then map (with_state game_id snapshot_type state) rows
    else rows
      ++ record {
        game_id = game_id;
        room_id = state.room_id;
        snapshot_type = snapshot_type;
        turn_number = state.turn_number;
        state = state;
        created_at = now;
      }
        ∷ []

-- The order of the query: by turn number and then by the time of creation.
abbrev pub is_later : GameSnapshotRecord → GameSnapshotRecord → Bool
is_later left right =
    ltb right.turn_number left.turn_number
    || ((left.turn_number == right.turn_number) && ltb right.created_at left.created_at)

abbrev pub later_of : GameSnapshotRecord → Option GameSnapshotRecord → GameSnapshotRecord
later_of row none = row
later_of row (some best) = if is_later best row then best else row

-- `findLatestByGameId`; of two rows at one time, where the database may take either, the first.
unfoldable pub find_latest_by_game_id : ℕ → List GameSnapshotRecord → Option GameSnapshotRecord
find_latest_by_game_id game_id [] = none
find_latest_by_game_id game_id (row ∷ rows) =
    let latest = find_latest_by_game_id game_id rows in
    if row.game_id == game_id then some (later_of row latest) else latest

unfoldable pub create_start_snapshot :
    ℕ → ℕ → GameEngineState → List GameSnapshotRecord → List GameSnapshotRecord
create_start_snapshot now game_id state rows = create now game_id start state rows

unfoldable pub create_final_snapshot :
    ℕ → ℕ → GameEngineState → List GameSnapshotRecord → List GameSnapshotRecord
create_final_snapshot now game_id state rows = create now game_id final state rows

unfoldable pub create_snapshot_after_command :
    ℕ → ℕ → GameEngineState → List GameSnapshotRecord → List GameSnapshotRecord
unfolding create_final_snapshot
create_snapshot_after_command now game_id state rows =
    if is_game_terminal state
    then create_final_snapshot now game_id state rows
    else if not (state.turn_number % every_n_turns == 0)
    then rows
    else create now game_id turn state rows

module _ (stringify : GameEngineState → ℕ) (parse : ℕ → Option GameEngineState) where
  -- The state that is restored, and the value that is then stored.
  abbrev restored : Option GameSnapshotRecord → Option ℕ → Option GameEngineState × Option ℕ
  restored none stored = (none, stored)
  restored (some snapshot) stored = (some snapshot.state, set stringify parse snapshot.state)

  unfoldable pub restore_latest_snapshot :
      ℕ → List GameSnapshotRecord → Option ℕ → Option GameEngineState × Option ℕ
  unfolding set
  restore_latest_snapshot game_id rows stored =
      restored (find_latest_by_game_id game_id rows) stored

  abbrev or_not_found : Option GameEngineState × Option ℕ → Outcome GameEngineState × Option ℕ
  or_not_found (none, stored) = (failed not_found, stored)
  or_not_found (some state, stored) = (done state, stored)

  unfoldable pub recover_or_throw :
      ℕ → List GameSnapshotRecord → Option ℕ → Outcome GameEngineState × Option ℕ
  unfolding restore_latest_snapshot
  recover_or_throw game_id rows stored = or_not_found (restore_latest_snapshot game_id rows stored)

  -- Only a missing state is recovered; any other failure is thrown again.
  abbrev recover_from :
      ℕ
      → List GameSnapshotRecord
      → Option ℕ
      → Outcome GameEngineState
      → Outcome GameEngineState × Option ℕ
  recover_from game_id rows stored (done state) = (done state, stored)
  recover_from game_id rows stored (failed ServiceError.not_found) =
      or_not_found (restore_latest_snapshot game_id rows stored)
  recover_from game_id rows stored (failed error) = (failed error, stored)

  unfoldable pub get_or_recover :
      ℕ → List GameSnapshotRecord → Option ℕ → Outcome GameEngineState × Option ℕ
  get_or_recover game_id rows stored =
      recover_from game_id rows stored (StateStore.get stringify parse stored)
