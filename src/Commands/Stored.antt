-- ===== src/Commands/Stored.antt =====
-- What commands store: src/game/commands/game-commands.service.ts.
use livepoly_server.Base.{
  ℕ, ◌≡◌, refl, Option, none, some, List, [], ◌∷◌, ◌++◌, map, All, any, Bool-cases, inl, inr, ◌==◌,
  if-holds,
}
use livepoly_server.Types.{GameEngineState, Result}
use livepoly_server.Ensures.{Ensures, returns, throws}
use livepoly_server.Outcomes.{
  Outcome, ServiceError, done, failed, bad_request, not_found, conflict, internal_server_error,
  forbidden, too_many_requests, engine_error, of_engine, Gives, gives, gives_none, after-Gives,
  Gives-done,
}
use livepoly_server.StateStore
use livepoly_server.StateStore.{update, Interference}
use livepoly_server.StateStore.Atomic.{update-Keeps}
use livepoly_server.Snapshots.{
  GameSnapshotRecord, GameSnapshotType, create, find_latest_by_game_id, later_of, is_later,
  recover_or_throw, restore_latest_snapshot, is_row_of, with_state,
}
use livepoly_server.Snapshots.Recovered.{kind_of, created_after_command}
use livepoly_server.Validity.{IsValid}
use livepoly_server.Commands.{
  ExecuteGameIntentCommand, GameCommandResult, apply_command, assert_intent_actor_matches_command,
}
use livepoly_server.Commands.Effects.{apply_command-IsValid}
use livepoly_server.Commands.Execute.{
  GameWorld, Surroundings, execute_once, execute_intent, recover_and_retry, after_update, checked,
}

of_engine-Gives {ℓ κ} :
    {A : Type ℓ} {P : A → Type κ} {r : Result A} → Ensures P r → Gives P (of_engine r)
of_engine-Gives (returns p) = gives p
of_engine-Gives throws = gives_none

map-Gives {ℓ κ μ} :
    {A : Type ℓ} {P : A → Type κ} {Q : A → Type μ} {o : Outcome A}
    → ((a : A) → P a → Q a)
    → Gives P o
    → Gives Q o
map-Gives h (gives p) = gives (h _ p)
map-Gives h gives_none = gives_none

abbrev pub RowIsValid : GameSnapshotRecord → Type 0
RowIsValid row = IsValid row.state

All-with_state :
    (game_id : ℕ) (kind : GameSnapshotType) (state : GameEngineState)
    (rows : List GameSnapshotRecord)
    → IsValid state
    → All RowIsValid rows
    → All RowIsValid (map (with_state game_id kind state) rows)
All-with_state game_id kind state [] v h = tt
All-with_state game_id kind state (row ∷ rows) v h = (
  if-holds RowIsValid (is_row_of game_id kind state.turn_number row) v h.0,
  All-with_state game_id kind state rows v h.1,
)

All-last {ℓ κ} :
    {A : Type ℓ} (P : A → Type κ) (xs : List A) {y : A} → All P xs → P y → All P (xs ++ y ∷ [])
All-last P [] h p = (p, tt)
All-last P (x ∷ xs) h p = (h.0, All-last P xs h.1 p)

create-RowsValid :
    (now game_id : ℕ) (kind : GameSnapshotType) (state : GameEngineState)
    (rows : List GameSnapshotRecord)
    → IsValid state
    → All RowIsValid rows
    → All RowIsValid (create now game_id kind state rows)
unfolding create
create-RowsValid now game_id kind state rows v h =
    if-holds (All RowIsValid) (any (is_row_of game_id kind state.turn_number) rows)
      (All-with_state game_id kind state rows v h) (All-last RowIsValid rows h v)

LatestIsValid : Option GameSnapshotRecord → Type 0
LatestIsValid none = Unit
LatestIsValid (some row) = RowIsValid row

later_of-LatestIsValid :
    (row : GameSnapshotRecord) (latest : Option GameSnapshotRecord)
    → RowIsValid row
    → LatestIsValid latest
    → RowIsValid (later_of row latest)
unfolding LatestIsValid
later_of-LatestIsValid row none v h = v
later_of-LatestIsValid row (some best) v h = if-holds RowIsValid (is_later best row) h v

find_latest-LatestIsValid :
    (game_id : ℕ) (rows : List GameSnapshotRecord)
    → All RowIsValid rows
    → LatestIsValid (find_latest_by_game_id game_id rows)
unfolding LatestIsValid find_latest_by_game_id
find_latest-LatestIsValid game_id [] h = tt
find_latest-LatestIsValid game_id (row ∷ rows) h =
    let rest = find_latest-LatestIsValid game_id rows h.1 in
    elim (Bool-cases (row.game_id == game_id)) [
      | inl t ↦ rw t (later_of-LatestIsValid row (find_latest_by_game_id game_id rows) h.0 rest)
      | inr t ↦ rw t rest
    ]

module _ (stringify : GameEngineState → ℕ) (parse : ℕ → Option GameEngineState) where
  -- Whatever the stored text is parsed to is a valid state.
  abbrev pub StoresValid : Option ℕ → Type 0
  StoresValid stored =
      (text : ℕ) (state : GameEngineState)
      → stored ≡ some text
      → parse text ≡ some state
      → IsValid state

  abbrev pub WorldIsValid : GameWorld → Type 0
  WorldIsValid world = StoresValid world.stored × All RowIsValid world.snapshots

  -- The writes of the other clients, too, store valid states.
  pub record KeepsValid (others : ℕ → Interference) : Type 0 where
    pub keeps_at_read :
        (attempt : ℕ) (value : Option ℕ)
        → StoresValid value
        → StoresValid ((others attempt).before_read value)
    pub keeps_at_write :
        (attempt : ℕ) (value : Option ℕ)
        → StoresValid value
        → StoresValid ((others attempt).before_write value)

  abbrev pub CommandIsValid : Outcome GameCommandResult × GameWorld → Type 0
  CommandIsValid run = Gives (λ result. IsValid result.state) run.0 × WorldIsValid run.1

  module _
      (serial : (state : GameEngineState)
        → IsValid state
        → StoresValid (some (stringify state))) where
    after_update-IsValid :
        (around : Surroundings) (game_id : ℕ) (world : GameWorld)
        (updated : Outcome GameCommandResult × Option ℕ)
        → All RowIsValid world.snapshots
        → Gives (λ result. IsValid result.state) updated.0 × StoresValid updated.1
        → CommandIsValid (after_update stringify parse around game_id world updated)
    after_update-IsValid around game_id world (failed error, stored) rows (v, s) =
        (gives_none, (s, rows))
    after_update-IsValid around game_id world (done result, stored) rows (v, s) =
        let valid : IsValid result.state = Gives-done v refl in
        (
          after-Gives _ _ λ _ _. gives valid,
          (
            s,
            if-holds (All RowIsValid) around.accepts_snapshot
                (rw
                  (created_after_command around.snapshot_time game_id result.state world.snapshots)
                  (create-RowsValid around.snapshot_time game_id (kind_of result.state) result.state
                    world.snapshots valid rows))
                rows,
          ),
        )

    execute_once-IsValid :
        (around : Surroundings) (command : ExecuteGameIntentCommand) (world : GameWorld)
        → KeepsValid around.others
        → WorldIsValid world
        → CommandIsValid (execute_once stringify parse around command world)
    unfolding execute_once
    execute_once-IsValid around command world keeps (s, rows) =
        after_update-IsValid around command.game_id world _ rows (
          update-Keeps (λ result. stringify result.state) parse (λ result. IsValid result.state)
            StoresValid
            (λ attempt state.
              of_engine
                (apply_command (around.platform attempt) (around.clock attempt) command state))
            around.others keeps.keeps_at_read keeps.keeps_at_write
            (λ attempt text state stored parsed.
              map-Gives (λ result valid. (valid, serial result.state valid))
                (of_engine-Gives (
                  apply_command-IsValid (around.platform attempt) (around.clock attempt) command
                    state (stored text state refl parsed))))
            5 world.stored s)

    recovered-IsValid :
        (again : Surroundings) (command : ExecuteGameIntentCommand) (world : GameWorld)
        (latest : Option GameSnapshotRecord)
        → KeepsValid again.others
        → find_latest_by_game_id command.game_id world.snapshots ≡ latest
        → LatestIsValid latest
        → WorldIsValid world
        → CommandIsValid (recover_and_retry stringify parse again command (failed not_found, world))
    unfolding LatestIsValid recover_and_retry recover_or_throw restore_latest_snapshot
        StateStore.set
    recovered-IsValid again command world none keeps e l w = rw e (gives_none, w)
    recovered-IsValid again command world (some row) keeps e l (s, rows) = rw e (
        execute_once-IsValid again command (record world { stored = some (stringify row.state) })
          keeps (serial row.state l, rows))

    retried-IsValid :
        (again : Surroundings) (command : ExecuteGameIntentCommand)
        (first : Outcome GameCommandResult × GameWorld)
        → KeepsValid again.others
        → CommandIsValid first
        → CommandIsValid (recover_and_retry stringify parse again command first)
    unfolding recover_and_retry
    retried-IsValid again command (failed ServiceError.not_found, world) keeps (v, w) =
        recovered-IsValid again command world _ keeps refl
          (find_latest-LatestIsValid command.game_id world.snapshots w.1) w
    retried-IsValid again command (failed bad_request, world) keeps c = c
    retried-IsValid again command (failed conflict, world) keeps c = c
    retried-IsValid again command (failed internal_server_error, world) keeps c = c
    retried-IsValid again command (failed forbidden, world) keeps c = c
    retried-IsValid again command (failed too_many_requests, world) keeps c = c
    retried-IsValid again command (failed (engine_error code), world) keeps c = c
    retried-IsValid again command (done result, world) keeps c = c

    -- Where a text that is written for a valid state, and every text that other clients write, is
    -- parsed to a valid state or to none, and the stored state and all snapshots are valid before: after
    -- a command, with its recovery and second run, whether it succeeds or fails, the stored state and
    -- all snapshots are valid, and so is the state that it returns.
    pub execute_intent-IsValid :
        (around again : Surroundings) (command : ExecuteGameIntentCommand) (world : GameWorld)
        → KeepsValid around.others
        → KeepsValid again.others
        → WorldIsValid world
        → CommandIsValid (execute_intent stringify parse around again command world)
    unfolding execute_intent
    execute_intent-IsValid around again command world keeps keeps_again w =
        if_checked (assert_intent_actor_matches_command command)
      where
        if_checked :
            (check : Outcome (Unit {0}))
            → CommandIsValid (
                checked stringify parse check world (
                  recover_and_retry stringify parse again command
                    (execute_once stringify parse around command world)))
        if_checked (failed error) = (gives_none, w)
        if_checked (done value) =
            retried-IsValid again command (execute_once stringify parse around command world)
              keeps_again (execute_once-IsValid around command world keeps w)
