-- ===== src/Scenarios/Services.antt =====
-- The services around the engine, of src/game/ and src/rooms/, run in the positions of a game.
use livepoly_server.Base.{
  ltb, Bool-cases, inl, inr, none_ne_some, if◌then◌else◌, ℕ, ◌+◌, ◌≡◌, ◌⊎◌, refl, sym, subst,
  some_eq, arith, true, false, Option, none, some, [], ◌∷◌,
}
use livepoly_server.Types.{GameEngineState, finished, ok}
use livepoly_server.Ensures.{Ensures}
use livepoly_server.Assertions.{is_game_terminal, assert_game_active}
use livepoly_server.Engine.{end_turn_intent}
use livepoly_server.Validity.{IsValid}
use livepoly_server.Outcomes.{Outcome, done, failed, after, bad_request}
use livepoly_server.StateStore.{update, compare_and_set, Interference}
use livepoly_server.StateStore.Atomic.{
  Linearized, update-Linearized, update_alone, update-alone, quiet,
}
use livepoly_server.Snapshots.{
  GameSnapshotType, GameSnapshotRecord, get_or_recover, create_snapshot_after_command,
}
use livepoly_server.Snapshots.Recovered.{get_or_recover-create_snapshot_after_command}
use livepoly_server.Results.Finalize.{ResultsDatabase}
use livepoly_server.Commands.{
  CommandClock, ExecuteGameIntentCommand, apply_command, apply_turn_deadline,
  get_intent_actor_room_player_id,
}
use livepoly_server.Commands.Player.{buy_property_command}
use livepoly_server.Commands.Execute.{
  GameWorld, Surroundings, execute_once, execute_intent, recover_and_retry,
}
use livepoly_server.Commands.Stored.{KeepsValid, CommandIsValid, execute_intent-IsValid}
use livepoly_server.Commands.Effects.{expired_command-Finishes}
use livepoly_server.Commands.Deadline.{IsDeadline, apply_turn_deadline-IsDeadline}
use livepoly_server.Commands.Recovery.{
  IsForeign, IsEntitled, execute_intent-Refused, execute_intent-Recovered,
}
use livepoly_server.MissedTurns.{get_consecutive_missed_turns}
use livepoly_server.Timers.{
  choose_timeout_intent, player_timeout, phase_timeout, should_forfeit_current_player,
}
use livepoly_server.Timers.Permitted.{Permitted, choose_timeout_intent-Permitted}
use livepoly_server.Stats.Repeated.{true_ne_false}
use livepoly_server.Scenarios.Positions.{platform, offered, offered-IsValid, bought}

abbrev add_one : ℕ → ℕ → Outcome ℕ
add_one attempt n = done (n + 1)

abbrev text_of : ℕ → ℕ
text_of n = n

abbrev number_of : ℕ → Option ℕ
number_of text = some text

-- Another client writes 7 during the first attempt.
abbrev busy : ℕ → Interference
busy attempt = elim attempt [
  | ℕ.zero ↦ record { before_read = λ value. value; before_write = λ value. value }
  | ℕ.suc left ↦ record { before_read = λ value. value; before_write = λ value. some 7 }
]

update-Linearized_example :
    Linearized text_of number_of add_one busy 2
      (some 3)
      (update text_of number_of 2 add_one busy (some 3))
update-Linearized_example = update-Linearized text_of number_of add_one busy 2 (some 3)

-- The second attempt adds to what the other client wrote.
busy-update : update text_of number_of 2 add_one busy (some 3) ≡ (done 8, some 8)
unfolding update compare_and_set after
busy-update = refl

update-alone_example :
    update text_of number_of 5 add_one quiet (some 3)
    ≡ update_alone text_of number_of (add_one 4) (some 3)
update-alone_example = update-alone text_of number_of 4 add_one (some 3)

-- Every state has the text 1, and every text is read as `offered`.
abbrev state_text : GameEngineState → ℕ
state_text state = 1

abbrev state_of : ℕ → Option GameEngineState
state_of text = some offered

abbrev clock : CommandClock
clock = record { at_intent = 50; at_check = 50; at_deadline = 51 }

abbrev database : ResultsDatabase
database = record { now = 60; has_game = true; transaction = λ input. done tt }

abbrev calm : Surroundings
calm = record {
  platform = λ attempt. platform;
  clock = λ attempt. clock;
  others = quiet;
  snapshot_time = 52;
  accepts_events = true;
  accepts_snapshot = false;
  results = database;
}

abbrev start_snapshot : GameSnapshotRecord
start_snapshot = record {
  game_id = 9;
  room_id = 1;
  snapshot_type = GameSnapshotType.start;
  turn_number = 4;
  state = offered;
  created_at = 2;
}

abbrev world_of : Option ℕ → GameWorld
world_of stored = record { stored = stored; snapshots = start_snapshot ∷ []; events = [] }

abbrev buys : ExecuteGameIntentCommand
buys = buy_property_command 9 1

-- A state is written as its turn number; texts from 1000 on are no states.
abbrev turn_text : GameEngineState → ℕ
turn_text state = state.turn_number

abbrev turn_state : ℕ → Option GameEngineState
turn_state text = if ltb text 1_000 then some (record offered { turn_number = text }) else none

turn_state-IsValid :
    (text : ℕ) (state : GameEngineState) → turn_state text ≡ some state → IsValid state
turn_state-IsValid text state e = elim (Bool-cases (ltb text 1_000)) [
  | inl t ↦ subst IsValid (some_eq (rw t at e)) offered-IsValid
  | inr t ↦ absurd (none_ne_some (rw t at e))
]

-- Another client writes before the first attempt of the command, and the snapshot is taken.
abbrev crowded : Surroundings
crowded = record calm { others = busy; accepts_snapshot = true }

crowded-KeepsValid : KeepsValid turn_text turn_state busy
crowded-KeepsValid = record {
  keeps_at_read = λ attempt value valid text state same e. turn_state-IsValid text state e;
  keeps_at_write = λ attempt value valid text state same e. turn_state-IsValid text state e;
}

execute_intent-IsValid_example :
    CommandIsValid turn_text turn_state
      (execute_intent turn_text turn_state crowded crowded buys (world_of (some 4)))
execute_intent-IsValid_example =
    execute_intent-IsValid turn_text turn_state
      (λ state v text other same e. turn_state-IsValid text other e) crowded crowded buys
      (world_of (some 4)) crowded-KeepsValid crowded-KeepsValid
      (λ text state same e. turn_state-IsValid text state e, (offered-IsValid, tt))

-- Player 2 sends a command of player 1.
abbrev stolen : ExecuteGameIntentCommand
stolen = record buys { room_player_id = some 2 }

execute_intent-Refused_example :
    (IsForeign stolen
      × (execute_intent state_text state_of calm calm stolen (world_of (some 0))
          ≡ (failed bad_request, world_of (some 0))))
    ⊎ (IsEntitled stolen
        × (execute_intent state_text state_of calm calm stolen (world_of (some 0))
            ≡ recover_and_retry state_text state_of calm stolen
                (execute_once state_text state_of calm stolen (world_of (some 0)))))
execute_intent-Refused_example =
    execute_intent-Refused state_text state_of calm calm stolen (world_of (some 0))

-- The game is lost after the snapshot of `bought`.
abbrev lost : GameWorld
lost = record {
  stored = none;
  snapshots = create_snapshot_after_command 52 9 bought (start_snapshot ∷ []);
  events = [];
}

execute_intent-Recovered_example :
    execute_intent turn_text turn_state calm calm buys lost
    ≡ execute_once turn_text turn_state calm buys (record lost { stored = some 4 })
unfolding get_intent_actor_room_player_id
execute_intent-Recovered_example =
    execute_intent-Recovered turn_text turn_state calm calm buys lost 52 52 bought
      (start_snapshot ∷ []) (inr refl) refl refl refl
      (record { this_one = λ g t. absurd (true_ne_false (sym t)); others = λ g t. refl }, tt)
      (λ e. refl)

get_or_recover-create_snapshot_after_command_example :
    get_or_recover state_text state_of 9
      (create_snapshot_after_command 52 9 bought (start_snapshot ∷ []))
      none
    ≡ (done bought, some 1)
get_or_recover-create_snapshot_after_command_example =
    get_or_recover-create_snapshot_after_command state_text state_of 52 52 9 bought
      (start_snapshot ∷ [])
      (record { this_one = λ g t. absurd (true_ne_false (sym t)); others = λ g t. refl }, tt)
      (λ e. refl)

-- The game of this position ends at 40.
abbrev expired : GameEngineState
expired = record offered { expires_at = some 40 }

expired_command-Finishes_example :
    Ensures (λ result. result.state.phase ≡ finished) (apply_command platform clock buys expired)
expired_command-Finishes_example = expired_command-Finishes platform clock buys expired refl refl

apply_turn_deadline-IsDeadline_example :
    ((is_game_terminal bought ≡ true)
      × ((apply_turn_deadline 50 51 offered bought).turn_expires_at ≡ none))
    ⊎ ((time : ℕ) × ((apply_turn_deadline 50 51 offered bought).turn_expires_at ≡ some time)
        × IsDeadline 50 51 offered bought time)
apply_turn_deadline-IsDeadline_example =
    apply_turn_deadline-IsDeadline 50 51 offered bought (omega arith)

choose_timeout_intent-Permitted_example :
    (assert_game_active bought ≡ ok tt) × Permitted bought (end_turn_intent 1)
unfolding choose_timeout_intent player_timeout phase_timeout should_forfeit_current_player
    get_consecutive_missed_turns
choose_timeout_intent-Permitted_example =
    choose_timeout_intent-Permitted bought 50 (2, 3) (end_turn_intent 1) (λ e. refl) refl
