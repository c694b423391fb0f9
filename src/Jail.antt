-- ===== src/Jail.antt =====
-- Jail: src/game/engine/game-engine-jail.ts.
pub mod Send
use livepoly_server.Base.{
  ℕ, ◌+◌, ◌-◌, Bool, true, false, Option, none, some, List, [], ◌∷◌, ◌++◌, not, leb, ◌==◌,
  if◌then◌else◌,
}
use livepoly_server.Types.{
  GameEngineState, GameEnginePlayer, GameEngineDebtReason, GameEngineResult, GameEngineEvent,
  awaiting_turn_end, Result, ok, ◌>>=◌, ◌>>◌, throw_if, player_not_in_jail,
  get_out_of_jail_card_required,
}
use livepoly_server.Store.{find_player, update_player}
use livepoly_server.Dice.{is_doubles}
use livepoly_server.Money.{PaymentResult, debit_player, debit_player_or_create_debt}
use livepoly_server.Debt.{release_player_from_jail}
use livepoly_server.Cards.Decks.{return_get_out_of_jail_card_to_deck}

abbrev pub jail_fine_amount : ℕ
jail_fine_amount = 50

abbrev pub max_jail_turn_count : ℕ
max_jail_turn_count = 3

-- `{ ...player, jailTurnCount }`
abbrev pub with_jail_turn_count : ℕ → GameEnginePlayer → GameEnginePlayer
with_jail_turn_count n player = record player { jail_turn_count = n }

-- `{ ...state, consecutiveDoublesCount: 0, shouldCurrentPlayerPlayAgain: false }`
abbrev pub without_doubles : GameEngineState → GameEngineState
without_doubles state = record state {
  consecutive_doubles_count = 0;
  should_current_player_play_again = false;
}

-- The end of a roll by a released player: the move's result, and the events before it.
unfoldable pub after_release : List GameEngineEvent → GameEngineResult → Result GameEngineResult
after_release events moved =
    ok (record { state = without_doubles moved.state; events = events ++ moved.events })

-- The third failed roll: the fine is paid and the player moves, or it is owed.
unfoldable pub force_jail_fine :
    GameEngineState
    → ℕ
    → ℕ × ℕ
    → ℕ
    → (GameEngineState → Result GameEngineResult)
    → Result GameEngineResult
force_jail_fine state room_player_id dice jail_turn_count move_released_player =
    debit_player_or_create_debt state room_player_id jail_fine_amount GameEngineDebtReason.jail_fine
      none
    >>= λ payment_result.
        (let counted =
            update_player payment_result.state room_player_id
              (with_jail_turn_count jail_turn_count) in
          let failed =
            GameEngineEvent.jail_escape_roll_failed room_player_id dice jail_turn_count in
          elim payment_result.paid [
            | false ↦ ok (record {
              state = record counted { last_dice_roll = some dice };
              events = failed ∷ payment_result.events;
            })
            | true ↦
                move_released_player (release_player_from_jail counted room_player_id)
                >>= after_release (
                    failed
                    ∷ GameEngineEvent.jail_forced_fine_paid room_player_id jail_fine_amount
                    ∷ GameEngineEvent.player_released_from_jail room_player_id
                    ∷ [])
          ])

-- `resolveJailedRoll`, for a player in jail.
unfoldable pub roll_in_jail :
    GameEngineState
    → ℕ
    → GameEnginePlayer
    → ℕ × ℕ
    → (GameEngineState → Result GameEngineResult)
    → Result GameEngineResult
roll_in_jail state room_player_id player dice move_released_player =
    let jail_turn_count = player.jail_turn_count + 1 in
    elim (is_doubles dice) [
      | true ↦
          move_released_player (without_doubles (release_player_from_jail state room_player_id))
          >>= after_release (
              GameEngineEvent.jail_escape_roll_succeeded room_player_id dice
              ∷ GameEngineEvent.player_released_from_jail room_player_id
              ∷ [])
      | false ↦ elim (leb max_jail_turn_count jail_turn_count) [
        | true ↦ force_jail_fine state room_player_id dice jail_turn_count move_released_player
        | false ↦ ok (record {
          state =
              update_player
                (record state {
                  phase = awaiting_turn_end;
                  last_dice_roll = some dice;
                  consecutive_doubles_count = 0;
                  should_current_player_play_again = false;
                })
                room_player_id (with_jail_turn_count jail_turn_count);
          events = GameEngineEvent.jail_escape_roll_failed room_player_id dice jail_turn_count ∷ [];
        })
      ]
    ]

-- `none` is `null`: the player is not in jail.
unfoldable pub resolve_jailed_roll :
    GameEngineState
    → ℕ
    → ℕ × ℕ
    → (GameEngineState → Result GameEngineResult)
    → Result (Option GameEngineResult)
unfolding find_player
resolve_jailed_roll state room_player_id dice move_released_player = do
  player ← find_player state room_player_id
  elim player.in_jail [
    | false ↦ ok none
    | true ↦ roll_in_jail state room_player_id player dice move_released_player >>= λ result.
        ok (some result)
  ]

unfoldable pub pay_jail_fine : GameEngineState → ℕ → Result GameEngineResult
unfolding find_player
pay_jail_fine state room_player_id = do
  player ← find_player state room_player_id
  throw_if (not player.in_jail) player_not_in_jail
  debited_state ← debit_player state room_player_id jail_fine_amount
  ok (record {
    state = release_player_from_jail debited_state room_player_id;
    events =
        GameEngineEvent.jail_fine_paid room_player_id jail_fine_amount
        ∷ GameEngineEvent.player_released_from_jail room_player_id
        ∷ [];
  })

-- `const [cardKey, ...remainingCardKeys] = keys`
abbrev pub first_key : List ℕ → Option ℕ
first_key [] = none
first_key (key ∷ keys) = some key

abbrev pub remaining_keys : List ℕ → List ℕ
remaining_keys [] = []
remaining_keys (key ∷ keys) = keys

abbrev pub without_jail_card : List ℕ → GameEnginePlayer → GameEnginePlayer
without_jail_card keys player = record player {
  get_out_of_jail_free_cards = player.get_out_of_jail_free_cards - 1;
  get_out_of_jail_free_card_keys = keys;
}

unfoldable pub use_get_out_of_jail_card : GameEngineState → ℕ → Result GameEngineResult
unfolding find_player
use_get_out_of_jail_card state room_player_id = do
  player ← find_player state room_player_id
  throw_if (not player.in_jail) player_not_in_jail
  throw_if (leb player.get_out_of_jail_free_cards 0) get_out_of_jail_card_required
  let keys = player.get_out_of_jail_free_card_keys
  returned_state ← return_get_out_of_jail_card_to_deck state (first_key keys)
  ok (record {
    state =
        release_player_from_jail
          (update_player returned_state room_player_id (without_jail_card (remaining_keys keys)))
          room_player_id;
    events =
        GameEngineEvent.get_out_of_jail_card_used room_player_id
        ∷ GameEngineEvent.player_released_from_jail room_player_id
        ∷ [];
  })
