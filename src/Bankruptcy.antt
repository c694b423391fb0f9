-- ===== src/Bankruptcy.antt =====
-- Bankruptcy: src/game/engine/game-engine-bankruptcy.ts.
use livepoly_server.Base.{
  ℕ, zero, suc, ◌+◌, Bool, true, false, Option, none, some, List, [], ◌∷◌, map, not, ◌||◌, leb, ltb,
  ◌==◌, any, find, length, if◌then◌else◌,
}
use livepoly_server.Types.{
  GameEngineState, GameEnginePlayer, GameEngineProperty, GameEngineDebt, GameEngineResult,
  GameEngineEvent, PlayerNetWorth, is_human, awaiting_roll, Result, ok, ◌>>=◌, ◌>>◌, throw_if,
  or_throw, player_already_bankrupt, invalid_bankruptcy_creditor, plain_error,
}
use livepoly_server.Store.{find_player, update_player, is_owned_by}
use livepoly_server.Assertions.{assert_game_active}
use livepoly_server.Mortgage.{owes}
use livepoly_server.Turns.{get_active_players}
use livepoly_server.Derived.{calculate_net_worth_standings, get_net_worth_winners}
use livepoly_server.Finish.{closed, room_player_ids}
use livepoly_server.Cards.Tables.{chance_get_out_of_jail_free}
use livepoly_server.Cards.Decks.{return_get_out_of_jail_card_to_deck}

unfoldable pub assert_valid_creditor : GameEngineState → ℕ → ℕ → Result (Unit {0})
unfolding find_player
assert_valid_creditor state room_player_id creditor_room_player_id = do
  creditor ← find_player state creditor_room_player_id
  throw_if creditor.bankrupt invalid_bankruptcy_creditor
  throw_if (creditor.room_player_id == room_player_id) invalid_bankruptcy_creditor

-- `input.creditorRoomPlayerId ?? (the creditor of the own debt)`
abbrev creditor_of_own_debt : Option GameEngineDebt → ℕ → Option ℕ
creditor_of_own_debt none room_player_id = none
creditor_of_own_debt (some debt) room_player_id =
    if debt.room_player_id == room_player_id then debt.creditor_room_player_id else none

abbrev pub creditor_for : GameEngineState → ℕ → Option ℕ → Option ℕ
creditor_for state room_player_id none = creditor_of_own_debt state.debt room_player_id
creditor_for state room_player_id (some creditor_room_player_id) = some creditor_room_player_id

-- The check of the creditor, if there is one.
abbrev pub check_creditor : GameEngineState → ℕ → Option ℕ → Result (Unit {0})
check_creditor state room_player_id none = ok tt
check_creditor state room_player_id (some creditor_room_player_id) =
    assert_valid_creditor state room_player_id creditor_room_player_id

abbrev pub copies : ℕ → ℕ → List ℕ
copies zero key = []
copies (suc n) key = key ∷ copies n key

-- The jail cards to give back: an old state has only their number.
abbrev pub held_card_keys : GameEnginePlayer → List ℕ
held_card_keys player = elim player.get_out_of_jail_free_card_keys [
  | [] ↦ copies player.get_out_of_jail_free_cards chance_get_out_of_jail_free
  | key ∷ keys ↦ key ∷ keys
]

unfoldable pub return_cards : GameEngineState → List ℕ → Result GameEngineState
return_cards state [] = ok state
return_cards state (card_key ∷ card_keys) =
    return_get_out_of_jail_card_to_deck state (some card_key) >>= λ next_state.
    return_cards next_state card_keys

abbrev pub bankrupted : GameEnginePlayer → GameEnginePlayer
bankrupted player = record player {
  cash = 0;
  in_jail = false;
  jail_turn_count = 0;
  get_out_of_jail_free_cards = 0;
  get_out_of_jail_free_card_keys = [];
  bankrupt = true;
}

abbrev pub liquidate_property : ℕ → Option ℕ → GameEngineProperty → GameEngineProperty
liquidate_property room_player_id creditor_room_player_id property =
    if is_owned_by property room_player_id
    then record property {
      owner_room_player_id = creditor_room_player_id;
      house_count = 0;
      has_hotel = false;
      mortgaged = false;
    }
    else property

-- The state without the player's assets and his own debt.
abbrev pub liquidated : GameEngineState → ℕ → Option ℕ → GameEngineState
liquidated state room_player_id creditor_room_player_id =
    update_player
      (record state {
        properties =
            map (liquidate_property room_player_id creditor_room_player_id) state.properties;
        debt = if owes state.debt room_player_id then none else state.debt;
      })
      room_player_id bankrupted

unfoldable pub liquidate_player_assets : GameEngineState → ℕ → Option ℕ → Result GameEngineState
unfolding find_player
liquidate_player_assets state room_player_id creditor_room_player_id = do
  bankrupt_player ← find_player state room_player_id
  returned_state ← return_cards state (held_card_keys bankrupt_player)
  ok (liquidated returned_state room_player_id creditor_room_player_id)

abbrev pub first_player : List GameEnginePlayer → Option GameEnginePlayer
first_player [] = none
first_player (player ∷ players) = some player

unfoldable pub find_next_active_player_after_bankruptcy :
    GameEngineState → GameEnginePlayer → Result GameEnginePlayer
find_next_active_player_after_bankruptcy state bankrupt_player =
    let active_players = get_active_players state in
    elim (find (λ player. ltb bankrupt_player.seat_number player.seat_number) active_players) [
      | some player ↦ ok player
      | none ↦ or_throw (first_player active_players) plain_error
    ]

abbrev sole_winner : List PlayerNetWorth → Option ℕ
sole_winner (winner ∷ []) = some winner.room_player_id
sole_winner _ = none

abbrev current_after : List GameEnginePlayer → ℕ → ℕ
current_after [] current = current
current_after (player ∷ players) current = player.room_player_id

-- The game is over.
unfoldable pub finish_by_bankruptcy : GameEngineState → ℕ → Option ℕ → Result GameEngineResult
finish_by_bankruptcy state room_player_id creditor_room_player_id = do
  standings ← calculate_net_worth_standings state
  let winners = get_net_worth_winners standings
  ok (record {
    state = record (closed state) {
      current_turn_room_player_id =
          current_after (get_active_players state) state.current_turn_room_player_id;
    };
    events =
        GameEngineEvent.player_bankrupt room_player_id creditor_room_player_id
        ∷ GameEngineEvent.game_finished_by_bankruptcy (sole_winner winners)
            (room_player_ids winners) standings
        ∷ [];
  })

-- The turn passes on.
unfoldable pub pass_turn_after_bankruptcy :
    GameEngineState → GameEnginePlayer → ℕ → Option ℕ → Result GameEngineResult
unfolding find_next_active_player_after_bankruptcy
pass_turn_after_bankruptcy state bankrupt_player room_player_id creditor_room_player_id =
    find_next_active_player_after_bankruptcy state bankrupt_player >>= λ next_player. ok (record {
      state = record state {
        phase = awaiting_roll;
        current_turn_room_player_id = next_player.room_player_id;
        turn_number = state.turn_number + 1;
        should_current_player_play_again = false;
        consecutive_doubles_count = 0;
        last_dice_roll = none;
        auction = none;
        pending_tile_key = none;
      };
      events =
          GameEngineEvent.player_bankrupt room_player_id creditor_room_player_id
          ∷ GameEngineEvent.turn_ended room_player_id next_player.room_player_id
              (state.turn_number + 1)
          ∷ [];
    })

-- `activePlayers.length <= 1 || hasNoActiveHumanPlayers(activePlayers)`
abbrev pub ends_game : List GameEnginePlayer → Bool
ends_game active_players =
    leb (length active_players) 1
    || not (any (λ player. is_human player.player_type) active_players)

unfoldable pub declare_bankruptcy : GameEngineState → ℕ → Option ℕ → Result GameEngineResult
unfolding find_player
declare_bankruptcy state room_player_id given_creditor = do
  assert_game_active state
  bankrupt_player ← find_player state room_player_id
  throw_if bankrupt_player.bankrupt player_already_bankrupt
  let creditor = creditor_for state room_player_id given_creditor
  check_creditor state room_player_id creditor
  liquidated_state ← liquidate_player_assets state room_player_id creditor
  if ends_game (get_active_players liquidated_state)
      then finish_by_bankruptcy liquidated_state room_player_id creditor
      else (if not (state.current_turn_room_player_id == room_player_id)
          then ok (record {
            state = liquidated_state;
            events = GameEngineEvent.player_bankrupt room_player_id creditor ∷ [];
          })
          else pass_turn_after_bankruptcy liquidated_state bankrupt_player room_player_id creditor)
