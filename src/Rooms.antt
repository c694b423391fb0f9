-- ===== src/Rooms.antt =====
-- The start of a room's game: src/rooms/services/rooms-game.service.ts, with the queries of
-- src/rooms/repositories/rooms-game.repository.ts. What the database holds for the room is an
-- argument, and so are the ids that it gives to new rows. A room's id is given with its UTF-16 codes.
mod Bots
mod Lobby
pub mod Starts
pub mod Seats
pub use Bots.*
unfoldable pub use Bots.{build_bot_players, bots_from, get_bot_name_offset}
pub use Lobby.*
unfoldable pub use Lobby.{free_seat_from, find_first_free_seat, join_room, is_expired_waiting_room}
use livepoly_server.Base.{
  ℕ, suc, ◌+◌, ◌*◌, Bool, true, false, Option, none, some, List, [], ◌∷◌, ◌++◌, map, filter, length,
  all, not, ◌&&◌, leb, ◌==◌, min, sort_by, if◌then◌else◌,
}
use livepoly_server.Types.{
  GameEngineState, GameEnginePlayer, GameBoardKey, GameMode, BotDifficulty, PlayerType,
  awaiting_first_turn, is_human,
}
use livepoly_server.Assertions.{is_set}
use livepoly_server.Properties.{create_initial_property_state}
use livepoly_server.Cards.Shuffle.{create_initial_deck_state}
use livepoly_server.Timers.{timeout_ms}
use livepoly_server.Outcomes.{
  Outcome, done, failed, after, fail_if, or_fail, not_found, conflict, forbidden,
  internal_server_error,
}

abbrev room_min_ranked_humans : ℕ
room_min_ranked_humans = 3

abbrev ranked_room_duration_minutes : ℕ
ranked_room_duration_minutes = 60

abbrev pub starting_cash : ℕ
starting_cash = 1500

-- A player of a new game.
abbrev pub game_player : JoinedRoomPlayer → GameEnginePlayer
game_player player = record {
  room_player_id = player.id;
  user_id = player.user_id;
  username = player.username;
  player_type = player.player_type;
  bot_difficulty = player.bot_difficulty;
  bot_name = player.bot_name;
  seat_number = player.seat_number;
  cash = starting_cash;
  position = 0;
  in_jail = false;
  jail_turn_count = 0;
  get_out_of_jail_free_cards = 0;
  get_out_of_jail_free_card_keys = [];
  consecutive_missed_turns = some 0;
  last_missed_turn_number = none;
  last_bot_trade_proposal_turn_number = none;
  bankrupt = false;
}

-- `input.players[0].id` throws when there is no player.
unfoldable pub create_initial_game_state :
    Room → ℕ → ℕ → GameMode → List JoinedRoomPlayer → Outcome GameEngineState
create_initial_game_state room started_at duration_minutes mode [] = failed internal_server_error
create_initial_game_state room started_at duration_minutes mode (first ∷ rest) =
    let expires_at = started_at + duration_minutes * 60 * 1000 in
    done (record {
      room_id = room.id;
      room_code = room.code;
      board_key = GameBoardKey.classic;
      mode = mode;
      started_at = some started_at;
      duration_minutes = some duration_minutes;
      expires_at = some expires_at;
      turn_expires_at = some (min (started_at + timeout_ms) expires_at);
      phase = awaiting_first_turn;
      turn_number = 1;
      current_turn_room_player_id = first.id;
      consecutive_doubles_count = 0;
      should_current_player_play_again = false;
      last_dice_roll = none;
      pending_tile_key = none;
      auction = none;
      trade_offer = none;
      debt = none;
      decks = create_initial_deck_state (some room.id_codes);
      players = map game_player (first ∷ rest);
      properties = create_initial_property_state GameBoardKey.classic;
    })

-- Ranked with humans only, and at least three of them.
unfoldable pub game_mode_of : List JoinedRoomPlayer → GameMode
game_mode_of joined =
    if all (λ player. is_human player.player_type) joined
      && leb room_min_ranked_humans (length (filter (λ player. is_human player.player_type) joined))
    then GameMode.ranked
    else GameMode.casual

abbrev duration_of : GameMode → Room → ℕ
duration_of GameMode.ranked room = ranked_room_duration_minutes
duration_of GameMode.casual room = room.duration_minutes

abbrev or_normal : Option BotDifficulty → BotDifficulty
or_normal none = BotDifficulty.normal
or_normal (some difficulty) = difficulty

abbrev bots_of : GameMode → Room → List JoinedRoomPlayer → BotDifficulty → List BotPlayerInput
bots_of GameMode.ranked room joined difficulty = []
bots_of GameMode.casual room joined difficulty = build_bot_players room.id_codes joined difficulty

abbrev pub joined_seat_le : JoinedRoomPlayer → JoinedRoomPlayer → Bool
joined_seat_le left right = leb left.seat_number right.seat_number

abbrev pub all_players :
    (ℕ → ℕ) → Room → List JoinedRoomPlayer → BotDifficulty → GameMode → List JoinedRoomPlayer
all_players fresh_id room joined difficulty mode =
    sort_by joined_seat_le
      (joined ++ map (added_bot fresh_id) (bots_of mode room joined difficulty))

pub record StartedGame : Type 0 where
  pub mode : GameMode
  pub players : List JoinedRoomPlayer
  pub initial_state : GameEngineState

-- The transaction of `startRoom`, up to its writes: `fresh_id` gives the id of the bot at a seat.
unfoldable pub start_room :
    (ℕ → ℕ)
    → ℕ
    → ℕ
    → Option BotDifficulty
    → Option Room
    → List JoinedRoomPlayer
    → Outcome StartedGame
start_room fresh_id now user_id difficulty found joined = after (or_fail found not_found) λ room.
    after (fail_if (not (status_is room.status waiting)) conflict) λ _.
      after (fail_if (not (room.host_user_id == user_id)) forbidden) λ _.
        after (fail_if (not (has_joined user_id joined)) not_found) λ _.
          after (fail_if (length joined == 0) conflict) λ _.
            let mode = game_mode_of joined in
            let players = all_players fresh_id room joined (or_normal difficulty) mode in
            after (create_initial_game_state room now (duration_of mode room) mode players)
              λ state. done (record { mode = mode; players = players; initial_state = state })
