-- ===== src/Rooms/Bots.antt =====
-- The bots of a room: `buildBotPlayers` and `getBotNameOffset` of
-- src/rooms/services/rooms-game.service.ts, and the rows of src/rooms/repositories/.
use livepoly_server.Base.{
  ℕ, zero, suc, ◌+◌, ◌*◌, ◌%◌, ◌^◌, Bool, Option, none, some, List, [], ◌∷◌, map, filter, length,
  includes, any, get_elem?, not, ◌==◌, is_key, if◌then◌else◌,
}
use livepoly_server.Types.{BotDifficulty, PlayerType}

pub data RoomStatus : Type 0 where
  waiting active finished cancelled : RoomStatus

abbrev room_status_code : RoomStatus → ℕ
room_status_code waiting = 0
room_status_code active = 1
room_status_code finished = 2
room_status_code cancelled = 3

abbrev pub status_is : RoomStatus → RoomStatus → Bool
status_is a b = room_status_code a == room_status_code b

pub record Room : Type 0 where
  pub id : ℕ
  pub id_codes : List ℕ
  pub code : ℕ
  pub host_user_id : ℕ
  pub status : RoomStatus
  pub max_players : ℕ
  pub duration_minutes : ℕ
  pub created_at : ℕ

-- A player whose status is `joined`.
pub record JoinedRoomPlayer : Type 0 where
  pub id : ℕ
  pub user_id : Option ℕ
  pub username : Option ℕ
  pub player_type : PlayerType
  pub bot_difficulty : Option BotDifficulty
  pub bot_name : Option ℕ
  pub seat_number : ℕ

-- `findJoinedPlayer` finds a player.
abbrev pub has_joined : ℕ → List JoinedRoomPlayer → Bool
has_joined user_id joined = any (λ player. is_key player.user_id user_id) joined

abbrev pub room_max_players : ℕ
room_max_players = 4

-- Atlas, Nova, Midas, Echo, Rook, Pixel
abbrev bot_names : List ℕ
bot_names = 1 ∷ 2 ∷ 3 ∷ 4 ∷ 5 ∷ 6 ∷ []

-- A name that is read past the names is undefined.
pub record BotPlayerInput : Type 0 where
  pub seat_number : ℕ
  pub bot_name : Option ℕ
  pub bot_difficulty : BotDifficulty

unfoldable pub hash_codes : ℕ → List ℕ → ℕ
hash_codes value [] = value
hash_codes value (char_code ∷ codes) = hash_codes ((value * 31 % 2 ^ 32 + char_code) % 2 ^ 32) codes

unfoldable pub get_bot_name_offset : List ℕ → ℕ → ℕ
unfolding hash_codes
get_bot_name_offset room_id_codes name_count = hash_codes 0 room_id_codes % name_count

abbrev assigned_bot_names : List JoinedRoomPlayer → List ℕ
assigned_bot_names [] = []
assigned_bot_names (player ∷ players) = elim player.bot_name [
  | none ↦ assigned_bot_names players
  | some name ↦ name ∷ assigned_bot_names players
]

abbrev pub available_bot_names : List JoinedRoomPlayer → List ℕ
available_bot_names joined =
    filter (λ name. not (includes (assigned_bot_names joined) name)) bot_names

abbrev pub seats_of : List JoinedRoomPlayer → List ℕ
seats_of joined = map (λ player. player.seat_number) joined

abbrev bot_at : List ℕ → ℕ → BotDifficulty → ℕ → ℕ → BotPlayerInput
bot_at names offset difficulty seat_number count = record {
  seat_number = seat_number;
  bot_name = get_elem? names ((offset + count) % length names);
  bot_difficulty = difficulty;
}

-- The loop over the seats: `seats` are left, from `seat_number`, and `count` bots were made.
unfoldable pub bots_from : List ℕ → List ℕ → ℕ → BotDifficulty → ℕ → ℕ → ℕ → List BotPlayerInput
bots_from occupied names offset difficulty zero seat_number count = []
bots_from occupied names offset difficulty (suc seats) seat_number count =
    let skipped = bots_from occupied names offset difficulty seats (suc seat_number) count in
    let rest = bots_from occupied names offset difficulty seats (suc seat_number) (suc count) in
    if includes occupied seat_number
    then skipped
    else bot_at names offset difficulty seat_number count ∷ rest

unfoldable pub build_bot_players :
    List ℕ → List JoinedRoomPlayer → BotDifficulty → List BotPlayerInput
unfolding bots_from get_bot_name_offset
build_bot_players room_id_codes joined difficulty =
    let names = available_bot_names joined in
    bots_from (seats_of joined) names (get_bot_name_offset room_id_codes (length names)) difficulty
      room_max_players 1 0

-- The row that `addBotPlayer` inserts.
abbrev pub added_bot : (ℕ → ℕ) → BotPlayerInput → JoinedRoomPlayer
added_bot fresh_id input = record {
  id = fresh_id input.seat_number;
  user_id = none;
  username = none;
  player_type = PlayerType.bot;
  bot_difficulty = some input.bot_difficulty;
  bot_name = input.bot_name;
  seat_number = input.seat_number;
}
