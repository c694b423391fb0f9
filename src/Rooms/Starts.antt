-- ===== src/Rooms/Starts.antt =====
-- The players of a new game: `startRoom` of src/rooms/services/rooms-game.service.ts.
use livepoly_server.Base.{
  ℕ, zero, suc, ◌<◌, ◌≡◌, ◌≢◌, refl, sym, ◌∙◌, true, false, Option, none, List, [], ◌∷◌, ◌++◌, map,
  includes, ◌==◌, arith, All, length, Distinct, find_by, Lacks, Lacks-none, Lacks-of,
  Distinct-sort_by, Distinct-append, Bool-cases, inl, inr, ==→eq,
}
use livepoly_server.Types.{BotDifficulty, GameMode, GameBoardKey}
use livepoly_server.Store.{player_key}
use livepoly_server.Outcomes.{Gives, gives, gives_none, Gives-done, after-Gives}
use livepoly_server.Validity.{IsValid, IsOnBoard}
use livepoly_server.Validity.Start.{initial-PropertiesValid}
use livepoly_server.Rooms.{
  Room, JoinedRoomPlayer, BotPlayerInput, start_room, create_initial_game_state, game_player,
  all_players, joined_seat_le, bots_of, room_max_players, seats_of, available_bot_names,
  get_bot_name_offset, build_bot_players, bots_from, added_bot, or_normal, game_mode_of,
  duration_of,
}

true_ne_false : true ≢ false
true_ne_false e = cc

==-same : (a b : ℕ) → a ≡ b → (a == b) ≡ true
==-same a b e = ground arith

unfoldable seat_key : BotPlayerInput → ℕ
seat_key input = input.seat_number

-- The bots of the loop have seats from the first one on.
bots_from-Lacks :
    (occupied names : List ℕ) (offset : ℕ) (difficulty : BotDifficulty) (seats first count k : ℕ)
    → k < first
    → Lacks seat_key k (bots_from occupied names offset difficulty seats first count)
unfolding bots_from seat_key
bots_from-Lacks occupied names offset difficulty zero first count k h = tt
bots_from-Lacks occupied names offset difficulty (suc seats) first count k h =
    elim (Bool-cases (includes occupied first)) [
      | inl t ↦
          rw t (
            bots_from-Lacks occupied names offset difficulty seats (suc first) count k
              (omega arith))
      | inr t ↦ rw t (
        above first k h,
        bots_from-Lacks occupied names offset difficulty seats (suc first) (suc count) k
            (omega arith),
      )
    ]
  where
    above : (a b : ℕ) → b < a → (a == b) ≡ false
    above a b lt = ground arith

bots_from-Distinct :
    (occupied names : List ℕ) (offset : ℕ) (difficulty : BotDifficulty) (seats first count : ℕ)
    → Distinct seat_key (bots_from occupied names offset difficulty seats first count)
unfolding bots_from seat_key
bots_from-Distinct occupied names offset difficulty zero first count = tt
bots_from-Distinct occupied names offset difficulty (suc seats) first count =
    elim (Bool-cases (includes occupied first)) [
      | inl t ↦ rw t (bots_from-Distinct occupied names offset difficulty seats (suc first) count)
      | inr t ↦ rw t (
        Lacks-none seat_key first _ (
            bots_from-Lacks occupied names offset difficulty seats (suc first) (suc count) first
              (omega arith)),
        bots_from-Distinct occupied names offset difficulty seats (suc first) (suc count),
      )
    ]

abbrev pub joined_key : JoinedRoomPlayer → ℕ
joined_key player = player.id

module _ (fresh_id : ℕ → ℕ) (injective : (s t : ℕ) → fresh_id s ≡ fresh_id t → s ≡ t) where
  added-Lacks :
      (seat : ℕ) (bots : List BotPlayerInput)
      → Lacks seat_key seat bots
      → Lacks joined_key (fresh_id seat) (map (added_bot fresh_id) bots)
  unfolding seat_key
  added-Lacks seat [] a = tt
  added-Lacks seat (bot ∷ bots) a = (other bot.seat_number a.0, added-Lacks seat bots a.1)
    where
      other : (s : ℕ) → (s == seat) ≡ false → (fresh_id s == fresh_id seat) ≡ false
      other s differ = elim (Bool-cases (fresh_id s == fresh_id seat)) [
        | inl t ↦
            let same : s ≡ seat = injective s seat (==→eq (fresh_id s) (fresh_id seat) t) in
            absurd (true_ne_false (sym (==-same s seat same) ∙ differ))
        | inr t ↦ t
      ]

  added-Distinct :
      (bots : List BotPlayerInput)
      → Distinct seat_key bots
      → Distinct joined_key (map (added_bot fresh_id) bots)
  unfolding seat_key
  added-Distinct [] d = tt
  added-Distinct (bot ∷ bots) d = (
    Lacks-none joined_key (fresh_id bot.seat_number) (map (added_bot fresh_id) bots)
        (added-Lacks bot.seat_number bots (Lacks-of seat_key bot.seat_number bots d.0)),
    added-Distinct bots d.1,
  )

-- A bot's id is fresh: new rows have different ids, and no joined player has one of them.
pub record IsFresh (fresh_id : ℕ → ℕ) (joined : List JoinedRoomPlayer) : Type 0 where
  pub injective : (s t : ℕ) → fresh_id s ≡ fresh_id t → s ≡ t
  pub unused : All (λ player. (s : ℕ) → (fresh_id s == player.id) ≡ false) joined

bots-Distinct :
    (mode : GameMode) (room : Room) (joined : List JoinedRoomPlayer) (difficulty : BotDifficulty)
    → Distinct seat_key (bots_of mode room joined difficulty)
unfolding build_bot_players
bots-Distinct GameMode.ranked room joined difficulty = tt
bots-Distinct GameMode.casual room joined difficulty =
    bots_from-Distinct (seats_of joined) (available_bot_names joined)
      (get_bot_name_offset room.id_codes (length (available_bot_names joined))) difficulty
      room_max_players 1 0

fresh-Lacks :
    (fresh_id : ℕ → ℕ) (bots : List BotPlayerInput) (id : ℕ)
    → ((s : ℕ) → (fresh_id s == id) ≡ false)
    → Lacks joined_key id (map (added_bot fresh_id) bots)
fresh-Lacks fresh_id [] id h = tt
fresh-Lacks fresh_id (bot ∷ bots) id h = (h bot.seat_number, fresh-Lacks fresh_id bots id h)

bots-Lacks :
    (fresh_id : ℕ → ℕ) (bots : List BotPlayerInput) (joined : List JoinedRoomPlayer)
    → All (λ player. (s : ℕ) → (fresh_id s == player.id) ≡ false) joined
    → All (λ player. Lacks joined_key player.id (map (added_bot fresh_id) bots)) joined
bots-Lacks fresh_id bots [] h = tt
bots-Lacks fresh_id bots (player ∷ joined) h =
    (fresh-Lacks fresh_id bots player.id h.0, bots-Lacks fresh_id bots joined h.1)

players-Distinct :
    (fresh_id : ℕ → ℕ) (room : Room) (joined : List JoinedRoomPlayer) (difficulty : BotDifficulty)
    (mode : GameMode)
    → Distinct joined_key joined
    → IsFresh fresh_id joined
    → Distinct joined_key (all_players fresh_id room joined difficulty mode)
players-Distinct fresh_id room joined difficulty mode d fresh =
    Distinct-sort_by joined_key joined_seat_le
      (joined ++ map (added_bot fresh_id) (bots_of mode room joined difficulty))
      (Distinct-append joined_key joined
        (map (added_bot fresh_id) (bots_of mode room joined difficulty)) d
        (added-Distinct fresh_id fresh.injective (bots_of mode room joined difficulty)
          (bots-Distinct mode room joined difficulty))
        (bots-Lacks fresh_id (bots_of mode room joined difficulty) joined fresh.unused))

-- The players of a game have the ids of the players of the room, and stand on the first tile.
game_players-Distinct :
    (players : List JoinedRoomPlayer)
    → Distinct joined_key players
    → Distinct player_key (map game_player players)
game_players-Distinct [] d = tt
game_players-Distinct (p ∷ ps) d =
    (lacks ps (Lacks-of joined_key p.id ps d.0), game_players-Distinct ps d.1)
  where
    lacks :
        (players : List JoinedRoomPlayer)
        → Lacks joined_key p.id players
        → find_by player_key p.id (map game_player players) ≡ none
    lacks [] a = refl
    lacks (q ∷ qs) a = rw (a.0) (lacks qs a.1)

on_board : (players : List JoinedRoomPlayer) → All IsOnBoard (map game_player players)
on_board [] = tt
on_board (p ∷ ps) = (omega arith, on_board ps)

create_initial_game_state-IsValid :
    (room : Room) (started_at minutes : ℕ) (mode : GameMode) (players : List JoinedRoomPlayer)
    → Distinct joined_key players
    → Gives IsValid (create_initial_game_state room started_at minutes mode players)
unfolding create_initial_game_state
create_initial_game_state-IsValid room started_at minutes mode [] d = gives_none
create_initial_game_state-IsValid room started_at minutes mode (p ∷ ps) d = gives (
  (game_players-Distinct (p ∷ ps) d, on_board (p ∷ ps)),
  initial-PropertiesValid GameBoardKey.classic,
)

-- A game that a room starts is in a valid state, where the joined players have distinct ids and the
-- database gives fresh ids to the bots.
pub start_room-IsValid :
    (fresh_id : ℕ → ℕ) (now user_id : ℕ) (difficulty : Option BotDifficulty) (found : Option Room)
    (joined : List JoinedRoomPlayer)
    → Distinct joined_key joined
    → IsFresh fresh_id joined
    → Gives
        (λ started. IsValid started.initial_state)
        (start_room fresh_id now user_id difficulty found joined)
unfolding start_room
start_room-IsValid fresh_id now user_id difficulty found joined d fresh = after-Gives _ _ λ room _.
    after-Gives _ _ λ _ _. after-Gives _ _ λ _ _. after-Gives _ _ λ _ _. after-Gives _ _ λ _ _.
      after-Gives _ _ λ state e. gives (
        Gives-done
          (create_initial_game_state-IsValid room now (duration_of (game_mode_of joined) room)
            (game_mode_of joined)
            (all_players fresh_id room joined (or_normal difficulty) (game_mode_of joined))
            (players-Distinct fresh_id room joined (or_normal difficulty) (game_mode_of joined) d
              fresh))
          e)
