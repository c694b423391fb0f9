-- ===== src/Scenarios/Rooms.antt =====
-- Rooms, decks, results and ratings, of src/rooms/ and src/game/, at the start and the end of a game.
use livepoly_server.Base.{
  map, ℕ, ◌+◌, ◌≤◌, ◌<◌, ◌≡◌, ◌==◌, refl, arith, true, false, none, some, List, [], ◌∷◌, All,
  Distinct, includes,
}
use livepoly_server.Types.{human, ok}
use livepoly_server.Ensures.{Ensures}
use livepoly_server.Validity.{IsValid}
use livepoly_server.Outcomes.{Gives}
use livepoly_server.Cards.Tables.{chance_cards, world_fund_cards, chance_bank_dividend}
use livepoly_server.Cards.Piles.{copies_in}
use livepoly_server.Cards.Shuffle.{create_initial_deck_state, card_keys}
use livepoly_server.Cards.Shuffle.Fair.{create_initial_deck_state-Dealt}
use livepoly_server.Results.{build_player_results, SaveRoomPlayerResultInput}
use livepoly_server.Results.Placements.{placement_key, result_owner, build_player_results-Placed}
use livepoly_server.Stats.{
  Doubles, plus, RatingParticipant, RatingChange, StatsTables, calculate_rating_changes,
  apply_finished_game_stats, min_rating,
}
use livepoly_server.Stats.Fair.{change_owner, calculate_rating_changes-Bounded}
use livepoly_server.Stats.Twice.{apply_finished_game_stats_twice}
use livepoly_server.Rooms.{
  Room, JoinedRoomPlayer, waiting, status_is, seats_of, is_expired_waiting_room, join_room,
  start_room,
}
use livepoly_server.Rooms.Starts.{start_room-IsValid}
use livepoly_server.Rooms.Seats.{join_room-FirstFree}
use livepoly_server.Scenarios.Positions.{offered}

create_initial_deck_state-Dealt_example :
    (copies_in chance_bank_dividend
        (create_initial_deck_state (some (97 ∷ 98 ∷ []))).chance.draw_pile
      ≡ copies_in chance_bank_dividend (card_keys chance_cards))
    × (copies_in chance_bank_dividend
          (create_initial_deck_state (some (97 ∷ 98 ∷ []))).world_fund.draw_pile
        ≡ copies_in chance_bank_dividend (card_keys world_fund_cards))
    × ((create_initial_deck_state (some (97 ∷ 98 ∷ []))).chance.discard_pile ≡ [])
    × ((create_initial_deck_state (some (97 ∷ 98 ∷ []))).world_fund.discard_pile ≡ [])
create_initial_deck_state-Dealt_example =
    create_initial_deck_state-Dealt (some (97 ∷ 98 ∷ [])) chance_bank_dividend

build_player_results-Placed_example :
    Ensures
      (λ results.
        (map result_owner results ≡ (1, none) ∷ (2, none) ∷ [])
        × Distinct placement_key results
        × All (λ result. (1 ≤ result.placement) × (result.placement ≤ 2)) results)
      (build_player_results offered 50)
build_player_results-Placed_example = build_player_results-Placed offered 50 (refl, (refl, tt))

-- Doubles that are whole numbers, where every change of a rating is 16.
abbrev whole : Doubles ℕ
whole = record {
  number = λ n. n;
  add = λ a b. a + b;
  subtract = λ a b. a;
  multiply = λ a b. a;
  divide = λ a b. a;
  power = λ a b. a;
  round = λ a. plus 16;
  parse = λ text. text;
  to_fixed = λ a. a;
}

abbrev participant : ℕ → ℕ → RatingParticipant
participant user_id placement = record { user_id = user_id; placement = placement; rating = 500 }

calculate_rating_changes-Bounded_example :
    (changes : List RatingChange) × (calculate_rating_changes whole
        (participant 1 2 ∷ participant 2 1 ∷ [])
      ≡ ok changes)
    × (map change_owner changes ≡ (1, 500) ∷ (2, 500) ∷ [])
    × All (λ change. min_rating ≤ change.rating_after) changes
calculate_rating_changes-Bounded_example =
    calculate_rating_changes-Bounded whole (participant 1 2) (participant 2 1) [] (refl, (refl, tt))
      (refl, (refl, tt))

abbrev winner_result : SaveRoomPlayerResultInput
winner_result = record {
  room_id = 1;
  room_player_id = 1;
  user_id = some 5;
  seat_number = 1;
  starting_cash = 1500;
  final_cash = 900;
  final_net_worth = 1100;
  placement = 1;
  bankrupt_at = none;
}

abbrev no_tables : StatsTables
no_tables = record { player_stats = []; rating_history = [] }

apply_finished_game_stats_twice_example :
    Ensures
      (λ once.
        Ensures
          (λ twice. twice ≡ once)
          (apply_finished_game_stats whole 0 1 offered (winner_result ∷ []) once))
      (apply_finished_game_stats whole 0 1 offered (winner_result ∷ []) no_tables)
apply_finished_game_stats_twice_example =
    apply_finished_game_stats_twice whole 0 1 offered (winner_result ∷ []) no_tables

abbrev lobby : Room
lobby = record {
  id = 1;
  id_codes = 97 ∷ [];
  code = 2;
  host_user_id = 5;
  status = waiting;
  max_players = 4;
  duration_minutes = 60;
  created_at = 10;
}

abbrev joined_at : ℕ → ℕ → ℕ → JoinedRoomPlayer
joined_at id user_id seat_number = record {
  id = id;
  user_id = some user_id;
  username = none;
  player_type = human;
  bot_difficulty = none;
  bot_name = none;
  seat_number = seat_number;
}

abbrev two_joined : List JoinedRoomPlayer
two_joined = joined_at 1 5 1 ∷ joined_at 2 6 3 ∷ []

-- Player 2 sits at seat 3, so a third one gets seat 2.
join_room-FirstFree_example :
    Gives
      (λ seat.
        (1 ≤ seat)
        × (seat ≤ 4)
        × (includes (seats_of two_joined) seat ≡ false)
        × ((other : ℕ) → 1 ≤ other → other < seat → includes (seats_of two_joined) other ≡ true)
        × (status_is lobby.status waiting ≡ true)
        × (is_expired_waiting_room 20 lobby ≡ false))
      (join_room 20 false false (some lobby) two_joined)
join_room-FirstFree_example = join_room-FirstFree 20 false false lobby two_joined

above_ten : (id s : ℕ) → id ≤ 10 → (s + 11 == id) ≡ false
above_ten id s h = ground arith

same_seat : (s t : ℕ) → s + 11 ≡ t + 11 → s ≡ t
same_seat s t h = omega arith

start_room-IsValid_example :
    Gives
      (λ started. IsValid started.initial_state)
      (start_room (λ seat. seat + 11) 20 5 none (some lobby) two_joined)
start_room-IsValid_example =
    start_room-IsValid (λ seat. seat + 11) 20 5 none (some lobby) two_joined (refl, (refl, tt))
      (record {
        injective = same_seat;
        unused = ((λ s. above_ten 1 s (omega arith)), ((λ s. above_ten 2 s (omega arith)), tt));
      })
