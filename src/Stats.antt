-- ===== src/Stats.antt =====
-- The statistics of users after a game: src/game/stats/game-stats.service.ts, with the queries of
-- game-stats.repository.ts. The tables are lists of rows: an insertion on conflict does nothing.
mod Ratings
pub mod Repeated
pub mod Twice
pub mod Fair
pub use Ratings.*
unfoldable pub use Ratings.{
  calculate_rating_changes, rating_change, assert_unique_placements, assert_opponents,
}
use livepoly_server.Base.{
  ℕ, zero, suc, ◌+◌, ◌-◌, Bool, true, false, Option, none, some, List, [], ◌∷◌, ◌++◌, map, filter,
  length, any, all, find_by, update_by, not, ◌&&◌, ◌||◌, ltb, leb, ◌==◌, includes, max,
  if◌then◌else◌,
}
use livepoly_server.Types.{GameEngineState, Result, ok, err, ◌>>=◌, throw_if, or_throw, plain_error}
use livepoly_server.Derived.{map_result}
use livepoly_server.Results.{SaveRoomPlayerResultInput, should_refresh_leaderboards}

abbrev default_rating : ℕ
default_rating = 500

-- The statistics of a user, with `avg_position` the text of a column of decimals.
pub record PlayerStats : Type 0 where
  pub user_id : ℕ
  pub games_played : ℕ
  pub first_place : ℕ
  pub second_place : ℕ
  pub third_place : ℕ
  pub fourth_place : ℕ
  pub avg_position : ℕ
  pub current_rating : ℕ
  pub peak_rating : ℕ
  pub total_net_worth : ℕ
  pub total_rent_collected : ℕ
  pub total_rent_paid : ℕ

pub record RatingHistory : Type 0 where
  pub history_user_id : ℕ
  pub room_id : ℕ
  pub rating_before : ℕ
  pub rating_after : ℕ
  pub rating_delta : Signed
  pub placement : ℕ

pub record StatsTables : Type 0 where
  pub player_stats : List PlayerStats
  pub rating_history : List RatingHistory

-- A result of a player with a user.
pub record UserResult : Type 0 where
  pub user_id : ℕ
  pub result : SaveRoomPlayerResultInput

abbrev pub stats_user : PlayerStats → ℕ
stats_user stats = stats.user_id

abbrev pub change_user : RatingChange → ℕ
change_user change = change.user_id

abbrev pub result_user : UserResult → ℕ
result_user user_result = user_result.user_id

-- `playerResults.filter((result) => result.userId !== null)`
abbrev with_user : Option ℕ → SaveRoomPlayerResultInput → List UserResult → List UserResult
with_user none result rest = rest
with_user (some user_id) result rest = record { user_id = user_id; result = result } ∷ rest

unfoldable pub user_results : List SaveRoomPlayerResultInput → List UserResult
user_results [] = []
user_results (result ∷ results) = with_user result.user_id result (user_results results)

abbrev new_stats : ℕ → ℕ → PlayerStats
new_stats zero_position user_id = record {
  user_id = user_id;
  games_played = 0;
  first_place = 0;
  second_place = 0;
  third_place = 0;
  fourth_place = 0;
  avg_position = zero_position;
  current_rating = default_rating;
  peak_rating = default_rating;
  total_net_worth = 0;
  total_rent_collected = 0;
  total_rent_paid = 0;
}

abbrev pub has_stats : ℕ → List PlayerStats → Bool
has_stats user_id rows = any (λ stats. stats.user_id == user_id) rows

-- `zero_position` is the default of the column.
unfoldable pub create_missing_player_stats :
    ℕ → List UserResult → List PlayerStats → List PlayerStats
create_missing_player_stats zero_position [] rows = rows
create_missing_player_stats zero_position (user_result ∷ rest) rows =
    create_missing_player_stats zero_position rest (
      if has_stats user_result.user_id rows
      then rows
      else rows ++ new_stats zero_position user_result.user_id ∷ [])

-- The rows of the users.
abbrev lock_player_stats : List UserResult → List PlayerStats → List PlayerStats
lock_player_stats results rows =
    filter (λ stats. any (λ user_result. user_result.user_id == stats.user_id) results) rows

abbrev is_recorded : ℕ → ℕ → List RatingHistory → Bool
is_recorded room_id user_id history =
    any (λ row. (row.room_id == room_id) && (row.history_user_id == user_id)) history

abbrev one_for : ℕ → ℕ → ℕ
one_for place placement = if placement == place then 1 else 0

module _ {ℓ} {Double : Type ℓ} (doubles : Doubles Double) where
  unfoldable pub build_updated_stats : UserResult → ℕ → PlayerStats → PlayerStats
  build_updated_stats user_result rating_after stats =
      let placement = user_result.result.placement in
      let games_played = stats.games_played + 1 in
      record {
        user_id = stats.user_id;
        games_played = games_played;
        first_place = stats.first_place + one_for 1 placement;
        second_place = stats.second_place + one_for 2 placement;
        third_place = stats.third_place + one_for 3 placement;
        fourth_place = stats.fourth_place + one_for 4 placement;
        avg_position = doubles.to_fixed (
            doubles.divide
              (doubles.add
                (doubles.multiply (doubles.parse stats.avg_position)
                  (doubles.number stats.games_played))
                (doubles.number placement))
              (doubles.number games_played));
        current_rating = rating_after;
        peak_rating = max stats.peak_rating rating_after;
        total_net_worth = stats.total_net_worth + user_result.result.final_net_worth;
        total_rent_collected = stats.total_rent_collected;
        total_rent_paid = stats.total_rent_paid;
      }

  -- `recordRatingChange`, and `updatePlayerStats` if the row was inserted. The statistics are updated
  -- from the row that was locked.
  unfoldable pub record_change :
      ℕ → UserResult → PlayerStats → RatingChange → StatsTables → StatsTables
  unfolding build_updated_stats
  record_change room_id user_result stats change tables =
      if is_recorded room_id user_result.user_id tables.rating_history then tables else record {
        player_stats =
            update_by stats_user user_result.user_id
              (λ row. record (build_updated_stats user_result change.rating_after stats) {
                user_id = row.user_id;
              })
              tables.player_stats;
        rating_history =
            tables.rating_history
            ++ record {
              history_user_id = user_result.user_id;
              room_id = room_id;
              rating_before = change.rating_before;
              rating_after = change.rating_after;
              rating_delta = change.rating_delta;
              placement = user_result.result.placement;
            }
              ∷ [];
      }

  -- `if (!stats || !ratingChange) continue`
  abbrev record_if_found :
      ℕ → UserResult → Option PlayerStats → Option RatingChange → StatsTables → StatsTables
  record_if_found room_id user_result (some stats) (some change) tables =
      record_change room_id user_result stats change tables
  record_if_found room_id user_result _ _ tables = tables

  -- The loop over the results of users.
  unfoldable pub record_changes :
      ℕ → List PlayerStats → List RatingChange → List UserResult → StatsTables → StatsTables
  record_changes room_id current_stats changes [] tables = tables
  record_changes room_id current_stats changes (user_result ∷ results) tables =
      record_changes room_id current_stats changes results (
        record_if_found room_id user_result (find_by stats_user user_result.user_id current_stats)
          (find_by change_user user_result.user_id changes) tables)

  abbrev participant_of : List PlayerStats → UserResult → Result RatingParticipant
  participant_of current_stats user_result =
      or_throw (find_by stats_user user_result.user_id current_stats) plain_error >>= λ stats.
      ok (record {
        user_id = user_result.user_id;
        placement = user_result.result.placement;
        rating = stats.current_rating;
      })

  abbrev unrated_change : List PlayerStats → UserResult → Result RatingChange
  unrated_change current_stats user_result =
      or_throw (find_by stats_user user_result.user_id current_stats) plain_error >>= λ stats.
      ok (record {
        user_id = user_result.user_id;
        rating_before = stats.current_rating;
        rating_after = stats.current_rating;
        rating_delta = plus 0;
      })

  -- `shouldRateGame` is the test of `shouldRefreshLeaderboards`.
  unfoldable pub rating_changes :
      Bool → List PlayerStats → List UserResult → Result (List RatingChange)
  unfolding calculate_rating_changes
  rating_changes true current_stats results =
      map_result (participant_of current_stats) results >>= λ participants.
      calculate_rating_changes doubles participants
  rating_changes false current_stats results = map_result (unrated_change current_stats) results

  abbrev pub apply_to_users : ℕ → ℕ → Bool → List UserResult → StatsTables → Result StatsTables
  apply_to_users zero_position room_id rated [] tables = ok tables
  apply_to_users zero_position room_id rated (first ∷ rest) tables =
      let results = first ∷ rest in
      let rows = create_missing_player_stats zero_position results tables.player_stats in
      let current_stats = lock_player_stats results rows in
      rating_changes rated current_stats results >>= λ changes.
      ok (
        record_changes room_id current_stats changes results
          (record tables { player_stats = rows }))

  unfoldable pub apply_finished_game_stats :
      ℕ → ℕ → GameEngineState → List SaveRoomPlayerResultInput → StatsTables → Result StatsTables
  apply_finished_game_stats zero_position room_id state results tables =
      apply_to_users zero_position room_id (should_refresh_leaderboards state)
        (user_results results) tables
