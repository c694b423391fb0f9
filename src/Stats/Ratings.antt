-- ===== src/Stats/Ratings.antt =====
-- Ratings after a game: src/game/stats/game-rating.service.ts. Arithmetic on doubles is the argument
-- `Doubles`.
use livepoly_server.Base.{
  ℕ, ◌+◌, ◌-◌, List, [], ◌∷◌, map, filter, length, not, ltb, ◌==◌, includes, max, if◌then◌else◌,
}
use livepoly_server.Types.{Result, ok, err, ◌>>=◌, plain_error}

abbrev pub min_rating : ℕ
min_rating = 300

abbrev default_k_factor : ℕ
default_k_factor = 32

-- A whole number with its sign: a difference of ratings.
pub data Signed : Type 0 where
  plus minus : ℕ → Signed

-- `Math.max(MIN_RATING, rating + delta)`
abbrev pub moved_rating : ℕ → Signed → ℕ
moved_rating rating (plus n) = max min_rating (rating + n)
moved_rating rating (minus n) = max min_rating (rating - n)

abbrev difference : ℕ → ℕ → Signed
difference after before = if ltb after before then minus (before - after) else plus (after - before)

-- The operations on doubles: `**` on 10 is only approximated by an implementation. `round` is
-- `Math.round` of a number; where the source would divide zero by zero, the calculation throws.
pub record Doubles {ℓ} (Double : Type ℓ) : Type ℓ where
  pub number : ℕ → Double
  pub add : Double → Double → Double
  pub subtract : Double → Double → Double
  pub multiply : Double → Double → Double
  pub divide : Double → Double → Double
  pub power : Double → Double → Double
  pub round : Double → Signed
  -- `Number(text)` and `toFixed(2)` of a column of decimals.
  pub parse : ℕ → Double
  pub to_fixed : Double → ℕ

pub record RatingParticipant : Type 0 where
  pub user_id : ℕ
  pub placement : ℕ
  pub rating : ℕ

-- The ratings of a game that is not rated carry no placement, and nothing reads it.
pub record RatingChange : Type 0 where
  pub user_id : ℕ
  pub rating_before : ℕ
  pub rating_after : ℕ
  pub rating_delta : Signed

module _ {ℓ} {Double : Type ℓ} (doubles : Doubles Double) where
  unfoldable pub get_expected_score : ℕ → ℕ → Double
  get_expected_score player_rating opponent_rating = doubles.divide (doubles.number 1) (
      doubles.add (doubles.number 1) (
        doubles.power (doubles.number 10) (
          doubles.divide
            (doubles.subtract (doubles.number opponent_rating) (doubles.number player_rating))
            (doubles.number 400))))

  -- `opponents.reduce(...)`, from the total so far.
  unfoldable pub performance_delta : RatingParticipant → Double → List RatingParticipant → Double
  performance_delta participant total [] = total
  performance_delta participant total (opponent ∷ opponents) =
      performance_delta participant
        (doubles.subtract
          (doubles.add total
            (doubles.number (if ltb participant.placement opponent.placement then 1 else 0)))
          (get_expected_score participant.rating opponent.rating))
        opponents

  abbrev pub opponents_of : List RatingParticipant → RatingParticipant → List RatingParticipant
  opponents_of participants participant =
      filter (λ opponent. not (opponent.user_id == participant.user_id)) participants

  unfoldable pub rating_change : List RatingParticipant → RatingParticipant → RatingChange
  rating_change participants participant =
      let opponents = opponents_of participants participant in
      let rating_after = moved_rating participant.rating (
        doubles.round (
          doubles.multiply
            (doubles.divide (doubles.number default_k_factor) (doubles.number (length opponents)))
            (performance_delta participant (doubles.number 0) opponents))) in
      record {
        user_id = participant.user_id;
        rating_before = participant.rating;
        rating_after = rating_after;
        rating_delta = difference rating_after participant.rating;
      }

  -- The loop of `assertUniquePlacements`, with the placements that were seen.
  unfoldable pub assert_unique_placements : List ℕ → List RatingParticipant → Result (Unit {0})
  assert_unique_placements placements [] = ok tt
  assert_unique_placements placements (participant ∷ participants) =
      let rest = assert_unique_placements (participant.placement ∷ placements) participants in
      if includes placements participant.placement then err plain_error else rest

  -- A participant without opponents has the rating NaN in the source, which the integer columns of the
  -- ratings refuse: the model throws here.
  unfoldable pub assert_opponents :
      List RatingParticipant → List RatingParticipant → Result (Unit {0})
  assert_opponents all_participants [] = ok tt
  assert_opponents all_participants (participant ∷ participants) =
      let rest = assert_opponents all_participants participants in
      if length (opponents_of all_participants participant) == 0 then err plain_error else rest

  unfoldable pub calculate_rating_changes : List RatingParticipant → Result (List RatingChange)
  calculate_rating_changes participants =
      if ltb (length participants) 2
      then ok []
      else (assert_unique_placements [] participants >>= λ _.
          (assert_opponents participants participants >>= λ _.
          ok (map (rating_change participants) participants)))
