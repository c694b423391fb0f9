-- ===== src/Stats/Twice.antt =====
-- Statistics that are applied twice: src/game/stats/game-stats.service.ts.
use livepoly_server.Base.{
  ℕ, ◌≡◌, refl, sym, ◌∙◌, Bool, true, false, some, List, [], ◌∷◌, map, length, any, All, find_by,
  ◌==◌, ltb, Bool-cases, inl, inr, ◌⊎◌,
}
use livepoly_server.Types.{GameEngineState, or_throw-ok}
use livepoly_server.Ensures.{Ensures, returns, then-Ensures, bind-Ensures, map-Ensures, if-Ensures}
use livepoly_server.Derived.{map_result}
use livepoly_server.Derived.Mapped.{CoversAll, map_result-CoversAll}
use livepoly_server.Results.{SaveRoomPlayerResultInput, should_refresh_leaderboards}
use livepoly_server.Stats.{
  Doubles, PlayerStats, RatingParticipant, RatingChange, StatsTables, UserResult, user_results,
  stats_user, change_user, result_user, create_missing_player_stats, record_changes, rating_changes,
  participant_of, unrated_change, lock_player_stats, calculate_rating_changes, rating_change,
  apply_to_users, apply_finished_game_stats,
}
use livepoly_server.Stats.Repeated.{
  true_ne_false, find_by-any, HaveStats, created-HaveStats, created-same, record_changes-keeps,
  Found, Recorded, record_changes-Recorded, record_changes-same, record_changes-none,
}

abbrev participant_user : RatingParticipant → ℕ
participant_user participant = participant.user_id

HasRow : List PlayerStats → UserResult → Type 0
HasRow current r = (s : PlayerStats) × (find_by stats_user r.user_id current ≡ some s)

module _ {ℓ} {Double : Type ℓ} (doubles : Doubles Double) where
  any-map :
      (user : ℕ) (everybody participants : List RatingParticipant)
      → any (λ p. p.user_id == user) participants ≡ true
      → any (λ c. c.user_id == user) (map (rating_change doubles everybody) participants) ≡ true
  unfolding rating_change
  any-map user everybody [] e = e
  any-map user everybody (p ∷ ps) e = elim (Bool-cases (p.user_id == user)) [
    | inl t ↦ rw t refl
    | inr t ↦ rw t (any-map user everybody ps (rw t at e))
  ]

  participants-Covers :
      (current : List PlayerStats) (results : List UserResult)
      → Ensures
          (CoversAll result_user participant_user (HasRow current) results)
          (map_result (participant_of doubles current) results)
  unfolding HasRow
  participants-Covers current results =
      map_result-CoversAll result_user participant_user (HasRow current)
        (participant_of doubles current)
        (λ r. bind-Ensures _ _ λ s e. returns (refl, (s, or_throw-ok _ _ e))) results

  unrated-Covers :
      (current : List PlayerStats) (results : List UserResult)
      → Ensures
          (CoversAll result_user change_user (HasRow current) results)
          (map_result (unrated_change doubles current) results)
  unfolding HasRow
  unrated-Covers current results =
      map_result-CoversAll result_user change_user (HasRow current) (unrated_change doubles current)
        (λ r. bind-Ensures _ _ λ s e. returns (refl, (s, or_throw-ok _ _ e))) results

  module _ (room_id : ℕ) (current : List PlayerStats) where
    All-Found :
        (changes : List RatingChange) (results : List UserResult)
        → All (λ r. (any (λ c. c.user_id == r.user_id) changes ≡ true) × HasRow current r) results
        → All (Found doubles room_id current changes) results
    unfolding Found HasRow
    All-Found changes [] h = tt
    All-Found changes (r ∷ rest) h =
        (((h.0).1, find_by-any change_user r.user_id changes (h.0).0), All-Found changes rest h.1)

    All-rated :
        (participants : List RatingParticipant) (results : List UserResult)
        → All
            (λ r. (any (λ p. p.user_id == r.user_id) participants ≡ true) × HasRow current r)
            results
        → All
            (λ r.
              (any
                  (λ c. c.user_id == r.user_id)
                  (map (rating_change doubles participants) participants)
                ≡ true)
              × HasRow current r)
            results
    All-rated participants [] h = tt
    All-rated participants (r ∷ rest) h = (
      (any-map r.user_id participants participants (h.0).0, (h.0).1),
      All-rated participants rest h.1,
    )

    -- A rated game of fewer than two users changes no rating; otherwise every result has a change.
    Complete : Bool → List UserResult → List RatingChange → Type 0
    Complete rated results changes =
        ((rated ≡ true) × (ltb (length results) 2 ≡ true) × (changes ≡ []))
        ⊎ All (Found doubles room_id current changes) results

    rating_changes-Complete :
        (rated : Bool) (results : List UserResult)
        → Ensures (Complete rated results) (rating_changes doubles rated current results)
    unfolding rating_changes Complete calculate_rating_changes
    rating_changes-Complete true results =
        then-Ensures _ _ (participants-Covers current results) λ participants covers.
          if-Ensures (ltb (length participants) 2) _ _
            (λ t. returns (inl (refl, rw (covers.as_many) at t, refl)))
            (λ t. bind-Ensures _ _ λ _ _. bind-Ensures _ _ λ _ _. returns (
              inr (
                All-Found (map (rating_change doubles participants) participants) results
                  (All-rated participants results covers.each_one))))
    rating_changes-Complete false results =
        map-Ensures (unrated-Covers current results)
          λ changes covers. inr (All-Found changes results covers.each_one)

    rating_changes-none :
        (results : List UserResult)
        → ltb (length results) 2 ≡ true
        → Ensures (λ changes. changes ≡ []) (rating_changes doubles true current results)
    unfolding rating_changes calculate_rating_changes
    rating_changes-none results few =
        then-Ensures _ _ (participants-Covers current results) λ participants covers.
          if-Ensures (ltb (length participants) 2) _ _ (λ t. returns refl)
            (λ t. absurd (true_ne_false (sym few ∙ (rw (covers.as_many) at t))))

  kept-HaveStats :
      (room_id : ℕ) (current : List PlayerStats) (changes : List RatingChange)
      (all_results results : List UserResult) (tables : StatsTables)
      → HaveStats results tables.player_stats
      → HaveStats results
          (record_changes doubles room_id current changes all_results tables).player_stats
  unfolding HaveStats
  kept-HaveStats room_id current changes all_results [] tables h = tt
  kept-HaveStats room_id current changes all_results (r ∷ rest) tables h = (
    (record_changes-keeps doubles room_id r.user_id current changes all_results tables).0 ∙ h.0,
    kept-HaveStats room_id current changes all_results rest tables h.1,
  )

  -- Tables in which nothing is left to do for the results.
  Settled : ℕ → Bool → List UserResult → StatsTables → Type 0
  Settled room_id rated results tables =
      ((rated ≡ true) × (ltb (length results) 2 ≡ true))
      ⊎ All (Recorded doubles room_id tables) results

  apply-Settled :
      (zero_position room_id : ℕ) (rated : Bool) (first : UserResult) (rest : List UserResult)
      (tables : StatsTables)
      → HaveStats (first ∷ rest) tables.player_stats
      → Settled room_id rated (first ∷ rest) tables
      → Ensures
          (λ twice. twice ≡ tables)
          (apply_to_users doubles zero_position room_id rated (first ∷ rest) tables)
  unfolding Settled
  apply-Settled zero_position room_id rated first rest tables have (inl (is_rated, few)) =
      rw (created-same zero_position (first ∷ rest) tables.player_stats have, is_rated)
        (then-Ensures _ _
          (rating_changes-none room_id (lock_player_stats (first ∷ rest) tables.player_stats)
            (first ∷ rest) few)
          λ changes e. returns (rw e (record_changes-none doubles room_id _ (first ∷ rest) tables)))
  apply-Settled zero_position room_id rated first rest tables have (inr recorded) =
      rw (created-same zero_position (first ∷ rest) tables.player_stats have) (
        bind-Ensures _ _ λ changes _.
          returns (record_changes-same doubles room_id _ changes (first ∷ rest) tables recorded))

  apply_to_users_twice :
      (zero_position room_id : ℕ) (rated : Bool) (results : List UserResult) (tables : StatsTables)
      → Ensures
          (λ once.
            Ensures
              (λ twice. twice ≡ once)
              (apply_to_users doubles zero_position room_id rated results once))
          (apply_to_users doubles zero_position room_id rated results tables)
  unfolding Complete Settled
  apply_to_users_twice zero_position room_id rated [] tables = returns (returns refl)
  apply_to_users_twice zero_position room_id rated (first ∷ rest) tables =
      let results = first ∷ rest in
      let rows = create_missing_player_stats zero_position results tables.player_stats in
      let current = lock_player_stats results rows in
      let start = record tables { player_stats = rows } in
      then-Ensures _ _ (rating_changes-Complete room_id current rated results) λ changes complete.
        let once = record_changes doubles room_id current changes results start in
        returns (
          apply-Settled zero_position room_id rated first rest once
            (kept-HaveStats room_id current changes results results start
              (created-HaveStats zero_position results tables.player_stats))
            (settled room_id current rated results changes start complete))
    where
      settled :
          (room : ℕ) (current : List PlayerStats) (is_rated : Bool) (results : List UserResult)
          (changes : List RatingChange) (start : StatsTables)
          → Complete room current is_rated results changes
          → Settled room is_rated results
              (record_changes doubles room current changes results start)
      settled room current is_rated results changes start (inl (t, few, e)) = inl (t, few)
      settled room current is_rated results changes start (inr found) =
          inr (record_changes-Recorded doubles room current changes results start found)

  -- To apply the statistics of a finished game once more changes nothing, whatever the arithmetic on
  -- doubles gives: where both calls return, the second leaves the tables as the first one did.
  pub apply_finished_game_stats_twice :
      (zero_position room_id : ℕ) (state : GameEngineState)
      (results : List SaveRoomPlayerResultInput) (tables : StatsTables)
      → Ensures
          (λ once.
            Ensures
              (λ twice. twice ≡ once)
              (apply_finished_game_stats doubles zero_position room_id state results once))
          (apply_finished_game_stats doubles zero_position room_id state results tables)
  unfolding apply_finished_game_stats
  apply_finished_game_stats_twice zero_position room_id state results tables =
      apply_to_users_twice zero_position room_id (should_refresh_leaderboards state)
        (user_results results) tables
