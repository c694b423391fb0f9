-- ===== src/Stats/Fair.antt =====
-- The ratings after a game: src/game/stats/game-rating.service.ts.
use livepoly_server.Base.{
  ℕ, ◌≤◌, ◌≡◌, refl, sym, false, none, List, [], ◌∷◌, map, length, All, Distinct, find_by, includes,
  ◌==◌, ltb, arith, Bool-cases, inl, inr, none_ne_some, ap, ==→eq,
}
use livepoly_server.Types.{ok, ◌>>=◌}
use livepoly_server.Stats.{
  Doubles, RatingParticipant, RatingChange, Signed, plus, minus, min_rating, moved_rating,
  calculate_rating_changes, rating_change, assert_unique_placements, assert_opponents, opponents_of,
}

abbrev pub participant_placement : RatingParticipant → ℕ
participant_placement participant = participant.placement

-- None of the participants has a placement that was seen.
Unseen : List ℕ → List RatingParticipant → Type 0
Unseen placements participants =
    All (λ participant. includes placements participant.placement ≡ false) participants

Unseen-cons :
    (x : RatingParticipant) (seen : List ℕ) (participants : List RatingParticipant)
    → find_by participant_placement x.placement participants ≡ none
    → Unseen seen participants
    → Unseen (x.placement ∷ seen) participants
unfolding Unseen
Unseen-cons x seen [] e h = tt
Unseen-cons x seen (p ∷ ps) e h = elim (Bool-cases (p.placement == x.placement)) [
  | inl t ↦ absurd (none_ne_some (sym (rw t at e)))
  | inr t ↦ (ground (arith, h.0), Unseen-cons x seen ps (rw t at e) h.1)
]

assert_unique_placements-ok {ℓ} :
    {Double : Type ℓ} (doubles : Doubles Double) (seen : List ℕ)
    (participants : List RatingParticipant)
    → Unseen seen participants
    → Distinct participant_placement participants
    → assert_unique_placements doubles seen participants ≡ ok tt
unfolding Unseen assert_unique_placements
assert_unique_placements-ok doubles seen [] h d = refl
assert_unique_placements-ok doubles seen (p ∷ ps) h d = rw (h.0) (
    assert_unique_placements-ok doubles (p.placement ∷ seen) ps (Unseen-cons p seen ps d.0 h.1) d.1)

nothing_seen : (participants : List RatingParticipant) → Unseen [] participants
unfolding Unseen
nothing_seen [] = tt
nothing_seen (p ∷ ps) = (refl, nothing_seen ps)

moved_rating-le : (rating : ℕ) (delta : Signed) → min_rating ≤ moved_rating rating delta
moved_rating-le rating (plus n) = omega arith
moved_rating-le rating (minus n) = omega arith

-- Whose rating changes, and from what.
abbrev pub change_owner : RatingChange → ℕ × ℕ
change_owner change = (change.user_id, change.rating_before)

abbrev pub participant_owner : RatingParticipant → ℕ × ℕ
participant_owner participant = (participant.user_id, participant.rating)

abbrev pub participant_user : RatingParticipant → ℕ
participant_user participant = participant.user_id

module _ {ℓ} {Double : Type ℓ} (doubles : Doubles Double) where
  changes-Bounded :
      (all_participants participants : List RatingParticipant)
      → All
          (λ change. min_rating ≤ change.rating_after)
          (map (rating_change doubles all_participants) participants)
  unfolding rating_change
  changes-Bounded all_participants [] = tt
  changes-Bounded all_participants (p ∷ ps) =
      (moved_rating-le p.rating _, changes-Bounded all_participants ps)

  change_owners :
      (all_participants participants : List RatingParticipant)
      → map change_owner (map (rating_change doubles all_participants) participants)
        ≡ map participant_owner participants
  unfolding rating_change
  change_owners all_participants [] = refl
  change_owners all_participants (p ∷ ps) =
      ap (λ owners. participant_owner p ∷ owners) (change_owners all_participants ps)

  -- Of two participants with different users, any has an opponent.
  has_opponent :
      (first second p : RatingParticipant) (rest : List RatingParticipant)
      → (second.user_id == first.user_id) ≡ false
      → (length (opponents_of doubles (first ∷ second ∷ rest) p) == 0) ≡ false
  has_opponent first second p rest differ = elim (Bool-cases (first.user_id == p.user_id)) [
    | inl same ↦
        let own : first.user_id ≡ p.user_id = ==→eq first.user_id p.user_id same in
        rw (same, (rw own at differ)) (ground arith)
    | inr other ↦ rw other (ground arith)
  ]

  assert_opponents-ok :
      (first second : RatingParticipant) (rest participants : List RatingParticipant)
      → (second.user_id == first.user_id) ≡ false
      → assert_opponents doubles (first ∷ second ∷ rest) participants ≡ ok tt
  unfolding assert_opponents
  assert_opponents-ok first second rest [] differ = refl
  assert_opponents-ok first second rest (p ∷ ps) differ =
      rw (has_opponent first second p rest differ) (assert_opponents-ok first second rest ps differ)

  -- With two participants or more, whose users and whose placements are distinct, the calculation of
  -- ratings does not throw, there is one change for each participant, in order, from his rating
  -- before, and no rating falls below 300.
  pub calculate_rating_changes-Bounded :
      (first second : RatingParticipant) (rest : List RatingParticipant)
      → Distinct participant_placement (first ∷ second ∷ rest)
      → Distinct participant_user (first ∷ second ∷ rest)
      → (changes : List RatingChange) × (calculate_rating_changes doubles (first ∷ second ∷ rest)
          ≡ ok changes)
        × (map change_owner changes ≡ map participant_owner (first ∷ second ∷ rest))
        × All (λ change. min_rating ≤ change.rating_after) changes
  unfolding calculate_rating_changes ◌>>=◌
  calculate_rating_changes-Bounded first second rest d u =
      let participants = first ∷ second ∷ rest in
      let many : ltb (length participants) 2 ≡ false = ground arith in
      let differ : (second.user_id == first.user_id) ≡ false =
        elim (Bool-cases (second.user_id == first.user_id)) [
          | inl t ↦ absurd (none_ne_some (sym (rw t at (u.0))))
          | inr t ↦ t
        ] in
      (
        map (rating_change doubles participants) participants,
        rw
            (
              many,
              assert_unique_placements-ok doubles [] participants (nothing_seen participants) d,
              assert_opponents-ok first second rest participants differ,
            )
            refl,
        change_owners participants participants,
        changes-Bounded participants participants,
      )
