-- ===== src/Results/Placements.antt =====
-- The placements of the players: `buildPlayerResults` of src/game/results/game-results.service.ts.
use livepoly_server.Base.{
  ℕ, suc, ◌+◌, ◌≤◌, ◌<◌, ◌≡◌, ◌≢◌, refl, sym, ap, ◌∙◌, Bool, true, false, Option, none, some, List,
  [], ◌∷◌, map, length, any, All, Distinct, find_by, sort_by, length-sort_by, any-sort_by, ◌==◌,
  get_elem?, arith, if◌then◌else◌, Bool-cases, inl, inr, some_eq, none_ne_some, ==→eq, ==_refl,
}
use livepoly_server.Types.{GameEngineState, GameEnginePlayer, PlayerNetWorth}
use livepoly_server.Ensures.{Ensures, returns, bind-Ensures, then-Ensures}
use livepoly_server.Store.{player_key}
use livepoly_server.Board.{get_game_board}
use livepoly_server.Derived.Mapped.{CoversAll, map_result-CoversAll}
use livepoly_server.Derived.{calculate_player_net_worth}
use livepoly_server.Results.{
  SaveRoomPlayerResultInput, build_player_results, calculate_final_result_standings,
  compare_final_result_standing, standing_key, placement_in, result_of,
}

true_ne_false : true ≢ false
true_ne_false e = cc

-- A placement in a list names an entry with the id.
record HasEntry (id index placement : ℕ) (standings : List PlayerNetWorth) : Type 0 where
  place : ℕ
  entry : PlayerNetWorth
  is_there : get_elem? standings place ≡ some entry
  own_id : entry.room_player_id ≡ id
  counted : placement ≡ index + place
  in_range : place < length standings

placement_in-entry :
    (id index : ℕ) (standings : List PlayerNetWorth) {placement : ℕ}
    → placement_in id index standings ≡ some placement
    → HasEntry id index placement standings
placement_in-entry id index [] e = absurd (none_ne_some e)
placement_in-entry id index (x ∷ xs) {placement} e =
    at_rest (placement_in id (suc index) xs) refl e
      λ p r. placement_in-entry id (suc index) xs {placement = p} r
  where
    at_rest :
        (rest : Option ℕ)
        → placement_in id (suc index) xs ≡ rest
        → elim rest [ some p ↦ some p | none ↦ if x.room_player_id == id then some index else none ]
          ≡ some placement
        → ((p : ℕ) → placement_in id (suc index) xs ≡ some p → HasEntry id (suc index) p xs)
        → HasEntry id index placement (x ∷ xs)
    at_rest none r h k = elim (Bool-cases (x.room_player_id == id)) [
      | inl t ↦
          let same : index ≡ placement = some_eq (rw t at h) in
          record {
            place = 0;
            entry = x;
            is_there = refl;
            own_id = ==→eq x.room_player_id id t;
            counted = omega arith;
            in_range = omega arith;
          }
      | inr t ↦ absurd (none_ne_some (rw t at h))
    ]
    at_rest (some p) r h k =
        let found = k placement (r ∙ h) in
        record {
          place = suc found.place;
          entry = found.entry;
          is_there = found.is_there;
          own_id = found.own_id;
          counted = omega (arith, found.counted);
          in_range = omega (arith, found.in_range);
        }

-- Two ids with one placement are equal.
placement_in-injective :
    (a b : ℕ) (standings : List PlayerNetWorth) {placement : ℕ}
    → placement_in a 1 standings ≡ some placement
    → placement_in b 1 standings ≡ some placement
    → a ≡ b
placement_in-injective a b standings {placement} e f =
    let left = placement_in-entry a 1 standings e in
    let right = placement_in-entry b 1 standings f in
    let same_place : left.place ≡ right.place = omega (arith, left.counted, right.counted) in
    let same_entry : left.entry ≡ right.entry =
      some_eq (sym (rw same_place at (left.is_there)) ∙ right.is_there) in
    sym (left.own_id) ∙ ap (λ s. s.room_player_id) same_entry ∙ right.own_id

-- An id that is in a list has a placement.
abbrev has_id : ℕ → PlayerNetWorth → Bool
has_id id standing = standing.room_player_id == id

placement_in-some :
    (id index : ℕ) (standings : List PlayerNetWorth)
    → any (has_id id) standings ≡ true
    → (placement : ℕ) × (placement_in id index standings ≡ some placement)
placement_in-some id index [] e = absurd (true_ne_false (sym e))
placement_in-some id index (x ∷ xs) e =
    at_rest (placement_in id (suc index) xs) refl (placement_in-some id (suc index) xs)
  where
    at_rest :
        (rest : Option ℕ)
        → placement_in id (suc index) xs ≡ rest
        → (any (has_id id) xs ≡ true → (p : ℕ) × (placement_in id (suc index) xs ≡ some p))
        → (placement : ℕ) × (elim rest [
          | some p ↦ some p
          | none ↦ if x.room_player_id == id then some index else none
        ]
            ≡ some placement)
    at_rest (some p) r k = (p, refl)
    at_rest none r k = elim (Bool-cases (x.room_player_id == id)) [
      | inl t ↦ (index, rw t refl)
      | inr t ↦ absurd (none_ne_some (sym r ∙ (k (rw t at e)).1))
    ]

abbrev pub placement_key : SaveRoomPlayerResultInput → ℕ
placement_key result = result.placement

-- The standings of some players have the players' ids.
abbrev Anything : GameEnginePlayer → Type 0
Anything player = Unit

CoversPlayers : List GameEnginePlayer → List PlayerNetWorth → Type 0
CoversPlayers players standings = CoversAll player_key standing_key Anything players standings

net_worth-id :
    (state : GameEngineState) (player : GameEnginePlayer)
    → Ensures
        (λ s. (standing_key s ≡ player_key player) × Anything player)
        (calculate_player_net_worth state (get_game_board state.board_key) player)
unfolding calculate_player_net_worth
net_worth-id state player = bind-Ensures _ _ λ _ _. bind-Ensures _ _ λ _ _. returns (refl, tt)

standings-Covers :
    (state : GameEngineState)
    → Ensures (CoversPlayers state.players) (calculate_final_result_standings state)
unfolding calculate_final_result_standings CoversPlayers
standings-Covers state =
    then-Ensures _ _
      (map_result-CoversAll player_key standing_key Anything _ (net_worth-id state) state.players)
      λ standings covers. returns (record {
        as_many =
            length-sort_by (compare_final_result_standing state.players) standings ∙ covers.as_many;
        each_one = sorted standings state.players covers.each_one;
      })
  where
    sorted :
        (standings : List PlayerNetWorth) (players : List GameEnginePlayer)
        → All
            (λ player. (any (has_id player.room_player_id) standings ≡ true) × Anything player)
            players
        → All
            (λ player.
              (any
                  (has_id player.room_player_id)
                  (sort_by (compare_final_result_standing state.players) standings)
                ≡ true)
              × Anything player)
            players
    sorted standings [] h = tt
    sorted standings (p ∷ ps) h = (
      (
        any-sort_by (compare_final_result_standing state.players) (has_id p.room_player_id)
              standings
            ∙ (h.0).0,
        tt,
      ),
      sorted standings ps h.1,
    )

module _ (state : GameEngineState) (standings : List PlayerNetWorth) (completed_at : ℕ) where
  IsPlaced : GameEnginePlayer → Type 0
  IsPlaced player =
      (placement : ℕ) × (placement_in player.room_player_id 1 standings ≡ some placement)

  placed :
      (players : List GameEnginePlayer)
      → All
          (λ player. (any (has_id player.room_player_id) standings ≡ true) × Anything player)
          players
      → All IsPlaced players
  unfolding IsPlaced
  placed [] h = tt
  placed (p ∷ ps) h = (placement_in-some p.room_player_id 1 standings (h.0).0, placed ps h.1)

  other_placement :
      (p q : GameEnginePlayer)
      → IsPlaced p
      → IsPlaced q
      → (player_key q == player_key p) ≡ false
      → ((result_of state standings completed_at q).placement
          == (result_of state standings completed_at p).placement)
        ≡ false
  unfolding IsPlaced
  other_placement p q (i, e) (j, f) differ = elim (Bool-cases (j == i)) [
    | inl t ↦
        let same : q.room_player_id ≡ p.room_player_id =
          placement_in-injective q.room_player_id p.room_player_id standings (rw (==→eq j i t) at f)
            e in
        absurd (true_ne_false (sym (rw same (==_refl p.room_player_id)) ∙ differ))
    | inr t ↦ rw (e, f) t
  ]

  other_placements :
      (p : GameEnginePlayer) (players : List GameEnginePlayer)
      → IsPlaced p
      → All IsPlaced players
      → find_by player_key (player_key p) players ≡ none
      → find_by placement_key
          (result_of state standings completed_at p).placement
          (map (result_of state standings completed_at) players)
        ≡ none
  other_placements p [] i a e = refl
  other_placements p (q ∷ qs) i a e = elim (Bool-cases (player_key q == player_key p)) [
    | inl t ↦ absurd (none_ne_some (sym (rw t at e)))
    | inr t ↦ rw (other_placement p q i a.0 t) (other_placements p qs i a.1 (rw t at e))
  ]

  placements-Distinct :
      (players : List GameEnginePlayer)
      → Distinct player_key players
      → All IsPlaced players
      → Distinct placement_key (map (result_of state standings completed_at) players)
  placements-Distinct [] d a = tt
  placements-Distinct (p ∷ ps) d a =
      (other_placements p ps a.0 a.1 d.0, placements-Distinct ps d.1 a.1)

  placements-in_range :
      (players : List GameEnginePlayer)
      → All IsPlaced players
      → All
          (λ result. (1 ≤ result.placement) × (result.placement ≤ length standings))
          (map (result_of state standings completed_at) players)
  unfolding IsPlaced
  placements-in_range [] a = tt
  placements-in_range (p ∷ ps) ((i, e), a) =
      let entry = placement_in-entry p.room_player_id 1 standings e in
      (
        rw e (omega (arith, entry.counted), omega (arith, entry.counted, entry.in_range)),
        placements-in_range ps a,
      )

-- Whose result it is, and whose player.
abbrev pub result_owner : SaveRoomPlayerResultInput → ℕ × Option ℕ
result_owner result = (result.room_player_id, result.user_id)

abbrev pub player_owner : GameEnginePlayer → ℕ × Option ℕ
player_owner player = (player.room_player_id, player.user_id)

result_owners :
    (state : GameEngineState) (standings : List PlayerNetWorth) (completed_at : ℕ)
    (players : List GameEnginePlayer)
    → map result_owner (map (result_of state standings completed_at) players)
      ≡ map player_owner players
result_owners state standings completed_at [] = refl
result_owners state standings completed_at (p ∷ ps) =
    ap (λ owners. player_owner p ∷ owners) (result_owners state standings completed_at ps)

-- Where the players' ids are distinct and the net worths can be calculated, every player of a
-- finished game has one result, with his own id and user, in the order of the players, and the
-- placements are 1 to the number of players, each once.
pub build_player_results-Placed :
    (state : GameEngineState) (completed_at : ℕ)
    → Distinct player_key state.players
    → Ensures
        (λ results.
          (map result_owner results ≡ map player_owner state.players)
          × Distinct placement_key results
          × All
              (λ result. (1 ≤ result.placement) × (result.placement ≤ length state.players))
              results)
        (build_player_results state completed_at)
unfolding build_player_results CoversPlayers
build_player_results-Placed state completed_at d =
    then-Ensures _ _ (standings-Covers state) λ standings covers.
      let all_placed = placed state standings completed_at state.players covers.each_one in
      returns (
        result_owners state standings completed_at state.players,
        placements-Distinct state standings completed_at state.players d all_placed,
        rw (covers.as_many) at
            (placements-in_range state standings completed_at state.players all_placed),
      )
