-- ===== src/Turns/Total.antt =====
-- When a turn can end: `endTurn` of src/game/engine/game-engine-turns.ts.
use livepoly_server.Base.{
  ℕ, zero, suc, ◌+◌, ◌%◌, ◌≡◌, refl, ◌∙◌, ap, true, false, Bool, not, ◌||◌, some, List, [], ◌∷◌,
  any, filter, find_by, find_index_from, get_elem?, get_elem?_of_lt, insert_by, sort_by, length,
  arith, ◌==◌, Bool-cases, inl, inr, if◌then◌else◌, some_eq, none_ne_some,
}
use livepoly_server.Types.{GameEngineState, GameEnginePlayer, GameEngineResult, ok, ◌>>=◌}
use livepoly_server.Store.{player_key}
use livepoly_server.Turns.{
  get_active_players, next_in, find_next_active_player, end_turn, seat_le, play_again, pass_turn,
}

module _ (test : GameEnginePlayer → Bool) where
  any-insert_by :
      (x : GameEnginePlayer) (ys : List GameEnginePlayer)
      → any test (insert_by seat_le x ys) ≡ (test x || any test ys)
  any-insert_by x [] = refl
  any-insert_by x (y ∷ ys) = ground (arith, any-insert_by x ys)

  any-sort_by : (xs : List GameEnginePlayer) → any test (sort_by seat_le xs) ≡ any test xs
  any-sort_by [] = refl
  any-sort_by (x ∷ xs) =
      any-insert_by x (sort_by seat_le xs) ∙ ap (λ b. test x || b) (any-sort_by xs)

  found_index :
      (n : ℕ) (xs : List GameEnginePlayer)
      → any test xs ≡ true
      → (i : ℕ) × (find_index_from n test xs ≡ some i)
  found_index n [] e = cc
  found_index n (x ∷ xs) e = elim (Bool-cases (test x)) [
    | inl here ↦ (n, rw here refl)
    | inr there ↦ let later = found_index (suc n) xs (rw there at e) in (later.0, rw there later.1)
  ]

any_cons :
    (b c : Bool) (y : GameEnginePlayer) (rest : List GameEnginePlayer)
    (test : GameEnginePlayer → Bool)
    → any test rest ≡ true
    → any test (if b then y ∷ rest else rest) ≡ true
any_cons true c y rest test e = elim (Bool-cases (test y)) [ inl t ↦ rw t refl | inr t ↦ rw t e ]
any_cons false c y rest test e = e

-- A player who is found and passes a test is among those who pass it.
any-filter :
    (p : GameEnginePlayer → Bool) (k : ℕ) (xs : List GameEnginePlayer) {x : GameEnginePlayer}
    → find_by player_key k xs ≡ some x
    → p x ≡ true
    → any (λ q. player_key q == k) (filter p xs) ≡ true
any-filter p k [] e h = absurd (none_ne_some e)
any-filter p k (y ∷ ys) {x} e h = elim (Bool-cases (player_key y == k)) [
  | inl here ↦
      let same : y ≡ x = some_eq (rw here at e) in
      let passes : p y ≡ true = ap p same ∙ h in rw (passes, here) refl
  | inr there ↦
      any_cons (p y) true y (filter p ys) (λ q. player_key q == k)
        (any-filter p k ys {x = x} (rw there at e) h)
]

next_at :
    (p : GameEnginePlayer) (players : List GameEnginePlayer) (current i : ℕ) {q : GameEnginePlayer}
    → find_index_from 0 (λ r. player_key r == current) (p ∷ players) ≡ some i
    → get_elem? (p ∷ players) ((i + 1) % length (p ∷ players)) ≡ some q
    → next_in (p ∷ players) current ≡ ok q
unfolding next_in ◌>>=◌
next_at p players current i found at_index =
    let nonempty : (length (p ∷ players) == 0) ≡ false = ground arith in
    rw (nonempty, found, at_index) refl

next_in-Returns :
    (players : List GameEnginePlayer) (current : ℕ)
    → any (λ q. player_key q == current) players ≡ true
    → (player : GameEnginePlayer) × (next_in players current ≡ ok player)
next_in-Returns [] current e = cc
next_in-Returns (p ∷ players) current e =
    let index = found_index (λ q. player_key q == current) zero (p ∷ players) e in
    let next = get_elem?_of_lt (p ∷ players) ((index.0 + 1) % length (p ∷ players)) (omega arith) in
    (next.0, next_at p players current index.0 index.1 next.1)

-- While the player whose turn it is plays in the game and is not bankrupt, the end of a turn never
-- throws.
pub end_turn-Returns :
    (state : GameEngineState) (id : ℕ) (p : GameEnginePlayer)
    → find_by player_key state.current_turn_room_player_id state.players ≡ some p
    → p.bankrupt ≡ false
    → (result : GameEngineResult) × (end_turn state id ≡ ok result)
unfolding end_turn find_next_active_player ◌>>=◌
end_turn-Returns state id p found solvent =
    let among : any (λ q. player_key q == state.current_turn_room_player_id)
          (get_active_players state)
        ≡ true =
      any-sort_by (λ q. player_key q == state.current_turn_room_player_id)
        (filter (λ player. not player.bankrupt) state.players)
      ∙ any-filter (λ player. not player.bankrupt) state.current_turn_room_player_id state.players
          found (rw solvent refl) in
    let next = next_in-Returns (get_active_players state) state.current_turn_room_player_id among in
    elim (Bool-cases state.should_current_player_play_again) [
      | inl again ↦ (play_again state id, rw again refl)
      | inr passes ↦ (pass_turn state id next.0, rw (passes, next.1) refl)
    ]
