-- ===== src/Turns/Next.antt =====
-- Who plays next: `findNextActivePlayer` and `endTurn` of src/game/engine/game-engine-turns.ts.
use livepoly_server.Base.{
  ℕ, suc, ◌+◌, ◌≡◌, refl, Bool, true, false, not, none, some, ◌⊎◌, inl, inr, List, [], ◌∷◌, All,
  filter, All-sort_by, All-get_elem?, get_elem?, if◌then◌else◌,
}
use livepoly_server.Types.{GameEngineState, GameEnginePlayer, awaiting_roll}
use livepoly_server.Ensures.{
  Ensures, returns, bind-Ensures, then-Ensures, if-Ensures, or_throw-Ensures,
}
use livepoly_server.Turns.{get_active_players, next_in, find_next_active_player, end_turn, seat_le}

-- A player of a list.
abbrev pub IsAmong : List GameEnginePlayer → GameEnginePlayer → Type 0
IsAmong players player = (i : ℕ) × (get_elem? players i ≡ some player)

-- A player of a list who is not bankrupt.
abbrev pub IsSolventAmong : List GameEnginePlayer → GameEnginePlayer → Type 0
IsSolventAmong players player = IsAmong players player × (player.bankrupt ≡ false)

All-more :
    (p : GameEnginePlayer) (all_players players : List GameEnginePlayer)
    → All (IsAmong all_players) players
    → All (IsAmong (p ∷ all_players)) players
All-more p all_players [] h = tt
All-more p all_players (q ∷ qs) ((i, e), h) = ((suc i, e), All-more p all_players qs h)

All-IsAmong : (players : List GameEnginePlayer) → All (IsAmong players) players
All-IsAmong [] = tt
All-IsAmong (p ∷ ps) = ((0, refl), All-more p ps ps (All-IsAmong ps))

solvent-All :
    (all_players players : List GameEnginePlayer)
    → All (IsAmong all_players) players
    → All (IsSolventAmong all_players) (filter (λ player. not player.bankrupt) players)
solvent-All all_players [] h = tt
solvent-All all_players (p ∷ ps) h = kept p.bankrupt refl (solvent-All all_players ps h.1)
  where
    kept :
        (b : Bool)
        → p.bankrupt ≡ b
        → All (IsSolventAmong all_players) (filter (λ player. not player.bankrupt) ps)
        → All (IsSolventAmong all_players) (
            if not b
            then p ∷ filter (λ player. not player.bankrupt) ps
            else filter (λ player. not player.bankrupt) ps)
    kept true e rest = rest
    kept false e rest = ((h.0, e), rest)

active_players-All :
    (state : GameEngineState) → All (IsSolventAmong state.players) (get_active_players state)
active_players-All state =
    All-sort_by seat_le (IsSolventAmong state.players) _
      (solvent-All state.players state.players (All-IsAmong state.players))

next_in-All :
    (P : GameEnginePlayer → Type 0) (players : List GameEnginePlayer) (current : ℕ)
    → All P players
    → Ensures P (next_in players current)
unfolding next_in
next_in-All P players current a =
    bind-Ensures _ _
      λ _ _. bind-Ensures _ _ λ i _. or_throw-Ensures _ _ λ player e. All-get_elem? P players _ a e

-- After doubles the turn stays, with its number; otherwise it goes on to a player of the game who is
-- not bankrupt, with the next number. Either way he may roll, and no trade offer is left.
abbrev pub TurnEnds : GameEngineState → GameEngineState → Type 0
TurnEnds state next =
    (next.phase ≡ awaiting_roll)
    × (next.trade_offer ≡ none)
    × (((state.should_current_player_play_again ≡ true)
          × (next.current_turn_room_player_id ≡ state.current_turn_room_player_id)
          × (next.turn_number ≡ state.turn_number))
        ⊎ ((state.should_current_player_play_again ≡ false)
            × ((player : GameEnginePlayer) × IsSolventAmong state.players player
                × (player.room_player_id ≡ next.current_turn_room_player_id)
                × (next.turn_number ≡ state.turn_number + 1))))

-- The end of a turn either throws, or, where the player may play again after doubles, leaves the turn
-- with him, or else hands it to a player of the game who is not bankrupt and counts one turn more.
-- The next player may roll, and no trade offer is left.
pub end_turn-TurnEnds :
    (state : GameEngineState) (id : ℕ)
    → Ensures (λ result. TurnEnds state result.state) (end_turn state id)
unfolding end_turn find_next_active_player
end_turn-TurnEnds state id =
    if-Ensures state.should_current_player_play_again _ _
      (λ again. returns (refl, refl, inl (again, refl, refl)))
      (λ over.
        then-Ensures _ _
          (next_in-All (IsSolventAmong state.players) (get_active_players state)
            state.current_turn_room_player_id (active_players-All state))
          λ player solvent. returns (refl, refl, inr (over, (player, solvent, refl, refl))))
