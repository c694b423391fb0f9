-- ===== src/MissedTurns/Once.antt =====
-- Repeated counting of a missed turn: `incrementMissedTurn` of src/game/engine/game-engine-missed-turns.ts.
use livepoly_server.Base.{
  ℕ, ◌≡◌, refl, ap, true, false, Bool, List, [], ◌∷◌, Option, none, some, update_by, ◌==◌, ==_refl,
  is_key, not, ◌||◌, if◌then◌else◌, if-holds, Bool-cases, inl, inr,
}
use livepoly_server.Types.{GameEngineState, GameEnginePlayer, is_human}
use livepoly_server.Store.{player_key}
use livepoly_server.MissedTurns.{with_missed_turn, increment_missed_turn}

-- A player for whom the turn does not count, or no longer.
abbrev is_settled : ℕ → GameEnginePlayer → Bool
is_settled turn p =
    not (is_human p.player_type) || (p.bankrupt || is_key p.last_missed_turn_number turn)

at_last : (a b c : Bool) → c ≡ true → (a || (b || c)) ≡ true
at_last true b c e = refl
at_last false true c e = refl
at_last false false c e = e

with_missed_turn_twice :
    (turn : ℕ) (p : GameEnginePlayer)
    → with_missed_turn turn (with_missed_turn turn p) ≡ with_missed_turn turn p
with_missed_turn_twice turn p = elim (Bool-cases (is_settled turn p)) [
  | inl settled ↦ rw (settled, settled) refl
  | inr counts ↦
      let again : is_settled turn (with_missed_turn turn p) ≡ true =
        rw counts
          (at_last (not (is_human p.player_type)) p.bankrupt (turn == turn) (==_refl turn)) in
      rw again refl
]

with_missed_turn-key :
    (turn : ℕ) (p : GameEnginePlayer) → player_key (with_missed_turn turn p) ≡ player_key p
with_missed_turn-key turn p =
    if-holds (λ q. player_key q ≡ player_key p) (is_settled turn p) refl refl

cons_eq :
    {p q : GameEnginePlayer} {ps qs : List GameEnginePlayer} → p ≡ q → ps ≡ qs → (p ∷ ps) ≡ (q ∷ qs)
cons_eq e f = cc

update_by_twice :
    (turn id : ℕ) (players : List GameEnginePlayer)
    → update_by player_key id
        (with_missed_turn turn)
        (update_by player_key id (with_missed_turn turn) players)
      ≡ update_by player_key id (with_missed_turn turn) players
update_by_twice turn id [] = refl
update_by_twice turn id (p ∷ players) = elim (Bool-cases (player_key p == id)) [
  | inl here ↦
      let head : (if player_key (with_missed_turn turn p) == id
            then with_missed_turn turn (with_missed_turn turn p)
            else with_missed_turn turn p)
          ≡ with_missed_turn turn p =
        if-holds (λ q. q ≡ with_missed_turn turn p) (player_key (with_missed_turn turn p) == id)
          (with_missed_turn_twice turn p) refl in
      rw here (cons_eq head (update_by_twice turn id players))
  | inr there ↦ rw (there, there) (ap (λ ps. p ∷ ps) (update_by_twice turn id players))
]

-- To count a missed turn of a player once more for the same turn changes nothing.
pub increment_missed_turn_twice :
    (state : GameEngineState) (id : Option ℕ) (turn : ℕ)
    → increment_missed_turn (increment_missed_turn state id turn) id turn
      ≡ increment_missed_turn state id turn
unfolding increment_missed_turn
increment_missed_turn_twice state none turn = refl
increment_missed_turn_twice state (some id) turn =
    ap (λ players. record state { players = players }) (update_by_twice turn id state.players)
