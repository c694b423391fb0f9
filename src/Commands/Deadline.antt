-- ===== src/Commands/Deadline.antt =====
-- The deadline of a turn: `applyTurnDeadline` of src/game/commands/game-commands.service.ts.
use livepoly_server.Base.{
  ℕ, ◌+◌, ◌<◌, ◌≤◌, ◌≡◌, ◌⊎◌, inl, inr, Bool-cases, some_eq, none_ne_some, refl, Bool, true, false,
  Option, none, some, ◌&&◌, ltb, arith, ◌≢◌, ◌∙◌, ==_refl, ◌==◌, ==→eq, leb, ap,
}
use livepoly_server.Types.{GameEngineState, GamePhase, phase_is}
use livepoly_server.Assertions.{is_game_terminal}
use livepoly_server.Timers.{timeout_ms, has_passed}
use livepoly_server.Commands.{apply_turn_deadline, capped, next_deadline, is_same_turn}

-- A deadline `time` that was set at `now` and `later`.
pub record IsDeadline (now later : ℕ) (previous next : GameEngineState) (time : ℕ) : Type 0 where
  -- It is at most the time of a turn ahead, unless the previous deadline is kept.
  pub in_time :
      (time ≤ later + timeout_ms)
      ⊎ ((limit : ℕ) × (previous.turn_expires_at ≡ some limit) × (time ≤ limit))
  -- Within one turn of one player and one phase, a deadline that is ahead is never put off.
  pub not_put_off :
      (limit : ℕ)
      → previous.turn_number ≡ next.turn_number
      → previous.current_turn_room_player_id ≡ next.current_turn_room_player_id
      → previous.phase ≡ next.phase
      → previous.turn_expires_at ≡ some limit
      → now < limit
      → time ≤ limit
  -- In another turn or another phase it is set anew, up to the end of the game.
  pub renewed :
      (previous.turn_number ≢ next.turn_number) ⊎ (phase_is previous.phase next.phase ≡ false)
      → (time ≡ later + timeout_ms) ⊎ (next.expires_at ≡ some time)
  -- It is not after the end of the game.
  pub before_expiry :
      (expires_at : ℕ) → next.expires_at ≡ some expires_at → 0 < expires_at → time ≤ expires_at
  -- It is ahead while the game has not expired.
  pub ahead : has_passed now next.expires_at ≡ false → now < time

capped-le : (expires_at : Option ℕ) (time : ℕ) → capped expires_at time ≤ time
unfolding capped
capped-le none time = omega arith
capped-le (some e) time = ground arith

capped-before :
    (expires_at : Option ℕ) (time e : ℕ) → expires_at ≡ some e → 0 < e → capped expires_at time ≤ e
unfolding capped
capped-before none time e same h = absurd (none_ne_some same)
capped-before (some x) time e same h = let here : x ≡ e = some_eq same in ground arith

capped-ahead :
    (expires_at : Option ℕ) (now time : ℕ)
    → has_passed now expires_at ≡ false
    → now < time
    → now < capped expires_at time
unfolding capped
capped-ahead none now time h lt = lt
capped-ahead (some x) now time h lt = ground arith

next_deadline-ahead :
    (now later : ℕ) (same : Bool) (previous : Option ℕ)
    → now ≤ later
    → now < next_deadline now later same previous
unfolding next_deadline
next_deadline-ahead now later same none h = omega arith
next_deadline-ahead now later same (some p) h = ground arith

next_deadline-kept :
    (now later limit : ℕ) (previous : Option ℕ)
    → previous ≡ some limit
    → now < limit
    → next_deadline now later true previous ≤ limit
unfolding next_deadline
next_deadline-kept now later limit none e h = absurd (none_ne_some e)
next_deadline-kept now later limit (some p) e h = let here : p ≡ limit = some_eq e in ground arith

next_deadline-in_time :
    (now later : ℕ) (same : Bool) (previous : Option ℕ)
    → (next_deadline now later same previous ≤ later + timeout_ms)
      ⊎ ((limit : ℕ) × (previous ≡ some limit) × (next_deadline now later same previous ≤ limit))
unfolding next_deadline
next_deadline-in_time now later same none = inl (omega arith)
next_deadline-in_time now later same (some p) = elim (Bool-cases (same && ltb now p)) [
  | inl t ↦ inr (p, refl, rw t (omega arith))
  | inr t ↦ inl (rw t (omega arith))
]

next_deadline-anew :
    (now later : ℕ) (previous : Option ℕ)
    → next_deadline now later false previous ≡ later + timeout_ms
unfolding next_deadline
next_deadline-anew now later none = refl
next_deadline-anew now later (some p) = refl

phase_is-same : (phase other : GamePhase) → phase ≡ other → phase_is phase other ≡ true
phase_is-same phase other e = rw e (==_refl _)

same_turn :
    (previous next : GameEngineState)
    → previous.turn_number ≡ next.turn_number
    → previous.current_turn_room_player_id ≡ next.current_turn_room_player_id
    → previous.phase ≡ next.phase
    → is_same_turn previous next ≡ true
same_turn previous next number player phase =
    rw
      (
        number,
        player,
        ==_refl next.turn_number,
        ==_refl next.current_turn_room_player_id,
        phase_is-same previous.phase next.phase phase,
      )
      refl

other_turn :
    (previous next : GameEngineState)
    → (previous.turn_number ≢ next.turn_number) ⊎ (phase_is previous.phase next.phase ≡ false)
    → is_same_turn previous next ≡ false
other_turn previous next (inl differ) =
    elim (Bool-cases (previous.turn_number == next.turn_number)) [
      | inl t ↦ absurd (differ (==→eq previous.turn_number next.turn_number t))
      | inr t ↦ rw t refl
    ]
other_turn previous next (inr differ) = ground (arith, differ)

capped-anew :
    (expires_at : Option ℕ) (time : ℕ)
    → (capped expires_at time ≡ time) ⊎ (expires_at ≡ some (capped expires_at time))
unfolding capped
capped-anew none time = inl refl
capped-anew (some e) time = elim (Bool-cases (e == 0)) [
  | inl t ↦ inl (rw t refl)
  | inr t ↦ rw t (elim (Bool-cases (leb time e)) [
    | inl le ↦ inl (ground (arith, le))
    | inr gt ↦ inr (ap some (ground (arith, gt)))
  ])
]

-- After a command, a game that is over has no deadline, and any other game has one: it is at most 90
-- seconds ahead unless the previous one is kept, a deadline that is ahead is not put off while turn,
-- player and phase stay, in another turn or phase it is set anew, 90 seconds ahead or at the end of
-- the game, it is not after the end of the game, and it is ahead while the game has not expired. The
-- clock does not go back between its two readings.
pub apply_turn_deadline-IsDeadline :
    (now later : ℕ) (previous next : GameEngineState)
    → now ≤ later
    → ((is_game_terminal next ≡ true)
        × ((apply_turn_deadline now later previous next).turn_expires_at ≡ none))
      ⊎ ((time : ℕ) × ((apply_turn_deadline now later previous next).turn_expires_at ≡ some time)
          × IsDeadline now later previous next time)
unfolding apply_turn_deadline
apply_turn_deadline-IsDeadline now later previous next h =
    elim (Bool-cases (is_game_terminal next)) [
      | inl t ↦ inl (t, rw t refl)
      | inr t ↦ inr (
        capped next.expires_at before_cap,
        rw t refl,
        record {
          in_time =
              elim (next_deadline-in_time now later (is_same_turn previous next)
                previous.turn_expires_at) [
                  | inl le ↦ inl (omega (arith, capped-le next.expires_at before_cap))
                  | inr (limit, e, le) ↦
                      inr (limit, e, omega (arith, capped-le next.expires_at before_cap))
                ];
          not_put_off = λ limit number player phase e lt. omega (
            arith,
            capped-le next.expires_at before_cap,
            kept limit (same_turn previous next number player phase) e lt,
          );
          renewed = λ differ. anew (other_turn previous next differ);
          before_expiry = capped-before next.expires_at before_cap;
          ahead = λ active. capped-ahead next.expires_at now before_cap active (
              next_deadline-ahead now later (is_same_turn previous next) previous.turn_expires_at
                h);
        },
      )
    ]
  where
    before_cap : ℕ
    before_cap = next_deadline now later (is_same_turn previous next) previous.turn_expires_at

    kept :
        (limit : ℕ)
        → is_same_turn previous next ≡ true
        → previous.turn_expires_at ≡ some limit
        → now < limit
        → next_deadline now later (is_same_turn previous next) previous.turn_expires_at ≤ limit
    kept limit same e lt =
        rw same (next_deadline-kept now later limit previous.turn_expires_at e lt)

    anew :
        is_same_turn previous next ≡ false
        → (capped next.expires_at before_cap ≡ later + timeout_ms)
          ⊎ (next.expires_at ≡ some (capped next.expires_at before_cap))
    anew other = elim (capped-anew next.expires_at before_cap) [
      | inl e ↦ inl (e ∙ (rw other (next_deadline-anew now later previous.turn_expires_at)))
      | inr e ↦ inr e
    ]
