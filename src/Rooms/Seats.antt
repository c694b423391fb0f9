-- ===== src/Rooms/Seats.antt =====
-- The seats that players get: src/rooms/services/rooms-lobby.service.ts.
use livepoly_server.Base.{
  ℕ, zero, suc, ◌+◌, ◌≤◌, ◌<◌, ◌≡◌, refl, sym, Bool, true, false, ◌⊎◌, some, List, includes, not,
  arith, Bool-cases, inl, inr, some_eq, none_ne_some,
}
use livepoly_server.Outcomes.{Gives, gives, after-Gives, or_fail-done, fail_if-done, done_eq}
use livepoly_server.Rooms.{
  Room, JoinedRoomPlayer, waiting, status_is, seats_of, free_seat_from, find_first_free_seat,
  is_expired_waiting_room, join_room,
}

-- The first free seat of the seats from `first` below `last`.
record IsFirstFree (occupied : List ℕ) (first last seat : ℕ) : Type 0 where
  at_least : first ≤ seat
  below : seat < last
  is_free : includes occupied seat ≡ false
  others_taken : (other : ℕ) → first ≤ other → other < seat → includes occupied other ≡ true

le_cases : (m n : ℕ) → m ≤ n → (m ≡ n) ⊎ (suc m ≤ n)
le_cases m n h = omega arith

none_between : (first seat other : ℕ) → first ≡ seat → first ≤ other → ¬ (other < seat)
none_between first seat other e le lt = omega arith

not-false : (b : Bool) → not b ≡ false → b ≡ true
not-false true e = refl
not-false false e = sym e

free_seat_from-First :
    (seats first : ℕ) (occupied : List ℕ) {seat : ℕ}
    → free_seat_from seats first occupied ≡ some seat
    → IsFirstFree occupied first (first + seats) seat
unfolding free_seat_from
free_seat_from-First zero first occupied e = absurd (none_ne_some e)
free_seat_from-First (suc seats) first occupied {seat} e =
    elim (Bool-cases (includes occupied first)) [
      | inl t ↦
          let rest = free_seat_from-First seats (suc first) occupied {seat = seat} (rw t at e) in
          record {
            at_least = omega (arith, rest.at_least);
            below = omega (arith, rest.below);
            is_free = rest.is_free;
            others_taken = λ other le lt. elim (le_cases first other le) [
              | inl same ↦ rw (← same) t
              | inr more ↦ rest.others_taken other more lt
            ];
          }
      | inr t ↦
          let same : first ≡ seat = some_eq (rw t at e) in
          record {
            at_least = omega arith;
            below = omega arith;
            is_free = rw (← same) t;
            others_taken = λ other le lt. absurd (none_between first seat other same le lt);
          }
    ]

-- A user who joins gets a seat from 1 to 4 that is free, and every lower seat is taken; the room is
-- waiting and has not expired.
pub join_room-FirstFree :
    (now : ℕ) (has_active_room seat_is_taken : Bool) (room : Room) (joined : List JoinedRoomPlayer)
    → Gives
        (λ seat.
          (1 ≤ seat)
          × (seat ≤ 4)
          × (includes (seats_of joined) seat ≡ false)
          × ((other : ℕ) → 1 ≤ other → other < seat → includes (seats_of joined) other ≡ true)
          × (status_is room.status waiting ≡ true)
          × (is_expired_waiting_room now room ≡ false))
        (join_room now has_active_room seat_is_taken (some room) joined)
unfolding join_room find_first_free_seat
join_room-FirstFree now has_active_room seat_is_taken room joined = after-Gives _ _ λ _ _.
    after-Gives _ _ λ found same. after-Gives _ _ λ _ open_room. after-Gives _ _ λ _ fresh_room.
      after-Gives _ _ λ seat free. after-Gives _ _ λ _ _.
        let first = free_seat_from-First 4 1 (seats_of joined) (or_fail-done _ _ free) in
        let here : found ≡ room = sym (done_eq same) in
        gives (
          first.at_least,
          omega (arith, first.below),
          first.is_free,
          first.others_taken,
          rw here at (not-false (status_is found.status waiting) (fail_if-done _ _ open_room)),
          rw here at (fail_if-done _ _ fresh_room),
        )
