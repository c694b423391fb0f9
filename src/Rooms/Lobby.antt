-- ===== src/Rooms/Lobby.antt =====
-- Seats of a room: `joinRoom`, `findFirstFreeSeat`, `isExpiredWaitingRoom` and
-- `getCurrentUserAccess` of src/rooms/services/rooms-lobby.service.ts. Events, streams and the
-- payload for display are left out.
use livepoly_server.Base.{
  ℕ, zero, suc, ◌+◌, ◌*◌, Bool, Option, none, some, List, includes, not, ◌&&◌, leb, if◌then◌else◌,
}
use livepoly_server.Outcomes.{Outcome, done, after, fail_if, or_fail, not_found, conflict}
use livepoly_server.Rooms.Bots.{
  Room, JoinedRoomPlayer, waiting, status_is, has_joined, room_max_players, seats_of,
}

abbrev pub waiting_room_expiry_ms : ℕ
waiting_room_expiry_ms = 60 * 60 * 1000

-- The loop over the seats: `seats` are left, from `seat`.
unfoldable pub free_seat_from : ℕ → ℕ → List ℕ → Option ℕ
free_seat_from zero seat occupied = none
free_seat_from (suc seats) seat occupied =
    let rest = free_seat_from seats (suc seat) occupied in
    if not (includes occupied seat) then some seat else rest

unfoldable pub find_first_free_seat : List ℕ → Option ℕ
unfolding free_seat_from
find_first_free_seat occupied_seats = free_seat_from room_max_players 1 occupied_seats

unfoldable pub is_expired_waiting_room : ℕ → Room → Bool
is_expired_waiting_room now room =
    status_is room.status waiting && leb (room.created_at + waiting_room_expiry_ms) now

-- The transaction of `joinRoom`, up to the row that it inserts: the seat that the user gets.
-- `has_active_room` is what `ensureUserHasNoActiveRoom` asks the database, and `seat_is_taken` is
-- whether the insertion violates the unique index of seats.
unfoldable pub join_room : ℕ → Bool → Bool → Option Room → List JoinedRoomPlayer → Outcome ℕ
join_room now has_active_room seat_is_taken found joined =
    after (fail_if has_active_room conflict) λ _. after (or_fail found not_found) λ room.
      after (fail_if (not (status_is room.status waiting)) conflict) λ _.
        after (fail_if (is_expired_waiting_room now room) conflict) λ _.
          after (or_fail (find_first_free_seat (seats_of joined)) conflict)
            λ seat. after (fail_if seat_is_taken conflict) λ _. done seat

pub data RoomAccess : Type 0 where
  player_access spectator_access no_access : RoomAccess

unfoldable pub get_current_user_access : ℕ → List JoinedRoomPlayer → Bool → RoomAccess
get_current_user_access user_id joined is_current_spectator =
    if has_joined user_id joined
    then player_access
    else if is_current_spectator
    then spectator_access
    else no_access
