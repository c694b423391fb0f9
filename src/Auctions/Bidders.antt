-- ===== src/Auctions/Bidders.antt =====
-- Who may bid next: the searches of src/game/engine/game-engine-auctions.ts.
use livepoly_server.Base.{
  ℕ, zero, suc, ◌+◌, ◌%◌, Bool, true, false, Option, none, some, List, [], ◌∷◌, not, ◌&&◌, leb,
  ◌==◌, is_key, filter, find, find_index_from, includes, length, get_elem?, if◌then◌else◌,
}
use livepoly_server.Types.{GameEngineAuction}

-- `ids[0] ?? null`
abbrev pub first_of : List ℕ → Option ℕ
first_of [] = none
first_of (id ∷ ids) = some id

-- `Array.from(new Set(keys))`: the first of equal keys is kept.
abbrev pub unique : List ℕ → List ℕ
unique [] = []
unique (k ∷ ks) = k ∷ filter (λ j. not (j == k)) (unique ks)

-- The players who have not passed.
abbrev pub active_bidders : GameEngineAuction → List ℕ
active_bidders auction =
    filter (λ id. not (includes auction.passed_room_player_ids id)) auction.active_room_player_ids

-- Active in the auction, and not passed.
abbrev pub is_bidder : GameEngineAuction → ℕ → Bool
is_bidder auction id =
    includes auction.active_room_player_ids id && not (includes auction.passed_room_player_ids id)

abbrev first_bidder : GameEngineAuction → Option ℕ
first_bidder auction =
    find (λ id. not (includes auction.passed_room_player_ids id)) auction.active_room_player_ids

unfoldable pub get_current_auction_bidder_room_player_id : GameEngineAuction → Option ℕ
get_current_auction_bidder_room_player_id auction = elim auction.current_bidder_room_player_id [
  | none ↦ first_bidder auction
  | some id ↦ if is_bidder auction id then some id else first_bidder auction
]

-- `activeRoomPlayerIds.indexOf(id) + 1`
abbrev pub index_after : List ℕ → ℕ → ℕ
index_after ids id = elim (find_index_from 0 (λ j. j == id) ids) [ none ↦ 0 | some i ↦ suc i ]

-- The loop over the offsets: `rounds` are left, and `start` is the index at the first offset.
unfoldable pub next_bidder_from : ℕ → ℕ → GameEngineAuction → Option ℕ
next_bidder_from zero start auction = none
next_bidder_from (suc rounds) start auction =
    let rest = next_bidder_from rounds (suc start) auction in
    elim (get_elem? auction.active_room_player_ids
      (start % length auction.active_room_player_ids)) [
        | none ↦ rest
        | some candidate ↦ elim (includes auction.passed_room_player_ids candidate) [
          | true ↦ rest
          | false ↦
              if leb (length (active_bidders auction)) 1
                && is_key auction.highest_bidder_room_player_id candidate
              then none
              else some candidate
        ]
      ]

unfoldable pub get_next_auction_bidder_room_player_id : GameEngineAuction → ℕ → Option ℕ
unfolding next_bidder_from
get_next_auction_bidder_room_player_id auction current_room_player_id =
    let ids = auction.active_room_player_ids in
    if length (active_bidders auction) == 0
    then none
    else next_bidder_from (length ids) (index_after ids current_room_player_id + length ids) auction
