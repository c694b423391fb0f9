-- ===== src/Board/Size.antt =====
-- The size of the board, the place of the jail and the range of the tiles' indices.
use livepoly_server.Base.{
  ℕ, ◌<◌, ◌≡◌, refl, some, All, All-find, All-get_elem?, length, ◌==◌, arith,
}
use livepoly_server.Types.{GameBoardKey, ok, or_throw-ok}
use livepoly_server.Board.{
  GameTile, get_game_board, find_tile, get_tile, tile_index_of, tile_key_of,
}

pub board_size : (key : GameBoardKey) → length (get_game_board key).tiles ≡ 40
unfolding get_game_board
board_size GameBoardKey.classic = refl

pub jail-lt-size : (key : GameBoardKey) → (get_game_board key).jail_position < 40
unfolding get_game_board
jail-lt-size GameBoardKey.classic = omega arith

abbrev pub IsIndexed : GameTile → Type 0
IsIndexed tile = tile_index_of tile < 40

pub tiles-IsIndexed : (key : GameBoardKey) → All IsIndexed (get_game_board key).tiles
unfolding get_game_board
tiles-IsIndexed GameBoardKey.classic = omega arith

pub find_tile-IsIndexed :
    (key : GameBoardKey) (tile_key : ℕ) {tile : GameTile}
    → find_tile (get_game_board key) tile_key ≡ some tile
    → IsIndexed tile
unfolding find_tile
find_tile-IsIndexed key tile_key {tile} e =
    All-find IsIndexed (λ t. tile_key_of t == tile_key) (get_game_board key).tiles
      (tiles-IsIndexed key) e

pub get_tile-IsIndexed :
    (key : GameBoardKey) (position : ℕ) {tile : GameTile}
    → get_tile (get_game_board key) position ≡ ok tile
    → IsIndexed tile
unfolding get_tile
get_tile-IsIndexed key position e =
    All-get_elem? IsIndexed (get_game_board key).tiles position (tiles-IsIndexed key)
      (or_throw-ok _ _ e)
