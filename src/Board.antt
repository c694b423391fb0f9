-- ===== src/Board.antt =====
-- The board: src/game/engine/game-board.ts and game-board.types.ts.
mod Tiles
mod Builders
mod Keys
mod Classic
pub mod Size
pub use Tiles.{
  PropertySetKey, set_is, BaseGameTile, PropertyTile, AirportTile, UtilityTile, TaxTile, GameTile,
  GameBoard, tile_key_of, tile_kind_of, tile_index_of, kind_is,
}
pub use Keys.*
unfoldable pub use Classic.{classic_game_board}
use livepoly_server.Base.{
  ℕ, ◌/◌, Bool, true, false, Option, List, [], ◌∷◌, find, get_elem?, ◌==◌, if◌then◌else◌,
}
use livepoly_server.Types.{GameBoardKey, Result, or_throw, plain_error}

-- `getGameBoard`: the one board key has a board, so this cannot throw.
unfoldable pub get_game_board : GameBoardKey → GameBoard
unfolding classic_game_board
get_game_board GameBoardKey.classic = classic_game_board

-- `getTile`
unfoldable pub get_tile : GameBoard → ℕ → Result GameTile
get_tile board position = or_throw (get_elem? board.tiles position) plain_error

-- `board.tiles.find((candidate) => candidate.key === tileKey)`
unfoldable pub find_tile : GameBoard → ℕ → Option GameTile
find_tile board tile_key = find (λ candidate. tile_key_of candidate == tile_key) board.tiles

-- The tiles of the kind `property` in a set, in board order.
abbrev pub set_tiles_of : List GameTile → PropertySetKey → List PropertyTile
set_tiles_of [] k = []
set_tiles_of (GameTile.property t ∷ ts) k =
    let rest = set_tiles_of ts k in if set_is t.set_key k then t ∷ rest else rest
set_tiles_of (_ ∷ ts) k = set_tiles_of ts k

-- `isOwnableTile`, `isMortgageableTile`, `isRentableTile` and `isAssetTile` are one test.
abbrev pub is_ownable_tile : GameTile → Bool
is_ownable_tile (GameTile.property t) = true
is_ownable_tile (GameTile.airport t) = true
is_ownable_tile (GameTile.utility t) = true
is_ownable_tile _ = false

-- `price` and `mortgageValue` of an ownable tile.
abbrev pub tile_price : GameTile → ℕ
tile_price (GameTile.property t) = t.price
tile_price (GameTile.airport t) = t.price
tile_price (GameTile.utility t) = t.price
tile_price _ = 0

abbrev pub tile_mortgage_value : GameTile → ℕ
tile_mortgage_value (GameTile.property t) = t.mortgage_value
tile_mortgage_value (GameTile.airport t) = t.mortgage_value
tile_mortgage_value (GameTile.utility t) = t.mortgage_value
tile_mortgage_value _ = 0

-- `tile.houseCost / 2` for a property: every house cost of the board is even.
abbrev pub half_house_cost : GameTile → ℕ
half_house_cost (GameTile.property t) = t.house_cost / 2
half_house_cost _ = 0
