-- ===== src/Board/Tiles.antt =====
-- Tiles and boards: src/game/engine/game-board.types.ts. Display names are left out.
use livepoly_server.Base.{ℕ, List, Bool, ◌==◌}
use livepoly_server.Types.{GameBoardKey, GameTileKind}

pub data PropertySetKey : Type 0 where
  brown light_blue pink orange red yellow green dark_blue : PropertySetKey

abbrev set_code : PropertySetKey → ℕ
set_code brown = 0
set_code light_blue = 1
set_code pink = 2
set_code orange = 3
set_code red = 4
set_code yellow = 5
set_code green = 6
set_code dark_blue = 7

-- `===` on set keys.
abbrev pub set_is : PropertySetKey → PropertySetKey → Bool
set_is a b = set_code a == set_code b

pub record BaseGameTile : Type 0 where
  pub index : ℕ
  pub key : ℕ

pub record PropertyTile : Type 0 where
  pub index : ℕ
  pub key : ℕ
  pub set_key : PropertySetKey
  pub price : ℕ
  pub base_rent : ℕ
  pub rent_by_house_count : List ℕ
  pub hotel_rent : ℕ
  pub house_cost : ℕ
  pub mortgage_value : ℕ

pub record AirportTile : Type 0 where
  pub index : ℕ
  pub key : ℕ
  pub price : ℕ
  pub rent_by_owned_count : List ℕ
  pub mortgage_value : ℕ

pub record UtilityTile : Type 0 where
  pub index : ℕ
  pub key : ℕ
  pub price : ℕ
  pub rent_multiplier_by_owned_count : List ℕ
  pub mortgage_value : ℕ

pub record TaxTile : Type 0 where
  pub index : ℕ
  pub key : ℕ
  pub amount : ℕ

-- A constructor for each kind of tile.
pub data GameTile : Type 0 where
  property : PropertyTile → GameTile
  airport : AirportTile → GameTile
  utility : UtilityTile → GameTile
  tax : TaxTile → GameTile
  go chance world_fund jail free_parking go_to_jail : BaseGameTile → GameTile

pub record GameBoard : Type 0 where
  pub key : GameBoardKey
  pub pass_go_cash : ℕ
  pub jail_position : ℕ
  pub tiles : List GameTile

-- `tile.key`
abbrev pub tile_key_of : GameTile → ℕ
tile_key_of (GameTile.property t) = t.key
tile_key_of (GameTile.airport t) = t.key
tile_key_of (GameTile.utility t) = t.key
tile_key_of (GameTile.tax t) = t.key
tile_key_of (GameTile.go t) = t.key
tile_key_of (GameTile.chance t) = t.key
tile_key_of (GameTile.world_fund t) = t.key
tile_key_of (GameTile.jail t) = t.key
tile_key_of (GameTile.free_parking t) = t.key
tile_key_of (GameTile.go_to_jail t) = t.key

-- `tile.kind`
abbrev pub tile_kind_of : GameTile → GameTileKind
tile_kind_of (GameTile.property t) = GameTileKind.property
tile_kind_of (GameTile.airport t) = GameTileKind.airport
tile_kind_of (GameTile.utility t) = GameTileKind.utility
tile_kind_of (GameTile.tax t) = GameTileKind.tax
tile_kind_of (GameTile.go t) = GameTileKind.go
tile_kind_of (GameTile.chance t) = GameTileKind.chance
tile_kind_of (GameTile.world_fund t) = GameTileKind.world_fund
tile_kind_of (GameTile.jail t) = GameTileKind.jail
tile_kind_of (GameTile.free_parking t) = GameTileKind.free_parking
tile_kind_of (GameTile.go_to_jail t) = GameTileKind.go_to_jail

-- `tile.index`
abbrev pub tile_index_of : GameTile → ℕ
tile_index_of (GameTile.property t) = t.index
tile_index_of (GameTile.airport t) = t.index
tile_index_of (GameTile.utility t) = t.index
tile_index_of (GameTile.tax t) = t.index
tile_index_of (GameTile.go t) = t.index
tile_index_of (GameTile.chance t) = t.index
tile_index_of (GameTile.world_fund t) = t.index
tile_index_of (GameTile.jail t) = t.index
tile_index_of (GameTile.free_parking t) = t.index
tile_index_of (GameTile.go_to_jail t) = t.index

abbrev kind_code : GameTileKind → ℕ
kind_code GameTileKind.property = 0
kind_code GameTileKind.airport = 1
kind_code GameTileKind.utility = 2
kind_code GameTileKind.tax = 3
kind_code GameTileKind.go = 4
kind_code GameTileKind.chance = 5
kind_code GameTileKind.world_fund = 6
kind_code GameTileKind.jail = 7
kind_code GameTileKind.free_parking = 8
kind_code GameTileKind.go_to_jail = 9

-- `===` on kinds of tiles.
abbrev pub kind_is : GameTileKind → GameTileKind → Bool
kind_is a b = kind_code a == kind_code b
