-- ===== src/Validity/Start.antt =====
-- The first properties of a game: `createInitialPropertyState` of
-- src/game/engine/game-engine-properties.ts.
use livepoly_server.Base.{
  refl, List, [], ◌∷◌, map, filter, All, arith, is_distinct, is_distinct_sound,
}
use livepoly_server.Types.{GameBoardKey}
use livepoly_server.Board.{GameTile, get_game_board, is_ownable_tile}
use livepoly_server.Store.{property_key}
use livepoly_server.Properties.{create_initial_property_state, unowned_property}
use livepoly_server.Validity.Defs.{PropertiesValid, IsBuildable}

unowned-IsBuildable : (tiles : List GameTile) → All IsBuildable (map unowned_property tiles)
unowned-IsBuildable [] = tt
unowned-IsBuildable (tile ∷ tiles) =
    (record { houses_capped = omega arith; hotel_alone = λ _. refl }, unowned-IsBuildable tiles)

-- The properties that a game starts with have distinct tiles and no buildings.
pub initial-PropertiesValid :
    (key : GameBoardKey) → PropertiesValid (create_initial_property_state key)
unfolding create_initial_property_state get_game_board is_distinct
initial-PropertiesValid GameBoardKey.classic = (
  is_distinct_sound property_key (create_initial_property_state GameBoardKey.classic) refl,
  unowned-IsBuildable (filter is_ownable_tile (get_game_board GameBoardKey.classic).tiles),
)
