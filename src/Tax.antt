-- ===== src/Tax.antt =====
-- Tax tiles: src/game/engine/game-engine-tax.ts.
use livepoly_server.Base.{ℕ, none, [], ◌∷◌, if◌then◌else◌}
use livepoly_server.Types.{
  GameEngineState, GameEngineDebtReason, GameEngineResult, GameEngineEvent, Result, ok, err, ◌>>=◌,
  or_throw, tile_not_ownable,
}
use livepoly_server.Board.{GameTile, TaxTile, get_game_board, find_tile}
use livepoly_server.Money.{debit_player_or_create_debt}

unfoldable pub get_tax_tile : GameEngineState → ℕ → Result TaxTile
get_tax_tile state tile_key =
    or_throw (find_tile (get_game_board state.board_key) tile_key) tile_not_ownable >>= as_tax_tile
  where
    as_tax_tile : GameTile → Result TaxTile
    as_tax_tile (GameTile.tax tile) = ok tile
    as_tax_tile _ = err tile_not_ownable

unfoldable pub pay_tax : GameEngineState → ℕ → ℕ → Result GameEngineResult
pay_tax state room_player_id tile_key = do
  tile ← get_tax_tile state tile_key
  payment_result ←
      debit_player_or_create_debt state room_player_id tile.amount GameEngineDebtReason.tax none
  ok (record {
    state = payment_result.state;
    events =
        if payment_result.paid
        then GameEngineEvent.tax_paid room_player_id tile.key tile.amount ∷ []
        else payment_result.events;
  })
