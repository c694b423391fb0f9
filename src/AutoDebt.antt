-- ===== src/AutoDebt.antt =====
-- Automatic payment of a debt: src/game/engine/game-engine-auto-debt.ts.
pub mod Rounds
use livepoly_server.Base.{
  ℕ, zero, suc, ◌+◌, Bool, true, false, Option, none, some, List, [], ◌∷◌, ◌++◌, map, not, ◌&&◌,
  ◌||◌, leb, ltb, ◌==◌, all, filter, find, includes, sort_by, sum_by, if◌then◌else◌,
}
use livepoly_server.Types.{
  GameEngineState, GameEngineProperty, GameEngineDebt, GameEngineResult, GameEngineEvent,
  awaiting_debt_resolution, phase_is, Result, ok, err, ◌>>=◌, ◌>>◌, throw_if,
  debt_resolution_required, plain_error,
}
use livepoly_server.Board.{GameTile, get_game_board, find_tile, set_tiles_of}
use livepoly_server.Store.{find_player, is_owned_by}
use livepoly_server.Mortgage.{has_building, mortgage_property, owes}
use livepoly_server.Buildings.{sell_building}
use livepoly_server.Debt.{pay_debt}
use livepoly_server.Bankruptcy.{declare_bankruptcy}

unfoldable pub assert_active_debt : GameEngineState → ℕ → Result (Unit {0})
assert_active_debt state room_player_id =
    throw_if
      (not (phase_is state.phase awaiting_debt_resolution) || not (owes state.debt room_player_id))
      debt_resolution_required

abbrev is_covered : Option GameEngineDebt → ℕ → Bool
is_covered none cash = false
is_covered (some debt) cash = leb debt.amount cash

unfoldable pub can_pay_debt : GameEngineState → ℕ → Result Bool
unfolding find_player
can_pay_debt state room_player_id =
    find_player state room_player_id >>= λ player. ok (is_covered state.debt player.cash)

-- The comparison is at most 0: hotels first, then the most houses.
abbrev sells_before : GameEngineProperty → GameEngineProperty → Bool
sells_before left right =
    if left.has_hotel
    then (if right.has_hotel then leb right.house_count left.house_count else true)
    else (if right.has_hotel then false else leb right.house_count left.house_count)

abbrev first_property : List GameEngineProperty → Option GameEngineProperty
first_property [] = none
first_property (property ∷ properties) = some property

unfoldable pub find_building_to_sell : GameEngineState → ℕ → Option GameEngineProperty
find_building_to_sell state room_player_id = first_property (
    sort_by sells_before (
      filter
        (λ property.
          is_owned_by property room_player_id && (property.has_hotel || ltb 0 property.house_count))
        state.properties))

unfoldable pub can_mortgage_tile : GameEngineState → List GameTile → GameTile → Bool
can_mortgage_tile state board_tiles (GameTile.airport tile) = true
can_mortgage_tile state board_tiles (GameTile.utility tile) = true
can_mortgage_tile state board_tiles (GameTile.property tile) =
    let set_tile_keys = map (λ set_tile. set_tile.key) (set_tiles_of board_tiles tile.set_key) in
    all (λ property. not property.has_hotel && (property.house_count == 0))
      (filter (λ property. includes set_tile_keys property.tile_key) state.properties)
can_mortgage_tile state board_tiles _ = false

unfoldable pub is_property_to_mortgage : GameEngineState → ℕ → GameEngineProperty → Bool
unfolding can_mortgage_tile
is_property_to_mortgage state room_player_id property =
    let board = get_game_board state.board_key in
    if not (is_owned_by property room_player_id)
      || (property.mortgaged || (property.has_hotel || ltb 0 property.house_count))
    then false
    else elim (find_tile board property.tile_key) [
      | none ↦ false
      | some tile ↦ can_mortgage_tile state board.tiles tile
    ]

unfoldable pub find_property_to_mortgage : GameEngineState → ℕ → Option GameEngineProperty
unfolding is_property_to_mortgage
find_property_to_mortgage state room_player_id =
    find (is_property_to_mortgage state room_player_id) state.properties

-- What one round of the `while` loop does.
pub data Liquidation : Type 0 where
  sell : ℕ → Liquidation
  mortgage : ℕ → Liquidation
  stop : Liquidation

unfoldable pub next_liquidation : GameEngineState → ℕ → Liquidation
next_liquidation state room_player_id = elim (find_building_to_sell state room_player_id) [
  | some building ↦ sell building.tile_key
  | none ↦ elim (find_property_to_mortgage state room_player_id) [
    | some property ↦ mortgage property.tile_key
    | none ↦ stop
  ]
]

-- One round: `none` is `break`.
unfoldable pub run_liquidation :
    Liquidation → GameEngineState → ℕ → Result (Option GameEngineResult)
run_liquidation (sell tile_key) state room_player_id =
    sell_building state room_player_id tile_key >>= λ result. ok (some result)
run_liquidation (mortgage tile_key) state room_player_id =
    mortgage_property state room_player_id tile_key >>= λ result. ok (some result)
run_liquidation stop state room_player_id = ok none

-- The `while` loop on fuel. The inner `none` means that the fuel ran out.
unfoldable pub liquidate_from :
    ℕ → GameEngineState → ℕ → List GameEngineEvent → Result (Option GameEngineResult)
liquidate_from zero state room_player_id events = ok none
liquidate_from (suc fuel) state room_player_id events =
    can_pay_debt state room_player_id >>= λ paid. elim paid [
      | true ↦ ok (some (record { state = state; events = events }))
      | false ↦
          run_liquidation (next_liquidation state room_player_id) state room_player_id >>= λ round.
          elim round [
            | none ↦ ok (some (record { state = state; events = events }))
            | some result ↦
                liquidate_from fuel result.state room_player_id (events ++ result.events)
          ]
    ]

-- After the loop: the debt is paid, or the player is bankrupt.
unfoldable pub settle_after : GameEngineResult → ℕ → Result GameEngineResult
settle_after liquidation room_player_id = do
  let state = liquidation.state
  paid ← can_pay_debt state room_player_id
  result ←
      if paid
      then pay_debt state room_player_id
      else declare_bankruptcy state room_player_id (creditor_of state.debt)
  ok (record { state = result.state; events = liquidation.events ++ result.events })
  where
    creditor_of : Option GameEngineDebt → Option ℕ
    creditor_of none = none
    creditor_of (some debt) = debt.creditor_room_player_id

-- The rounds that a property can still give: a hotel counts for five houses.
abbrev pub rounds_left : GameEngineProperty → ℕ
rounds_left property =
    property.house_count
    + (if property.has_hotel then 5 else 0)
    + (if property.mortgaged then 0 else 1)

-- More fuel than the loop can use.
abbrev pub liquidation_fuel : GameEngineState → ℕ
liquidation_fuel state = suc (sum_by rounds_left state.properties)

unfoldable pub auto_resolve_debt : GameEngineState → ℕ → Result GameEngineResult
auto_resolve_debt state room_player_id = do
  assert_active_debt state room_player_id
  liquidation ← liquidate_from (liquidation_fuel state) state room_player_id []
  elim liquidation [ none ↦ err plain_error | some done ↦ settle_after done room_player_id ]
