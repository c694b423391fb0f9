-- ===== src/Movement.antt =====
-- Rolling and moving: src/game/engine/game-engine-movement.ts.
use livepoly_server.Base.{
  ℕ, ◌+◌, ◌%◌, Bool, true, false, none, some, List, [], ◌∷◌, ◌++◌, not, ◌&&◌, leb, find_by, length,
  if◌then◌else◌,
}
use livepoly_server.Types.{
  GameEngineState, GameEnginePlayer, GameEngineResult, GameEngineEvent, GameCardDeckKey,
  awaiting_turn_end, awaiting_property_decision, Result, ok, ◌>>=◌,
}
use livepoly_server.Board.{
  GameTile, GameBoard, get_game_board, get_tile, is_ownable_tile, tile_key_of, tile_kind_of,
}
use livepoly_server.Store.{property_key, find_player, update_player}
use livepoly_server.Dice.{is_doubles, apply_doubles_state, is_third_consecutive_doubles}
use livepoly_server.Jail.Send.{send_player_to_jail}
use livepoly_server.Jail.{resolve_jailed_roll, without_doubles}
use livepoly_server.Cards.{draw_and_apply_card, is_unowned}
use livepoly_server.Rent.{pay_rent}
use livepoly_server.Tax.{pay_tax}

-- The third doubles in a row.
unfoldable pub roll_third_doubles : GameEngineState → ℕ → ℕ × ℕ → GameEngineResult
roll_third_doubles state room_player_id dice =
    let jailed = send_player_to_jail (apply_doubles_state state dice) room_player_id in
    record {
      state = without_doubles (record (jailed.state) { last_dice_roll = some dice });
      events =
          GameEngineEvent.player_rolled_doubles room_player_id 3
          ∷ GameEngineEvent.player_rolled_third_doubles room_player_id
          ∷ jailed.events;
    }

-- `{ ...player, position, cash }`, on a board of `size` tiles.
abbrev pub moved_by : ℕ → ℕ → ℕ → GameEnginePlayer → GameEnginePlayer
moved_by steps size pass_go_cash player = record player {
  position = (player.position + steps) % size;
  cash = if leb size (player.position + steps) then player.cash + pass_go_cash else player.cash;
}

-- The events of the move before those of the tile. The source collects them while it maps over the
-- players, which gives them once where ids are distinct.
abbrev move_events :
    GameBoard
    → GameEngineState
    → ℕ
    → ℕ × ℕ
    → Bool
    → GameEnginePlayer
    → GameTile
    → List GameEngineEvent
move_events board doubles_state room_player_id dice announces_doubles player landed_tile =
    let absolute = player.position + (dice.0 + dice.1) in
    (if announces_doubles
      then GameEngineEvent.player_rolled_doubles room_player_id
          doubles_state.consecutive_doubles_count
        ∷ []
      else [])
    ++ (GameEngineEvent.player_moved room_player_id player.position (absolute % length board.tiles)
          dice
        ∷ ((if leb (length board.tiles) absolute
              then GameEngineEvent.player_passed_go room_player_id board.pass_go_cash ∷ []
              else [])
            ++ (GameEngineEvent.player_landed_on_tile room_player_id (tile_key_of landed_tile)
                  (tile_kind_of landed_tile)
                ∷ [])))

-- Past a decision that is pending, the rent of the tile is due.
unfoldable pub land_elsewhere : GameEngineState → ℕ → ℕ × ℕ → GameTile → Result GameEngineResult
land_elsewhere moved_state room_player_id dice tile = elim moved_state.pending_tile_key [
  | some key ↦ ok (record { state = moved_state; events = [] })
  | none ↦ pay_rent moved_state room_player_id (tile_key_of tile) dice
]

-- What happens on the tile that the roll leads to.
unfoldable pub land_by_roll : GameEngineState → ℕ → ℕ × ℕ → GameTile → Result GameEngineResult
land_by_roll moved_state room_player_id dice (GameTile.go_to_jail tile) =
    let jailed = send_player_to_jail moved_state room_player_id in
    ok (record { state = without_doubles (jailed.state); events = jailed.events })
land_by_roll moved_state room_player_id dice (GameTile.chance tile) =
    draw_and_apply_card moved_state room_player_id GameCardDeckKey.chance
land_by_roll moved_state room_player_id dice (GameTile.world_fund tile) =
    draw_and_apply_card moved_state room_player_id GameCardDeckKey.world_fund
land_by_roll moved_state room_player_id dice (GameTile.tax tile) =
    pay_tax moved_state room_player_id tile.key
land_by_roll moved_state room_player_id dice tile =
    land_elsewhere moved_state room_player_id dice tile

-- The state after the move, with the decision on an unowned tile pending.
abbrev pub moved_state_of :
    GameBoard → GameEngineState → ℕ → ℕ × ℕ → GameTile → Bool → GameEngineState
moved_state_of board doubles_state room_player_id dice landed_tile is_offered =
    update_player
      (record doubles_state {
        phase = if is_offered then awaiting_property_decision else awaiting_turn_end;
        pending_tile_key = if is_offered then some (tile_key_of landed_tile) else none;
        last_dice_roll = some dice;
      })
      room_player_id (moved_by (dice.0 + dice.1) (length board.tiles) board.pass_go_cash)

-- `rollAndMoveIgnoringJail`, past the test for the third doubles.
unfoldable pub move_by_dice : GameEngineState → ℕ → ℕ × ℕ → Bool → Result GameEngineResult
unfolding find_player
move_by_dice state room_player_id dice suppress_doubles = do
  let board = get_game_board state.board_key
  let doubles_state =
      if suppress_doubles then without_doubles state else apply_doubles_state state dice
  player ← find_player doubles_state room_player_id
  landed_tile ← get_tile board ((player.position + (dice.0 + dice.1)) % length board.tiles)
  let is_offered =
      is_ownable_tile landed_tile
      && is_unowned (find_by property_key (tile_key_of landed_tile) doubles_state.properties)
  landed ←
      land_by_roll (moved_state_of board doubles_state room_player_id dice landed_tile is_offered)
        room_player_id dice landed_tile
  ok (record {
    state = landed.state;
    events =
        move_events board doubles_state room_player_id dice
          (not suppress_doubles && is_doubles dice) player landed_tile
        ++ landed.events;
  })

unfoldable pub roll_and_move_ignoring_jail :
    GameEngineState → ℕ → ℕ × ℕ → Bool → Result GameEngineResult
roll_and_move_ignoring_jail state room_player_id dice suppress_doubles =
    elim (not suppress_doubles && is_third_consecutive_doubles state dice) [
      | true ↦ ok (roll_third_doubles state room_player_id dice)
      | false ↦ move_by_dice state room_player_id dice suppress_doubles
    ]

unfoldable pub roll_and_move : GameEngineState → ℕ → ℕ × ℕ → Result GameEngineResult
roll_and_move state room_player_id dice = do
  jailed_roll_result ←
      resolve_jailed_roll state room_player_id dice
        (λ released_state. roll_and_move_ignoring_jail released_state room_player_id dice true)
  elim jailed_roll_result [
    | some result ↦ ok result
    | none ↦ roll_and_move_ignoring_jail state room_player_id dice false
  ]
