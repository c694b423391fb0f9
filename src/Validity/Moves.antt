-- ===== src/Validity/Moves.antt =====
-- The invariant across rolling and moving.
use livepoly_server.Base.{
  ℕ, ◌+◌, refl, true, false, Bool, Option, none, some, arith, [], ◌&&◌, not, length, find_by,
  if◌then◌else◌, if-holds,
}
use livepoly_server.Types.{GameEngineState, GameEngineResult, GameCardDeckKey, GameBoardKey, ok}
use livepoly_server.Ensures.{
  Ensures, returns, bind-Ensures, then-Ensures, option-Ensures, bool-Ensures,
}
use livepoly_server.Board.{GameTile, get_game_board, is_ownable_tile, tile_key_of}
use livepoly_server.Board.Size.{board_size}
use livepoly_server.Store.{property_key}
use livepoly_server.Dice.{apply_doubles_state, is_doubles, is_third_consecutive_doubles}
use livepoly_server.Jail
use livepoly_server.Cards.{is_unowned}
use livepoly_server.Movement
use livepoly_server.Rent.{pay_rent}
use livepoly_server.Validity.Defs.{IsValid, LeadsToValid}
use livepoly_server.Validity.Store.{players_update}
use livepoly_server.Validity.Charges.{
  send_player_to_jail-IsValid, pay_tax-IsValid, pay_rent-IsValid,
}
use livepoly_server.Validity.Cards.{draw_and_apply_card-IsValid}
use livepoly_server.Validity.Jail.{LeadsToValid?, resolve_jailed_roll-IsValid}

apply_doubles-IsValid :
    (state : GameEngineState) (dice : ℕ × ℕ)
    → IsValid state
    → IsValid (apply_doubles_state state dice)
unfolding apply_doubles_state
apply_doubles-IsValid state dice v = if-holds IsValid (is_doubles dice) v v

land_on-IsValid :
    (state : GameEngineState) (id : ℕ) (dice : ℕ × ℕ) (tile : GameTile)
    → IsValid state
    → Ensures LeadsToValid (Movement.land_elsewhere state id dice tile)
unfolding Movement.land_elsewhere
land_on-IsValid state id dice tile v =
    option-Ensures state.pending_tile_key (pay_rent state id (tile_key_of tile) dice)
      (λ _. ok (record { state = state; events = [] }))
      (λ _. pay_rent-IsValid state id (tile_key_of tile) dice v) (λ _ _. returns v)

land_by_roll-IsValid :
    (state : GameEngineState) (id : ℕ) (dice : ℕ × ℕ) (tile : GameTile)
    → IsValid state
    → Ensures LeadsToValid (Movement.land_by_roll state id dice tile)
unfolding Movement.land_by_roll
land_by_roll-IsValid state id dice (GameTile.go_to_jail tile) v =
    returns (send_player_to_jail-IsValid state id v)
land_by_roll-IsValid state id dice (GameTile.chance tile) v =
    draw_and_apply_card-IsValid state id GameCardDeckKey.chance v
land_by_roll-IsValid state id dice (GameTile.world_fund tile) v =
    draw_and_apply_card-IsValid state id GameCardDeckKey.world_fund v
land_by_roll-IsValid state id dice (GameTile.tax tile) v = pay_tax-IsValid state id tile.key v
land_by_roll-IsValid state id dice tile v = land_on-IsValid state id dice tile v

-- A move ends on the board.
moved-IsValid :
    (key : GameBoardKey) (state : GameEngineState) (id : ℕ) (dice : ℕ × ℕ) (tile : GameTile)
    (offered : Bool)
    → IsValid state
    → IsValid (Movement.moved_state_of (get_game_board key) state id dice tile offered)
moved-IsValid key state id dice tile offered v = (
  players_update
      (Movement.moved_by (dice.0 + dice.1) (length (get_game_board key).tiles)
        (get_game_board key).pass_go_cash)
      (λ p. refl) (λ p h. rw (board_size key) (omega arith)) id state.players v.0,
  v.1,
)

move_by_dice-IsValid :
    (state : GameEngineState) (id : ℕ) (dice : ℕ × ℕ) (suppress : Bool)
    → IsValid state
    → Ensures LeadsToValid (Movement.move_by_dice state id dice suppress)
unfolding Movement.move_by_dice
move_by_dice-IsValid state id dice suppress v =
    let doubles_state =
      if suppress then Jail.without_doubles state else apply_doubles_state state dice in
    bind-Ensures _ _ λ player _. bind-Ensures _ _ λ tile _.
      then-Ensures _ _
        (land_by_roll-IsValid _ id dice tile (
          moved-IsValid state.board_key doubles_state id dice tile
            (is_ownable_tile tile
              && is_unowned (find_by property_key (tile_key_of tile) doubles_state.properties))
            (if-holds IsValid suppress v (apply_doubles-IsValid state dice v))))
        λ landed w. returns w

pub roll_and_move_ignoring_jail-IsValid :
    (state : GameEngineState) (id : ℕ) (dice : ℕ × ℕ) (suppress : Bool)
    → IsValid state
    → Ensures LeadsToValid (Movement.roll_and_move_ignoring_jail state id dice suppress)
unfolding Movement.roll_and_move_ignoring_jail Movement.roll_third_doubles
roll_and_move_ignoring_jail-IsValid state id dice suppress v =
    bool-Ensures (not suppress && is_third_consecutive_doubles state dice)
      (ok (Movement.roll_third_doubles state id dice))
      (Movement.move_by_dice state id dice suppress)
      (λ _. returns (
        send_player_to_jail-IsValid (apply_doubles_state state dice) id
          (apply_doubles-IsValid state dice v)))
      (λ _. move_by_dice-IsValid state id dice suppress v)

pub roll_and_move-IsValid :
    (state : GameEngineState) (id : ℕ) (dice : ℕ × ℕ)
    → IsValid state
    → Ensures LeadsToValid (Movement.roll_and_move state id dice)
unfolding Movement.roll_and_move
roll_and_move-IsValid state id dice v =
    then-Ensures _ _
      (resolve_jailed_roll-IsValid
        (λ released_state. Movement.roll_and_move_ignoring_jail released_state id dice true)
        (λ released_state w. roll_and_move_ignoring_jail-IsValid released_state id dice true w)
        state id dice v)
      λ jailed w. rolled jailed w
  where
    rolled :
        (jailed : Option GameEngineResult)
        → LeadsToValid? jailed
        → Ensures LeadsToValid (elim jailed [
          | some result ↦ ok result
          | none ↦ Movement.roll_and_move_ignoring_jail state id dice false
        ])
    rolled none w = roll_and_move_ignoring_jail-IsValid state id dice false v
    rolled (some result) w = returns w
