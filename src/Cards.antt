-- ===== src/Cards.antt =====
-- Cards and their effects: src/game/engine/game-engine-cards.ts.
pub mod Tables
pub mod Decks
pub mod Piles
pub mod Shuffle
mod Payments
unfoldable pub use Payments.*
use livepoly_server.Base.{
  ℕ, suc, ◌+◌, ◌-◌, ◌*◌, ◌%◌, Bool, true, false, Option, none, some, List, [], ◌∷◌, ◌++◌, not, ◌&&◌,
  leb, ltb, ◌==◌, filter, find_by, length, get_elem?, sort_by, sum_by, min, if◌then◌else◌,
}
use livepoly_server.Types.{
  GameEngineState, GameEnginePlayer, GameEngineProperty, GameEngineDebtReason, GameEngineResult,
  GameEngineEvent, GameCardDeckKey, GameTileKind, awaiting_turn_end, awaiting_property_decision,
  Result, ok, err, ◌>>=◌, ◌>>◌, or_throw, card_not_found,
}
use livepoly_server.Board.{
  GameTile, get_game_board, get_tile, find_tile, is_ownable_tile, tile_key_of, tile_kind_of,
  tile_index_of, kind_is,
}
use livepoly_server.Store.{property_key, find_player, update_player, is_owned_by}
use livepoly_server.Assertions.{is_set}
use livepoly_server.Money.{credit_player, transfer_player_cash, debit_player_or_create_debt}
use livepoly_server.Jail.Send.{send_player_to_jail}
use livepoly_server.Rent.{pay_rent, owner_of, unchanged}
use livepoly_server.Tax.{pay_tax}
use livepoly_server.Cards.Tables.{
  Spaces, forward, back, GameCardEffect, GameEngineCard, effect_type, collect_money, pay_money,
  move_to_tile, move_relative, move_to_nearest, go_to_jail, get_out_of_jail_free,
  collect_from_each_player, pay_each_player, property_repairs,
}
use livepoly_server.Cards.Decks.{draw_card}

-- `property && !property.ownerRoomPlayerId`
abbrev pub is_unowned : Option GameEngineProperty → Bool
is_unowned none = false
is_unowned (some property) = not (is_set property.owner_room_player_id)

abbrev pub with_position : ℕ → GameEnginePlayer → GameEnginePlayer
with_position position player = record player { position = position }

-- `(tile.index - player.position + size) % size`, for a position on the board.
abbrev distance_from : ℕ → ℕ → GameTile → ℕ
distance_from position size tile = (tile_index_of tile + size - position) % size

-- The three kinds of movement; a step back is at most the size of the board.
abbrev shifted : ℕ → ℕ → Spaces → ℕ
shifted position size (forward n) = (position + n + size) % size
shifted position size (back n) = (position + size - n) % size

unfoldable pub get_card_move_target_tile :
    GameEngineState → GameEnginePlayer → GameCardEffect → Result (Option GameTile)
get_card_move_target_tile state player (move_to_tile tile_key collect_pass_go) =
    ok (find_tile (get_game_board state.board_key) tile_key)
get_card_move_target_tile state player (move_relative spaces) =
    let board = get_game_board state.board_key in
    get_tile board (shifted player.position (length board.tiles) spaces) >>= λ tile. ok (some tile)
get_card_move_target_tile state player (move_to_nearest tile_kind collect_pass_go) =
    let board = get_game_board state.board_key in
    let size = length board.tiles in
    ok (
      get_elem?
        (sort_by
          (λ left right.
            leb (distance_from player.position size left)
              (distance_from player.position size right))
          (filter (λ tile. kind_is (tile_kind_of tile) tile_kind) board.tiles))
        0)
get_card_move_target_tile state player _ = ok none

abbrev collects_pass_go : GameCardEffect → Bool
collects_pass_go (move_to_tile tile_key collect_pass_go) = collect_pass_go
collects_pass_go (move_to_nearest tile_kind collect_pass_go) = collect_pass_go
collects_pass_go _ = false

-- A tile that may be bought is offered, any other charges its rent.
unfoldable pub offer_or_charge : GameEngineState → ℕ → GameTile → ℕ × ℕ → Result GameEngineResult
offer_or_charge state room_player_id tile dice =
    elim (is_ownable_tile tile
      && is_unowned (find_by property_key (tile_key_of tile) state.properties)) [
        | true ↦ ok (
            unchanged (record state {
              phase = awaiting_property_decision;
              pending_tile_key = some (tile_key_of tile);
            }))
        | false ↦ pay_rent state room_player_id (tile_key_of tile) dice
      ]

-- What happens on the tile: `state` is the state after the move, `dice` the last roll.
unfoldable pub land_by_card : GameEngineState → ℕ → GameTile → ℕ × ℕ → Result GameEngineResult
land_by_card state room_player_id (GameTile.go_to_jail tile) dice =
    ok (send_player_to_jail state room_player_id)
land_by_card state room_player_id (GameTile.tax tile) dice = pay_tax state room_player_id tile.key
land_by_card state room_player_id tile dice = offer_or_charge state room_player_id tile dice

abbrev dice_or_zero : Option (ℕ × ℕ) → ℕ × ℕ
dice_or_zero none = (0, 0)
dice_or_zero (some dice) = dice

-- `passedGo ? creditPlayer(...) : state`
abbrev pub credit_if_passed_go : Bool → GameEngineState → ℕ → ℕ → Result GameEngineState
credit_if_passed_go true state room_player_id amount = credit_player state room_player_id amount
credit_if_passed_go false state room_player_id amount = ok state

unfoldable pub move_player_to_card_tile :
    GameEngineState → ℕ → GameCardEffect → Result GameEngineResult
unfolding find_player
move_player_to_card_tile state room_player_id effect = do
  let board = get_game_board state.board_key
  let dice = dice_or_zero state.last_dice_roll
  player ← find_player state room_player_id
  target ← get_card_move_target_tile state player effect
  target_tile ← or_throw target card_not_found
  let index = tile_index_of target_tile
  let passed_go =
      collects_pass_go effect && (leb index player.position && not (index == player.position))
  credited_state ← credit_if_passed_go passed_go state room_player_id board.pass_go_cash
  landed ←
      land_by_card
        (update_player
          (record credited_state { phase = awaiting_turn_end; pending_tile_key = none })
          room_player_id (with_position index))
        room_player_id target_tile dice
  ok (record {
    state = landed.state;
    events =
        (GameEngineEvent.player_moved room_player_id player.position index dice
          ∷ (if passed_go
              then GameEngineEvent.player_passed_go room_player_id board.pass_go_cash ∷ []
              else []))
        ++ (GameEngineEvent.player_landed_on_tile room_player_id (tile_key_of target_tile)
              (tile_kind_of target_tile)
            ∷ landed.events);
  })

abbrev pub with_jail_card : ℕ → GameEnginePlayer → GameEnginePlayer
with_jail_card card_key player = record player {
  get_out_of_jail_free_cards = player.get_out_of_jail_free_cards + 1;
  get_out_of_jail_free_card_keys = player.get_out_of_jail_free_card_keys ++ card_key ∷ [];
}

unfoldable pub apply_card_effect :
    GameEngineState → ℕ → ℕ → GameCardEffect → Result GameEngineResult
apply_card_effect state room_player_id card_key (collect_money amount) =
    credit_player state room_player_id amount >>= λ next_state. ok (unchanged next_state)
apply_card_effect state room_player_id card_key (pay_money amount) =
    pay_for_card state room_player_id amount
apply_card_effect state room_player_id card_key go_to_jail =
    ok (send_player_to_jail state room_player_id)
apply_card_effect state room_player_id card_key (collect_from_each_player amount) =
    collect_from_each state room_player_id amount
apply_card_effect state room_player_id card_key (pay_each_player amount) =
    pay_each state room_player_id amount
apply_card_effect state room_player_id card_key (property_repairs house_amount hotel_amount) =
    pay_property_repairs state room_player_id house_amount hotel_amount
apply_card_effect state room_player_id card_key get_out_of_jail_free =
    ok (unchanged (update_player state room_player_id (with_jail_card card_key)))
apply_card_effect state room_player_id card_key effect =
    move_player_to_card_tile state room_player_id effect

unfoldable pub draw_and_apply_card : GameEngineState → ℕ → GameCardDeckKey → Result GameEngineResult
draw_and_apply_card state room_player_id deck_key = do
  drawn ← draw_card state deck_key
  let card = drawn.1
  applied ← apply_card_effect drawn.0 room_player_id card.key card.effect
  ok (record {
    state = applied.state;
    events =
        GameEngineEvent.card_drawn room_player_id deck_key card.key
        ∷ GameEngineEvent.card_applied room_player_id deck_key card.key (effect_type card.effect)
        ∷ applied.events;
  })
