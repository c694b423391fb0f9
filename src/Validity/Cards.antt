-- ===== src/Validity/Cards.antt =====
-- The invariant across drawing cards, and their moves and effects.
use livepoly_server.Base.{
  ℕ, ◌≡◌, refl, true, false, Bool, Option, none, some, ◌&&◌, All-filter_of, All-sort_by,
  All-get_elem?, find_by, subst,
}
use livepoly_server.Types.{
  GameEngineState, GameEnginePlayer, GameCardDeckKey, GameEngineDeckState, or_throw-ok,
}
use livepoly_server.Ensures.{Ensures, returns, bind-Ensures, then-Ensures, bool-Ensures}
use livepoly_server.Board.{GameTile, get_game_board, tile_index_of, is_ownable_tile, tile_key_of}
use livepoly_server.Board.Size.{IsIndexed, tiles-IsIndexed, find_tile-IsIndexed, get_tile-IsIndexed}
use livepoly_server.Store.{property_key, update_player}
use livepoly_server.Rent.{unchanged}
use livepoly_server.Cards
use livepoly_server.Cards.Tables.{
  GameCardEffect, GameEngineCard, collect_money, pay_money, move_to_tile, move_relative,
  move_to_nearest, go_to_jail, get_out_of_jail_free, collect_from_each_player, pay_each_player,
  property_repairs,
}
use livepoly_server.Cards.Decks.{draw_card, set_deck}
use livepoly_server.Validity.Defs.{IsValid, LeadsToValid}
use livepoly_server.Validity.Store.{players_update}
use livepoly_server.Validity.Payments.{credit_player-IsValid}
use livepoly_server.Validity.Charges.{
  send_player_to_jail-IsValid, pay_tax-IsValid, pay_rent-IsValid, pay_for_card-IsValid,
  collect_from_each-IsValid, pay_each-IsValid, pay_property_repairs-IsValid,
}

-- A target is a tile of the board.
abbrev IsTarget : Option GameTile → Type 0
IsTarget none = Unit
IsTarget (some tile) = IsIndexed tile

option-IsTarget :
    (o : Option GameTile) → ((tile : GameTile) → o ≡ some tile → IsIndexed tile) → IsTarget o
option-IsTarget none h = tt
option-IsTarget (some tile) h = h tile refl

get_card_move_target_tile-IsTarget :
    (state : GameEngineState) (player : GameEnginePlayer) (effect : GameCardEffect)
    → Ensures IsTarget (Cards.get_card_move_target_tile state player effect)
unfolding Cards.get_card_move_target_tile
get_card_move_target_tile-IsTarget state player (move_to_tile key b) =
    returns (option-IsTarget _ λ tile e. find_tile-IsIndexed state.board_key key e)
get_card_move_target_tile-IsTarget state player (move_relative spaces) =
    bind-Ensures _ _ λ tile e. returns (get_tile-IsIndexed state.board_key _ e)
get_card_move_target_tile-IsTarget state player (move_to_nearest kind b) = returns (
    option-IsTarget _ λ tile e.
      All-get_elem? IsIndexed _ 0
        (All-sort_by _ IsIndexed _ (
          All-filter_of IsIndexed _ (get_game_board state.board_key).tiles
            (tiles-IsIndexed state.board_key)))
        e)
get_card_move_target_tile-IsTarget state player (collect_money a) = returns tt
get_card_move_target_tile-IsTarget state player (pay_money a) = returns tt
get_card_move_target_tile-IsTarget state player go_to_jail = returns tt
get_card_move_target_tile-IsTarget state player get_out_of_jail_free = returns tt
get_card_move_target_tile-IsTarget state player (collect_from_each_player a) = returns tt
get_card_move_target_tile-IsTarget state player (pay_each_player a) = returns tt
get_card_move_target_tile-IsTarget state player (property_repairs a b) = returns tt

offer_or_charge-IsValid :
    (state : GameEngineState) (id : ℕ) (tile : GameTile) (dice : ℕ × ℕ)
    → IsValid state
    → Ensures LeadsToValid (Cards.offer_or_charge state id tile dice)
unfolding Cards.offer_or_charge
offer_or_charge-IsValid state id tile dice v =
    bool-Ensures
      (is_ownable_tile tile
        && Cards.is_unowned (find_by property_key (tile_key_of tile) state.properties))
      _ _ (λ _. returns v) (λ _. pay_rent-IsValid state id (tile_key_of tile) dice v)

land_by_card-IsValid :
    (state : GameEngineState) (id : ℕ) (tile : GameTile) (dice : ℕ × ℕ)
    → IsValid state
    → Ensures LeadsToValid (Cards.land_by_card state id tile dice)
unfolding Cards.land_by_card
land_by_card-IsValid state id (GameTile.go_to_jail tile) dice v =
    returns (send_player_to_jail-IsValid state id v)
land_by_card-IsValid state id (GameTile.tax tile) dice v = pay_tax-IsValid state id tile.key v
land_by_card-IsValid state id tile dice v = offer_or_charge-IsValid state id tile dice v

credit_if_passed_go-IsValid :
    (b : Bool) (state : GameEngineState) (id amount : ℕ)
    → IsValid state
    → Ensures IsValid (Cards.credit_if_passed_go b state id amount)
credit_if_passed_go-IsValid true state id amount v = credit_player-IsValid state id amount v
credit_if_passed_go-IsValid false state id amount v = returns v

move_player_to_card_tile-IsValid :
    (state : GameEngineState) (id : ℕ) (effect : GameCardEffect)
    → IsValid state
    → Ensures LeadsToValid (Cards.move_player_to_card_tile state id effect)
unfolding Cards.move_player_to_card_tile
move_player_to_card_tile-IsValid state id effect v = bind-Ensures _ _ λ player _.
    then-Ensures _ _ (get_card_move_target_tile-IsTarget state player effect) λ target on_board.
      bind-Ensures _ _ λ tile e.
        then-Ensures _ _ (credit_if_passed_go-IsValid _ state id _ v) λ next w.
          then-Ensures _ _
            (land_by_card-IsValid _ id tile _ (
              players_update (Cards.with_position (tile_index_of tile)) (λ p. refl)
                  (λ p h. subst IsTarget (or_throw-ok _ _ e) on_board) id next.players w.0,
              w.1,
            ))
            λ landed x. returns x

with_jail_card-IsValid :
    (state : GameEngineState) (id key : ℕ)
    → IsValid state
    → LeadsToValid (unchanged (update_player state id (Cards.with_jail_card key)))
with_jail_card-IsValid state id key v =
    (players_update (Cards.with_jail_card key) (λ p. refl) (λ p h. h) id state.players v.0, v.1)

apply_card_effect-IsValid :
    (state : GameEngineState) (id key : ℕ) (effect : GameCardEffect)
    → IsValid state
    → Ensures LeadsToValid (Cards.apply_card_effect state id key effect)
unfolding Cards.apply_card_effect
apply_card_effect-IsValid state id key (collect_money amount) v =
    then-Ensures _ _ (credit_player-IsValid state id amount v) λ next w. returns w
apply_card_effect-IsValid state id key (pay_money amount) v = pay_for_card-IsValid state id amount v
apply_card_effect-IsValid state id key go_to_jail v =
    returns (send_player_to_jail-IsValid state id v)
apply_card_effect-IsValid state id key (collect_from_each_player amount) v =
    collect_from_each-IsValid state id amount v
apply_card_effect-IsValid state id key (pay_each_player amount) v =
    pay_each-IsValid state id amount v
apply_card_effect-IsValid state id key (property_repairs house_amount hotel_amount) v =
    pay_property_repairs-IsValid state id house_amount hotel_amount v
apply_card_effect-IsValid state id key get_out_of_jail_free v =
    returns (with_jail_card-IsValid state id key v)
apply_card_effect-IsValid state id key effect v = move_player_to_card_tile-IsValid state id effect v

pub set_deck-IsValid :
    (state : GameEngineState) (deck_key : GameCardDeckKey) (deck : GameEngineDeckState)
    → IsValid state
    → IsValid (set_deck state deck_key deck)
set_deck-IsValid state GameCardDeckKey.chance deck v = v
set_deck-IsValid state GameCardDeckKey.world_fund deck v = v

abbrev DrawsValid : GameEngineState × GameEngineCard → Type 0
DrawsValid drawn = IsValid drawn.0

draw_card-IsValid :
    (state : GameEngineState) (deck_key : GameCardDeckKey)
    → IsValid state
    → Ensures DrawsValid (draw_card state deck_key)
unfolding draw_card
draw_card-IsValid state deck_key v =
    bind-Ensures _ _ λ drawn _. returns (set_deck-IsValid state deck_key drawn.0 v)

pub draw_and_apply_card-IsValid :
    (state : GameEngineState) (id : ℕ) (deck_key : GameCardDeckKey)
    → IsValid state
    → Ensures LeadsToValid (Cards.draw_and_apply_card state id deck_key)
unfolding Cards.draw_and_apply_card
draw_and_apply_card-IsValid state id deck_key v =
    then-Ensures _ _ (draw_card-IsValid state deck_key v) λ drawn w.
      then-Ensures _ _ (apply_card_effect-IsValid drawn.0 id drawn.1.key drawn.1.effect w)
        λ applied x. returns x
