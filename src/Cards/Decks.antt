-- ===== src/Cards/Decks.antt =====
-- Drawing and returning cards: `drawCard`, `returnGetOutOfJailCardToDeck`, `getDeckKeyForCard`,
-- `getDeck` and `setDeck` of src/game/engine/game-engine-cards.ts.
use livepoly_server.Base.{
  ℕ, Bool, true, false, Option, none, some, List, [], ◌∷◌, ◌++◌, ◌==◌, any, find, if◌then◌else◌,
}
use livepoly_server.Types.{
  GameEngineState, GameEngineDeckState, GameCardDeckKey, Result, ok, err, ◌>>=◌, or_throw,
  card_not_found, card_deck_empty,
}
use livepoly_server.Cards.Tables.{
  GameEngineCard, GameCardEffect, chance_cards, world_fund_cards, chance_get_out_of_jail_free,
}

-- `CARDS_BY_KEY.get(key)`
unfoldable pub card_by_key : ℕ → Option GameEngineCard
unfolding chance_cards world_fund_cards
card_by_key key = find (λ card. card.key == key) (chance_cards ++ world_fund_cards)

unfoldable pub get_deck_key_for_card : ℕ → Option GameCardDeckKey
unfolding chance_cards world_fund_cards
get_deck_key_for_card key =
    if any (λ card. card.key == key) chance_cards
    then some GameCardDeckKey.chance
    else if any (λ card. card.key == key) world_fund_cards
    then some GameCardDeckKey.world_fund
    else none

abbrev pub get_deck : GameEngineState → GameCardDeckKey → GameEngineDeckState
get_deck state GameCardDeckKey.chance = state.decks.chance
get_deck state GameCardDeckKey.world_fund = state.decks.world_fund

abbrev pub set_deck : GameEngineState → GameCardDeckKey → GameEngineDeckState → GameEngineState
set_deck state GameCardDeckKey.chance deck = record state {
  decks = record (state.decks) { chance = deck };
}
set_deck state GameCardDeckKey.world_fund deck = record state {
  decks = record (state.decks) { world_fund = deck };
}

abbrev discarded : GameEngineDeckState → ℕ → GameEngineDeckState
discarded deck card_key = record deck { discard_pile = deck.discard_pile ++ card_key ∷ [] }

-- `cardKey ?? 'chance_get_out_of_jail_free'`
abbrev resolved_card_key : Option ℕ → ℕ
resolved_card_key none = chance_get_out_of_jail_free
resolved_card_key (some card_key) = card_key

unfoldable pub return_get_out_of_jail_card_to_deck :
    GameEngineState → Option ℕ → Result GameEngineState
return_get_out_of_jail_card_to_deck state card_key =
    or_throw (get_deck_key_for_card (resolved_card_key card_key)) card_not_found >>= λ deck_key.
    ok (set_deck state deck_key (discarded (get_deck state deck_key) (resolved_card_key card_key)))

abbrev pub is_get_out_of_jail_free : GameCardEffect → Bool
is_get_out_of_jail_free GameCardEffect.get_out_of_jail_free = true
is_get_out_of_jail_free _ = false

-- The piles to draw from: the discard pile is turned over when the draw pile is empty.
abbrev pub turn_over : List ℕ → List ℕ → GameEngineDeckState
turn_over [] discard_pile = record { draw_pile = discard_pile; discard_pile = [] }
turn_over (card_key ∷ draw_pile) discard_pile = record {
  draw_pile = card_key ∷ draw_pile;
  discard_pile = discard_pile;
}

abbrev pub turned_over : GameEngineDeckState → GameEngineDeckState
turned_over deck = turn_over deck.draw_pile deck.discard_pile

-- The draw from the piles, and where the card goes.
unfoldable pub draw_from : List ℕ → List ℕ → Result (GameEngineDeckState × GameEngineCard)
draw_from [] discard_pile = err card_deck_empty
draw_from (card_key ∷ remaining_draw_pile) discard_pile =
    or_throw (card_by_key card_key) card_not_found >>= λ card. ok (
      record {
        draw_pile = remaining_draw_pile;
        discard_pile =
            if is_get_out_of_jail_free card.effect
            then discard_pile
            else discard_pile ++ card_key ∷ [];
      },
      card,
    )

-- The card is returned for its key.
unfoldable pub draw_card :
    GameEngineState → GameCardDeckKey → Result (GameEngineState × GameEngineCard)
draw_card state deck_key =
    let deck = turned_over (get_deck state deck_key) in
    draw_from deck.draw_pile deck.discard_pile >>= λ drawn.
    ok (set_deck state deck_key drawn.0, drawn.1)
