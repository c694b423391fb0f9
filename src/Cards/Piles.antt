-- ===== src/Cards/Piles.antt =====
-- The piles of a deck across a draw: `drawCard` of src/game/engine/game-engine-cards.ts.
use livepoly_server.Base.{
  ℕ, ◌+◌, ◌≡◌, refl, true, false, Bool, some, List, [], ◌∷◌, ◌++◌, ◌&&◌, ◌==◌, arith, sum_by, find,
  if◌then◌else◌, Bool-cases, inl, inr, some_eq, none_ne_some,
}
use livepoly_server.Types.{GameEngineState, GameEngineDeckState, GameCardDeckKey, or_throw-ok}
use livepoly_server.Ensures.{Ensures, returns, throws, bind-Ensures, then-Ensures}
use livepoly_server.Cards.Tables.{GameEngineCard, chance_cards, world_fund_cards}
use livepoly_server.Cards.Decks.{
  card_by_key, draw_card, draw_from, get_deck, turned_over, turn_over, is_get_out_of_jail_free,
}

abbrev pub one_if : Bool → ℕ
one_if true = 1
one_if false = 0

-- How often a card is in a pile, and in a deck.
abbrev pub copies_in : ℕ → List ℕ → ℕ
copies_in key pile = sum_by (λ candidate. one_if (candidate == key)) pile

abbrev pub copies_in_deck : ℕ → GameEngineDeckState → ℕ
copies_in_deck key deck = copies_in key deck.draw_pile + copies_in key deck.discard_pile

-- 1 when the drawn card is this one and is kept by the player.
abbrev pub kept : ℕ → GameEngineCard → ℕ
kept key card = one_if (is_get_out_of_jail_free card.effect && (card.key == key))

copies_in-append :
    (key card : ℕ) (pile : List ℕ)
    → copies_in key (pile ++ card ∷ []) ≡ copies_in key pile + one_if (card == key)
copies_in-append key card [] = omega arith
copies_in-append key card (c ∷ pile) = omega (arith, copies_in-append key card pile)

find-holds {ℓ} :
    {A : Type ℓ} (test : A → Bool) (xs : List A) {x : A} → find test xs ≡ some x → test x ≡ true
find-holds test [] e = absurd (none_ne_some e)
find-holds test (y ∷ ys) {x} e = elim (Bool-cases (test y)) [
  | inl t ↦ rw (some_eq (rw t at e)) at t
  | inr t ↦ find-holds test ys (rw t at e)
]

card_by_key-key : (key : ℕ) {card : GameEngineCard} → card_by_key key ≡ some card → card.key ≡ key
unfolding card_by_key
card_by_key-key key {card} e =
    let same : (card.key == key) ≡ true =
      find-holds (λ c. c.key == key) (chance_cards ++ world_fund_cards) e in
    ground arith

turn_over-copies :
    (key : ℕ) (draw_pile discard_pile : List ℕ)
    → copies_in_deck key (turn_over draw_pile discard_pile)
      ≡ copies_in key draw_pile + copies_in key discard_pile
turn_over-copies key [] discard_pile = omega arith
turn_over-copies key (c ∷ draw_pile) discard_pile = refl

draw_from-copies :
    (key : ℕ) (draw_pile discard_pile : List ℕ)
    → Ensures
        (λ drawn.
          copies_in_deck key drawn.0 + kept key drawn.1
          ≡ copies_in key draw_pile + copies_in key discard_pile)
        (draw_from draw_pile discard_pile)
unfolding draw_from
draw_from-copies key [] discard_pile = throws
draw_from-copies key (c ∷ draw_pile) discard_pile = bind-Ensures _ _ λ card found.
    let own_key : card.key ≡ c = card_by_key-key c (or_throw-ok _ _ found) in
    returns (placed card (is_get_out_of_jail_free card.effect) own_key)
  where
    placed :
        (card : GameEngineCard) (b : Bool)
        → card.key ≡ c
        → copies_in key draw_pile
            + copies_in key (if b then discard_pile else discard_pile ++ c ∷ [])
            + one_if (b && (card.key == key))
          ≡ one_if (c == key) + copies_in key draw_pile + copies_in key discard_pile
    placed card true e = rw e (omega arith)
    placed card false e = omega (arith, copies_in-append key c discard_pile)

-- A draw moves the card within its deck, unless it is one that the player keeps: every card is in
-- the deck as often as before, less the one that is kept. Players and properties do not change.
pub draw_card-copies :
    (state : GameEngineState) (deck_key : GameCardDeckKey) (key : ℕ)
    → Ensures
        (λ drawn.
          (copies_in_deck key (get_deck drawn.0 deck_key) + kept key drawn.1
            ≡ copies_in_deck key (get_deck state deck_key))
          × (drawn.0.players ≡ state.players)
          × (drawn.0.properties ≡ state.properties))
        (draw_card state deck_key)
unfolding draw_card
draw_card-copies state GameCardDeckKey.chance key =
    then-Ensures _ _
      (draw_from-copies key (turned_over state.decks.chance).draw_pile
        (turned_over state.decks.chance).discard_pile)
      λ drawn e. returns (
        omega (
          arith,
          turn_over-copies key state.decks.chance.draw_pile state.decks.chance.discard_pile,
        ),
        refl,
        refl,
      )
draw_card-copies state GameCardDeckKey.world_fund key =
    then-Ensures _ _
      (draw_from-copies key (turned_over state.decks.world_fund).draw_pile
        (turned_over state.decks.world_fund).discard_pile)
      λ drawn e. returns (
        omega (
          arith,
          turn_over-copies key state.decks.world_fund.draw_pile state.decks.world_fund.discard_pile,
        ),
        refl,
        refl,
      )
