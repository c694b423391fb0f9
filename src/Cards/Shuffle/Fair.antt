-- ===== src/Cards/Shuffle/Fair.antt =====
-- The cards of a deck across the shuffle of src/game/engine/game-engine-cards.ts.
use livepoly_server.Base.{
  ℕ, zero, suc, ◌+◌, ◌%◌, ◌≡◌, refl, ◌∙◌, Option, none, some, List, [], ◌∷◌, ◌++◌, ◌==◌, arith,
  get_elem?, Option-cases, inl, inr, some_eq, none_ne_some,
}
use livepoly_server.Cards.Tables.{chance_cards, world_fund_cards}
use livepoly_server.Cards.Piles.{copies_in, one_if}
use livepoly_server.Cards.Shuffle.{
  set_elem, swap, shuffle_from, shuffle_deterministically, create_initial_deck_state, card_keys,
  next_random, create_seeded_random, shuffled_or_not, last_index, chance_suffix, world_fund_suffix,
}

-- Writing a value over another one exchanges their copies.
set_elem-copies :
    (key : ℕ) (values : List ℕ) (index : ℕ) {old : ℕ} (new : ℕ)
    → get_elem? values index ≡ some old
    → copies_in key (set_elem values index new) + one_if (old == key)
      ≡ copies_in key values + one_if (new == key)
unfolding set_elem
set_elem-copies key [] index new e = absurd (none_ne_some e)
set_elem-copies key (x ∷ xs) zero {old} new e =
    let same : x ≡ old = some_eq e in rw same (omega arith)
set_elem-copies key (x ∷ xs) (suc index) {old} new e =
    omega (arith, set_elem-copies key xs index {old = old} new e)

-- Writing a value elsewhere, or over itself, leaves it where it is.
get_elem?-set_elem :
    (values : List ℕ) (i j : ℕ) {y : ℕ}
    → get_elem? values j ≡ some y
    → get_elem? (set_elem values i y) j ≡ some y
unfolding set_elem
get_elem?-set_elem [] i j e = e
get_elem?-set_elem (x ∷ xs) zero zero e = refl
get_elem?-set_elem (x ∷ xs) zero (suc j) e = e
get_elem?-set_elem (x ∷ xs) (suc i) zero e = e
get_elem?-set_elem (x ∷ xs) (suc i) (suc j) e = get_elem?-set_elem xs i j e

swap-copies :
    (key : ℕ) (values : List ℕ) (i j : ℕ) → copies_in key (swap values i j) ≡ copies_in key values
swap-copies key values i j = elim (Option-cases (get_elem? values i)) [
  | inl e ↦ rw e refl
  | inr (x, e) ↦ elim (Option-cases (get_elem? values j)) [
    | inl f ↦ rw (e, f) refl
    | inr (y, f) ↦
        let first = set_elem-copies key values i y e in
        let second =
          set_elem-copies key (set_elem values i y) j x (get_elem?-set_elem values i j f) in
        rw (e, f) (omega (arith, first, second))
  ]
]

shuffle_from-copies :
    (key index random : ℕ) (values : List ℕ)
    → copies_in key (shuffle_from index random values) ≡ copies_in key values
unfolding shuffle_from
shuffle_from-copies key zero random values = refl
shuffle_from-copies key (suc index) random values =
    shuffle_from-copies key index (next_random random)
      (swap values (suc index) (next_random random % (suc index + 1)))
    ∙ swap-copies key values (suc index) (next_random random % (suc index + 1))

-- A shuffle is a permutation: every value is in the result as often as it was in the list, whatever
-- the seed.
pub shuffle_deterministically-copies :
    (key : ℕ) (values seed : List ℕ)
    → copies_in key (shuffle_deterministically values seed) ≡ copies_in key values
unfolding shuffle_deterministically
shuffle_deterministically-copies key values seed =
    shuffle_from-copies key (last_index values) (create_seeded_random seed) values

dealt-copies :
    (key : ℕ) (cards suffix : List ℕ) (seed : Option (List ℕ))
    → copies_in key (shuffled_or_not cards suffix seed) ≡ copies_in key cards
dealt-copies key cards suffix none = refl
dealt-copies key cards suffix (some []) = refl
dealt-copies key cards suffix (some (c ∷ seed)) =
    shuffle_deterministically-copies key cards ((c ∷ seed) ++ suffix)

-- With any seed or none, the draw piles that a game starts with hold every card of the deck's table
-- as often as the table does, and nothing else; the discard piles are empty.
pub create_initial_deck_state-Dealt :
    (seed : Option (List ℕ)) (key : ℕ)
    → (copies_in key (create_initial_deck_state seed).chance.draw_pile
        ≡ copies_in key (card_keys chance_cards))
      × (copies_in key (create_initial_deck_state seed).world_fund.draw_pile
          ≡ copies_in key (card_keys world_fund_cards))
      × ((create_initial_deck_state seed).chance.discard_pile ≡ [])
      × ((create_initial_deck_state seed).world_fund.discard_pile ≡ [])
unfolding create_initial_deck_state
create_initial_deck_state-Dealt seed key = (
  dealt-copies key (card_keys chance_cards) chance_suffix seed,
  dealt-copies key (card_keys world_fund_cards) world_fund_suffix seed,
  refl,
  refl,
)
