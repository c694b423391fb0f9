-- ===== src/Cards/Shuffle.antt =====
-- The decks that a game starts with: `createInitialDeckState`, `shuffleDeterministically`,
-- `createSeededRandom` and `nextRandom` of src/game/engine/game-engine-cards.ts. A seed is the list
-- of its UTF-16 codes. A 32-bit value is its bit pattern, below 2 ^ 32, whatever its sign.
pub mod Fair
use Prim.Native.Nat.{bit_xor}
use livepoly_server.Base.{
  ℕ, zero, suc, ◌+◌, ◌*◌, ◌/◌, ◌%◌, ◌^◌, Option, none, some, List, [], ◌∷◌, ◌++◌, map, length,
  get_elem?,
}
use livepoly_server.Types.{GameEngineDeckState, GameEngineDecks}
use livepoly_server.Cards.Tables.{GameEngineCard, chance_cards, world_fund_cards}

-- `value ^= charCode; value = Math.imul(value, 16777619)`, over the codes of the seed.
unfoldable pub hash_seed : ℕ → List ℕ → ℕ
hash_seed value [] = value
hash_seed value (char_code ∷ seed) = hash_seed (bit_xor value char_code * 16777619 % 2 ^ 32) seed

unfoldable pub create_seeded_random : List ℕ → ℕ
unfolding hash_seed
create_seeded_random seed = hash_seed 2166136261 seed % 2 ^ 32

-- `value << n` and `value >>> n` on a pattern.
abbrev shift_left : ℕ → ℕ → ℕ
shift_left value n = value * 2 ^ n % 2 ^ 32

abbrev shift_right : ℕ → ℕ → ℕ
shift_right value n = value / 2 ^ n

unfoldable pub next_random : ℕ → ℕ
next_random random =
    let first = bit_xor random (shift_left random 13) in
    let second = bit_xor first (shift_right first 17) in
    bit_xor second (shift_left second 5) % 2 ^ 32

-- `values[index] = value`, for an index of the array.
unfoldable pub set_elem : List ℕ → ℕ → ℕ → List ℕ
set_elem [] index value = []
set_elem (x ∷ xs) zero value = value ∷ xs
set_elem (x ∷ xs) (suc index) value = x ∷ set_elem xs index value

abbrev swap_found : List ℕ → ℕ → ℕ → Option ℕ → Option ℕ → List ℕ
swap_found values index swap_index (some current) (some other) =
    set_elem (set_elem values index other) swap_index current
swap_found values index swap_index _ _ = values

-- The three assignments of the loop's body, for two indices of the array.
abbrev pub swap : List ℕ → ℕ → ℕ → List ℕ
swap values index swap_index =
    swap_found values index swap_index (get_elem? values index) (get_elem? values swap_index)

-- The loop, from an index down to 1.
unfoldable pub shuffle_from : ℕ → ℕ → List ℕ → List ℕ
shuffle_from zero random shuffled = shuffled
shuffle_from (suc index) random shuffled =
    let value = next_random random in
    shuffle_from index value (swap shuffled (suc index) (value % (suc index + 1)))

abbrev last_index : List ℕ → ℕ
last_index [] = 0
last_index (x ∷ xs) = length xs

unfoldable pub shuffle_deterministically : List ℕ → List ℕ → List ℕ
unfolding shuffle_from create_seeded_random
shuffle_deterministically values seed =
    shuffle_from (last_index values) (create_seeded_random seed) values

-- `:chance` and `:world_fund`
abbrev chance_suffix : List ℕ
chance_suffix = 58 ∷ 99 ∷ 104 ∷ 97 ∷ 110 ∷ 99 ∷ 101 ∷ []

abbrev world_fund_suffix : List ℕ
world_fund_suffix = 58 ∷ 119 ∷ 111 ∷ 114 ∷ 108 ∷ 100 ∷ 95 ∷ 102 ∷ 117 ∷ 110 ∷ 100 ∷ []

-- `options.seed ? shuffleDeterministically(cards, options.seed + suffix) : cards`
abbrev shuffled_or_not : List ℕ → List ℕ → Option (List ℕ) → List ℕ
shuffled_or_not cards suffix none = cards
shuffled_or_not cards suffix (some []) = cards
shuffled_or_not cards suffix (some (c ∷ seed)) =
    shuffle_deterministically cards ((c ∷ seed) ++ suffix)

abbrev pub card_keys : List GameEngineCard → List ℕ
card_keys cards = map (λ card. card.key) cards

unfoldable pub create_initial_deck_state : Option (List ℕ) → GameEngineDecks
unfolding chance_cards world_fund_cards
create_initial_deck_state seed = record {
  chance = record {
    draw_pile = shuffled_or_not (card_keys chance_cards) chance_suffix seed;
    discard_pile = [];
  };
  world_fund = record {
    draw_pile = shuffled_or_not (card_keys world_fund_cards) world_fund_suffix seed;
    discard_pile = [];
  };
}
