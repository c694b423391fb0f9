-- ===== src/Rent/Tables.antt =====
-- The rent tables of the board and how `calculateRent` of src/game/engine/game-engine-rent.ts reads
-- them.
use livepoly_server.Base.{
  ℕ, zero, suc, ◌+◌, ◌*◌, ◌≤◌, ◌<◌, ◌≡◌, refl, true, some, none, List, [], ◌∷◌, All, All-find,
  All-find_by, length, get_elem?, get_elem?_of_lt, find_by, arith, ltb, Bool-cases, inl, inr,
}
use livepoly_server.Types.{GameBoardKey, GameEngineState, GameEngineProperty, ok, Result, ◌>>=◌}
use livepoly_server.Board.{
  GameTile, PropertyTile, get_game_board, find_tile, tile_key_of, is_ownable_tile,
}
use livepoly_server.Store.{property_key}
use livepoly_server.Rent.{
  calculate_rent, property_rent, by_owned_count, by_house_count, owns_full_property_set,
  count_owned_tiles_by_kind, is_utility,
}
use livepoly_server.Validity.{IsBuildable, IsValid}

-- A rent for four houses, or for one airport or utility at least.
abbrev HasRents : GameTile → Type 0
HasRents (GameTile.property t) = 4 ≤ length t.rent_by_house_count
HasRents (GameTile.airport t) = 1 ≤ length t.rent_by_owned_count
HasRents (GameTile.utility t) = 1 ≤ length t.rent_multiplier_by_owned_count
HasRents _ = Unit

tiles-HasRents : (key : GameBoardKey) → All HasRents (get_game_board key).tiles
unfolding get_game_board
tiles-HasRents GameBoardKey.classic = omega arith

-- An operation that returns.
abbrev Returns {ℓ} : {A : Type ℓ} → Result A → Type ℓ
Returns {A = A} r = (a : A) × (r ≡ ok a)

by_owned_count-Returns :
    (amounts : List ℕ) (n : ℕ) → 1 ≤ length amounts → Returns (by_owned_count amounts n)
unfolding by_owned_count
by_owned_count-Returns [] n h = elim h [ ]
by_owned_count-Returns (a ∷ amounts) zero h = (a, refl)
by_owned_count-Returns (a ∷ amounts) (suc i) h =
    elim (get_elem? (a ∷ amounts) i)
      as (λ o. (amount : ℕ) × (elim o [ none ↦ ok a | some amount ↦ ok amount ] ≡ ok amount)) [
        | none ↦ (a, refl)
        | some amount ↦ (amount, refl)
      ]

by_house_count-Returns :
    (amounts : List ℕ) (n : ℕ) → 0 < n → n ≤ length amounts → Returns (by_house_count amounts n)
unfolding by_house_count
by_house_count-Returns amounts zero h k = elim h [ ]
by_house_count-Returns amounts (suc i) h k =
    let entry = get_elem?_of_lt amounts i k in (entry.0, rw entry.1 refl)

property_rent-Returns :
    (state : GameEngineState) (t : PropertyTile) (p : GameEngineProperty)
    → 4 ≤ length t.rent_by_house_count
    → IsBuildable p
    → Returns (property_rent state t p)
unfolding property_rent
property_rent-Returns state t p enough b = elim (Bool-cases p.has_hotel) [
  | inl hotel ↦ (t.hotel_rent, rw hotel refl)
  | inr no_hotel ↦ elim (Bool-cases (ltb 0 p.house_count)) [
    | inl houses ↦
        let rent =
          by_house_count-Returns t.rent_by_house_count p.house_count (ground arith)
            (ground (arith, b.houses_capped)) in
        (rent.0, rw (no_hotel, houses) rent.1)
    | inr no_house ↦ elim (Bool-cases (owns_full_property_set state t)) [
      | inl full ↦ (t.base_rent * 2, rw (no_hotel, no_house, full) refl)
      | inr part ↦ (t.base_rent, rw (no_hotel, no_house, part) refl)
    ]
  ]
]

-- In a valid state, the rent of an ownable tile of the board that has a property is always a
-- number: no table is read past its end.
pub calculate_rent-Returns :
    (state : GameEngineState) (key : ℕ) (tile : GameTile) (p : GameEngineProperty) (dice : ℕ × ℕ)
    → IsValid state
    → find_tile (get_game_board state.board_key) key ≡ some tile
    → is_ownable_tile tile ≡ true
    → find_by property_key (tile_key_of tile) state.properties ≡ some p
    → (amount : ℕ) × (calculate_rent state tile dice ≡ ok amount)
unfolding calculate_rent find_tile ◌>>=◌
calculate_rent-Returns state key tile p dice v on_board ownable found = rent tile ownable found (
    All-find HasRents _ (get_game_board state.board_key).tiles (tiles-HasRents state.board_key)
      on_board)
  where
    rent :
        (t : GameTile)
        → is_ownable_tile t ≡ true
        → find_by property_key (tile_key_of t) state.properties ≡ some p
        → HasRents t
        → Returns (calculate_rent state t dice)
    rent (GameTile.property t) o f h =
        let amount =
          property_rent-Returns state t p h
            (All-find_by property_key IsBuildable t.key state.properties v.1.1 f) in
        (amount.0, rw f amount.1)
    rent (GameTile.airport t) o f h = by_owned_count-Returns _ _ h
    rent (GameTile.utility t) o f h =
        let multiplier =
          by_owned_count-Returns t.rent_multiplier_by_owned_count
            (count_owned_tiles_by_kind state is_utility t.key) h in
        ((dice.0 + dice.1) * multiplier.0, rw (multiplier.1) refl)
    rent (GameTile.tax t) o f h = cc
    rent (GameTile.go t) o f h = cc
    rent (GameTile.chance t) o f h = cc
    rent (GameTile.world_fund t) o f h = cc
    rent (GameTile.jail t) o f h = cc
    rent (GameTile.free_parking t) o f h = cc
    rent (GameTile.go_to_jail t) o f h = cc
