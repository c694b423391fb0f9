-- ===== src/Board/Builders.antt =====
-- The functions `property`, `airport`, `utility` and `tax` of src/game/engine/game-board.ts.
use livepoly_server.Base.{ℕ, ◌/◌, List, [], ◌∷◌}
use livepoly_server.Board.Tiles.{PropertySetKey, BaseGameTile, GameTile}

-- A property costs twice its mortgage value.
unfoldable pub property : ℕ → ℕ → PropertySetKey → ℕ → ℕ → List ℕ → ℕ → ℕ → GameTile
property index key set_key price base_rent rent_by_house_count hotel_rent house_cost =
    GameTile.property (record {
      index = index;
      key = key;
      set_key = set_key;
      price = price;
      base_rent = base_rent;
      rent_by_house_count = rent_by_house_count;
      hotel_rent = hotel_rent;
      house_cost = house_cost;
      mortgage_value = price / 2;
    })

unfoldable pub airport : ℕ → ℕ → GameTile
airport index key = GameTile.airport (record {
  index = index;
  key = key;
  price = 200;
  rent_by_owned_count = 25 ∷ 50 ∷ 100 ∷ 200 ∷ [];
  mortgage_value = 100;
})

unfoldable pub utility : ℕ → ℕ → GameTile
utility index key = GameTile.utility (record {
  index = index;
  key = key;
  price = 150;
  rent_multiplier_by_owned_count = 4 ∷ 10 ∷ [];
  mortgage_value = 75;
})

unfoldable pub tax : ℕ → ℕ → ℕ → GameTile
tax index key amount = GameTile.tax (record { index = index; key = key; amount = amount })

-- A literal `{ index, key, name, kind }`.
unfoldable pub tile : (BaseGameTile → GameTile) → ℕ → ℕ → GameTile
tile kind index key = kind (record { index = index; key = key })
