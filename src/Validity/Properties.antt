-- ===== src/Validity/Properties.antt =====
-- The invariant across buying, mortgaging, building and selling.
use livepoly_server.Base.{
  ℕ, ◌+◌, ◌-◌, ◌≡◌, refl, true, false, Bool, Option, some, List, arith, ltb, update_by,
}
use livepoly_server.Types.{GameEngineState, GameEngineProperty, ok, throw_if-ok}
use livepoly_server.Ensures.{Ensures, returns, bind-Ensures, then-Ensures, both-Ensures, if-Ensures}
use livepoly_server.Store.{property_key}
use livepoly_server.Board.{PropertyTile, tile_key_of}
use livepoly_server.Properties.{buy_property, with_owner}
use livepoly_server.Mortgage.{mortgage_property, unmortgage_property, with_mortgaged}
use livepoly_server.Buildings.{
  build_property, build_house, build_hotel, sell_building, sell_hotel, sell_house, with_houses,
  with_buildings,
}
use livepoly_server.Money.{debit_player, credit_player}
use livepoly_server.Money.Frame.{
  SameProperties, debit_player-SameProperties, credit_player-SameProperties,
}
use livepoly_server.Store.{find_property_state}
use livepoly_server.Validity.Defs.{IsBuildable, PropertiesValid, IsValid, LeadsToValid}
use livepoly_server.Validity.Store.{properties_update, found_property_update}
use livepoly_server.Validity.Payments.{debit_player-IsValid, credit_player-IsValid}

pub with_owner-IsBuildable :
    (owner : Option ℕ) (p : GameEngineProperty) → IsBuildable p → IsBuildable (with_owner owner p)
with_owner-IsBuildable owner p b = record {
  houses_capped = b.houses_capped;
  hotel_alone = b.hotel_alone;
}

-- A change of owner.
pub with_owner-PropertiesValid :
    (key : ℕ) (owner : Option ℕ) (properties : List GameEngineProperty)
    → PropertiesValid properties
    → PropertiesValid (update_by property_key key (with_owner owner) properties)
with_owner-PropertiesValid key owner =
    properties_update (with_owner owner) (λ p. refl) (with_owner-IsBuildable owner) key

pub buy_property-IsValid :
    (state : GameEngineState) (id : ℕ)
    → IsValid state
    → Ensures LeadsToValid (buy_property state id)
unfolding buy_property
buy_property-IsValid state id v = bind-Ensures _ _ λ _ _. bind-Ensures _ _ λ tile _.
    bind-Ensures _ _ λ _ _. bind-Ensures _ _ λ _ _. bind-Ensures _ _ λ _ _.
      then-Ensures _ _ (debit_player-IsValid state id _ v) λ next w.
        returns (w.0, with_owner-PropertiesValid (tile_key_of tile) (some id) next.properties w.1)

-- A payment keeps the invariant and the properties.
abbrev Pays : GameEngineState → GameEngineState → Type 0
Pays state next = IsValid next × SameProperties state next

debit_player-Pays :
    (state : GameEngineState) (id amount : ℕ)
    → IsValid state
    → Ensures (Pays state) (debit_player state id amount)
debit_player-Pays state id amount v =
    both-Ensures (debit_player-IsValid state id amount v)
      (debit_player-SameProperties state id amount)

credit_player-Pays :
    (state : GameEngineState) (id amount : ℕ)
    → IsValid state
    → Ensures (Pays state) (credit_player state id amount)
credit_player-Pays state id amount v =
    both-Ensures (credit_player-IsValid state id amount v)
      (credit_player-SameProperties state id amount)

with_mortgaged-IsBuildable :
    (b : Bool) (p : GameEngineProperty) → IsBuildable p → IsBuildable (with_mortgaged b p)
with_mortgaged-IsBuildable b p h = record {
  houses_capped = h.houses_capped;
  hotel_alone = h.hotel_alone;
}

pub mortgage_property-IsValid :
    (state : GameEngineState) (id key : ℕ)
    → IsValid state
    → Ensures LeadsToValid (mortgage_property state id key)
unfolding mortgage_property
mortgage_property-IsValid state id key v = bind-Ensures _ _ λ _ _. bind-Ensures _ _ λ tile _.
    bind-Ensures _ _ λ p found. bind-Ensures _ _ λ _ _. bind-Ensures _ _ λ _ _.
      bind-Ensures _ _ λ _ _. then-Ensures _ _ (credit_player-Pays state id _ v) λ next w. returns (
        w.0.0,
        properties_update (with_mortgaged true) (λ p. refl) (with_mortgaged-IsBuildable true)
            p.tile_key next.properties w.0.1,
      )

pub unmortgage_property-IsValid :
    (state : GameEngineState) (id key : ℕ)
    → IsValid state
    → Ensures LeadsToValid (unmortgage_property state id key)
unfolding unmortgage_property
unmortgage_property-IsValid state id key v = bind-Ensures _ _ λ _ _. bind-Ensures _ _ λ tile _.
    bind-Ensures _ _ λ p found. bind-Ensures _ _ λ _ _. bind-Ensures _ _ λ _ _.
      then-Ensures _ _ (debit_player-Pays state id _ v) λ next w. returns (
        w.0.0,
        properties_update (with_mortgaged false) (λ p. refl) (with_mortgaged-IsBuildable false)
            p.tile_key next.properties w.0.1,
      )

build_house-IsValid :
    (state : GameEngineState) (id key : ℕ) (tile : PropertyTile) (p : GameEngineProperty)
    (properties : List GameEngineProperty)
    → find_property_state state key ≡ ok p
    → p.has_hotel ≡ false
    → ltb p.house_count 4 ≡ true
    → IsValid state
    → Ensures LeadsToValid (build_house state id tile p properties)
unfolding build_house
build_house-IsValid state id key tile p properties found plain few v = bind-Ensures _ _ λ _ _.
    then-Ensures _ _ (debit_player-Pays state id _ v) λ next w. returns (
      w.0.0,
      found_property_update state key p (with_houses (p.house_count + 1)) next.properties
          (λ p. refl) found w.1 (λ b. ground arith) v.1,
    )

build_hotel-IsValid :
    (state : GameEngineState) (id key : ℕ) (tile : PropertyTile) (p : GameEngineProperty)
    (properties : List GameEngineProperty)
    → find_property_state state key ≡ ok p
    → IsValid state
    → Ensures LeadsToValid (build_hotel state id tile p properties)
unfolding build_hotel
build_hotel-IsValid state id key tile p properties found v = bind-Ensures _ _ λ _ _.
    then-Ensures _ _ (debit_player-Pays state id _ v) λ next w. returns (
      w.0.0,
      found_property_update state key p (with_buildings 0 true) next.properties (λ p. refl) found
          w.1 (λ b. ground arith) v.1,
    )

pub build_property-IsValid :
    (state : GameEngineState) (id key : ℕ)
    → IsValid state
    → Ensures LeadsToValid (build_property state id key)
unfolding build_property
build_property-IsValid state id key v = bind-Ensures _ _ λ _ _. bind-Ensures _ _ λ _ _.
    bind-Ensures _ _ λ tile _. bind-Ensures _ _ λ properties _. bind-Ensures _ _ λ p found.
      bind-Ensures _ _ λ _ _. bind-Ensures _ _ λ _ plain.
        if-Ensures (ltb p.house_count 4) _ _
          (λ few.
            build_house-IsValid state id tile.key tile p properties found (throw_if-ok _ _ plain)
              few v)
          (λ _. build_hotel-IsValid state id tile.key tile p properties found v)

sell_hotel-IsValid :
    (state : GameEngineState) (id key : ℕ) (p : GameEngineProperty) (amount : ℕ)
    → find_property_state state key ≡ ok p
    → IsValid state
    → Ensures LeadsToValid (sell_hotel state id p amount)
unfolding sell_hotel
sell_hotel-IsValid state id key p amount found v =
    then-Ensures _ _ (credit_player-Pays state id _ v) λ next w. returns (
      w.0.0,
      found_property_update state key p (with_buildings 4 false) next.properties (λ p. refl) found
          w.1 (λ b. ground arith) v.1,
    )

sell_house-IsValid :
    (state : GameEngineState) (id key : ℕ) (p : GameEngineProperty)
    (properties : List GameEngineProperty) (amount : ℕ)
    → find_property_state state key ≡ ok p
    → p.has_hotel ≡ false
    → IsValid state
    → Ensures LeadsToValid (sell_house state id p properties amount)
unfolding sell_house
sell_house-IsValid state id key p properties amount found plain v = bind-Ensures _ _ λ _ _.
    bind-Ensures _ _ λ _ _. then-Ensures _ _ (credit_player-Pays state id _ v) λ next w. returns (
      w.0.0,
      found_property_update state key p (with_houses (p.house_count - 1)) next.properties
          (λ p. refl) found w.1 (λ b. ground arith) v.1,
    )

pub sell_building-IsValid :
    (state : GameEngineState) (id key : ℕ)
    → IsValid state
    → Ensures LeadsToValid (sell_building state id key)
unfolding sell_building
sell_building-IsValid state id key v = bind-Ensures _ _ λ _ _. bind-Ensures _ _ λ tile _.
    bind-Ensures _ _ λ properties _. bind-Ensures _ _ λ p found.
      if-Ensures p.has_hotel _ _ (λ _. sell_hotel-IsValid state id tile.key p _ found v)
        (λ plain. sell_house-IsValid state id tile.key p properties _ found plain v)
