-- ===== src/Validity/Store.antt =====
-- The invariant across changes of one player or one property.
use livepoly_server.Base.{
  ℕ, ◌≡◌, some, List, All-update_by, All-update_by_at, All-find_by, Distinct-update_by, find_by,
  find_by-key, map, All-map, Distinct-map, update_by,
}
use livepoly_server.Types.{GameEngineState, GameEnginePlayer, GameEngineProperty, ok, or_throw-ok}
use livepoly_server.Store.{player_key, property_key, find_property_state}
use livepoly_server.Validity.Defs.{IsOnBoard, IsBuildable, PlayersValid, PropertiesValid}

-- A change of a player that keeps his id and leaves him on the board.
pub players_update :
    (f : GameEnginePlayer → GameEnginePlayer)
    → ((p : GameEnginePlayer) → player_key (f p) ≡ player_key p)
    → ((p : GameEnginePlayer) → IsOnBoard p → IsOnBoard (f p))
    → (id : ℕ) (players : List GameEnginePlayer) → PlayersValid players
    → PlayersValid (update_by player_key id f players)
players_update f keeps stays id players v = (
  Distinct-update_by player_key f keeps id players v.0,
  All-update_by player_key f IsOnBoard stays id players v.1,
)

-- A change of every property with a key.
pub properties_update :
    (f : GameEngineProperty → GameEngineProperty)
    → ((p : GameEngineProperty) → property_key (f p) ≡ property_key p)
    → ((p : GameEngineProperty) → IsBuildable p → IsBuildable (f p))
    → (key : ℕ) (properties : List GameEngineProperty) → PropertiesValid properties
    → PropertiesValid (update_by property_key key f properties)
properties_update f keeps stays key properties v = (
  Distinct-update_by property_key f keeps key properties v.0,
  All-update_by property_key f IsBuildable stays key properties v.1,
)

-- A change that is legal for the property that was found, under that property's own key.
pub found_property_update :
    (state : GameEngineState) (key : ℕ) (x : GameEngineProperty)
    (f : GameEngineProperty → GameEngineProperty) (properties : List GameEngineProperty)
    → ((p : GameEngineProperty) → property_key (f p) ≡ property_key p)
    → find_property_state state key ≡ ok x
    → properties ≡ state.properties
    → (IsBuildable x → IsBuildable (f x))
    → PropertiesValid state.properties
    → PropertiesValid (update_by property_key x.tile_key f properties)
unfolding find_property_state
found_property_update state key x f properties keeps found same legal v =
    let at_key : find_by property_key key state.properties ≡ some x = or_throw-ok _ _ found in
    let own_key : x.tile_key ≡ key = find_by-key property_key key state.properties at_key in
    rw (same, own_key)
      (
        Distinct-update_by property_key f keeps key state.properties v.0,
        All-update_by_at property_key f IsBuildable key state.properties v.0 at_key
            (legal (All-find_by property_key IsBuildable key state.properties v.1 at_key)) v.1,
      )

-- A change of every property that keeps the keys.
pub properties_map :
    (f : GameEngineProperty → GameEngineProperty)
    → ((p : GameEngineProperty) → property_key (f p) ≡ property_key p)
    → ((p : GameEngineProperty) → IsBuildable p → IsBuildable (f p))
    → (properties : List GameEngineProperty) → PropertiesValid properties
    → PropertiesValid (map f properties)
properties_map f keeps stays properties v =
    (Distinct-map property_key f keeps properties v.0, All-map IsBuildable f properties stays v.1)
