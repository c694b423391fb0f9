-- ===== src/Validity/Defs.antt =====
-- The invariant of a game's state.
use livepoly_server.Base.{◌≤◌, ◌<◌, ◌≡◌, true, List, All, Distinct}
use livepoly_server.Types.{GameEngineState, GameEnginePlayer, GameEngineProperty, GameEngineResult}
use livepoly_server.Store.{player_key, property_key}

-- At most four houses, and no house beside a hotel.
pub record IsBuildable (p : GameEngineProperty) : Type 0 where
  pub houses_capped : p.house_count ≤ 4
  pub hotel_alone : p.has_hotel ≡ true → p.house_count ≡ 0

-- The classic board has 40 tiles.
abbrev pub IsOnBoard : GameEnginePlayer → Type 0
IsOnBoard p = p.position < 40

abbrev pub PlayersValid : List GameEnginePlayer → Type 0
PlayersValid players = Distinct player_key players × All IsOnBoard players

abbrev pub PropertiesValid : List GameEngineProperty → Type 0
PropertiesValid properties = Distinct property_key properties × All IsBuildable properties

-- Players and properties have distinct keys, players stand on the board, and buildings are legal.
abbrev pub IsValid : GameEngineState → Type 0
IsValid state = PlayersValid state.players × PropertiesValid state.properties

-- An operation's result has a valid state.
abbrev pub LeadsToValid : GameEngineResult → Type 0
LeadsToValid result = IsValid result.state
