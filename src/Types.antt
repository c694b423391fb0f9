-- ===== src/Types.antt =====
-- The state of a game: src/game/engine/game-engine.types.ts. A string that is used as a key (a
-- room player id, a tile key, a card key, a trade id) is only compared for equality, so it is a
-- number here, one for each non-empty string; `null` and `undefined` are both `none`.
mod Errors
mod Events
mod Players
pub use Errors.*
unfoldable pub use Errors.{◌>>=◌}
pub use Events.*
pub use Players.*
use livepoly_server.Base.{ℕ, Bool, Option, List, ◌==◌}

pub data GameMode : Type 0 where
  ranked casual : GameMode

pub data GamePhase : Type 0 where
  awaiting_first_turn awaiting_roll awaiting_property_decision awaiting_auction_bid
        awaiting_debt_resolution awaiting_turn_end finished cancelled :
      GamePhase

abbrev phase_code : GamePhase → ℕ
phase_code awaiting_first_turn = 0
phase_code awaiting_roll = 1
phase_code awaiting_property_decision = 2
phase_code awaiting_auction_bid = 3
phase_code awaiting_debt_resolution = 4
phase_code awaiting_turn_end = 5
phase_code finished = 6
phase_code cancelled = 7

-- `===` on phases.
abbrev pub phase_is : GamePhase → GamePhase → Bool
phase_is a b = phase_code a == phase_code b

pub data GameBoardKey : Type 0 where
  classic : GameBoardKey

pub record GameEngineProperty : Type 0 where
  pub tile_key : ℕ
  pub owner_room_player_id : Option ℕ
  pub house_count : ℕ
  pub has_hotel : Bool
  pub mortgaged : Bool

pub record GameEngineAuction : Type 0 where
  pub tile_key : ℕ
  pub current_bid : ℕ
  pub highest_bidder_room_player_id : Option ℕ
  pub current_bidder_room_player_id : Option ℕ
  pub bid_expires_at : Option ℕ
  pub active_room_player_ids : List ℕ
  pub passed_room_player_ids : List ℕ

pub record GameEngineTradeOffer : Type 0 where
  pub id : ℕ
  pub from_room_player_id : ℕ
  pub to_room_player_id : ℕ
  pub offered_cash : ℕ
  pub requested_cash : ℕ
  pub offered_property_keys : List ℕ
  pub requested_property_keys : List ℕ
  pub created_at : ℕ

pub record GameEngineDebt : Type 0 where
  pub room_player_id : ℕ
  pub creditor_room_player_id : Option ℕ
  pub amount : ℕ
  pub reason : GameEngineDebtReason

pub record GameEngineDeckState : Type 0 where
  pub draw_pile : List ℕ
  pub discard_pile : List ℕ

pub record GameEngineDecks : Type 0 where
  pub chance : GameEngineDeckState
  pub world_fund : GameEngineDeckState

pub record GameEngineState : Type 0 where
  pub room_id : ℕ
  pub room_code : ℕ
  pub board_key : GameBoardKey
  pub mode : GameMode
  pub started_at : Option ℕ
  pub duration_minutes : Option ℕ
  pub expires_at : Option ℕ
  pub turn_expires_at : Option ℕ
  pub phase : GamePhase
  pub turn_number : ℕ
  pub current_turn_room_player_id : ℕ
  pub consecutive_doubles_count : ℕ
  pub should_current_player_play_again : Bool
  pub last_dice_roll : Option (ℕ × ℕ)
  pub pending_tile_key : Option ℕ
  pub auction : Option GameEngineAuction
  pub trade_offer : Option GameEngineTradeOffer
  pub debt : Option GameEngineDebt
  pub decks : GameEngineDecks
  pub players : List GameEnginePlayer
  pub properties : List GameEngineProperty

pub record GameEngineResult : Type 0 where
  pub state : GameEngineState
  pub events : List GameEngineEvent
