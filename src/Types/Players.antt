-- ===== src/Types/Players.antt =====
-- The players of a game: `GameEnginePlayer` of src/game/engine/game-engine.types.ts.
use livepoly_server.Base.{ℕ, Bool, true, false, Option, List}

pub data PlayerType : Type 0 where
  human bot : PlayerType

pub data BotDifficulty : Type 0 where
  easy normal hard : BotDifficulty

-- The user's id, his name and the bot's name are carried along and never read by the engine.
pub record GameEnginePlayer : Type 0 where
  pub room_player_id : ℕ
  pub user_id : Option ℕ
  pub username : Option ℕ
  pub player_type : PlayerType
  pub bot_difficulty : Option BotDifficulty
  pub bot_name : Option ℕ
  pub seat_number : ℕ
  pub cash : ℕ
  pub position : ℕ
  pub in_jail : Bool
  pub jail_turn_count : ℕ
  pub get_out_of_jail_free_cards : ℕ
  pub get_out_of_jail_free_card_keys : List ℕ
  pub consecutive_missed_turns : Option ℕ
  pub last_missed_turn_number : Option ℕ
  pub last_bot_trade_proposal_turn_number : Option ℕ
  pub bankrupt : Bool

abbrev pub is_human : PlayerType → Bool
is_human human = true
is_human bot = false
