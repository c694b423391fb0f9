-- ===== src/Commands/Player.antt =====
-- The commands of a player: `rollAndMove`, `endTurn` and the other methods of
-- src/game/commands/game-commands.service.ts that call `executeIntent`.
use livepoly_server.Base.{ℕ, none, some, List}
use livepoly_server.Assertions.{JsNumber}
use livepoly_server.Engine.{
  GameEngineIntent, roll_and_move_intent, buy_property_intent, decline_property_purchase_intent,
  place_auction_bid_intent, pass_auction_bid_intent, build_property_intent, sell_building_intent,
  mortgage_property_intent, unmortgage_property_intent, propose_trade_intent, accept_trade_intent,
  reject_trade_intent, cancel_trade_intent, declare_bankruptcy_intent, pay_debt_intent,
  pay_jail_fine_intent, use_get_out_of_jail_card_intent, end_turn_intent,
}
use livepoly_server.Commands.{ExecuteGameIntentCommand, GameCommandSource}

abbrev from_player : ℕ → ℕ → GameEngineIntent → ExecuteGameIntentCommand
from_player game_id id intent = record {
  game_id = game_id;
  room_player_id = some id;
  intent = intent;
  source = some GameCommandSource.player;
}

abbrev pub roll_and_move_command : ℕ → ℕ → List JsNumber → ExecuteGameIntentCommand
roll_and_move_command game_id id dice = from_player game_id id (roll_and_move_intent id dice)

abbrev pub end_turn_command : ℕ → ℕ → ExecuteGameIntentCommand
end_turn_command game_id id = from_player game_id id (end_turn_intent id)

abbrev pub buy_property_command : ℕ → ℕ → ExecuteGameIntentCommand
buy_property_command game_id id = from_player game_id id (buy_property_intent id)

abbrev pub decline_property_purchase_command : ℕ → ℕ → ExecuteGameIntentCommand
decline_property_purchase_command game_id id =
    from_player game_id id (decline_property_purchase_intent id)

abbrev pub place_auction_bid_command : ℕ → ℕ → JsNumber → ExecuteGameIntentCommand
place_auction_bid_command game_id id amount =
    from_player game_id id (place_auction_bid_intent id amount)

abbrev pub pass_auction_bid_command : ℕ → ℕ → ExecuteGameIntentCommand
pass_auction_bid_command game_id id = from_player game_id id (pass_auction_bid_intent id)

abbrev pub pay_debt_command : ℕ → ℕ → ExecuteGameIntentCommand
pay_debt_command game_id id = from_player game_id id (pay_debt_intent id)

abbrev pub pay_jail_fine_command : ℕ → ℕ → ExecuteGameIntentCommand
pay_jail_fine_command game_id id = from_player game_id id (pay_jail_fine_intent id)

abbrev pub use_get_out_of_jail_card_command : ℕ → ℕ → ExecuteGameIntentCommand
use_get_out_of_jail_card_command game_id id =
    from_player game_id id (use_get_out_of_jail_card_intent id)

abbrev pub declare_bankruptcy_command : ℕ → ℕ → ExecuteGameIntentCommand
declare_bankruptcy_command game_id id = from_player game_id id (declare_bankruptcy_intent id none)

abbrev pub build_property_command : ℕ → ℕ → ℕ → ExecuteGameIntentCommand
build_property_command game_id id tile_key =
    from_player game_id id (build_property_intent id tile_key)

abbrev pub sell_building_command : ℕ → ℕ → ℕ → ExecuteGameIntentCommand
sell_building_command game_id id tile_key =
    from_player game_id id (sell_building_intent id tile_key)

abbrev pub mortgage_property_command : ℕ → ℕ → ℕ → ExecuteGameIntentCommand
mortgage_property_command game_id id tile_key =
    from_player game_id id (mortgage_property_intent id tile_key)

abbrev pub unmortgage_property_command : ℕ → ℕ → ℕ → ExecuteGameIntentCommand
unmortgage_property_command game_id id tile_key =
    from_player game_id id (unmortgage_property_intent id tile_key)

abbrev pub propose_trade_command :
    ℕ → ℕ → ℕ → JsNumber → JsNumber → List ℕ → List ℕ → ExecuteGameIntentCommand
propose_trade_command game_id id other offered_cash requested_cash offered_keys requested_keys =
    from_player game_id id (
      propose_trade_intent (record {
        room_player_id = id;
        to_room_player_id = other;
        offered_cash = offered_cash;
        requested_cash = requested_cash;
        offered_property_keys = offered_keys;
        requested_property_keys = requested_keys;
        trade_id = none;
      }))

abbrev pub accept_trade_command : ℕ → ℕ → ℕ → ExecuteGameIntentCommand
accept_trade_command game_id id trade_id = from_player game_id id (accept_trade_intent id trade_id)

abbrev pub reject_trade_command : ℕ → ℕ → ℕ → ExecuteGameIntentCommand
reject_trade_command game_id id trade_id = from_player game_id id (reject_trade_intent id trade_id)

abbrev pub cancel_trade_command : ℕ → ℕ → ℕ → ExecuteGameIntentCommand
cancel_trade_command game_id id trade_id = from_player game_id id (cancel_trade_intent id trade_id)
