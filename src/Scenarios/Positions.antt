-- ===== src/Scenarios/Positions.antt =====
-- A game in a few positions.
use livepoly_server.Base.{ℕ, arith, refl, false, Option, none, some, List, [], ◌∷◌}
use livepoly_server.Types.{
  GameEngineState, GameEnginePlayer, GameEngineProperty, GameEngineDebt, GameEngineDebtReason,
  GameEngineTradeOffer, GameMode, GamePhase, GameBoardKey, human, awaiting_property_decision,
  awaiting_turn_end, awaiting_debt_resolution, awaiting_auction_bid, finished,
}
use livepoly_server.Board.{GameTile, nigeria, ghana, lagos_airport}
use livepoly_server.Cards.Tables.{chance_get_out_of_jail_free, chance_bank_dividend}
use livepoly_server.Engine.{Platform}
use livepoly_server.Validity.{IsBuildable, IsValid}

abbrev pub platform : Platform
platform = record { now = 1_000; fresh_id = 77; trim = λ key. some key }

abbrev pub player : ℕ → ℕ → GameEnginePlayer
player id cash = record {
  room_player_id = id;
  user_id = none;
  username = none;
  player_type = human;
  bot_difficulty = none;
  bot_name = none;
  seat_number = id;
  cash = cash;
  position = 1;
  in_jail = false;
  jail_turn_count = 0;
  get_out_of_jail_free_cards = 0;
  get_out_of_jail_free_card_keys = [];
  consecutive_missed_turns = none;
  last_missed_turn_number = none;
  last_bot_trade_proposal_turn_number = none;
  bankrupt = false;
}

abbrev pub holding : ℕ → Option ℕ → ℕ → GameEngineProperty
holding key owner houses = record {
  tile_key = key;
  owner_room_player_id = owner;
  house_count = houses;
  has_hotel = false;
  mortgaged = false;
}

abbrev pub position_of : GamePhase → List GameEngineProperty → GameEngineState
position_of phase properties = record {
  room_id = 1;
  room_code = 2;
  board_key = GameBoardKey.classic;
  mode = GameMode.casual;
  started_at = some 1;
  duration_minutes = none;
  expires_at = none;
  turn_expires_at = none;
  phase = phase;
  turn_number = 4;
  current_turn_room_player_id = 1;
  consecutive_doubles_count = 0;
  should_current_player_play_again = false;
  last_dice_roll = some (3, 4);
  pending_tile_key = some nigeria;
  auction = none;
  trade_offer = none;
  debt = none;
  decks = record {
    chance = record {
      draw_pile = chance_get_out_of_jail_free ∷ chance_bank_dividend ∷ [];
      discard_pile = [];
    };
    world_fund = record { draw_pile = []; discard_pile = [] };
  };
  players = player 1 500 ∷ player 2 90 ∷ [];
  properties = properties;
}

-- Player 1 stands on Nigeria, which is free; the airport is player 2's.
abbrev pub offered : GameEngineState
offered =
    position_of awaiting_property_decision
      (holding nigeria none 0 ∷ holding lagos_airport (some 2) 0 ∷ [])

abbrev pub bought : GameEngineState
bought =
    record (position_of awaiting_turn_end
      (holding nigeria (some 1) 0 ∷ holding lagos_airport (some 2) 0 ∷ [])) {
        pending_tile_key = none;
        players = player 1 440 ∷ player 2 90 ∷ [];
      }

pub houses-IsBuildable : (key : ℕ) (owner : Option ℕ) → IsBuildable (holding key owner 0)
houses-IsBuildable key owner = record { houses_capped = omega arith; hotel_alone = λ _. refl }

pub offered-IsValid : IsValid offered
offered-IsValid = (
  ((refl, (refl, tt)), (omega arith, (omega arith, tt))),
  (
    (refl, (refl, tt)),
    (houses-IsBuildable nigeria none, (houses-IsBuildable lagos_airport (some 2), tt)),
  ),
)

-- Player 1 owns both brown properties, with houses, and owes more than he has.
abbrev pub indebted : GameEngineState
indebted =
    record (position_of awaiting_debt_resolution
      (holding nigeria (some 1) 0 ∷ holding ghana (some 1) 0 ∷ [])) {
        debt = some (record {
          room_player_id = 1;
          creditor_room_player_id = some 2;
          amount = 530;
          reason = GameEngineDebtReason.rent;
        });
      }

pub indebted-IsValid : IsValid indebted
indebted-IsValid = (
  ((refl, (refl, tt)), (omega arith, (omega arith, tt))),
  (
    (refl, (refl, tt)),
    (houses-IsBuildable nigeria (some 1), (houses-IsBuildable ghana (some 1), tt)),
  ),
)

abbrev pub over : GameEngineState
over = position_of finished []

abbrev pub income_tax_debt : GameEngineDebt
income_tax_debt = record {
  room_player_id = 2;
  creditor_room_player_id = none;
  amount = 200;
  reason = GameEngineDebtReason.tax;
}

abbrev pub auctioned : GameEngineState
auctioned =
    record (position_of awaiting_auction_bid
      (holding nigeria none 0 ∷ holding lagos_airport (some 2) 0 ∷ [])) {
        auction = some (record {
          tile_key = nigeria;
          current_bid = 10;
          highest_bidder_room_player_id = some 1;
          current_bidder_room_player_id = some 2;
          bid_expires_at = none;
          active_room_player_ids = 1 ∷ 2 ∷ [];
          passed_room_player_ids = [];
        });
      }

abbrev pub airport_tile : GameTile
airport_tile = GameTile.airport (record {
  index = 5;
  key = lagos_airport;
  price = 200;
  rent_by_owned_count = 25 ∷ 50 ∷ 100 ∷ 200 ∷ [];
  mortgage_value = 100;
})

abbrev pub trade : GameEngineTradeOffer
trade = record {
  id = 9;
  from_room_player_id = 1;
  to_room_player_id = 2;
  offered_cash = 20;
  requested_cash = 0;
  offered_property_keys = [];
  requested_property_keys = lagos_airport ∷ [];
  created_at = 3;
}

-- Player 1 owes player 2 a rent that he can pay.
abbrev pub payable : GameEngineState
payable = record indebted {
  debt = some (record {
    room_player_id = 1;
    creditor_room_player_id = some 2;
    amount = 30;
    reason = GameEngineDebtReason.rent;
  });
}
