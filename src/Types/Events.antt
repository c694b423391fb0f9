-- ===== src/Types/Events.antt =====
-- `GameEngineEvent` of src/game/engine/game-engine.types.ts. The arguments of a constructor are the
-- fields of the event in the order of the source.
use livepoly_server.Base.{ℕ, Option, List}

pub data GameEngineDebtReason : Type 0 where
  rent tax card jail_fine : GameEngineDebtReason

pub data GameCardDeckKey : Type 0 where
  chance world_fund : GameCardDeckKey

pub data GameTileKind : Type 0 where
  go property airport utility tax chance world_fund jail free_parking go_to_jail : GameTileKind

pub data GameCardEffectType : Type 0 where
  collect_money pay_money move_to_tile move_relative move_to_nearest go_to_jail get_out_of_jail_free
        collect_from_each_player pay_each_player property_repairs :
      GameCardEffectType

pub record PlayerNetWorth : Type 0 where
  pub room_player_id : ℕ
  pub seat_number : ℕ
  pub cash : ℕ
  pub owned_property_count : ℕ
  pub asset_value : ℕ
  pub net_worth : ℕ

pub data GameEngineEvent : Type 0 where
  player_moved : ℕ → ℕ → ℕ → ℕ × ℕ → GameEngineEvent
  player_rolled_doubles : ℕ → ℕ → GameEngineEvent
  player_rolled_third_doubles : ℕ → GameEngineEvent
  player_passed_go : ℕ → ℕ → GameEngineEvent
  player_landed_on_tile : ℕ → ℕ → GameTileKind → GameEngineEvent
  card_drawn : ℕ → GameCardDeckKey → ℕ → GameEngineEvent
  card_applied : ℕ → GameCardDeckKey → ℕ → GameCardEffectType → GameEngineEvent
  player_sent_to_jail : ℕ → ℕ → GameEngineEvent
  jail_escape_roll_succeeded : ℕ → ℕ × ℕ → GameEngineEvent
  jail_escape_roll_failed : ℕ → ℕ × ℕ → ℕ → GameEngineEvent
  jail_forced_fine_paid : ℕ → ℕ → GameEngineEvent
  jail_fine_paid : ℕ → ℕ → GameEngineEvent
  get_out_of_jail_card_used : ℕ → GameEngineEvent
  player_released_from_jail : ℕ → GameEngineEvent
  property_bought : ℕ → ℕ → ℕ → GameEngineEvent
  property_purchase_declined : ℕ → ℕ → GameEngineEvent
  auction_started : ℕ → List ℕ → GameEngineEvent
  auction_bid_placed : ℕ → ℕ → ℕ → GameEngineEvent
  auction_bid_passed : ℕ → ℕ → GameEngineEvent
  auction_won : ℕ → ℕ → ℕ → GameEngineEvent
  rent_paid : ℕ → ℕ → ℕ → ℕ → GameEngineEvent
  tax_paid : ℕ → ℕ → ℕ → GameEngineEvent
  payment_required : ℕ → Option ℕ → ℕ → GameEngineDebtReason → GameEngineEvent
  debt_paid : ℕ → Option ℕ → ℕ → GameEngineDebtReason → GameEngineEvent
  property_house_built : ℕ → ℕ → ℕ → ℕ → GameEngineEvent
  property_hotel_built : ℕ → ℕ → ℕ → GameEngineEvent
  property_house_sold : ℕ → ℕ → ℕ → ℕ → GameEngineEvent
  property_hotel_sold : ℕ → ℕ → ℕ → GameEngineEvent
  property_mortgaged : ℕ → ℕ → ℕ → GameEngineEvent
  property_unmortgaged : ℕ → ℕ → ℕ → GameEngineEvent
  trade_proposed : ℕ → ℕ → ℕ → ℕ → ℕ → List ℕ → List ℕ → GameEngineEvent
  trade_buildings_liquidated : ℕ → ℕ → ℕ → ℕ → GameEngineEvent
  trade_accepted : ℕ → ℕ → ℕ → GameEngineEvent
  trade_rejected : ℕ → ℕ → ℕ → ℕ → GameEngineEvent
  trade_cancelled : ℕ → ℕ → ℕ → GameEngineEvent
  player_bankrupt : ℕ → Option ℕ → GameEngineEvent
  game_finished_by_bankruptcy : Option ℕ → List ℕ → List PlayerNetWorth → GameEngineEvent
  game_finished_by_time : ℕ → Option ℕ → List ℕ → List PlayerNetWorth → GameEngineEvent
  game_finished_after_last_human_left :
      ℕ → Option ℕ → List ℕ → List PlayerNetWorth → GameEngineEvent
  turn_ended : ℕ → ℕ → ℕ → GameEngineEvent
