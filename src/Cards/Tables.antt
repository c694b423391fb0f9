-- ===== src/Cards/Tables.antt =====
-- The two decks of src/game/engine/game-engine-cards.ts, CHANCE_CARDS and WORLD_FUND_CARDS, and the
-- effects of cards (src/game/engine/game-engine.types.ts). Card keys are texts there, numbers here.
use livepoly_server.Base.{ℕ, Bool, true, List, [], ◌∷◌}
use livepoly_server.Types.{GameTileKind, GameCardEffectType}
use livepoly_server.Board.{go_tile, lagos_airport, spain, uk}

-- A signed number of spaces.
pub data Spaces : Type 0 where
  forward back : ℕ → Spaces

pub data GameCardEffect : Type 0 where
  collect_money pay_money : ℕ → GameCardEffect
  move_to_tile : ℕ → Bool → GameCardEffect
  move_relative : Spaces → GameCardEffect
  move_to_nearest : GameTileKind → Bool → GameCardEffect
  go_to_jail get_out_of_jail_free : GameCardEffect
  collect_from_each_player pay_each_player : ℕ → GameCardEffect
  property_repairs : ℕ → ℕ → GameCardEffect

pub record GameEngineCard : Type 0 where
  pub key : ℕ
  pub effect : GameCardEffect

-- `card.effect.type`
abbrev pub effect_type : GameCardEffect → GameCardEffectType
effect_type (collect_money amount) = GameCardEffectType.collect_money
effect_type (pay_money amount) = GameCardEffectType.pay_money
effect_type (move_to_tile tile_key collect_pass_go) = GameCardEffectType.move_to_tile
effect_type (move_relative spaces) = GameCardEffectType.move_relative
effect_type (move_to_nearest tile_kind collect_pass_go) = GameCardEffectType.move_to_nearest
effect_type go_to_jail = GameCardEffectType.go_to_jail
effect_type get_out_of_jail_free = GameCardEffectType.get_out_of_jail_free
effect_type (collect_from_each_player amount) = GameCardEffectType.collect_from_each_player
effect_type (pay_each_player amount) = GameCardEffectType.pay_each_player
effect_type (property_repairs house_amount hotel_amount) = GameCardEffectType.property_repairs

abbrev pub chance_bank_dividend : ℕ
chance_bank_dividend = 200

abbrev pub chance_chairman_bonus : ℕ
chance_chairman_bonus = 201

abbrev pub chance_advance_to_go : ℕ
chance_advance_to_go = 202

abbrev pub chance_advance_to_spain : ℕ
chance_advance_to_spain = 203

abbrev pub chance_advance_to_uk : ℕ
chance_advance_to_uk = 204

abbrev pub chance_advance_to_lagos_airport : ℕ
chance_advance_to_lagos_airport = 205

abbrev pub chance_nearest_airport : ℕ
chance_nearest_airport = 206

abbrev pub chance_nearest_utility : ℕ
chance_nearest_utility = 207

abbrev pub chance_go_back_three : ℕ
chance_go_back_three = 208

abbrev pub chance_go_to_jail : ℕ
chance_go_to_jail = 209

abbrev pub chance_building_repairs : ℕ
chance_building_repairs = 210

abbrev pub chance_pay_school_fees : ℕ
chance_pay_school_fees = 211

abbrev pub chance_speeding_fine : ℕ
chance_speeding_fine = 212

abbrev pub chance_loan_matures : ℕ
chance_loan_matures = 213

abbrev pub chance_pay_each_player : ℕ
chance_pay_each_player = 214

abbrev pub chance_get_out_of_jail_free : ℕ
chance_get_out_of_jail_free = 215

abbrev pub world_fund_receive_25 : ℕ
world_fund_receive_25 = 300

abbrev pub world_fund_bank_error : ℕ
world_fund_bank_error = 301

abbrev pub world_fund_doctor_fee : ℕ
world_fund_doctor_fee = 302

abbrev pub world_fund_sale_of_stock : ℕ
world_fund_sale_of_stock = 303

abbrev pub world_fund_pay_hospital : ℕ
world_fund_pay_hospital = 304

abbrev pub world_fund_life_insurance : ℕ
world_fund_life_insurance = 305

abbrev pub world_fund_income_tax_refund : ℕ
world_fund_income_tax_refund = 306

abbrev pub world_fund_birthday : ℕ
world_fund_birthday = 307

abbrev pub world_fund_holiday_fund : ℕ
world_fund_holiday_fund = 308

abbrev pub world_fund_consultancy_fee : ℕ
world_fund_consultancy_fee = 309

abbrev pub world_fund_street_repairs : ℕ
world_fund_street_repairs = 310

abbrev pub world_fund_advance_to_go : ℕ
world_fund_advance_to_go = 311

abbrev pub world_fund_go_to_jail : ℕ
world_fund_go_to_jail = 312

abbrev pub world_fund_beauty_contest : ℕ
world_fund_beauty_contest = 313

abbrev pub world_fund_inherit : ℕ
world_fund_inherit = 314

abbrev pub world_fund_get_out_of_jail_free : ℕ
world_fund_get_out_of_jail_free = 315

unfoldable pub chance_cards : List GameEngineCard
chance_cards =
    (record { key = chance_bank_dividend; effect = collect_money 50 })
    ∷ (record { key = chance_chairman_bonus; effect = collect_money 150 })
    ∷ (record { key = chance_advance_to_go; effect = move_to_tile go_tile true })
    ∷ (record { key = chance_advance_to_spain; effect = move_to_tile spain true })
    ∷ (record { key = chance_advance_to_uk; effect = move_to_tile uk true })
    ∷ (record { key = chance_advance_to_lagos_airport; effect = move_to_tile lagos_airport true })
    ∷ (record { key = chance_nearest_airport; effect = move_to_nearest GameTileKind.airport true })
    ∷ (record { key = chance_nearest_utility; effect = move_to_nearest GameTileKind.utility true })
    ∷ (record { key = chance_go_back_three; effect = move_relative (back 3) })
    ∷ (record { key = chance_go_to_jail; effect = go_to_jail })
    ∷ (record { key = chance_building_repairs; effect = property_repairs 25 100 })
    ∷ (record { key = chance_pay_school_fees; effect = pay_money 50 })
    ∷ (record { key = chance_speeding_fine; effect = pay_money 15 })
    ∷ (record { key = chance_loan_matures; effect = collect_money 150 })
    ∷ (record { key = chance_pay_each_player; effect = pay_each_player 50 })
    ∷ (record { key = chance_get_out_of_jail_free; effect = get_out_of_jail_free })
    ∷ []

unfoldable pub world_fund_cards : List GameEngineCard
world_fund_cards =
    (record { key = world_fund_receive_25; effect = collect_money 25 })
    ∷ (record { key = world_fund_bank_error; effect = collect_money 200 })
    ∷ (record { key = world_fund_doctor_fee; effect = pay_money 50 })
    ∷ (record { key = world_fund_sale_of_stock; effect = collect_money 50 })
    ∷ (record { key = world_fund_pay_hospital; effect = pay_money 100 })
    ∷ (record { key = world_fund_life_insurance; effect = collect_money 100 })
    ∷ (record { key = world_fund_income_tax_refund; effect = collect_money 20 })
    ∷ (record { key = world_fund_birthday; effect = collect_from_each_player 10 })
    ∷ (record { key = world_fund_holiday_fund; effect = collect_money 100 })
    ∷ (record { key = world_fund_consultancy_fee; effect = collect_money 25 })
    ∷ (record { key = world_fund_street_repairs; effect = property_repairs 40 115 })
    ∷ (record { key = world_fund_advance_to_go; effect = move_to_tile go_tile true })
    ∷ (record { key = world_fund_go_to_jail; effect = go_to_jail })
    ∷ (record { key = world_fund_beauty_contest; effect = collect_money 10 })
    ∷ (record { key = world_fund_inherit; effect = collect_money 100 })
    ∷ (record { key = world_fund_get_out_of_jail_free; effect = get_out_of_jail_free })
    ∷ []
