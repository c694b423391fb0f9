-- ===== src/Board/Keys.antt =====
-- The tile keys of the classic board (src/game/engine/game-board.ts): texts there, one number each
-- here. A key that is also the name of a kind of tile ends in `_tile`.
use livepoly_server.Base.{ℕ}

abbrev pub go_tile : ℕ
go_tile = 100

abbrev pub nigeria : ℕ
nigeria = 101

abbrev pub world_fund_1 : ℕ
world_fund_1 = 102

abbrev pub ghana : ℕ
ghana = 103

abbrev pub income_tax : ℕ
income_tax = 104

abbrev pub lagos_airport : ℕ
lagos_airport = 105

abbrev pub south_africa : ℕ
south_africa = 106

abbrev pub chance_1 : ℕ
chance_1 = 107

abbrev pub egypt : ℕ
egypt = 108

abbrev pub morocco : ℕ
morocco = 109

abbrev pub jail_tile : ℕ
jail_tile = 110

abbrev pub brazil : ℕ
brazil = 111

abbrev pub electric_company : ℕ
electric_company = 112

abbrev pub argentina : ℕ
argentina = 113

abbrev pub mexico : ℕ
mexico = 114

abbrev pub new_york_airport : ℕ
new_york_airport = 115

abbrev pub usa : ℕ
usa = 116

abbrev pub world_fund_2 : ℕ
world_fund_2 = 117

abbrev pub canada : ℕ
canada = 118

abbrev pub jamaica : ℕ
jamaica = 119

abbrev pub free_parking_tile : ℕ
free_parking_tile = 120

abbrev pub uk : ℕ
uk = 121

abbrev pub chance_2 : ℕ
chance_2 = 122

abbrev pub france : ℕ
france = 123

abbrev pub spain : ℕ
spain = 124

abbrev pub london_airport : ℕ
london_airport = 125

abbrev pub germany : ℕ
germany = 126

abbrev pub italy : ℕ
italy = 127

abbrev pub water_works : ℕ
water_works = 128

abbrev pub netherlands : ℕ
netherlands = 129

abbrev pub go_to_jail_tile : ℕ
go_to_jail_tile = 130

abbrev pub india : ℕ
india = 131

abbrev pub china : ℕ
china = 132

abbrev pub world_fund_3 : ℕ
world_fund_3 = 133

abbrev pub japan : ℕ
japan = 134

abbrev pub tokyo_airport : ℕ
tokyo_airport = 135

abbrev pub chance_3 : ℕ
chance_3 = 136

abbrev pub south_korea : ℕ
south_korea = 137

abbrev pub luxury_tax : ℕ
luxury_tax = 138

abbrev pub australia : ℕ
australia = 139
