-- ===== src/Board/Classic.antt =====
-- CLASSIC_GAME_BOARD of src/game/engine/game-board.ts, tile by tile.
use livepoly_server.Base.{[], ◌∷◌}
use livepoly_server.Board.Keys.{
  go_tile, nigeria, world_fund_1, ghana, income_tax, lagos_airport, south_africa, chance_1, egypt,
  morocco, jail_tile, brazil, electric_company, argentina, mexico, new_york_airport, usa,
  world_fund_2, canada, jamaica, free_parking_tile, uk, chance_2, france, spain, london_airport,
  germany, italy, water_works, netherlands, go_to_jail_tile, india, china, world_fund_3, japan,
  tokyo_airport, chance_3, south_korea, luxury_tax, australia,
}
use livepoly_server.Board.Tiles.{
  GameTile, GameBoard, brown, light_blue, pink, orange, red, yellow, green, dark_blue,
}
use livepoly_server.Board.Builders.{property, airport, utility, tax, tile}
use livepoly_server.Types.{GameBoardKey}

unfoldable pub classic_game_board : GameBoard
unfolding property airport utility tax tile
classic_game_board = record {
  key = GameBoardKey.classic;
  pass_go_cash = 200;
  jail_position = 10;
  tiles =
      tile GameTile.go 0 go_tile
      ∷ property 1 nigeria brown 60 2 (10 ∷ 30 ∷ 90 ∷ 160 ∷ []) 250 50
      ∷ tile GameTile.world_fund 2 world_fund_1
      ∷ property 3 ghana brown 60 4 (20 ∷ 60 ∷ 180 ∷ 320 ∷ []) 450 50
      ∷ tax 4 income_tax 200
      ∷ airport 5 lagos_airport
      ∷ property 6 south_africa light_blue 100 6 (30 ∷ 90 ∷ 270 ∷ 400 ∷ []) 550 50
      ∷ tile GameTile.chance 7 chance_1
      ∷ property 8 egypt light_blue 100 6 (30 ∷ 90 ∷ 270 ∷ 400 ∷ []) 550 50
      ∷ property 9 morocco light_blue 120 8 (40 ∷ 100 ∷ 300 ∷ 450 ∷ []) 600 50
      ∷ tile GameTile.jail 10 jail_tile
      ∷ property 11 brazil pink 140 10 (50 ∷ 150 ∷ 450 ∷ 625 ∷ []) 750 100
      ∷ utility 12 electric_company
      ∷ property 13 argentina pink 140 10 (50 ∷ 150 ∷ 450 ∷ 625 ∷ []) 750 100
      ∷ property 14 mexico pink 160 12 (60 ∷ 180 ∷ 500 ∷ 700 ∷ []) 900 100
      ∷ airport 15 new_york_airport
      ∷ property 16 usa orange 180 14 (70 ∷ 200 ∷ 550 ∷ 750 ∷ []) 950 100
      ∷ tile GameTile.world_fund 17 world_fund_2
      ∷ property 18 canada orange 180 14 (70 ∷ 200 ∷ 550 ∷ 750 ∷ []) 950 100
      ∷ property 19 jamaica orange 200 16 (80 ∷ 220 ∷ 600 ∷ 800 ∷ []) 1000 100
      ∷ tile GameTile.free_parking 20 free_parking_tile
      ∷ property 21 uk red 220 18 (90 ∷ 250 ∷ 700 ∷ 875 ∷ []) 1050 150
      ∷ tile GameTile.chance 22 chance_2
      ∷ property 23 france red 220 18 (90 ∷ 250 ∷ 700 ∷ 875 ∷ []) 1050 150
      ∷ property 24 spain red 240 20 (100 ∷ 300 ∷ 750 ∷ 925 ∷ []) 1100 150
      ∷ airport 25 london_airport
      ∷ property 26 germany yellow 260 22 (110 ∷ 330 ∷ 800 ∷ 975 ∷ []) 1150 150
      ∷ property 27 italy yellow 260 22 (110 ∷ 330 ∷ 800 ∷ 975 ∷ []) 1150 150
      ∷ utility 28 water_works
      ∷ property 29 netherlands yellow 280 24 (120 ∷ 360 ∷ 850 ∷ 1025 ∷ []) 1200 150
      ∷ tile GameTile.go_to_jail 30 go_to_jail_tile
      ∷ property 31 india green 300 26 (130 ∷ 390 ∷ 900 ∷ 1100 ∷ []) 1275 200
      ∷ property 32 china green 300 26 (130 ∷ 390 ∷ 900 ∷ 1100 ∷ []) 1275 200
      ∷ tile GameTile.world_fund 33 world_fund_3
      ∷ property 34 japan green 320 28 (150 ∷ 450 ∷ 1000 ∷ 1200 ∷ []) 1400 200
      ∷ airport 35 tokyo_airport
      ∷ tile GameTile.chance 36 chance_3
      ∷ property 37 south_korea dark_blue 350 35 (175 ∷ 500 ∷ 1100 ∷ 1300 ∷ []) 1500 200
      ∷ tax 38 luxury_tax 100
      ∷ property 39 australia dark_blue 400 50 (200 ∷ 600 ∷ 1400 ∷ 1700 ∷ []) 2000 200
      ∷ [];
}
