-- ===== src/Lib.antt =====
-- The game engine of livepoly, a server for a property trading board game, and the services around it.
--
-- Program. src/game/engine/ is a pure reducer: a state of a game and an intent of a player go in, the
-- next state and a list of events come out, or a GameEngineError is thrown. The entry point is
-- reduceGameEngineIntent (game-engine-intents.ts), which calls the methods of GameEngineService
-- (game-engine.service.ts); each method runs its guards and one operation of a component. A command
-- (src/game/commands/) of a player, a bot or a timer reduces its intent inside an update of the state
-- in Redis (src/game/state/), which is tried again when another client wrote meanwhile; then it
-- appends the events, takes a snapshot (src/game/snapshots/), from which a lost state is recovered
-- (src/game/recovery/), and finalizes a finished game (src/game/results/, src/game/stats/). Timers
-- (src/game/timers/) choose an intent when a deadline has passed. A room (src/rooms/) seats players
-- and starts a game from an initial state.
--
-- Files, with the part of src/game/engine/ that each of them models:
--   Types, Types/*          game-engine.types.ts: state, events, error codes; Result for throwing
--   Board, Board/*          game-board.ts, game-board.types.ts: the classic board, tile by tile
--   Store                   the searches and updates by key that the other files repeat
--   Assertions              game-engine-assertions.ts
--   Money                   game-engine-money.ts; Money/{Ledger,Frame,Conservation} hold proofs
--   Properties              game-engine-properties.ts
--   Mortgage, Mortgage/Cost game-engine-mortgage.ts; Mortgage/Bounds holds proofs
--   Buildings               game-engine-buildings.ts
--   Debt, Tax, Dice         game-engine-debt.ts, game-engine-tax.ts, game-engine-dice.ts;
--                           Debt/Settled holds proofs
--   Turns                   game-engine-turns.ts; Turns/{Next,Total} hold proofs
--   Rent                    game-engine-rent.ts; Rent/Tables holds proofs
--   Derived                 game-engine-derived-state.ts; Derived/Ranking holds proofs
--   Finish                  game-engine-finish.ts
--   Auctions, A./Bidders    game-engine-auctions.ts; Auctions/Bids holds proofs
--   Jail, Jail/Send         game-engine-jail.ts
--   Cards, Cards/*          game-engine-cards.ts; Cards/Piles holds proofs
--   Movement                game-engine-movement.ts
--   Bankruptcy              game-engine-bankruptcy.ts
--   AutoDebt                game-engine-auto-debt.ts; AutoDebt/Rounds holds proofs
--   Trades, Trades/*        game-engine-trades.ts; Trades/Ownership holds proofs
--   MissedTurns             game-engine-missed-turns.ts; MissedTurns/Once holds proofs
--   Engine                  game-engine.service.ts, game-engine-intents.ts
--   Ensures                 postconditions of operations that may throw
-- and, outside src/game/engine/:
--   Outcomes                what services return or throw, and what holds of it
--   Commands, Commands/*    src/game/commands/; Commands/{Deadline,Effects,Recovery,Stored} hold
--                           proofs
--   Events, Events/*        src/game/events/; Events/{Slices,Numbered,Paged} hold proofs
--   RateLimit               src/rate-limit/; RateLimit/{Window,Admitted} hold proofs
--   StateStore              src/game/state/; StateStore/Atomic holds proofs
--   Snapshots               src/game/snapshots/, src/game/recovery/; Snapshots/* hold proofs
--   Timers, Timers/Watchdog src/game/timers/; Timers/Permitted holds proofs
--   Results                 src/game/results/, with Results/Finalize; Results/Placements holds proofs
--   Stats, Stats/Ratings    src/game/stats/; Stats/{Fair,Repeated,Twice} hold proofs
--   Rooms, Rooms/{Bots,Lobby}
--                           src/rooms/services/; Rooms/{Starts,Seats} hold proofs
--   Validity, Validity/*    the invariant of a state, kept by every operation
--   Terminal                games that are over
--   Scenarios, Scenarios/*  positions of a game, and the theorems applied there
-- An operation has the name of its function in snake case. A state is a record that is passed along;
-- game-engine-cloner.ts, which copies mutable objects, has no counterpart.
--
-- Values. An id or a key is only compared for equality, so it is a natural number, one for each
-- non-empty string; null and undefined are none. Cash and amounts are natural numbers. A number that
-- a client sends is a JsNumber, which may be no natural number. The clock, randomUUID and trim are
-- arguments (Platform). A sort is a stable insertion sort. The products with 1.1 and with the bots'
-- margins are computed as IEEE doubles, exactly. Where JavaScript would read past a rent table, or
-- compute a rating that is NaN, the model returns plain_error. Names and messages for display are left
-- out. JSON is a pair of functions on texts; other clients of Redis are a sequence of arbitrary writes; a table of the database is a
-- list of rows, and an answer of the database that the code only passes on is an argument. Ratings
-- and the tokens of a rate limit use interfaces of doubles; one clock serves the rate limit. A 32-bit
-- value of the shuffle is a number below 2 ^ 32.
--
-- Fuel. The loop of autoResolveDebt runs on fuel: one more than the number of houses, five for each
-- hotel, and one for each property that is not mortgaged, since each round sells or mortgages one.
--
-- The update of a state runs on the attempts that the code counts, 5 of them.
--
-- Not modelled: the bots' choice of intents (src/game/bots/), whose scores are sums of rounded
-- doubles; the scan of the watchdog and the queues; sockets, presence and HTTP, with the guard that
-- names the client of a rate limit; leaving, spectating and inviting in a lobby; accounts, friends,
-- mail, leaderboards and administration, which are for the most part calls of external services.
pub mod Base
pub mod Types
pub mod Board
pub mod Store
pub mod Money
pub mod Assertions
pub mod Properties
pub mod Mortgage
pub mod Buildings
pub mod Debt
pub mod Turns
pub mod Dice
pub mod Tax
pub mod Rent
pub mod Derived
pub mod Finish
pub mod Auctions
pub mod Jail
pub mod Cards
pub mod Movement
pub mod Bankruptcy
pub mod AutoDebt
pub mod Trades
pub mod MissedTurns
pub mod Engine
pub mod Ensures
pub mod Timers
pub mod Outcomes
pub mod Commands
pub mod Events
pub mod RateLimit
pub mod StateStore
pub mod Snapshots
pub mod Results
pub mod Stats
pub mod Rooms
pub mod Validity
pub mod Terminal
pub mod Scenarios
