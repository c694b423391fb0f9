-- ===== src/Timers/Watchdog.antt =====
-- The deadlines that the watchdog reads: `isGameExpired`, `isTurnDeadlineOverdue`, `isPastGrace` and
-- `hasNoActiveHumanPlayers` of src/game/timers/game-timer-watchdog.service.ts.
use livepoly_server.Base.{
  ℕ, ◌+◌, Bool, false, Option, none, some, not, ◌&&◌, leb, ◌==◌, any, if◌then◌else◌,
}
use livepoly_server.Types.{
  GameEngineState, GameEngineAuction, awaiting_auction_bid, phase_is, is_human,
}

abbrev pub deadline_grace_ms : ℕ
deadline_grace_ms = 2000

-- `Date.now() - deadlineGraceMs >= deadline`
abbrev pub is_past_grace : ℕ → ℕ → Bool
is_past_grace now deadline = leb (deadline + deadline_grace_ms) now

unfoldable pub is_game_expired : ℕ → GameEngineState → ℕ → Bool
is_game_expired now state persisted_expires_at = elim state.expires_at [
  | none ↦ is_past_grace now persisted_expires_at
  | some expires_at ↦ is_past_grace now expires_at
]

-- `state.auction?.bidExpiresAt ?? state.turnExpiresAt`
abbrev bid_deadline : Option GameEngineAuction → Option ℕ → Option ℕ
bid_deadline none turn_expires_at = turn_expires_at
bid_deadline (some auction) turn_expires_at = elim auction.bid_expires_at [
  | none ↦ turn_expires_at
  | some time ↦ some time
]

abbrev is_overdue : ℕ → Option ℕ → Bool
is_overdue now none = false
is_overdue now (some deadline) = not (deadline == 0) && is_past_grace now deadline

unfoldable pub is_turn_deadline_overdue : ℕ → GameEngineState → Bool
is_turn_deadline_overdue now state = is_overdue now (
    if phase_is state.phase awaiting_auction_bid
    then bid_deadline state.auction state.turn_expires_at
    else state.turn_expires_at)

unfoldable pub has_no_active_human_players : GameEngineState → Bool
has_no_active_human_players state =
    any (λ player. is_human player.player_type) state.players
    && not (any (λ player. is_human player.player_type && not player.bankrupt) state.players)
