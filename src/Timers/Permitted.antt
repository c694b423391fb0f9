-- ===== src/Timers/Permitted.antt =====
-- The intents of timeouts and the guards of the engine:
-- src/game/timers/game-turn-timer-policy.service.ts.
use livepoly_server.Base.{
  ℕ, ◌≤◌, ◌≡◌, refl, ◌∙◌, Bool, true, false, Option, none, some, List, arith, find_by, ◌⊎◌, subst,
  if◌then◌else◌, Bool-cases, inl, inr, some_eq, none_ne_some, find_by-key, ==_refl,
}
use livepoly_server.Types.{
  GameEngineState, GameEnginePlayer, GameEngineAuction, GameEngineDebt, GamePhase,
  awaiting_first_turn, awaiting_roll, awaiting_property_decision, awaiting_auction_bid,
  awaiting_debt_resolution, awaiting_turn_end, finished, cancelled, phase_is, ok, ◌>>=◌,
}
use livepoly_server.Store.{player_key}
use livepoly_server.Assertions.{
  JsNumber, is_game_terminal, assert_game_active, assert_can_roll, assert_can_buy_property,
  assert_can_end_turn, assert_current_turn,
}
use livepoly_server.Finish.{is_before_expiry}
use livepoly_server.Auctions.{assert_active_auction, get_current_auction_bidder_room_player_id}
use livepoly_server.MissedTurns.{get_consecutive_missed_turns}
use livepoly_server.Engine.{
  GameEngineIntent, roll_and_move_intent, decline_property_purchase_intent, pass_auction_bid_intent,
  declare_bankruptcy_intent, auto_resolve_debt_intent, end_turn_intent, finish_game_by_time_intent,
}
use livepoly_server.Timers.{
  choose_timeout_intent, player_timeout, phase_timeout, auction_timeout,
  should_forfeit_current_player, has_passed, debt_timeout, is_ahead, intent_of_bidder,
}

-- The guards of the engine that an intent of a timeout has to pass, besides the one that the game is
-- active. The other intents are none.
pub data Permitted (state : GameEngineState) : GameEngineIntent → Type 0 where
  may_roll :
      {id : ℕ} {dice : List JsNumber}
      → assert_can_roll state ≡ ok tt
      → assert_current_turn state id ≡ ok tt
      → Permitted state (roll_and_move_intent id dice)
  may_decline :
      {id : ℕ}
      → assert_can_buy_property state ≡ ok tt
      → assert_current_turn state id ≡ ok tt
      → Permitted state (decline_property_purchase_intent id)
  may_end_turn :
      {id : ℕ}
      → assert_can_end_turn state ≡ ok tt
      → assert_current_turn state id ≡ ok tt
      → Permitted state (end_turn_intent id)
  may_pass :
      {id : ℕ} (auction : GameEngineAuction)
      → assert_active_auction state ≡ ok auction
      → get_current_auction_bidder_room_player_id auction ≡ some id
      → Permitted state (pass_auction_bid_intent id)
  may_go_bankrupt :
      {id : ℕ}
      → assert_current_turn state id ≡ ok tt
      → 2 ≤ get_consecutive_missed_turns state id
      → Permitted state (declare_bankruptcy_intent id none)
  may_resolve :
      {id : ℕ} (debt : GameEngineDebt)
      → state.debt ≡ some debt
      → debt.room_player_id ≡ id
      → phase_is state.phase awaiting_debt_resolution ≡ true
      → Permitted state (auto_resolve_debt_intent id)
  may_finish :
      {time : ℕ}
      → is_before_expiry state.expires_at time ≡ false
      → Permitted state (finish_game_by_time_intent (JsNumber.natural time))

-- A debt is owed only in the phase in which it is resolved.
abbrev pub OwesInPhase : GameEngineState → Type 0
OwesInPhase state = (phase_is state.phase awaiting_debt_resolution ≡ false) → state.debt ≡ none

module _ (state : GameEngineState) (owes : OwesInPhase state) where
  can_roll :
      (phase : GamePhase)
      → state.phase ≡ phase
      → (phase ≡ awaiting_first_turn) ⊎ (phase ≡ awaiting_roll)
      → assert_can_roll state ≡ ok tt
  unfolding assert_can_roll ◌>>=◌
  can_roll phase e (inl f) = rw (e ∙ f, owes (rw (e ∙ f) refl)) refl
  can_roll phase e (inr f) = rw (e ∙ f, owes (rw (e ∙ f) refl)) refl

  can_decline : state.phase ≡ awaiting_property_decision → assert_can_buy_property state ≡ ok tt
  unfolding assert_can_buy_property ◌>>=◌
  can_decline e = rw (e, owes (rw e refl)) refl

  can_end_turn : state.phase ≡ awaiting_turn_end → assert_can_end_turn state ≡ ok tt
  unfolding assert_can_end_turn ◌>>=◌
  can_end_turn e = rw (e, owes (rw e refl)) refl

is_current :
    (state : GameEngineState) {player : GameEnginePlayer}
    → find_by player_key state.current_turn_room_player_id state.players ≡ some player
    → player.bankrupt ≡ false
    → assert_current_turn state player.room_player_id ≡ ok tt
unfolding assert_current_turn ◌>>=◌
is_current state {player} found alive =
    let own_id = find_by-key player_key state.current_turn_room_player_id state.players found in
    rw (own_id, found, alive, ==_refl state.current_turn_room_player_id) refl

auction_timeout-Permitted :
    (state : GameEngineState) (now : ℕ) (auction : Option GameEngineAuction)
    {intent : GameEngineIntent}
    → state.phase ≡ awaiting_auction_bid
    → state.auction ≡ auction
    → auction_timeout now auction ≡ some intent
    → Permitted state intent
unfolding auction_timeout assert_active_auction ◌>>=◌
auction_timeout-Permitted state now none phase e chosen = absurd (none_ne_some chosen)
auction_timeout-Permitted state now (some auction) phase e chosen =
    elim (Bool-cases (is_ahead now auction.bid_expires_at)) [
      | inl t ↦ absurd (none_ne_some (rw t at chosen))
      | inr t ↦ passes (get_current_auction_bidder_room_player_id auction) refl (rw t at chosen)
    ]
  where
    passes :
        (bidder : Option ℕ) {intent : GameEngineIntent}
        → get_current_auction_bidder_room_player_id auction ≡ bidder
        → intent_of_bidder bidder ≡ some intent
        → Permitted state intent
    passes none same chosen_here = absurd (none_ne_some chosen_here)
    passes (some id) same chosen_here =
        subst (Permitted state) (some_eq chosen_here) (may_pass auction (rw (phase, e) refl) same)

phase_timeout-Permitted :
    (state : GameEngineState) (now : ℕ) (random : ℕ × ℕ) (id : ℕ) (phase : GamePhase)
    {intent : GameEngineIntent}
    → OwesInPhase state
    → assert_current_turn state id ≡ ok tt
    → state.phase ≡ phase
    → phase_timeout now random state id phase ≡ some intent
    → Permitted state intent
unfolding phase_timeout
phase_timeout-Permitted state now random id awaiting_first_turn owes current e chosen =
    subst (Permitted state) (some_eq chosen) (may_roll (can_roll state owes _ e (inl refl)) current)
phase_timeout-Permitted state now random id awaiting_roll owes current e chosen =
    subst (Permitted state) (some_eq chosen) (may_roll (can_roll state owes _ e (inr refl)) current)
phase_timeout-Permitted state now random id awaiting_property_decision owes current e chosen =
    subst (Permitted state) (some_eq chosen) (may_decline (can_decline state owes e) current)
phase_timeout-Permitted state now random id awaiting_auction_bid owes current e chosen =
    auction_timeout-Permitted state now state.auction e refl chosen
phase_timeout-Permitted state now random id awaiting_turn_end owes current e chosen =
    subst (Permitted state) (some_eq chosen) (may_end_turn (can_end_turn state owes e) current)
phase_timeout-Permitted state now random id awaiting_debt_resolution owes current e chosen =
    absurd (none_ne_some chosen)
phase_timeout-Permitted state now random id finished owes current e chosen =
    absurd (none_ne_some chosen)
phase_timeout-Permitted state now random id cancelled owes current e chosen =
    absurd (none_ne_some chosen)

-- The search went past a test that gives up.
else_of :
    {intent : GameEngineIntent} {o : Option GameEngineIntent} (b : Bool)
    → (if b then none else o) ≡ some intent
    → (b ≡ false) × (o ≡ some intent)
else_of true e = absurd (none_ne_some e)
else_of false e = (refl, e)

missed :
    (state : GameEngineState) (player : GameEnginePlayer)
    → should_forfeit_current_player state player ≡ true
    → 2 ≤ get_consecutive_missed_turns state player.room_player_id
unfolding should_forfeit_current_player
missed state player h = ground arith

not_before :
    (now : ℕ) (expires_at : Option ℕ)
    → has_passed now expires_at ≡ true
    → is_before_expiry expires_at now ≡ false
not_before now none h = refl
not_before now (some time) h = ground arith

debt_timeout-Permitted :
    (state : GameEngineState) (owed : Option GameEngineDebt) {intent : GameEngineIntent}
    → state.debt ≡ owed
    → phase_is state.phase awaiting_debt_resolution ≡ true
    → debt_timeout owed ≡ some intent
    → Permitted state intent
debt_timeout-Permitted state none e d chosen = absurd (none_ne_some chosen)
debt_timeout-Permitted state (some debt) e d chosen =
    subst (Permitted state) (some_eq chosen) (may_resolve debt e refl d)

player_timeout-Permitted :
    (state : GameEngineState) (now : ℕ) (random : ℕ × ℕ) {player : GameEnginePlayer}
    {intent : GameEngineIntent}
    → OwesInPhase state
    → find_by player_key state.current_turn_room_player_id state.players ≡ some player
    → player_timeout now random state player ≡ some intent
    → Permitted state intent
unfolding player_timeout
player_timeout-Permitted state now random {player} owes found chosen =
    let alive = else_of player.bankrupt chosen in
    elim (Bool-cases (phase_is state.phase awaiting_debt_resolution)) [
      | inl d ↦ debt_timeout-Permitted state state.debt refl d (rw d at (alive.1))
      | inr d ↦ elim (Bool-cases (should_forfeit_current_player state player)) [
        | inl f ↦
            subst (Permitted state) (some_eq (rw (d, f) at (alive.1)))
              (may_go_bankrupt (is_current state found (alive.0)) (missed state player f))
        | inr f ↦
            phase_timeout-Permitted state now random player.room_player_id state.phase owes
              (is_current state found (alive.0)) refl (rw (d, f) at (alive.1))
      ]
    ]

-- In a state that owes a debt only while it is resolved, a timeout chooses an intent only in a game
-- that is active, and the intent is one of the seven that `Permitted` lists, whose guards let it
-- through: a roll, a declined purchase and the end of a turn are of the player whose turn it is, in
-- their phase; a pass is in an active auction, of the bidder whose turn it is; a debt is resolved in
-- its phase, for its debtor; a player is declared bankrupt in his turn, only after two missed turns
-- in a row; the game is not finished before it expires.
pub choose_timeout_intent-Permitted :
    (state : GameEngineState) (now : ℕ) (random : ℕ × ℕ) (intent : GameEngineIntent)
    → OwesInPhase state
    → choose_timeout_intent now random state ≡ some intent
    → (assert_game_active state ≡ ok tt) × Permitted state intent
unfolding choose_timeout_intent
choose_timeout_intent-Permitted state now random intent owes chosen =
    elim (Bool-cases (is_game_terminal state)) [
      | inl t ↦ absurd (none_ne_some (rw t at chosen))
      | inr t ↦ (
        rw t refl,
        elim (Bool-cases (has_passed now state.expires_at)) [
          | inl p ↦
              subst (Permitted state) (some_eq (rw (t, p) at chosen))
                (may_finish (not_before now state.expires_at p))
          | inr p ↦
              of_player (find_by player_key state.current_turn_room_player_id state.players) refl
                (rw (t, p) at chosen)
        ],
      )
    ]
  where
    of_player :
        (found : Option GameEnginePlayer)
        → find_by player_key state.current_turn_room_player_id state.players ≡ found
        → elim found [ none ↦ none | some player ↦ player_timeout now random state player ]
          ≡ some intent
        → Permitted state intent
    of_player none e h = absurd (none_ne_some h)
    of_player (some player) e h = player_timeout-Permitted state now random owes e h
