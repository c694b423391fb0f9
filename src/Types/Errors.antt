-- ===== src/Types/Errors.antt =====
-- `GameEngineErrorCode` and `GameEngineError` of src/game/engine/game-engine.types.ts. An operation
-- that throws returns `err` with the code; the message is display text.
use livepoly_server.Base.{Bool, true, false, Option, none, some, ◌≡◌, refl}

pub data GameEngineErrorCode : Type 0 where
  game_not_active player_not_found not_current_turn invalid_dice roll_not_allowed buy_not_allowed
        auction_not_allowed debt_resolution_required no_active_debt jail_fine_not_allowed
        turn_end_not_allowed no_active_players no_property_decision no_active_auction
        tile_not_ownable property_already_owned insufficient_funds invalid_auction_bid
        auction_player_not_active auction_player_not_current player_not_in_jail
        get_out_of_jail_card_required card_not_found card_deck_empty building_not_allowed
        property_set_not_owned property_mortgaged building_limit_reached uneven_building
        no_building_to_sell mortgage_not_allowed property_not_owned property_has_buildings
        property_already_mortgaged property_not_mortgaged trade_not_allowed trade_not_found
        invalid_trade player_already_bankrupt invalid_bankruptcy_creditor invalid_finish_time
        game_time_not_expired :
      GameEngineErrorCode
  -- A plain `Error` or a `TypeError`, which carries no code.
  plain_error : GameEngineErrorCode

-- What an operation returns or throws.
pub data Result {ℓ} (A : Type ℓ) : Type ℓ where
  err : (code : GameEngineErrorCode) → Result A
  ok : (value : A) → Result A

-- `if (test) throw new GameEngineError(code)`
abbrev pub throw_if : Bool → GameEngineErrorCode → Result (Unit {0})
throw_if true e = err e
throw_if false e = ok tt

-- `if (!value) throw new GameEngineError(code)`
abbrev pub or_throw {ℓ} : {A : Type ℓ} → Option A → GameEngineErrorCode → Result A
or_throw none e = err e
or_throw (some a) e = ok a

-- The next step of an operation, which runs only if the one before it returned. It is shut, so that
-- the rules for chains apply to it.
infixl 5 ◌>>=◌
unfoldable pub ◌>>=◌ {ℓ κ} :
    {Value : Type ℓ} {Next : Type κ} → Result Value → (Value → Result Next) → Result Next
err code >>= next = err code
ok value >>= next = next value

-- The same where the returned value is not read.
infixl 5 ◌>>◌
abbrev pub ◌>>◌ {ℓ κ} : {Value : Type ℓ} {Next : Type κ} → Result Value → Result Next → Result Next
step >> next = step >>= λ _. next

pub or_throw-ok {ℓ} :
    {A : Type ℓ} {a : A} (o : Option A) (e : GameEngineErrorCode) → or_throw o e ≡ ok a → o ≡ some a
or_throw-ok none e h = cc
or_throw-ok (some b) e h = cc

pub throw_if-ok :
    {a : Unit {0}} (b : Bool) (e : GameEngineErrorCode) → throw_if b e ≡ ok a → b ≡ false
throw_if-ok true e h = cc
throw_if-ok false e h = refl
