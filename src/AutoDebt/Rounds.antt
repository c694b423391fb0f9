-- ===== src/AutoDebt/Rounds.antt =====
-- The rounds of the loop in `autoResolveDebt` of src/game/engine/game-engine-auto-debt.ts.
use livepoly_server.Base.{
  ℕ, zero, suc, ◌-◌, ◌<◌, ◌≡◌, refl, true, false, Option, none, some, List, [], ◌++◌, arith, ◌⊎◌,
  inl, inr, ◌==◌, sum_by, sum_by-update_by, find_by, find_by-key, update_by, Distinct,
}
use livepoly_server.Types.{
  GameEngineState, GameEngineProperty, GameEngineEvent, GameEngineResult, ok, throw_if-ok,
  or_throw-ok,
}
use livepoly_server.Ensures.{
  Ensures, returns, bind-Ensures, then-Ensures, both-Ensures, if-Ensures, bool-Ensures,
}
use livepoly_server.Store.{property_key, find_property_state}
use livepoly_server.Money.Frame.{credit_player-SameProperties}
use livepoly_server.Mortgage.{mortgage_property, with_mortgaged}
use livepoly_server.Buildings.{sell_building, sell_hotel, sell_house, with_houses, with_buildings}
use livepoly_server.AutoDebt.{
  Liquidation, sell, mortgage, stop, next_liquidation, run_liquidation, liquidate_from, rounds_left,
  liquidation_fuel, can_pay_debt,
}
use livepoly_server.Validity.{IsValid}
use livepoly_server.Validity.Properties.{sell_building-IsValid, mortgage_property-IsValid}

-- The rounds that all properties together can still give.
abbrev pub total_rounds : GameEngineState → ℕ
total_rounds state = sum_by rounds_left state.properties

-- A change of the property that was found, for fewer rounds.
fewer_rounds :
    (state : GameEngineState) (key : ℕ) (p : GameEngineProperty)
    (f : GameEngineProperty → GameEngineProperty) (properties : List GameEngineProperty)
    → Distinct property_key state.properties
    → find_property_state state key ≡ ok p
    → properties ≡ state.properties
    → rounds_left (f p) < rounds_left p
    → sum_by rounds_left (update_by property_key p.tile_key f properties) < total_rounds state
unfolding find_property_state
fewer_rounds state key p f properties d found same fewer =
    let at_key : find_by property_key key state.properties ≡ some p = or_throw-ok _ _ found in
    let own_key : p.tile_key ≡ key = find_by-key property_key key state.properties at_key in
    rw (same, own_key)
      (omega
        (arith, sum_by-update_by property_key rounds_left f key state.properties {x = p} d at_key))

-- The result leaves fewer rounds.
abbrev Progresses : GameEngineState → GameEngineResult → Type 0
Progresses state result = total_rounds result.state < total_rounds state

sell_hotel-Progresses :
    (state : GameEngineState) (id key : ℕ) (p : GameEngineProperty) (amount : ℕ)
    → Distinct property_key state.properties
    → find_property_state state key ≡ ok p
    → p.has_hotel ≡ true
    → Ensures (Progresses state) (sell_hotel state id p amount)
unfolding sell_hotel
sell_hotel-Progresses state id key p amount d found hotel =
    then-Ensures _ _ (credit_player-SameProperties state id amount) λ next same. returns (
      fewer_rounds state key p (with_buildings 4 false) next.properties d found same (ground arith))

sell_house-Progresses :
    (state : GameEngineState) (id key : ℕ) (p : GameEngineProperty)
    (properties : List GameEngineProperty) (amount : ℕ)
    → Distinct property_key state.properties
    → find_property_state state key ≡ ok p
    → Ensures (Progresses state) (sell_house state id p properties amount)
unfolding sell_house
sell_house-Progresses state id key p properties amount d found = bind-Ensures _ _ λ _ built.
    bind-Ensures _ _ λ _ _.
      then-Ensures _ _ (credit_player-SameProperties state id amount) λ next same.
        let some_house : (p.house_count == 0) ≡ false = throw_if-ok _ _ built in
        returns (
          fewer_rounds state key p (with_houses (p.house_count - 1)) next.properties d found same
            (ground arith))

sell_building-Progresses :
    (state : GameEngineState) (id key : ℕ)
    → Distinct property_key state.properties
    → Ensures (Progresses state) (sell_building state id key)
unfolding sell_building
sell_building-Progresses state id key d = bind-Ensures _ _ λ _ _. bind-Ensures _ _ λ tile _.
    bind-Ensures _ _ λ properties _. bind-Ensures _ _ λ p found.
      if-Ensures p.has_hotel _ _
        (λ hotel. sell_hotel-Progresses state id tile.key p _ d found hotel)
        (λ _. sell_house-Progresses state id tile.key p properties _ d found)

mortgage_property-Progresses :
    (state : GameEngineState) (id key : ℕ)
    → Distinct property_key state.properties
    → Ensures (Progresses state) (mortgage_property state id key)
unfolding mortgage_property
mortgage_property-Progresses state id key d = bind-Ensures _ _ λ _ _. bind-Ensures _ _ λ tile _.
    bind-Ensures _ _ λ p found. bind-Ensures _ _ λ _ a. bind-Ensures _ _ λ _ b.
      bind-Ensures _ _ λ _ c.
        then-Ensures _ _ (credit_player-SameProperties state id _) λ next same.
          returns (
            fewer_rounds state _ p (with_mortgaged true) next.properties d found same
              (ground arith))

-- A round that was made keeps the invariant and leaves fewer rounds; one that was not is a `break`.
abbrev MadeRound : Liquidation → GameEngineState → Option GameEngineResult → Type 0
MadeRound l state none = l ≡ stop
MadeRound l state (some result) = IsValid result.state × Progresses state result

run_liquidation-MadeRound :
    (l : Liquidation) (state : GameEngineState) (id : ℕ)
    → IsValid state
    → Ensures (MadeRound l state) (run_liquidation l state id)
unfolding run_liquidation
run_liquidation-MadeRound (sell key) state id v =
    then-Ensures _ _
      (both-Ensures (sell_building-IsValid state id key v)
        (sell_building-Progresses state id key v.1.0))
      λ result h. returns h
run_liquidation-MadeRound (mortgage key) state id v =
    then-Ensures _ _
      (both-Ensures (mortgage_property-IsValid state id key v)
        (mortgage_property-Progresses state id key v.1.0))
      λ result h. returns h
run_liquidation-MadeRound stop state id v = returns refl

-- The loop has ended: the debt can be paid, or nothing is left to sell or to mortgage.
abbrev pub HasEnded : ℕ → Option GameEngineResult → Type 0
HasEnded id none = ⊥
HasEnded id (some result) =
    (can_pay_debt result.state id ≡ ok true) ⊎ (next_liquidation result.state id ≡ stop)

-- With more fuel than there are rounds left, the loop ends before its fuel does.
liquidate_from-HasEnded :
    (fuel : ℕ) (state : GameEngineState) (id : ℕ) (events : List GameEngineEvent)
    → IsValid state
    → total_rounds state < fuel
    → Ensures (HasEnded id) (liquidate_from fuel state id events)
unfolding liquidate_from
liquidate_from-HasEnded zero state id events v h = elim h [ ]
liquidate_from-HasEnded (suc fuel) state id events v h =
    bind-Ensures (can_pay_debt state id) _ λ paid answer.
      bool-Ensures paid _ _ (λ yes. returns (inl (rw yes at answer)))
        λ _.
          then-Ensures _ _ (run_liquidation-MadeRound (next_liquidation state id) state id v)
            λ round w.
              elim round
                  as (λ o.
                    MadeRound (next_liquidation state id) state o
                    → Ensures (HasEnded id) (elim o [
                      | none ↦ ok (some (record { state = state; events = events }))
                      | some result ↦ liquidate_from fuel result.state id (events ++ result.events)
                    ])) [
                      | none ↦ λ at_end. returns (inr at_end)
                      | some result ↦ λ x.
                          liquidate_from-HasEnded fuel result.state id (events ++ result.events) x.0
                            (fits (total_rounds result.state) (total_rounds state) fuel x.1 h)
                    ]
                w
  where
    fits : (m n k : ℕ) → m < n → n < suc k → m < k
    fits m n k lt bound = omega arith

-- From a valid state, the loop never runs out of the fuel that `auto_resolve_debt` gives it: where no
-- sale or mortgage throws, it ends with enough cash for the debt or with nothing left to sell or
-- to mortgage.
pub liquidation-HasEnded :
    (state : GameEngineState) (id : ℕ)
    → IsValid state
    → Ensures (HasEnded id) (liquidate_from (liquidation_fuel state) state id [])
liquidation-HasEnded state id v =
    liquidate_from-HasEnded (liquidation_fuel state) state id [] v (omega arith)
