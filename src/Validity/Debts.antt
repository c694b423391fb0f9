-- ===== src/Validity/Debts.antt =====
-- The invariant across bankruptcy and the automatic payment of a debt.
use livepoly_server.Base.{
  ℕ, zero, suc, ◌≡◌, refl, Option, none, some, List, [], ◌∷◌, ◌++◌, not, ◌==◌, if-holds, arith,
}
use livepoly_server.Types.{
  GameEngineState, GameEnginePlayer, GameEngineProperty, GameEngineEvent, GameEngineResult, ok, err,
  plain_error,
}
use livepoly_server.Ensures.{
  Ensures, returns, throws, bind-Ensures, then-Ensures, if-Ensures, bool-Ensures,
}
use livepoly_server.Store.{property_key, is_owned_by}
use livepoly_server.Turns.{get_active_players}
use livepoly_server.Bankruptcy
use livepoly_server.AutoDebt
use livepoly_server.Validity.Defs.{IsBuildable, IsValid, LeadsToValid}
use livepoly_server.Validity.Store.{players_update, properties_map}
use livepoly_server.Validity.Properties.{sell_building-IsValid, mortgage_property-IsValid}
use livepoly_server.Validity.Turns.{pay_debt-IsValid}
use livepoly_server.Validity.Jail.{LeadsToValid?, return_card-IsValid}

liquidate_property-key :
    (id : ℕ) (creditor : Option ℕ) (p : GameEngineProperty)
    → property_key (Bankruptcy.liquidate_property id creditor p) ≡ property_key p
liquidate_property-key id creditor p =
    if-holds (λ q. property_key q ≡ property_key p) (is_owned_by p id) refl refl

liquidate_property-IsBuildable :
    (id : ℕ) (creditor : Option ℕ) (p : GameEngineProperty)
    → IsBuildable p
    → IsBuildable (Bankruptcy.liquidate_property id creditor p)
liquidate_property-IsBuildable id creditor p b =
    if-holds IsBuildable (is_owned_by p id)
      (record { houses_capped = omega arith; hotel_alone = λ _. refl }) b

return_cards-IsValid :
    (state : GameEngineState) (keys : List ℕ)
    → IsValid state
    → Ensures IsValid (Bankruptcy.return_cards state keys)
unfolding Bankruptcy.return_cards
return_cards-IsValid state [] v = returns v
return_cards-IsValid state (key ∷ keys) v =
    then-Ensures _ _ (return_card-IsValid state (some key) v)
      λ next w. return_cards-IsValid next keys w

liquidated-IsValid :
    (state : GameEngineState) (id : ℕ) (creditor : Option ℕ)
    → IsValid state
    → IsValid (Bankruptcy.liquidated state id creditor)
liquidated-IsValid state id creditor v = (
  players_update Bankruptcy.bankrupted (λ p. refl) (λ p h. h) id state.players v.0,
  properties_map (Bankruptcy.liquidate_property id creditor) (liquidate_property-key id creditor)
      (liquidate_property-IsBuildable id creditor) state.properties v.1,
)

liquidate_player_assets-IsValid :
    (state : GameEngineState) (id : ℕ) (creditor : Option ℕ)
    → IsValid state
    → Ensures IsValid (Bankruptcy.liquidate_player_assets state id creditor)
unfolding Bankruptcy.liquidate_player_assets
liquidate_player_assets-IsValid state id creditor v = bind-Ensures _ _ λ player _.
    then-Ensures _ _ (return_cards-IsValid state (Bankruptcy.held_card_keys player) v)
      λ returned w. returns (liquidated-IsValid returned id creditor w)

finish_by_bankruptcy-IsValid :
    (state : GameEngineState) (id : ℕ) (creditor : Option ℕ)
    → IsValid state
    → Ensures LeadsToValid (Bankruptcy.finish_by_bankruptcy state id creditor)
unfolding Bankruptcy.finish_by_bankruptcy
finish_by_bankruptcy-IsValid state id creditor v = bind-Ensures _ _ λ _ _. returns v

pass_turn-IsValid :
    (state : GameEngineState) (player : GameEnginePlayer) (id : ℕ) (creditor : Option ℕ)
    → IsValid state
    → Ensures LeadsToValid (Bankruptcy.pass_turn_after_bankruptcy state player id creditor)
unfolding Bankruptcy.pass_turn_after_bankruptcy
pass_turn-IsValid state player id creditor v = bind-Ensures _ _ λ _ _. returns v

pub declare_bankruptcy-IsValid :
    (state : GameEngineState) (id : ℕ) (given : Option ℕ)
    → IsValid state
    → Ensures LeadsToValid (Bankruptcy.declare_bankruptcy state id given)
unfolding Bankruptcy.declare_bankruptcy
declare_bankruptcy-IsValid state id given v =
    let creditor = Bankruptcy.creditor_for state id given in
    bind-Ensures _ _ λ _ _. bind-Ensures _ _ λ player _. bind-Ensures _ _ λ _ _.
      bind-Ensures _ _ λ _ _.
        then-Ensures _ _ (liquidate_player_assets-IsValid state id creditor v) λ next w.
          if-Ensures (Bankruptcy.ends_game (get_active_players next)) _ _
            (λ _. finish_by_bankruptcy-IsValid next id creditor w)
            (λ _.
              if-Ensures (not (state.current_turn_room_player_id == id)) _ _ (λ _. returns w)
                (λ _. pass_turn-IsValid next player id creditor w))

run_liquidation-IsValid :
    (l : AutoDebt.Liquidation) (state : GameEngineState) (id : ℕ)
    → IsValid state
    → Ensures LeadsToValid? (AutoDebt.run_liquidation l state id)
unfolding AutoDebt.run_liquidation
run_liquidation-IsValid (AutoDebt.sell key) state id v =
    then-Ensures _ _ (sell_building-IsValid state id key v) λ result w. returns w
run_liquidation-IsValid (AutoDebt.mortgage key) state id v =
    then-Ensures _ _ (mortgage_property-IsValid state id key v) λ result w. returns w
run_liquidation-IsValid AutoDebt.stop state id v = returns tt

liquidate_from-IsValid :
    (fuel : ℕ) (state : GameEngineState) (id : ℕ) (events : List GameEngineEvent)
    → IsValid state
    → Ensures LeadsToValid? (AutoDebt.liquidate_from fuel state id events)
unfolding AutoDebt.liquidate_from
liquidate_from-IsValid zero state id events v = returns tt
liquidate_from-IsValid (suc fuel) state id events v = bind-Ensures _ _ λ paid _.
    bool-Ensures paid _ _ (λ _. returns v)
      λ _.
        then-Ensures _ _ (run_liquidation-IsValid (AutoDebt.next_liquidation state id) state id v)
          λ round w.
            elim round
                as (λ o.
                  LeadsToValid? o
                  → Ensures LeadsToValid? (elim o [
                    | none ↦ ok (some (record { state = state; events = events }))
                    | some result ↦
                        AutoDebt.liquidate_from fuel result.state id (events ++ result.events)
                  ])) [
                    | none ↦ λ _. returns v
                    | some result ↦ λ x. liquidate_from-IsValid fuel result.state id _ x
                  ]
              w

settle_after-IsValid :
    (result : GameEngineResult) (id : ℕ)
    → LeadsToValid result
    → Ensures LeadsToValid (AutoDebt.settle_after result id)
unfolding AutoDebt.settle_after
settle_after-IsValid result id v = bind-Ensures _ _ λ paid _.
    then-Ensures _ _
      (if-Ensures paid _ _ (λ _. pay_debt-IsValid result.state id v)
        (λ _. declare_bankruptcy-IsValid result.state id _ v))
      λ settled w. returns w

pub auto_resolve_debt-IsValid :
    (state : GameEngineState) (id : ℕ)
    → IsValid state
    → Ensures LeadsToValid (AutoDebt.auto_resolve_debt state id)
unfolding AutoDebt.auto_resolve_debt
auto_resolve_debt-IsValid state id v = bind-Ensures _ _ λ _ _.
    then-Ensures _ _ (liquidate_from-IsValid (AutoDebt.liquidation_fuel state) state id [] v)
      λ run w. settled run w
  where
    settled :
        (run : Option GameEngineResult)
        → LeadsToValid? run
        → Ensures LeadsToValid
            (elim run [ none ↦ err plain_error | some done ↦ AutoDebt.settle_after done id ])
    settled none w = throws
    settled (some done) w = settle_after-IsValid done id w
