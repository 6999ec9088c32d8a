-- ===== src/Controller/Promotion.antt =====
-- operator/src/controller/promotion.rs: the decision over both kinds of verification.
pub mod Decision
use fluidbgoperator.Base.{
  ℕ, Bool, true, false, not, ◌&&◌, ◌||◌, Option, none, some, List, [], ◌∷◌, ◌++◌, if◌then◌else◌,
  ltb, ◌==◌, is_some,
}
use fluidbgoperator.Base.Lists.{any}
use fluidbgoperator.Base.Text.{Text, codes}
use fluidbgoperator.Base.Int.{ℤ, pos}
use fluidbgoperator.Store.{Counts}
use fluidbgoperator.Strategy.{
  PromotionAction, continue_observing, promote, rollback, advance_step, DataPromotionSpec,
  ProgressiveStep,
}
use fluidbgoperator.Strategy.Float64.{Floats}
use fluidbgoperator.Strategy.HardSwitch
use fluidbgoperator.Strategy.Progressive
use fluidbgoperator.Crd.{
  PluginRole, splitter, StrategyType, hard_switch, progressive, InceptionPoint, TestSpec,
  PromotionSpec, BlueGreenDeployment,
}
use fluidbgoperator.Controller.{Result, ok, err, invalid_spec, ◌>>=◌}

-- `decide_custom_promotion`.
pub decide_custom_promotion : Counts → PromotionAction
decide_custom_promotion c =
    if ltb 0 c.pending
    then continue_observing
    else (if ltb 0 c.failed || ltb 0 c.timed_out
        then rollback
        else (if c.passed == 0 then continue_observing else promote))

-- The closing `match` of `decide_promotion_action`, its arms in order.
pub combine : Option PromotionAction → Option PromotionAction → Result PromotionAction
combine (some rollback) _ = ok rollback
combine _ (some rollback) = ok rollback
combine (some continue_observing) _ = ok continue_observing
combine _ (some continue_observing) = ok continue_observing
combine (some (advance_step n t)) none = ok (advance_step n t)
combine (some promote) (some promote) = ok promote
combine (some promote) none = ok promote
combine none (some promote) = ok promote
combine none none =
    err (invalid_spec (codes "promotion must define at least one of data or custom"))
combine _ _ = ok continue_observing

pub is_splitter : PluginRole → Bool
is_splitter splitter = true
is_splitter _ = false

unfoldable pub ports_missing : Option (List ℤ) → Bool
ports_missing none = true
ports_missing (some []) = true
ports_missing (some (_ ∷ _)) = false

module _ (F : Floats) where
  -- `promotion_strategy_for` and the call of `decide` on its result.
  pub strategy_action :
      PromotionSpec F → DataPromotionSpec F → Counts → Option ℤ → Result PromotionAction
  strategy_action promotion spec counts current_step = elim promotion.strategy.strategy_type [
    | hard_switch ↦ ok (HardSwitch.decide F (HardSwitch.from_criteria F spec) counts)
    | progressive ↦ elim promotion.strategy.progressive [
      | none ↦ err (invalid_spec (codes "progressive strategy selected without steps"))
      | some p ↦ ok (
          Progressive.decide F
            (record { steps = p.steps; rollback_on_step_failure = p.rollback_on_step_failure })
            counts current_step)
    ]
  ]

  pub data_action : PromotionSpec F → Counts → Option ℤ → Result (Option PromotionAction)
  unfolding strategy_action
  data_action promotion counts current_step = elim promotion.data_promotion [
    | none ↦ ok none
    | some spec ↦ strategy_action promotion spec counts current_step >>= λ a. ok (some a)
  ]

  pub custom_action : PromotionSpec F → Counts → Option PromotionAction
  custom_action promotion counts = elim promotion.custom [
    | none ↦ none
    | some _ ↦ some (decide_custom_promotion counts)
  ]

  pub decide_promotion_action :
      BlueGreenDeployment F → Counts → Counts → Option ℤ → Result PromotionAction
  unfolding data_action custom_action
  decide_promotion_action bgd data_counts custom_counts current_step = elim bgd.spec.promotion [
    | none ↦ err (invalid_spec (codes "blue green deployment is missing promotion spec"))
    | some promotion ↦ data_action promotion data_counts current_step >>= λ action.
        combine action (custom_action promotion custom_counts)
  ]

  unfoldable pub validate_test : PromotionSpec F → TestSpec → Result (Unit {0})
  unfolding ports_missing
  validate_test promotion test =
      let named : Text → Result (Unit {0}) =
        λ rest. err (invalid_spec (codes "test '" ++ (test.name ++ rest))) in
      if ports_missing test.service_ports
      then named (codes "' service spec must define at least one port")
      else (if not (is_some test.data_verification) && not (is_some test.custom_verification)
          then named (codes "' must define at least one of dataVerification or customVerification")
          else (if is_some test.data_verification && not (is_some promotion.data_promotion)
              then named (codes "' uses dataVerification but promotion.data is missing")
              else (if is_some test.custom_verification && not (is_some promotion.custom)
                  then named (codes "' uses customVerification but promotion.custom is missing")
                  else ok tt)))

  unfoldable pub validate_test_configuration : BlueGreenDeployment F → Result (Unit {0})
  unfolding validate_test
  validate_test_configuration bgd = elim bgd.spec.promotion [
    | none ↦
        if not (is_some bgd.spec.test)
        then ok tt
        else err (invalid_spec (codes "test requires a promotion spec"))
    | some promotion ↦
        if not (is_some promotion.data_promotion) && not (is_some promotion.custom)
        then err (invalid_spec (codes "promotion must define at least one of data or custom"))
        else elim bgd.spec.test [ none ↦ ok tt | some test ↦ validate_test promotion test ]
  ]

  pub has_splitter : BlueGreenDeployment F → Bool
  unfolding is_splitter
  has_splitter bgd = any (λ ip. any is_splitter ip.roles) bgd.spec.inception_points

  pub first_percent : List (ProgressiveStep F) → Option ℤ
  first_percent [] = none
  first_percent (step ∷ _) = some step.traffic_percent

  pub initial_splitter_traffic_percent : BlueGreenDeployment F → Option ℤ
  unfolding has_splitter first_percent
  initial_splitter_traffic_percent bgd =
      if not (has_splitter bgd) then none else elim bgd.spec.promotion [
        | none ↦ none
        | some promotion ↦ elim promotion.strategy.strategy_type [
          | hard_switch ↦ some (pos 100)
          | progressive ↦ elim promotion.strategy.progressive [
            | none ↦ none
            | some p ↦ first_percent p.steps
          ]
        ]
      ]
