-- ===== src/Controller/Examples.antt =====
-- The properties of the promotion decision and of the conditions at concrete deployments.
use fluidbgoperator.Fixtures.{orders_selector, orders_managed}
use fluidbgoperator.Base.{
  ◌≡◌, ◌≢◌, ◌↔◌, ◌⊎◌, ◌<◌, refl, true, false, none, some, [], ◌∷◌, arith, is_some,
}
use fluidbgoperator.Base.Text.{codes}
use fluidbgoperator.Base.Int.{pos, ◌≤ℤ◌}
use fluidbgoperator.Store.{Counts}
use fluidbgoperator.Strategy.{
  PromotionAction, promote, advance_step, finalized, actual_rate, DataPromotionSpec,
  ProgressiveStep,
}
use fluidbgoperator.Strategy.FixedPoint.{fixed_point}
use fluidbgoperator.Strategy.HardSwitch
use fluidbgoperator.Crd.{
  hard_switch, progressive, PromotionSpec, BlueGreenDeployment, TestSpec,
  BlueGreenDeploymentCondition, is_true,
}
use fluidbgoperator.Controller.{ok}
use fluidbgoperator.Controller.Promotion.{
  decide_promotion_action, validate_test_configuration, validate_test, ports_missing,
}
use fluidbgoperator.Controller.Promotion.Decision.{
  promotion_evidence, custom_never_advances, validated_decides,
}

abbrev criteria : DataPromotionSpec fixed_point
criteria = record {
  min_test_cases = some (pos 20);
  success_rate = some 9500;
  timeout_seconds = none;
}

abbrev switch : PromotionSpec fixed_point
switch = record {
  data_promotion = some criteria;
  custom = some (record { timeout_seconds = some (pos 60); retries = none });
  strategy = record { strategy_type = hard_switch; progressive = none };
}

abbrev first_step : ProgressiveStep fixed_point
first_step = record { traffic_percent = pos 10; observe_cases = pos 20; step_success_rate = 9000 }

abbrev stepwise : PromotionSpec fixed_point
stepwise = record switch {
  strategy = record {
    strategy_type = progressive;
    progressive = some (record {
      steps = first_step ∷ first_step ∷ [];
      rollback_on_step_failure = true;
      step_timeout_minutes = none;
    });
  };
}

abbrev orders_test : TestSpec
orders_test = record {
  name = codes "orders";
  service_ports = some (pos 8080 ∷ []);
  data_verification = some (record { verify_path = codes "/verify"; timeout_seconds = none });
  custom_verification = none;
}

abbrev deployment : PromotionSpec fixed_point → BlueGreenDeployment fixed_point
deployment p = record {
  metadata = record {
    name = some (codes "app");
    namespace = some (codes "ns");
    uid = some (codes "u1");
    generation = some (pos 2);
    deletion_timestamp = none;
    finalizers = [];
  };
  spec = record {
    selector = orders_selector;
    deployment = orders_managed;
    inception_points = [];
    test = some orders_test;
    promotion = some p;
    update_policy = none;
  };
  status = none;
}

abbrev data_counts : Counts
data_counts = record { passed = 49; failed = 1; timed_out = 0; pending = 0 }

abbrev custom_counts : Counts
custom_counts = record { passed = 3; failed = 0; timed_out = 0; pending = 0 }

promotion_evidence_example :
    (decide_promotion_action fixed_point (deployment switch) data_counts custom_counts none
      ≡ ok promote)
    ↔ ((pos 20 ≤ℤ pos (finalized data_counts))
        × (fixed_point.le_f64 9500 (actual_rate fixed_point data_counts) ≡ true)
        × ((is_some switch.custom ≡ false)
            ⊎ ((custom_counts.pending ≡ 0)
                × (custom_counts.failed ≡ 0)
                × (custom_counts.timed_out ≡ 0)
                × (0 < custom_counts.passed))))
unfolding HardSwitch.from_criteria
promotion_evidence_example =
    promotion_evidence fixed_point (deployment switch) switch criteria data_counts custom_counts
      none refl refl refl (omega arith)

custom_never_advances_example :
    decide_promotion_action fixed_point
      (deployment stepwise)
      data_counts
      custom_counts
      (some (pos 0))
    ≢ ok (advance_step (pos 1) (pos 10))
custom_never_advances_example =
    custom_never_advances fixed_point (deployment stepwise) stepwise data_counts custom_counts
      (some (pos 0)) (pos 1) (pos 10) refl refl

valid : validate_test_configuration fixed_point (deployment stepwise) ≡ ok tt
unfolding validate_test_configuration validate_test ports_missing
valid = refl

validated_decides_example :
    (a : PromotionAction) × (decide_promotion_action fixed_point
        (deployment stepwise)
        data_counts
        custom_counts
        (some (pos 0))
      ≡ ok a)
validated_decides_example =
    validated_decides fixed_point (deployment stepwise) stepwise data_counts custom_counts
      (some (pos 0)) refl valid refl

abbrev failed_condition : BlueGreenDeploymentCondition
failed_condition = record {
  condition_type = codes "ReconcileFailed";
  status = is_true;
  reason = codes "StateStoreError";
  message = codes "down";
  observed_generation = pos 2;
  last_transition_time = pos 7;
}
