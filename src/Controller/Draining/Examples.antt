-- ===== src/Controller/Draining/Examples.antt =====
-- The properties of a drain at a deployment with one inception point.
use fluidbgoperator.Fixtures.{orders_selector, orders_managed}
use fluidbgoperator.Base.{◌≡◌, refl, true, some, none, [], ◌∷◌, arith}
use fluidbgoperator.Base.Text.{codes}
use fluidbgoperator.Base.Int.{pos, ◌≤ℤ◌}
use fluidbgoperator.Base.Lists.{All}
use fluidbgoperator.Store
use fluidbgoperator.Store.{Counts}
use fluidbgoperator.Strategy.FixedPoint.{fixed_point}
use fluidbgoperator.Crd.{
  draining, hard_switch, PromotionSpec, InceptionPoint, BlueGreenDeployment,
  BlueGreenDeploymentStatus,
}
use fluidbgoperator.Controller.{ok, err, plugin_drain_status}
use fluidbgoperator.Controller.Status.{update_status_phase}
use fluidbgoperator.Controller.Draining.{
  Answers, final_phase, elapsed_seconds, whole_seconds, reconcile_draining, max_wait,
}
use fluidbgoperator.Controller.Draining.Outcome.{drain_ends}
use fluidbgoperator.Strategy.{DataPromotionSpec}

abbrev incoming : InceptionPoint
incoming = record { name = codes "incoming"; plugin_ref = codes "http"; roles = []; drain = none }

abbrev started : BlueGreenDeploymentStatus fixed_point
started = record {
  phase = some draining;
  generated_deployment_name = none;
  observed_generation = some (pos 1);
  rollout_generation = some (pos 1);
  test_cases_observed = none;
  test_cases_passed = none;
  test_cases_failed = none;
  test_cases_pending = none;
  test_cases_timed_out = none;
  current_success_rate = none;
  last_failure_message = none;
  current_traffic_percent = none;
  current_step = none;
  drain_started_at = some (pos 0);
  inception_point_drains = [];
  conditions = [];
}

abbrev drained_deployment : BlueGreenDeployment fixed_point
drained_deployment = record {
  metadata = record {
    name = some (codes "orders");
    namespace = some (codes "ns");
    uid = some (codes "u1");
    generation = some (pos 1);
    deletion_timestamp = none;
    finalizers = [];
  };
  spec = record {
    selector = orders_selector;
    deployment = orders_managed;
    inception_points = incoming ∷ [];
    test = none;
    promotion = none;
    update_policy = none;
  };
  status = some started;
}

abbrev all_but_one : Counts
all_but_one = record { passed = 99; failed = 1; timed_out = 0; pending = 0 }

-- The plugin does not answer.
abbrev answers : Answers
answers = record {
  ask = λ ip. err (plugin_drain_status (codes "unreachable"));
  counts = Store.Result.ok all_but_one;
  latest_failure_message = Store.Result.ok none;
  cleanup = ok tt;
  statuses_reply = record { read_ok = true; write_ok = true };
  counts_reply = record { read_ok = true; write_ok = true };
  phase_reply = record { read_ok = true; write_ok = true };
}

waited :
    All
      (λ ip. max_wait ip ≤ℤ elapsed_seconds fixed_point (pos 61000000000) drained_deployment)
      (incoming ∷ [])
unfolding elapsed_seconds whole_seconds
waited = (omega arith, tt)

drain_ends_example :
    (counted : BlueGreenDeployment fixed_point) × (reconcile_draining fixed_point
        (pos 61000000000)
        answers
        drained_deployment
        drained_deployment
      ≡ (
        ok tt,
        update_status_phase fixed_point
            (pos 61000000000)
            answers.phase_reply
            drained_deployment
            (final_phase fixed_point drained_deployment all_but_one)
            counted,
      ))
drain_ends_example =
    drain_ends fixed_point (pos 61000000000) answers drained_deployment drained_deployment
      all_but_one none waited refl refl refl refl

abbrev criteria : DataPromotionSpec fixed_point
criteria = record {
  min_test_cases = some (pos 20);
  success_rate = some 9500;
  timeout_seconds = none;
}

abbrev data_only : PromotionSpec fixed_point
data_only = record {
  data_promotion = some criteria;
  custom = none;
  strategy = record { strategy_type = hard_switch; progressive = none };
}

abbrev promoted_deployment : BlueGreenDeployment fixed_point
promoted_deployment = record drained_deployment {
  spec = record drained_deployment.spec { promotion = some data_only };
}
