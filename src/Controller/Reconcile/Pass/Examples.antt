-- ===== src/Controller/Reconcile/Pass/Examples.antt =====
-- A pass, with and without what stands around it, that restarts a completed rollout whose specification changed.
use fluidbgoperator.Fixtures.{orders_selector, orders_managed}
use fluidbgoperator.Base.{refl, true, false, none, some, [], ◌∷◌, inl}
use fluidbgoperator.Base.Text.{codes}
use fluidbgoperator.Base.Int.{pos}
use fluidbgoperator.Store.Memory.{memory_store}
use fluidbgoperator.Strategy.FixedPoint.{fixed_point}
use fluidbgoperator.Crd.{completed, BlueGreenDeployment, BlueGreenDeploymentStatus}
use fluidbgoperator.Controller.{ok}
use fluidbgoperator.Controller.Status.Transitions.{Precedes}
use fluidbgoperator.Controller.Reconcile.{bgd_finalizer, Surroundings, World}
use fluidbgoperator.Base.{◌⊎◌}
use fluidbgoperator.Controller.Reconcile.Outer.{Entry, found, reconcile}
use fluidbgoperator.Controller.Reconcile.Outer.Errors.{IsRejected, reconcile-Precedes}
use fluidbgoperator.Controller.Reconcile.Pass.{reconcile_locked}
use fluidbgoperator.Controller.Reconcile.Pass.Restart.{reconcile_locked-Precedes}

abbrev finished : BlueGreenDeploymentStatus fixed_point
finished = record {
  phase = some completed;
  generated_deployment_name = some (codes "orders-a1");
  observed_generation = some (pos 1);
  rollout_generation = some (pos 1);
  test_cases_observed = none;
  test_cases_passed = none;
  test_cases_failed = none;
  test_cases_pending = none;
  test_cases_timed_out = none;
  current_success_rate = none;
  last_failure_message = none;
  current_traffic_percent = none;
  current_step = none;
  drain_started_at = none;
  inception_point_drains = [];
  conditions = [];
}

-- The second generation of the specification, after a completed first rollout.
abbrev updated : BlueGreenDeployment fixed_point
updated = record {
  metadata = record {
    name = some (codes "orders");
    namespace = some (codes "ns");
    uid = some (codes "u1");
    generation = some (pos 2);
    deletion_timestamp = none;
    finalizers = bgd_finalizer ∷ [];
  };
  spec = record {
    selector = orders_selector;
    deployment = orders_managed;
    inception_points = [];
    test = none;
    promotion = none;
    update_policy = none;
  };
  status = some finished;
}

abbrev surroundings : Surroundings fixed_point
surroundings = record {
  now = pos 61000000000;
  replies = λ w. record { read_ok = true; write_ok = true };
  answer = λ c. ok tt;
  snapshot = ok updated.spec;
  free_name = ok (codes "orders-b2");
  bootstrapped = ok false;
  deferred_message = [];
  ask = λ ip. ok none;
}

abbrev world : World fixed_point memory_store
world = record { stored = updated; records = []; calls = [] }

reconcile_locked-Precedes_example :
    Precedes fixed_point world.stored
      (reconcile_locked fixed_point memory_store surroundings updated world).1.stored
reconcile_locked-Precedes_example =
    reconcile_locked-Precedes fixed_point memory_store surroundings updated world (inl refl)

abbrev entry : Entry fixed_point
entry = record {
  unlocked = true;
  acquired = ok true;
  latest = found updated;
  error_reply = record { read_ok = true; write_ok = true };
}

reconcile-Precedes_example :
    Precedes fixed_point world.stored
      (reconcile fixed_point memory_store surroundings entry updated world).1.stored
    ⊎ IsRejected (reconcile fixed_point memory_store surroundings entry updated world).0
reconcile-Precedes_example =
    reconcile-Precedes fixed_point memory_store surroundings entry updated world (inl refl)
