-- ===== src/Fixtures.antt =====
-- Values that the examples of several components share.
use fluidbgoperator.Base.Int.{pos}
use fluidbgoperator.Strategy.FixedPoint.{fixed_point}
use fluidbgoperator.Crd.{promoting, BlueGreenDeployment, BlueGreenDeploymentStatus}
use fluidbgoperator.Base.{ℕ, zero, suc, ◌+◌, ◌%◌, ◌<◌, ◌≡◌, refl, none, some, List, [], ◌∷◌, arith}
use fluidbgoperator.Base.Lists.{length, All}
use fluidbgoperator.Sdk.Names.Scoping.{IsDigest}
use fluidbgoperator.Base.Text.{Text, codes}
use fluidbgoperator.Kubernetes.{DeploymentSelector, DeploymentSpec, ManagedDeploymentSpec}

abbrev pub orders_selector : DeploymentSelector
orders_selector = record { namespace = none; match_labels = (codes "app", codes "orders") ∷ [] }

abbrev pub orders_spec : DeploymentSpec
orders_spec = record {
  replicas = none;
  selector_labels = (codes "app", codes "orders") ∷ [];
  template_labels = some ((codes "app", codes "orders") ∷ []);
  pod_spec = some (record { name = codes "app"; env = [] } ∷ []);
}

abbrev pub orders_managed : ManagedDeploymentSpec
orders_managed = record { namespace = none; spec = orders_spec }

-- A digest for the examples: a sum of the bytes, 32 times.
abbrev pub byte_sum : Text → ℕ
byte_sum [] = 0
byte_sum (x ∷ xs) = (x + byte_sum xs) % 256

abbrev pub repeat : ℕ → ℕ → List ℕ
repeat zero b = []
repeat (suc n) b = b ∷ repeat n b

abbrev pub digest : Text → List ℕ
digest t = repeat 32 (byte_sum t)

length-repeat : (n b : ℕ) → length (repeat n b) ≡ n
length-repeat zero b = refl
length-repeat (suc n) b = omega (arith, length-repeat n b)

repeat-All : (n b : ℕ) → b < 256 → All (λ c. c < 256) (repeat n b)
repeat-All zero b h = tt
repeat-All (suc n) b h = (h, repeat-All n b h)

byte_sum_bound : (t : Text) → byte_sum t < 256
byte_sum_bound [] = omega arith
byte_sum_bound (x ∷ xs) = omega arith

pub digest-IsDigest : IsDigest digest
digest-IsDigest = record {
  size = λ t. length-repeat 32 (byte_sum t);
  bytes = λ t. repeat-All 32 (byte_sum t) (byte_sum_bound t);
}

abbrev pub promoted_status : BlueGreenDeploymentStatus fixed_point
promoted_status = record {
  phase = some promoting;
  generated_deployment_name = some (codes "orders-b2");
  observed_generation = some (pos 1);
  rollout_generation = some (pos 1);
  test_cases_observed = none;
  test_cases_passed = none;
  test_cases_failed = none;
  test_cases_pending = none;
  test_cases_timed_out = none;
  current_success_rate = none;
  last_failure_message = none;
  current_traffic_percent = none;
  current_step = none;
  drain_started_at = none;
  inception_point_drains = [];
  conditions = [];
}

abbrev pub rollout : BlueGreenDeployment fixed_point
rollout = record {
  metadata = record {
    name = some (codes "orders");
    namespace = some (codes "ns");
    uid = some (codes "u1");
    generation = some (pos 1);
    deletion_timestamp = none;
    finalizers = [];
  };
  spec = record {
    selector = orders_selector;
    deployment = orders_managed;
    inception_points = [];
    test = none;
    promotion = none;
    update_policy = none;
  };
  status = some promoted_status;
}
