-- ===== src/Controller/Inception/Examples.antt =====
-- Two inception points; the second one's inceptor answers its activation with an assignment.
use fluidbgoperator.Base.{none, some, [], ◌∷◌, if◌then◌else◌, List}
use fluidbgoperator.Base.Text.{codes, text_eq}
use fluidbgoperator.Strategy.FixedPoint.{fixed_point}
use fluidbgoperator.Crd.{InceptionPoint, BlueGreenDeployment}
use fluidbgoperator.Controller.{ok}
use fluidbgoperator.Controller.Steps.{After}
use fluidbgoperator.Controller.Deployments.{green, env, PropertyAssignment}
use fluidbgoperator.Fixtures.{rollout}
use fluidbgoperator.Controller.Inception.{Answers, ensure_inception_resources}
use fluidbgoperator.Controller.Inception.Order.{
  IsSafe, Completed, ensure_inception_resources-Completed,
}

abbrev point : InceptionPoint
point = record { name = codes "orders"; plugin_ref = codes "rabbitmq"; roles = []; drain = none }

abbrev points : List InceptionPoint
points = point ∷ record point { name = codes "events" } ∷ []

abbrev two_points : BlueGreenDeployment fixed_point
two_points = record rollout { spec = record rollout.spec { inception_points = points } }

abbrev queue_env : PropertyAssignment
queue_env = record {
  target = green;
  kind = env;
  name = codes "QUEUE";
  value = codes "fluidbg-green-in-1";
  container_name = none;
}

abbrev answers : Answers
answers = record {
  reached = λ _. ok tt;
  validated = λ _. ok tt;
  test_url = ok (codes "http://test.ns:8080");
  managed =
      λ _. ok (some (record { assignments = queue_env ∷ []; inceptor_env = []; config = none }));
  token = λ n. ok n;
  rendered = λ ip url token env config. ok (record {
    config_maps = some (codes "config") ∷ [];
    secrets = [];
    deployments = (some (codes "inceptor"), none) ∷ [];
    services = [];
    green_env_injections = [];
    blue_env_injections = [];
    test_env_injections =
        record { name = codes "URL"; value = some (codes "http://inceptor") } ∷ [];
  });
  prepared = λ _. ok none;
  activated = λ n.
      if text_eq n (codes "events")
      then ok (some (record { assignments = queue_env ∷ []; inceptor_env = []; config = none }))
      else ok none;
  secret_env = ok (record { name = codes "FLUIDBG_TOKENS"; value = none });
  test_deployments = ok [];
  touched = ok [];
}

ensure_inception_resources-Completed_example :
    After
      (IsSafe points)
      (λ _. Completed points)
      (ensure_inception_resources fixed_point answers two_points (codes "ns") [])
ensure_inception_resources-Completed_example =
    ensure_inception_resources-Completed answers fixed_point two_points (codes "ns")
