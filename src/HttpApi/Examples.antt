-- ===== src/HttpApi/Examples.antt =====
-- The properties of the HTTP API at one deployment and one case.
use fluidbgoperator.Fixtures.{orders_selector, orders_managed}
use fluidbgoperator.Base.{true, Option, none, some, [], ◌∷◌, ◌++◌}
use fluidbgoperator.Base.Text.{Text, codes}
use fluidbgoperator.Base.Int.{pos}
use fluidbgoperator.Base.Errors.{ok}
use fluidbgoperator.Store.{TestCaseRecord, triggered, data_mode}
use fluidbgoperator.Store.Memory.{MemoryStore, memory_store}
use fluidbgoperator.Strategy.FixedPoint.{fixed_point}
use fluidbgoperator.Crd.{BlueGreenDeployment}
use fluidbgoperator.Sdk.Auth.{PluginAuthClaims, plugin_auth_issuer, plugin_auth_audience}
use fluidbgoperator.HttpApi.{RegisterTestCaseRequest, VerdictRequest, Lookup, present, set_verdict}
use fluidbgoperator.HttpApi.Verdicts.{Decided, verdict_is_authorized}

abbrev orders_claims : PluginAuthClaims
orders_claims = record {
  iss = plugin_auth_issuer;
  aud = plugin_auth_audience;
  namespace = codes "ns";
  blue_green_ref = codes "orders";
  blue_green_uid = some (codes "u1");
  inception_point = codes "incoming";
  plugin = codes "http";
}

abbrev orders_deployment : BlueGreenDeployment fixed_point
orders_deployment = record {
  metadata = record {
    name = some (codes "orders");
    namespace = some (codes "ns");
    uid = some (codes "u1");
    generation = some (pos 1);
    deletion_timestamp = none;
    finalizers = [];
  };
  spec = record {
    selector = orders_selector;
    deployment = orders_managed;
    inception_points = [];
    test = none;
    promotion = none;
    update_policy = none;
  };
  status = none;
}

abbrev finds : Text → Text → Lookup fixed_point
finds namespace name = present orders_deployment

abbrev case_request : RegisterTestCaseRequest
case_request = record {
  test_id = codes "t1";
  blue_green_ref = codes "orders";
  inception_point = codes "incoming";
  triggered_at = none;
  timeout_seconds = none;
  verify_url = none;
}

abbrev token : Option Text
token = some (codes "Bearer secret")

abbrev stored_case : TestCaseRecord
stored_case = record {
  test_id = codes "t1";
  blue_green_ref = codes "ns/orders";
  triggered_at = pos 10;
  source_inception_point = codes "incoming";
  timeout = pos 60;
  status = triggered;
  verdict = none;
  verification_mode = data_mode;
  verify_url = [];
  verifier_auth_token = codes "secret";
  retries_remaining = pos 0;
  failure_message = none;
}

abbrev one_case : MemoryStore
one_case = (codes "ns/orders" ++ (0x1f ∷ codes "t1"), stored_case) ∷ []

abbrev verdict_request : VerdictRequest
verdict_request = record {
  test_id = codes "t1";
  blue_green_ref = some (codes "orders");
  passed = true;
}

verdict_is_authorized_example :
    Decided token verdict_request one_case
      (ok (some orders_claims))
      (set_verdict memory_store (ok (some orders_claims)) token verdict_request one_case)
verdict_is_authorized_example =
    verdict_is_authorized token verdict_request one_case (ok (some orders_claims))
