-- ===== src/Controller/Inception.antt =====
-- The preparation of a rollout's inception points:
-- operator/src/controller/phases/inception.rs. A call to the cluster or to a plugin is an event of a log,
-- newest first, and what it answers is an argument.
pub mod Log
pub mod Stages
pub mod Order
mod Examples
use fluidbgoperator.Base.{
  ℕ, Bool, true, false, not, Option, none, some, List, [], ◌∷◌, ◌++◌, map, if◌then◌else◌, unwrap_or,
}
use fluidbgoperator.Base.Lists.{any, keep}
use fluidbgoperator.Base.Text.{Text, codes}
use fluidbgoperator.Base.Map.{Map, insert}
use fluidbgoperator.Strategy.Float64.{Floats}
use fluidbgoperator.Kubernetes.{EnvVar}
use fluidbgoperator.Crd.{InceptionPoint, BlueGreenDeployment}
use fluidbgoperator.Controller.{
  Result, ok, err, plugin_manager, plugin_inceptor, resource, ReconcileError,
}
use fluidbgoperator.Controller.Steps.{Step, done, fail, ◌>>=◌, ◌>>◌}
use fluidbgoperator.Controller.Deployments.{
  AssignmentTarget, green, blue, test, env, PropertyAssignment, target_eq,
}

pub record InceptorEnvVar : Type 0 where
  pub name : Text
  pub value : Text

-- `PluginLifecycleResponse`; `config` is the text of a JSON value.
pub record LifecycleResponse : Type 0 where
  pub assignments : List PropertyAssignment
  pub inceptor_env : List InceptorEnvVar
  pub config : Option Text

pub record DeploymentIdentity : Type 0 where
  pub namespace : Text
  pub name : Text

-- The names and namespaces of what `reconcile_inception_point` renders, and its injections.
pub record Rendered : Type 0 where
  pub config_maps : List (Option Text)
  pub secrets : List (Option Text)
  pub deployments : List (Option Text × Option Text)
  pub services : List (Option Text)
  pub green_env_injections : List EnvVar
  pub blue_env_injections : List EnvVar
  pub test_env_injections : List EnvVar

pub data Event : Type 0 where
  manager_prepares inceptor_prepares activates : Text → Event
  gets_plugin signs_token : Text → Event
  applies_config_map applies_secret applies_service : Text → Event
  applies_deployment : DeploymentIdentity → Event
  waits_for_plugins : List DeploymentIdentity → Event
  writes_tokens : Map Text → Event
  declares_deployments : List PropertyAssignment → Event
  makes_tests : List PropertyAssignment → List EnvVar → Event
  waits_for_tests : List DeploymentIdentity → Event
  waits_for_services : Event
  applies_assignments : List PropertyAssignment → Event
  waits_for_touched : List DeploymentIdentity → Event

abbrev pub Log : Type 0
Log = List Event

-- `reached` is the answer of the calls that give no value; `rendered` gets the URL of the test, the token
-- and what the manager has given.
pub record Answers : Type 0 where
  pub reached : Event → Result (Unit {0})
  pub validated : InceptionPoint → Result (Unit {0})
  pub test_url : Result Text
  pub managed : Text → Result (Option LifecycleResponse)
  pub token : Text → Result Text
  pub rendered : InceptionPoint → Text → Text → List EnvVar → Option Text → Result Rendered
  pub prepared : Text → Result (Option LifecycleResponse)
  pub activated : Text → Result (Option LifecycleResponse)
  pub secret_env : Result EnvVar
  pub test_deployments : Result (List DeploymentIdentity)
  pub touched : Result (List DeploymentIdentity)

abbrev pub is_test : PropertyAssignment → Bool
is_test a = target_eq a.target test

pub manager_inceptor_env_vars : List InceptorEnvVar → List EnvVar
manager_inceptor_env_vars vars = map (λ v. record { name = v.name; value = some v.value }) vars

-- `partition`.
pub split_test_assignments :
    List PropertyAssignment → List PropertyAssignment × List PropertyAssignment
split_test_assignments assignments =
    (keep is_test assignments, keep (λ a. not (is_test a)) assignments)

pub reject_manager_test_assignments : Text → List PropertyAssignment → Result (Unit {0})
reject_manager_test_assignments inception_point assignments =
    if any is_test assignments
    then err (
        plugin_manager (
          codes "inception point '"
          ++ (inception_point
              ++ codes
                  "' returned test deployment assignments from prepare; test assignments must be declared in InceptionPlugin injects so the operator can apply them before inceptor activation")))
    else ok tt

pub reject_activation_assignments : Text → List PropertyAssignment → Result (Unit {0})
reject_activation_assignments inception_point [] = ok tt
reject_activation_assignments inception_point (a ∷ rest) = err (
    plugin_inceptor (
      codes "inception point '"
      ++ (inception_point
          ++ codes
              "' returned deployment assignments from activate; app/test assignments must be provided before activation")))

pub reject_inceptor_env_response : Text → List InceptorEnvVar → Result (Unit {0})
reject_inceptor_env_response inception_point [] = ok tt
reject_inceptor_env_response inception_point (v ∷ rest) = err (
    plugin_inceptor (
      codes "inception point '"
      ++ (inception_point
          ++ codes
              "' returned inceptorEnv outside manager prepare; inceptor runtime env must be provided by the manager before pod creation")))

abbrev pub injection : AssignmentTarget → EnvVar → PropertyAssignment
injection target e = record {
  target = target;
  kind = env;
  name = e.name;
  value = unwrap_or e.value [];
  container_name = none;
}

pub template_assignments : List EnvVar → List EnvVar → List EnvVar → List PropertyAssignment
template_assignments green_env blue_env test_env =
    map (injection green) green_env
    ++ (map (injection blue) blue_env ++ map (injection test) test_env)

abbrev pub of_result : {A : Type 0} → Result A → Step Log A
of_result r = λ log. (r, log)

-- A call whose answer is given.
pub ask : {A : Type 0} → Event → Result A → Step Log A
ask e r = λ log. (r, e ∷ log)

-- The first loop's outcome for one inception point.
pub record Prepared : Type 0 where
  pub name : Text
  pub plugin_deployments : List DeploymentIdentity
  pub test_assignments : List PropertyAssignment
  pub pre_activation_assignments : List PropertyAssignment
  pub auth_token : Text

-- What the manager adds: the inceptor's environment, its configuration and assignments.
pub managed_parts : Option LifecycleResponse → List EnvVar × Option Text × List PropertyAssignment
unfolding manager_inceptor_env_vars
managed_parts none = ([], none, [])
managed_parts (some response) =
    (manager_inceptor_env_vars response.inceptor_env, response.config, response.assignments)

pub reject_managed : Text → Option LifecycleResponse → Result (Unit {0})
unfolding reject_manager_test_assignments
reject_managed inception_point none = ok tt
reject_managed inception_point (some response) =
    reject_manager_test_assignments inception_point response.assignments

pub tokens_of : Map Text → List Prepared → Map Text
tokens_of tokens [] = tokens
tokens_of tokens (p ∷ ps) = tokens_of (insert p.name p.auth_token tokens) ps

abbrev pub all_tests : List Prepared → List PropertyAssignment
all_tests [] = []
all_tests (p ∷ ps) = p.test_assignments ++ all_tests ps

abbrev pub all_others : List Prepared → List PropertyAssignment
all_others [] = []
all_others (p ∷ ps) = p.pre_activation_assignments ++ all_others ps

-- What is made of the inceptors' answers.
pub check_prepared : Text → Option LifecycleResponse → Step Log (List PropertyAssignment)
unfolding reject_inceptor_env_response reject_manager_test_assignments
check_prepared inception_point none = done []
check_prepared inception_point (some r) =
    of_result (reject_inceptor_env_response inception_point r.inceptor_env)
    >> (of_result (reject_manager_test_assignments inception_point r.assignments)
        >> done r.assignments)

pub check_activated : Text → Option LifecycleResponse → Step Log (Unit {0})
unfolding reject_inceptor_env_response reject_activation_assignments
check_activated inception_point none = done tt
check_activated inception_point (some r) =
    of_result (reject_inceptor_env_response inception_point r.inceptor_env)
    >> of_result (reject_activation_assignments inception_point r.assignments)

module _ (answers : Answers) where
  pub call : Event → Step Log (Unit {0})
  unfolding ask
  call e = ask e (answers.reached e)

  -- Objects of one kind, each of which must have a name.
  pub apply_all : (Text → Event) → Text → List (Option Text) → Step Log (Unit {0})
  unfolding call
  apply_all event kind [] = done tt
  apply_all event kind (none ∷ names) =
      fail (resource (codes "generated " ++ (kind ++ codes " has no name")))
  apply_all event kind (some name ∷ names) = call (event name) >> apply_all event kind names

  pub apply_deployments :
      Text → List (Option Text × Option Text) → Step Log (List DeploymentIdentity)
  unfolding call
  apply_deployments namespace [] = done []
  apply_deployments namespace ((none, ns) ∷ rest) =
      fail (resource (codes "generated Deployment has no name"))
  apply_deployments namespace ((some name, ns) ∷ rest) =
      let identity : DeploymentIdentity = record {
        namespace = unwrap_or ns namespace;
        name = name;
      } in
      call (applies_deployment identity)
      >> (apply_deployments namespace rest >>= λ more. done (identity ∷ more))

  -- What follows the manager's answer in the first loop.
  pub render_and_apply : Text → Text → InceptionPoint → Option LifecycleResponse → Step Log Prepared
  unfolding ask apply_all apply_deployments managed_parts reject_managed split_test_assignments
      template_assignments
  render_and_apply namespace test_url ip response =
      let (inceptor_env, config, managed_assignments) = managed_parts response in
      of_result (reject_managed ip.name response)
      >> (ask (signs_token ip.name) (answers.token ip.name) >>= λ token.
          of_result (answers.rendered ip test_url token inceptor_env config) >>= λ resources.
          let (tests, others) = split_test_assignments (
            template_assignments resources.green_env_injections resources.blue_env_injections
              resources.test_env_injections) in
          apply_all applies_config_map (codes "ConfigMap") resources.config_maps
          >> (apply_all applies_secret (codes "Secret") resources.secrets
              >> (apply_deployments namespace resources.deployments >>= λ deployments.
                  apply_all applies_service (codes "Service") resources.services
                  >> done (record {
                    name = ip.name;
                    plugin_deployments = deployments;
                    test_assignments = tests;
                    pre_activation_assignments = managed_assignments ++ others;
                    auth_token = token;
                  }))))

  pub prepare_one : Text → Text → InceptionPoint → Step Log Prepared
  unfolding call ask render_and_apply
  prepare_one namespace test_url ip =
      call (gets_plugin ip.plugin_ref)
      >> (of_result (answers.validated ip)
          >> (ask (manager_prepares ip.name) (answers.managed ip.name) >>= λ response.
              render_and_apply namespace test_url ip response))

  pub prepare_all : Text → Text → List InceptionPoint → Step Log (List Prepared)
  unfolding prepare_one
  prepare_all namespace test_url [] = done []
  prepare_all namespace test_url (ip ∷ ips) = prepare_one namespace test_url ip >>= λ plan.
      prepare_all namespace test_url ips >>= λ plans. done (plan ∷ plans)

  pub wait_if_any : List DeploymentIdentity → Step Log (Unit {0})
  unfolding call
  wait_if_any [] = done tt
  wait_if_any (d ∷ ds) = call (waits_for_plugins (d ∷ ds))

  pub prepare_inceptor : Prepared → Step Log (List PropertyAssignment)
  unfolding wait_if_any ask check_prepared
  prepare_inceptor plan =
      wait_if_any plan.plugin_deployments
      >> (ask (inceptor_prepares plan.name) (answers.prepared plan.name) >>= λ response.
          check_prepared plan.name response)

  pub prepare_inceptors : List Prepared → Step Log (List PropertyAssignment)
  unfolding prepare_inceptor
  prepare_inceptors [] = done []
  prepare_inceptors (plan ∷ plans) =
      prepare_inceptor plan >>= λ first. prepare_inceptors plans >>= λ more. done (first ++ more)

  pub activate_one : Prepared → Step Log (Unit {0})
  unfolding ask check_activated
  activate_one plan = ask (activates plan.name) (answers.activated plan.name) >>= λ response.
      check_activated plan.name response

  pub activate_all : List Prepared → Step Log (Unit {0})
  unfolding activate_one
  activate_all [] = done tt
  activate_all (plan ∷ plans) = activate_one plan >> activate_all plans

  pub apply_if_any : List PropertyAssignment → Step Log (Unit {0})
  unfolding call ask
  apply_if_any [] = done tt
  apply_if_any (a ∷ rest) = ask (applies_assignments (a ∷ rest)) answers.touched >>= λ touched.
      call (waits_for_touched touched)

  -- The environment with the verifiers' tokens, where there is a test.
  pub test_env : Bool → Map Text → Step Log (List EnvVar)
  unfolding ask
  test_env false tokens = done []
  test_env true tokens = ask (writes_tokens tokens) answers.secret_env >>= λ e. done (e ∷ [])

  -- What follows the calls of the inceptors in `Prepare`.
  pub deploy : Bool → List Prepared → List PropertyAssignment → Step Log (Unit {0})
  unfolding call ask apply_if_any test_env tokens_of
  deploy tested plans pre_activation = test_env tested (tokens_of [] plans) >>= λ extra.
      call (declares_deployments pre_activation)
      >> (ask (makes_tests (all_tests plans) extra) answers.test_deployments >>= λ tests.
          call (waits_for_tests tests) >> (call waits_for_services >> apply_if_any pre_activation))

module _ (F : Floats) (answers : Answers) where
  abbrev pub has_test : BlueGreenDeployment F → Bool
  has_test bgd = elim bgd.spec.test [ none ↦ false | some _ ↦ true ]

  abbrev pub url_of_test : BlueGreenDeployment F → Result Text
  url_of_test bgd = if has_test bgd then answers.test_url else ok (codes "http://localhost:8080")

  pub ensure_inception_resources : BlueGreenDeployment F → Text → Step Log (Unit {0})
  unfolding prepare_all prepare_inceptors activate_all deploy
  ensure_inception_resources bgd namespace = of_result (url_of_test bgd) >>= λ test_url.
      prepare_all answers namespace test_url bgd.spec.inception_points >>= λ plans.
      prepare_inceptors answers plans >>= λ more.
      deploy answers (has_test bgd) plans (all_others plans ++ more) >> activate_all answers plans
