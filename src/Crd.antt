-- ===== src/Crd.antt =====
-- The custom resources: operator/src/crd/blue_green.rs and inception_plugin.rs, as far as the
-- modelled code reads them. Kubernetes pod and deployment templates, plugin configuration values and
-- schemas are left out: no modelled function looks into them.
use fluidbgoperator.Base.{ℕ, Bool, Option, List}
use fluidbgoperator.Base.Text.{Text}
use fluidbgoperator.Base.Int.{ℤ}
use fluidbgoperator.Kubernetes.{DeploymentSelector, ManagedDeploymentSpec}
use fluidbgoperator.Strategy.{DataPromotionSpec, ProgressiveStep}
use fluidbgoperator.Strategy.Float64.{Floats}

pub data PluginRole : Type 0 where
  duplicator splitter combiner observer mock writer consumer : PluginRole

pub record MutuallyExclusiveRoleGroup : Type 0 where
  pub roles : List PluginRole
  pub reason : Option Text

pub record PluginRoleConstraints : Type 0 where
  pub mutually_exclusive : List MutuallyExclusiveRoleGroup

pub data BgdPhase : Type 0 where
  pending observing promoting draining completed rolled_back invalid : BgdPhase

pub data InceptionPointDrainPhase : Type 0 where
  drain_pending successful timed_out_maybe_successful : InceptionPointDrainPhase

pub record InceptionPointDrainStatus : Type 0 where
  pub name : Text
  pub phase : InceptionPointDrainPhase
  pub message : Option Text
  pub completed_at : Option ℤ

pub data ConditionStatus : Type 0 where
  is_true is_false unknown : ConditionStatus

pub record BlueGreenDeploymentCondition : Type 0 where
  pub condition_type : Text
  pub status : ConditionStatus
  pub reason : Text
  pub message : Text
  pub observed_generation : ℤ
  pub last_transition_time : ℤ

pub data ActiveRolloutUpdatePolicy : Type 0 where
  defer force_replace : ActiveRolloutUpdatePolicy

pub data StrategyType : Type 0 where
  hard_switch progressive : StrategyType

pub record UpdatePolicy : Type 0 where
  pub active_rollout : Option ActiveRolloutUpdatePolicy

pub record InceptionPointDrainSpec : Type 0 where
  pub max_wait_seconds : Option ℤ

pub record InceptionPoint : Type 0 where
  pub name : Text
  pub plugin_ref : Text
  pub roles : List PluginRole
  pub drain : Option InceptionPointDrainSpec

pub record DataVerificationSpec : Type 0 where
  pub verify_path : Text
  pub timeout_seconds : Option ℤ

pub record CustomVerificationSpec : Type 0 where
  pub start_path : Text
  pub verify_path : Text
  pub timeout_seconds : Option ℤ
  pub retries : Option ℤ

-- Of the Kubernetes service the port numbers are read.
pub record TestSpec : Type 0 where
  pub name : Text
  pub service_ports : Option (List ℤ)
  pub data_verification : Option DataVerificationSpec
  pub custom_verification : Option CustomVerificationSpec

pub record CustomPromotionSpec : Type 0 where
  pub timeout_seconds : Option ℤ
  pub retries : Option ℤ

-- The fields of Kubernetes metadata that are read.
pub record ObjectMeta : Type 0 where
  pub name : Option Text
  pub namespace : Option Text
  pub uid : Option Text
  pub generation : Option ℤ
  pub deletion_timestamp : Option ℤ
  pub finalizers : List Text

module _ (F : Floats) where
  open F use {F64}

  pub record ProgressiveStrategy : Type 0 where
    pub steps : List (ProgressiveStep F)
    pub rollback_on_step_failure : Bool
    pub step_timeout_minutes : Option ℤ

  pub record PromotionStrategy : Type 0 where
    pub strategy_type : StrategyType
    pub progressive : Option ProgressiveStrategy

  pub record PromotionSpec : Type 0 where
    pub data_promotion : Option (DataPromotionSpec F)
    pub custom : Option CustomPromotionSpec
    pub strategy : PromotionStrategy

  pub record BlueGreenDeploymentSpec : Type 0 where
    pub selector : DeploymentSelector
    pub deployment : ManagedDeploymentSpec
    pub inception_points : List InceptionPoint
    pub test : Option TestSpec
    pub promotion : Option PromotionSpec
    pub update_policy : Option UpdatePolicy

  pub record BlueGreenDeploymentStatus : Type 0 where
    pub phase : Option BgdPhase
    pub generated_deployment_name : Option Text
    pub observed_generation : Option ℤ
    pub rollout_generation : Option ℤ
    pub test_cases_observed : Option ℕ
    pub test_cases_passed : Option ℕ
    pub test_cases_failed : Option ℕ
    pub test_cases_pending : Option ℕ
    pub test_cases_timed_out : Option ℕ
    pub current_success_rate : Option F64
    pub last_failure_message : Option Text
    pub current_traffic_percent : Option ℤ
    pub current_step : Option ℤ
    pub drain_started_at : Option ℤ
    pub inception_point_drains : List InceptionPointDrainStatus
    pub conditions : List BlueGreenDeploymentCondition

  pub record BlueGreenDeployment : Type 0 where
    pub metadata : ObjectMeta
    pub spec : BlueGreenDeploymentSpec
    pub status : Option BlueGreenDeploymentStatus
