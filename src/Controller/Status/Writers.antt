-- ===== src/Controller/Status/Writers.antt =====
-- The other writers of operator/src/controller/status.rs. A merge patch changes the fields that it
-- names, sets a field to nothing by `null`, and replaces a list whole.
pub mod Forward
pub mod Runs
mod Examples
use fluidbgoperator.Base.{◌&&◌, Option, none, some, List, [], ◌∷◌, is_some, if◌then◌else◌}
use fluidbgoperator.Base.Text.{Text, codes}
use fluidbgoperator.Base.Int.{ℤ}
use fluidbgoperator.Store.{Counts}
use fluidbgoperator.Strategy.{finalized}
use fluidbgoperator.Strategy.Float64.{Floats}
use fluidbgoperator.Crd.{
  pending, invalid, is_true, is_false, InceptionPointDrainStatus, BlueGreenDeploymentCondition,
  BlueGreenDeployment, BlueGreenDeploymentStatus,
}
use fluidbgoperator.Controller.Status.{
  Reply, condition, conditions_for_phase, set_condition, default_status, status_of,
  rollout_generation, generation, current_rollout_generation, if_named,
}

-- The four conditions of `update_status_invalid`.
pub invalid_conditions : ℤ → Text → Text → ℤ → List BlueGreenDeploymentCondition
unfolding condition
invalid_conditions now reason message gen =
    condition (codes "Ready") is_false reason message gen now
    ∷ condition (codes "Progressing") is_false reason message gen now
    ∷ condition (codes "Degraded") is_true reason message gen now
    ∷ condition (codes "ReconcileFailed") is_true reason message gen now
    ∷ []

module _ (F : Floats) where
  open F use {F64}

  -- A patch of the status: one request, accepted or not.
  pub patch_status :
      BlueGreenDeployment F
      → Reply
      → (BlueGreenDeploymentStatus F → BlueGreenDeploymentStatus F)
      → BlueGreenDeployment F
      → BlueGreenDeployment F
  unfolding default_status
  patch_status bgd reply f stored =
      if_named F bgd reply.write_ok (record stored { status = some (f (status_of F stored)) })
        stored

  -- A read and a replacement.
  pub replace_status :
      BlueGreenDeployment F
      → Reply
      → (BlueGreenDeploymentStatus F → BlueGreenDeploymentStatus F)
      → BlueGreenDeployment F
      → BlueGreenDeployment F
  unfolding default_status
  replace_status bgd reply f stored =
      if_named F bgd (reply.read_ok && reply.write_ok)
        (record stored { status = some (f (status_of F stored)) }) stored

  pub ensure_rollout_generation :
      Reply → BlueGreenDeployment F → BlueGreenDeployment F → BlueGreenDeployment F
  unfolding default_status rollout_generation generation
  ensure_rollout_generation reply bgd stored =
      if is_some (rollout_generation F bgd)
      then stored
      else patch_status bgd reply (λ s. record s { rollout_generation = some (generation F bgd) })
          stored

  pub reset_status_for_new_rollout :
      ℤ → Reply → BlueGreenDeployment F → BlueGreenDeployment F → BlueGreenDeployment F
  unfolding default_status generation conditions_for_phase
  reset_status_for_new_rollout now reply bgd stored =
      let gen = generation F bgd in
      patch_status bgd reply
        (λ s. record s {
          phase = some pending;
          generated_deployment_name = none;
          observed_generation = some gen;
          rollout_generation = some gen;
          current_traffic_percent = none;
          current_step = none;
          drain_started_at = none;
          inception_point_drains = [];
          conditions = conditions_for_phase now pending gen;
        })
        stored

  -- `message` is the formatted text that names both generations.
  pub update_status_update_deferred :
      ℤ → Reply → Text → BlueGreenDeployment F → BlueGreenDeployment F → BlueGreenDeployment F
  unfolding default_status generation condition set_condition
  update_status_update_deferred now reply message bgd stored =
      replace_status bgd reply
        (λ s. record s {
          conditions =
              set_condition
                (condition (codes "UpdateDeferred") is_true (codes "ActiveRollout") message
                  (generation F bgd) now)
                s.conditions;
        })
        stored

  pub update_status_reconcile_failure :
      ℤ
      → Reply
      → Text
      → Text
      → BlueGreenDeployment F
      → BlueGreenDeployment F
      → BlueGreenDeployment F
  unfolding default_status current_rollout_generation condition set_condition
  update_status_reconcile_failure now reply reason message bgd stored =
      let gen = current_rollout_generation F bgd in
      replace_status bgd reply
        (λ s. record s {
          conditions = set_condition (condition (codes "Degraded") is_true reason message gen now) (
              set_condition (condition (codes "ReconcileFailed") is_true reason message gen now)
                s.conditions);
        })
        stored

  pub update_status_invalid :
      ℤ
      → Reply
      → Text
      → Text
      → BlueGreenDeployment F
      → BlueGreenDeployment F
      → BlueGreenDeployment F
  unfolding default_status current_rollout_generation invalid_conditions
  update_status_invalid now reply reason message bgd stored =
      let gen = current_rollout_generation F bgd in
      patch_status bgd reply
        (λ s. record s {
          phase = some invalid;
          observed_generation = some gen;
          conditions = invalid_conditions now reason message gen;
        })
        stored

  pub update_drain_started_at :
      ℤ → Reply → BlueGreenDeployment F → BlueGreenDeployment F → BlueGreenDeployment F
  unfolding default_status
  update_drain_started_at now reply bgd stored =
      patch_status bgd reply (λ s. record s { drain_started_at = some now }) stored

  pub update_inception_point_drain_statuses :
      Reply
      → List InceptionPointDrainStatus
      → BlueGreenDeployment F
      → BlueGreenDeployment F
      → BlueGreenDeployment F
  unfolding default_status
  update_inception_point_drain_statuses reply statuses bgd stored =
      patch_status bgd reply (λ s. record s { inception_point_drains = statuses }) stored

  pub update_status_generated_deployment_name :
      Reply → Text → BlueGreenDeployment F → BlueGreenDeployment F → BlueGreenDeployment F
  unfolding default_status
  update_status_generated_deployment_name reply name bgd stored =
      patch_status bgd reply (λ s. record s { generated_deployment_name = some name }) stored

  pub update_status_counts :
      Reply
      → Counts
      → F64
      → Option Text
      → BlueGreenDeployment F
      → BlueGreenDeployment F
      → BlueGreenDeployment F
  unfolding default_status
  update_status_counts reply counts success_rate last_failure_message bgd stored =
      patch_status bgd reply
        (λ s. record s {
          test_cases_observed = some (finalized counts);
          test_cases_passed = some counts.passed;
          test_cases_failed = some counts.failed;
          test_cases_pending = some counts.pending;
          test_cases_timed_out = some counts.timed_out;
          current_success_rate = some success_rate;
          last_failure_message = last_failure_message;
        })
        stored

  pub update_status_progress :
      Reply → ℤ → ℤ → BlueGreenDeployment F → BlueGreenDeployment F → BlueGreenDeployment F
  unfolding default_status
  update_status_progress reply step traffic_percent bgd stored =
      patch_status bgd reply
        (λ s. record s { current_traffic_percent = some traffic_percent; current_step = some step })
        stored
