-- ===== src/Controller/Reconcile.antt =====
-- One pass of the controller over a deployment: `reconcile_locked` of operator/src/controller.rs. The
-- world is the deployment on the API server, the test case store and the calls that were made to
-- Kubernetes and to the plugins, the last one first. What such a call answers is an argument.
pub mod Pass
pub mod Outer
use fluidbgoperator.Base.{
  ℕ, Bool, true, false, not, ◌&&◌, ◌||◌, Option, none, some, List, [], ◌∷◌, if◌then◌else◌, is_some,
  unwrap_or,
}
use fluidbgoperator.Base.Lists.{any, keep}
use fluidbgoperator.Base.Text.{Text, codes, text_eq}
use fluidbgoperator.Base.Int.{ℤ, pos, ltb_ℤ}
use fluidbgoperator.Store
use fluidbgoperator.Store.{StateStore, Counts, data_mode, custom_mode}
use fluidbgoperator.Strategy.{
  PromotionAction, continue_observing, promote, rollback, advance_step, actual_rate,
}
use fluidbgoperator.Strategy.Float64.{Floats}
use fluidbgoperator.Crd.{
  BgdPhase, pending, observing, promoting, draining, completed, rolled_back, invalid,
  InceptionPoint, BlueGreenDeployment, BlueGreenDeploymentSpec,
}
use fluidbgoperator.Controller.{Result, ok, err, ReconcileError, resource}
use fluidbgoperator.Controller.Steps.{Step, done, fail, ◌>>=◌, ◌>>◌}
use fluidbgoperator.Controller.Promotion.{decide_promotion_action, validate_test_configuration}
use fluidbgoperator.Controller.Status.{
  Reply, phase_is_terminal, status_of, latest_phase, observed_generation, rollout_generation,
  generation, update_status_phase,
}
use fluidbgoperator.Controller.Status.Writers.{
  ensure_rollout_generation, reset_status_for_new_rollout, update_status_update_deferred,
  update_drain_started_at, update_status_generated_deployment_name, update_status_counts,
  update_status_progress,
}
use fluidbgoperator.Controller.Draining.{
  PluginDrainStatus, Answers, of_store, force_replaces, reconcile_draining,
}
use fluidbgoperator.HttpApi.{blue_green_state_key}

-- `kube::runtime::controller::Action`, a requeue with its seconds.
pub data Action : Type 0 where
  await_change : Action
  requeue : ℕ → Action

-- The calls to Kubernetes and to the plugins.
pub data Call : Type 0 where
  cleanup_inception_resources cleanup_test_resources delete_rollout_spec_snapshot : Call
  patch_finalizers ensure_rollout_spec_snapshot load_rollout_spec_snapshot get_candidate : Call
  bootstrap_initial_green_if_empty resolve_current_green : Call
  validate_progressive_shifting_support ensure_inception_resources : Call
  initialize_splitter_traffic promote_candidate : Call
  begin_draining_after_promotion begin_draining_after_rollback drain_inception_points : Call
  apply_splitter_traffic_percent : ℤ → Call

-- The writers of the status.
pub data Write : Type 0 where
  reset_write deferred_write generation_write name_write phase_write counts_write : Write
  drain_start_write drains_write progress_write : Write

abbrev pub bgd_finalizer : Text
bgd_finalizer = codes "fluidbg.io/cleanup"

-- What the calls and the writers of one pass are answered, and the clock.
pub record Surroundings (F : Floats) : Type 0 where
  pub now : ℤ
  pub replies : Write → Reply
  pub answer : Call → Result (Unit {0})
  pub snapshot : Result (BlueGreenDeploymentSpec F)
  pub free_name : Result Text
  pub bootstrapped : Result Bool
  pub deferred_message : Text
  pub ask : InceptionPoint → Result (Option PluginDrainStatus)

-- The deployment on the API server, the store, and the calls made.
pub record World (F : Floats) (S : StateStore) : Type 0 where
  pub stored : BlueGreenDeployment F
  pub records : StateStore.State S
  pub calls : List Call

module _ (F : Floats) where
  pub has_finalizer : BlueGreenDeployment F → Bool
  has_finalizer bgd = any (λ f. text_eq f bgd_finalizer) bgd.metadata.finalizers

  pub phase_of : BlueGreenDeployment F → BgdPhase
  phase_of bgd = unwrap_or (latest_phase F bgd) pending

  pub rollout_needs_restart : BlueGreenDeployment F → BgdPhase → Bool
  rollout_needs_restart bgd phase =
      phase_is_terminal phase && ltb_ℤ (observed_generation F bgd) (generation F bgd)

  -- The phases that `active_rollout_has_new_spec_generation` excludes.
  pub is_finished : BgdPhase → Bool
  is_finished completed = true
  is_finished rolled_back = true
  is_finished _ = false

  pub active_rollout_has_new_spec_generation : BlueGreenDeployment F → BgdPhase → Bool
  unfolding is_finished
  active_rollout_has_new_spec_generation bgd phase =
      let rollout = unwrap_or (rollout_generation F bgd) (pos 0) in
      not (is_finished phase) && (ltb_ℤ (pos 0) rollout && ltb_ℤ rollout (generation F bgd))

  pub is_draining : BgdPhase → Bool
  is_draining draining = true
  is_draining _ = false

  pub should_start_force_replace_rollout : BlueGreenDeployment F → BgdPhase → Bool
  unfolding active_rollout_has_new_spec_generation is_draining
  should_start_force_replace_rollout bgd phase =
      force_replaces F bgd
      && (active_rollout_has_new_spec_generation bgd phase && not (is_draining phase))

  -- `load_rollout_spec_snapshot`, once the snapshot is read.
  pub frozen : BlueGreenDeployment F → BlueGreenDeploymentSpec F → BlueGreenDeployment F
  frozen bgd spec = record bgd {
    spec =
        if force_replaces F bgd
        then record spec { update_policy = bgd.spec.update_policy }
        else spec;
  }

  pub with_finalizers : List Text → BlueGreenDeployment F → BlueGreenDeployment F
  with_finalizers finalizers stored = record stored {
    metadata = record stored.metadata { finalizers = finalizers };
  }
