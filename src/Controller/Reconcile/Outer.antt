-- ===== src/Controller/Reconcile/Outer.antt =====
-- What stands around a pass: `reconcile`, `publish_reconcile_error_status` and `run_with_bgd_lease`
-- of operator/src/controller.rs and controller/lease.rs. That the lease is lost in the middle of a
-- pass is not modelled.
pub mod Errors
use fluidbgoperator.Base.{
  ◌++◌, Bool, true, false, not, ◌&&◌, Option, none, some, if◌then◌else◌, is_some, unwrap_or,
}
use fluidbgoperator.Base.Text.{Text, codes}
use fluidbgoperator.Store.{StateStore}
use fluidbgoperator.Strategy.Float64.{Floats}
use fluidbgoperator.Crd.{BlueGreenDeployment}
use fluidbgoperator.Controller.{
  ReconcileError, invalid_spec, store, state_store, lease, plugin_manager, plugin_inceptor,
  plugin_drain_status, plugin_traffic_shift, auth, resource, k8s, Result, ok, err,
  diagnostic_reason, is_terminal_for_generation,
}
use fluidbgoperator.Controller.Steps.{Step, done, fail, ◌>>=◌, ◌>>◌}
use fluidbgoperator.Controller.Status.{Reply}
use fluidbgoperator.Controller.Status.Writers.{
  update_status_invalid, update_status_reconcile_failure,
}
use fluidbgoperator.Controller.Reconcile.{Action, await_change, requeue, Surroundings, World}
use fluidbgoperator.Controller.Reconcile.Pass.{
  missing_namespace, state_key, write, cleanup_deleted_bgd, reconcile_locked,
}

-- `ReconcileError::to_string`.
pub error_message : ReconcileError → Text
error_message (invalid_spec t) = codes "invalid spec: " ++ t
error_message (store t) = codes "controller error: " ++ t
error_message (state_store t) = codes "state store error: " ++ t
error_message (lease t) = codes "lease error: " ++ t
error_message (plugin_manager t) = codes "plugin manager error: " ++ t
error_message (plugin_inceptor t) = codes "plugin inceptor error: " ++ t
error_message (plugin_drain_status t) = codes "plugin drain status error: " ++ t
error_message (plugin_traffic_shift t) = codes "plugin traffic shift error: " ++ t
error_message (auth t) = codes "auth configuration error: " ++ t
error_message (resource t) = codes "resource error: " ++ t
error_message (k8s t) = codes "k8s error: " ++ t

-- What `api.get` answers.
pub data Latest (F : Floats) : Type 0 where
  found : BlueGreenDeployment F → Latest F
  gone : Latest F
  failed : ReconcileError → Latest F

-- Whether the local lock was free, what the lease and the deployment's read were answered, and the
-- reply to the writer of the error.
pub record Entry (F : Floats) : Type 0 where
  pub unlocked : Bool
  pub acquired : Result Bool
  pub latest : Latest F
  pub error_reply : Reply

-- What is done about an error, which stays the result.
pub handled : {W A : Type 0} → (ReconcileError → Step W (Unit {0})) → Result A × W → Result A × W
handled h (ok a, w) = (ok a, w)
handled h (err e, w) = (err e, (h e w).1)

module _ (F : Floats) (S : StateStore) (env : Surroundings F) (entry : Entry F) where
  pub publish_reconcile_error_status :
      BlueGreenDeployment F → ReconcileError → Step (World F S) (Unit {0})
  unfolding error_message
  publish_reconcile_error_status bgd error =
      let message = error_message error in
      let reason = diagnostic_reason error in
      if is_terminal_for_generation error
      then write F S env (update_status_invalid F env.now entry.error_reply reason message bgd)
      else write F S env
          (update_status_reconcile_failure F env.now entry.error_reply reason message bgd)

  pub cleanup_deleted : BlueGreenDeployment F → Step (World F S) (Unit {0})
  cleanup_deleted bgd = elim bgd.metadata.namespace [
    | none ↦ fail (missing_namespace F bgd)
    | some namespace ↦ cleanup_deleted_bgd F S env bgd (state_key F bgd namespace)
  ]

  -- The branch of a deployment that is being deleted, on what was read of it.
  pub delete_latest : Latest F → Step (World F S) Action
  unfolding cleanup_deleted
  delete_latest (found bgd) = cleanup_deleted bgd >> done await_change
  delete_latest gone = done await_change
  delete_latest (failed error) = fail error

  pub pass_latest : Latest F → Step (World F S) Action
  pass_latest (found bgd) = reconcile_locked F S env bgd
  pass_latest gone = done await_change
  pass_latest (failed error) = fail error

  pub run_if : {A : Type 0} → Bool → Step (World F S) A → Step (World F S) (Option A)
  run_if true m = m >>= λ a. done (some a)
  run_if false m = done none

  -- A deployment without a uid or a name takes no lease.
  pub run_with_bgd_lease :
      {A : Type 0} → BlueGreenDeployment F → Step (World F S) A → Step (World F S) (Option A)
  unfolding run_if
  run_with_bgd_lease bgd m =
      if is_some bgd.metadata.uid && is_some bgd.metadata.name
      then ((λ w. (entry.acquired, w)) >>= λ acquired. run_if acquired m)
      else done none

  pub reconcile_leased : BlueGreenDeployment F → Step (World F S) Action
  unfolding handled publish_reconcile_error_status run_with_bgd_lease pass_latest
  reconcile_leased bgd =
      (λ w.
        handled (publish_reconcile_error_status bgd)
          (run_with_bgd_lease bgd (pass_latest entry.latest) w))
      >>= λ action. done (unwrap_or action (requeue 2))

  pub reconcile_deleted : BlueGreenDeployment F → Step (World F S) Action
  unfolding handled publish_reconcile_error_status delete_latest
  reconcile_deleted bgd =
      if is_some bgd.metadata.name
      then (λ w. handled (publish_reconcile_error_status bgd) (delete_latest entry.latest w))
      else done await_change

  pub reconcile : BlueGreenDeployment F → Step (World F S) Action
  unfolding reconcile_leased reconcile_deleted
  reconcile bgd =
      if not (is_some bgd.metadata.namespace)
      then done await_change
      else (if not entry.unlocked
          then done (requeue 1)
          else (if is_some bgd.metadata.deletion_timestamp
              then reconcile_deleted bgd
              else reconcile_leased bgd))
