-- ===== src/Controller/Status/Writers/Forward.antt =====
-- The writers of operator/src/controller/status.rs beside the phase: none moves the phase back, and of
-- them only the reset writes it.
use fluidbgoperator.Base.{
  ◌≡◌, refl, inl, Bool, true, Option, some, List, arith, is_some, Bool-cases, inr, ◌&&◌,
}
use fluidbgoperator.Base.Text.{Text}
use fluidbgoperator.Base.Int.{ℤ, ltb_ℤ}
use fluidbgoperator.Store.{Counts}
use fluidbgoperator.Strategy.Float64.{Floats}
use fluidbgoperator.Crd.{
  BgdPhase, InceptionPointDrainStatus, BlueGreenDeployment, BlueGreenDeploymentStatus,
}
use fluidbgoperator.Controller.Status.{
  Reply, status_of, latest_phase, observed_generation, rollout_generation, generation, if_named,
  if_named-cases, update_status_phase,
}
use fluidbgoperator.Controller.Status.Transitions.{
  Precedes, Follows-refl, Follows-trans, write-Precedes,
}
use fluidbgoperator.Controller.Status.Writers.{
  patch_status, replace_status, ensure_rollout_generation, reset_status_for_new_rollout,
  update_status_update_deferred, update_status_reconcile_failure, update_drain_started_at,
  update_inception_point_drain_statuses, update_status_generated_deployment_name,
  update_status_counts, update_status_progress,
}

module _ (F : Floats) where
  open F use {F64}

  -- `Precedes` as a type that a writer's object can be read off.
  pub record Forward (s t : BlueGreenDeployment F) : Type 0 where
    pub precedes : Precedes F s t

  pub same-Forward : (stored : BlueGreenDeployment F) → Forward stored stored
  same-Forward stored = record { precedes = Follows-refl _ _ }

  pub Forward-trans : (s t u : BlueGreenDeployment F) → Forward s t → Forward t u → Forward s u
  Forward-trans s t u a b = record { precedes = Follows-trans _ _ _ _ _ _ a.precedes b.precedes }

  pub set_phase-Forward :
      (now : ℤ) (reply : Reply) (bgd : BlueGreenDeployment F) (phase : BgdPhase)
      (stored : BlueGreenDeployment F)
      → Forward stored (update_status_phase F now reply bgd phase stored)
  set_phase-Forward now reply bgd phase stored = record {
    precedes = write-Precedes F now reply bgd stored phase;
  }

  patched-Forward :
      (bgd stored : BlueGreenDeployment F) (accepted : Bool)
      (f : BlueGreenDeploymentStatus F → BlueGreenDeploymentStatus F)
      → ((s : BlueGreenDeploymentStatus F) → (f s).phase ≡ s.phase)
      → ((s : BlueGreenDeploymentStatus F) → (f s).observed_generation ≡ s.observed_generation)
      → Forward stored (
          if_named F bgd accepted (record stored { status = some (f (status_of F stored)) }) stored)
  unfolding latest_phase observed_generation
  patched-Forward bgd stored accepted f phase generation =
      if_named-cases F (λ t. Forward stored t) bgd accepted
        (record stored { status = some (f (status_of F stored)) }) stored (same-Forward stored)
        (λ _. record {
          precedes =
              rw (phase (status_of F stored), generation (status_of F stored)) (Follows-refl _ _);
        })

  patch_status-Forward :
      (bgd : BlueGreenDeployment F) (reply : Reply)
      (f : BlueGreenDeploymentStatus F → BlueGreenDeploymentStatus F)
      (stored : BlueGreenDeployment F)
      → ((s : BlueGreenDeploymentStatus F) → (f s).phase ≡ s.phase)
      → ((s : BlueGreenDeploymentStatus F) → (f s).observed_generation ≡ s.observed_generation)
      → Forward stored (patch_status F bgd reply f stored)
  unfolding patch_status
  patch_status-Forward bgd reply f stored = patched-Forward bgd stored reply.write_ok f

  replace_status-Forward :
      (bgd : BlueGreenDeployment F) (reply : Reply)
      (f : BlueGreenDeploymentStatus F → BlueGreenDeploymentStatus F)
      (stored : BlueGreenDeployment F)
      → ((s : BlueGreenDeploymentStatus F) → (f s).phase ≡ s.phase)
      → ((s : BlueGreenDeploymentStatus F) → (f s).observed_generation ≡ s.observed_generation)
      → Forward stored (replace_status F bgd reply f stored)
  unfolding replace_status
  replace_status-Forward bgd reply f stored =
      patched-Forward bgd stored (reply.read_ok && reply.write_ok) f

  pub ensure_rollout_generation-Forward :
      (reply : Reply) (bgd stored : BlueGreenDeployment F)
      → Forward stored (ensure_rollout_generation F reply bgd stored)
  unfolding ensure_rollout_generation
  ensure_rollout_generation-Forward reply bgd stored =
      elim (Bool-cases (is_some (rollout_generation F bgd))) [
        | inl known ↦ rw known (same-Forward stored)
        | inr fresh ↦ rw fresh (patch_status-Forward bgd _ _ stored (λ s. refl) (λ s. refl))
      ]

  pub update_status_update_deferred-Forward :
      (now : ℤ) (reply : Reply) (message : Text) (bgd stored : BlueGreenDeployment F)
      → Forward stored (update_status_update_deferred F now reply message bgd stored)
  unfolding update_status_update_deferred
  update_status_update_deferred-Forward now reply message bgd stored =
      replace_status-Forward bgd _ _ stored (λ s. refl) (λ s. refl)

  pub update_status_reconcile_failure-Forward :
      (now : ℤ) (reply : Reply) (reason message : Text) (bgd stored : BlueGreenDeployment F)
      → Forward stored (update_status_reconcile_failure F now reply reason message bgd stored)
  unfolding update_status_reconcile_failure
  update_status_reconcile_failure-Forward now reply reason message bgd stored =
      replace_status-Forward bgd _ _ stored (λ s. refl) (λ s. refl)

  pub update_drain_started_at-Forward :
      (now : ℤ) (reply : Reply) (bgd stored : BlueGreenDeployment F)
      → Forward stored (update_drain_started_at F now reply bgd stored)
  unfolding update_drain_started_at
  update_drain_started_at-Forward now reply bgd stored =
      patch_status-Forward bgd _ _ stored (λ s. refl) (λ s. refl)

  pub update_inception_point_drain_statuses-Forward :
      (reply : Reply) (statuses : List InceptionPointDrainStatus)
      (bgd stored : BlueGreenDeployment F)
      → Forward stored (update_inception_point_drain_statuses F reply statuses bgd stored)
  unfolding update_inception_point_drain_statuses
  update_inception_point_drain_statuses-Forward reply statuses bgd stored =
      patch_status-Forward bgd _ _ stored (λ s. refl) (λ s. refl)

  pub update_status_generated_deployment_name-Forward :
      (reply : Reply) (name : Text) (bgd stored : BlueGreenDeployment F)
      → Forward stored (update_status_generated_deployment_name F reply name bgd stored)
  unfolding update_status_generated_deployment_name
  update_status_generated_deployment_name-Forward reply name bgd stored =
      patch_status-Forward bgd _ _ stored (λ s. refl) (λ s. refl)

  pub update_status_counts-Forward :
      (reply : Reply) (counts : Counts) (rate : F64) (message : Option Text)
      (bgd stored : BlueGreenDeployment F)
      → Forward stored (update_status_counts F reply counts rate message bgd stored)
  unfolding update_status_counts
  update_status_counts-Forward reply counts rate message bgd stored =
      patch_status-Forward bgd _ _ stored (λ s. refl) (λ s. refl)

  pub update_status_progress-Forward :
      (reply : Reply) (step percent : ℤ) (bgd stored : BlueGreenDeployment F)
      → Forward stored (update_status_progress F reply step percent bgd stored)
  unfolding update_status_progress
  update_status_progress-Forward reply step percent bgd stored =
      patch_status-Forward bgd _ _ stored (λ s. refl) (λ s. refl)

  -- The reset takes the phase back, and it begins a later generation.
  pub reset-Forward :
      (now : ℤ) (reply : Reply) (stored : BlueGreenDeployment F)
      → ltb_ℤ (observed_generation F stored) (generation F stored) ≡ true
      → Forward stored (reset_status_for_new_rollout F now reply stored stored)
  unfolding patch_status reset_status_for_new_rollout latest_phase observed_generation
  reset-Forward now reply stored later =
      if_named-cases F (Forward stored) stored reply.write_ok _ stored (same-Forward stored)
        (λ _. record { precedes = inl (ground (arith, later)) })

  -- A change of the finalizers leaves the status.
  pub with_finalizers-Forward :
      (finalizers : List Text) (stored : BlueGreenDeployment F)
      → Forward stored
          (record stored { metadata = record stored.metadata { finalizers = finalizers } })
  unfolding latest_phase observed_generation
  with_finalizers-Forward finalizers stored = record { precedes = Follows-refl _ _ }
