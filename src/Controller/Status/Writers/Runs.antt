-- ===== src/Controller/Status/Writers/Runs.antt =====
-- Sequences of requests of all writers of operator/src/controller/status.rs.
use fluidbgoperator.Base.{◌≡◌, refl, true, Option, some, List, [], ◌∷◌}
use fluidbgoperator.Base.Text.{Text}
use fluidbgoperator.Base.Int.{ℤ}
use fluidbgoperator.Store.{Counts}
use fluidbgoperator.Strategy.Float64.{Floats}
use fluidbgoperator.Crd.{
  BgdPhase, pending, invalid, InceptionPointDrainStatus, BlueGreenDeployment,
  BlueGreenDeploymentStatus,
}
use fluidbgoperator.Controller.Status.{
  Reply, status_of, latest_phase, observed_generation, generation, current_rollout_generation,
  phase_transition_is_current, if_named-cases, update_status_phase,
}
use fluidbgoperator.Controller.Status.Transitions.{Precedes, current-Follows}
use fluidbgoperator.Controller.Status.Writers.{
  patch_status, ensure_rollout_generation, reset_status_for_new_rollout, update_status_invalid,
  update_status_update_deferred, update_status_reconcile_failure, update_drain_started_at,
  update_inception_point_drain_statuses, update_status_generated_deployment_name,
  update_status_counts, update_status_progress,
}
use fluidbgoperator.Controller.Status.Writers.Forward.{
  Forward, same-Forward, Forward-trans, set_phase-Forward, update_status_counts-Forward,
  ensure_rollout_generation-Forward, update_status_update_deferred-Forward,
  update_status_reconcile_failure-Forward, update_drain_started_at-Forward,
  update_inception_point_drain_statuses-Forward, update_status_generated_deployment_name-Forward,
  update_status_progress-Forward,
}

-- A call of a writer: its clock, what the server answers it, what it writes, and the deployment as
-- the caller saw it.
pub data StatusWrite (F : Floats) : Type 0 where
  sets_phase : ℤ → Reply → BlueGreenDeployment F → BgdPhase → StatusWrite F
  sets_generation : Reply → BlueGreenDeployment F → StatusWrite F
  resets : ℤ → Reply → BlueGreenDeployment F → StatusWrite F
  invalidates : ℤ → Reply → Text → Text → BlueGreenDeployment F → StatusWrite F
  defers : ℤ → Reply → Text → BlueGreenDeployment F → StatusWrite F
  reports_failure : ℤ → Reply → Text → Text → BlueGreenDeployment F → StatusWrite F
  starts_drain : ℤ → Reply → BlueGreenDeployment F → StatusWrite F
  sets_drains : Reply → List InceptionPointDrainStatus → BlueGreenDeployment F → StatusWrite F
  sets_name : Reply → Text → BlueGreenDeployment F → StatusWrite F
  sets_counts : Reply → Counts → Floats.F64 F → Option Text → BlueGreenDeployment F → StatusWrite F
  sets_progress : Reply → ℤ → ℤ → BlueGreenDeployment F → StatusWrite F

module _ (F : Floats) where
  unfoldable pub apply_write : StatusWrite F → BlueGreenDeployment F → BlueGreenDeployment F
  apply_write (sets_phase now reply seen phase) = update_status_phase F now reply seen phase
  apply_write (sets_generation reply seen) = ensure_rollout_generation F reply seen
  apply_write (resets now reply seen) = reset_status_for_new_rollout F now reply seen
  apply_write (invalidates now reply reason message seen) =
      update_status_invalid F now reply reason message seen
  apply_write (defers now reply message seen) =
      update_status_update_deferred F now reply message seen
  apply_write (reports_failure now reply reason message seen) =
      update_status_reconcile_failure F now reply reason message seen
  apply_write (starts_drain now reply seen) = update_drain_started_at F now reply seen
  apply_write (sets_drains reply statuses seen) =
      update_inception_point_drain_statuses F reply statuses seen
  apply_write (sets_name reply name seen) =
      update_status_generated_deployment_name F reply name seen
  apply_write (sets_counts reply counts rate message seen) =
      update_status_counts F reply counts rate message seen
  apply_write (sets_progress reply step percent seen) =
      update_status_progress F reply step percent seen

  pub run_writes : List (StatusWrite F) → BlueGreenDeployment F → BlueGreenDeployment F
  unfolding apply_write
  run_writes [] stored = stored
  run_writes (w ∷ ws) stored = run_writes ws (apply_write w stored)

  -- The stored phase and generation admit the transition.
  abbrev pub Admits : BlueGreenDeployment F → BgdPhase → ℤ → Type 0
  Admits stored phase gen =
      phase_transition_is_current (latest_phase F stored) (observed_generation F stored) phase gen
      ≡ true

  -- The two writers that write the phase without a test come when the test would pass.
  abbrev pub IsTimely : StatusWrite F → BlueGreenDeployment F → Type 0
  IsTimely (resets now reply seen) stored = Admits stored pending (generation F seen)
  IsTimely (invalidates now reply reason message seen) stored =
      Admits stored invalid (current_rollout_generation F seen)
  IsTimely _ stored = Unit

  abbrev pub AreTimely : List (StatusWrite F) → BlueGreenDeployment F → Type 0
  AreTimely [] stored = Unit
  AreTimely (w ∷ ws) stored = IsTimely w stored × AreTimely ws (apply_write w stored)

  unconditional :
      (bgd : BlueGreenDeployment F) (reply : Reply)
      (f : BlueGreenDeploymentStatus F → BlueGreenDeploymentStatus F)
      (stored : BlueGreenDeployment F) (phase : BgdPhase) (gen : ℤ)
      → (f (status_of F stored)).phase ≡ some phase
      → (f (status_of F stored)).observed_generation ≡ some gen
      → Admits stored phase gen
      → Forward F stored (patch_status F bgd reply f stored)
  unfolding patch_status latest_phase observed_generation
  unconditional bgd reply f stored phase gen at_phase at_gen admitted =
      if_named-cases F (Forward F stored) bgd reply.write_ok _ stored (same-Forward F stored) (λ _.
        record {
          precedes =
              rw (at_phase, at_gen)
                (current-Follows (latest_phase F stored) (observed_generation F stored) phase gen
                  admitted);
        })

  apply_write-Forward :
      (w : StatusWrite F) (stored : BlueGreenDeployment F)
      → IsTimely w stored
      → Forward F stored (apply_write w stored)
  unfolding apply_write reset_status_for_new_rollout update_status_invalid
  apply_write-Forward (sets_phase now reply seen phase) stored t =
      set_phase-Forward F now reply seen phase stored
  apply_write-Forward (sets_generation reply seen) stored t =
      ensure_rollout_generation-Forward F reply seen stored
  apply_write-Forward (resets now reply seen) stored t =
      unconditional seen reply _ stored pending (generation F seen) refl refl t
  apply_write-Forward (invalidates now reply reason message seen) stored t =
      unconditional seen reply _ stored invalid (current_rollout_generation F seen) refl refl t
  apply_write-Forward (defers now reply message seen) stored t =
      update_status_update_deferred-Forward F now reply message seen stored
  apply_write-Forward (reports_failure now reply reason message seen) stored t =
      update_status_reconcile_failure-Forward F now reply reason message seen stored
  apply_write-Forward (starts_drain now reply seen) stored t =
      update_drain_started_at-Forward F now reply seen stored
  apply_write-Forward (sets_drains reply statuses seen) stored t =
      update_inception_point_drain_statuses-Forward F reply statuses seen stored
  apply_write-Forward (sets_name reply name seen) stored t =
      update_status_generated_deployment_name-Forward F reply name seen stored
  apply_write-Forward (sets_counts reply counts rate message seen) stored t =
      update_status_counts-Forward F reply counts rate message seen stored
  apply_write-Forward (sets_progress reply step percent seen) stored t =
      update_status_progress-Forward F reply step percent seen stored

  run_writes-Forward :
      (ws : List (StatusWrite F)) (stored : BlueGreenDeployment F)
      → AreTimely ws stored
      → Forward F stored (run_writes ws stored)
  unfolding run_writes
  run_writes-Forward [] stored t = same-Forward F stored
  run_writes-Forward (w ∷ ws) stored (now, later) =
      Forward-trans F stored (apply_write w stored) _ (apply_write-Forward w stored now)
        (run_writes-Forward ws (apply_write w stored) later)

  -- Whatever calls of the writers of the status reach the server, with whatever stale views and in
  -- whatever order, the stored phase only moves forward: the observed generation never falls, within
  -- one generation the phase never goes back, and a terminal phase stays as it is until a later
  -- generation begins. The condition is on the two writers that write the phase without a
  -- test, the reset and the one of an invalid specification: when their request arrives, the stored
  -- phase and generation must admit what they write, by the test that the writer of the phase makes.
  pub run_writes-Precedes :
      (ws : List (StatusWrite F)) (stored : BlueGreenDeployment F)
      → AreTimely ws stored
      → Precedes F stored (run_writes ws stored)
  run_writes-Precedes ws stored t = (run_writes-Forward ws stored t).precedes
