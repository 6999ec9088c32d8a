-- ===== src/Controller/Reconcile/Outer/Errors.antt =====
-- What a whole pass does to the stored deployment, errors included: `reconcile` of
-- operator/src/controller.rs.
use fluidbgoperator.Base.{
  ◌≡◌, ◌⊎◌, inl, inr, Bool, true, false, not, ◌&&◌, Bool-cases, Option, none, some, if◌then◌else◌,
  is_some, unwrap_or,
}
use fluidbgoperator.Base.Text.{Text}
use fluidbgoperator.Store.{StateStore}
use fluidbgoperator.Strategy.Float64.{Floats}
use fluidbgoperator.Crd.{BlueGreenDeployment}
use fluidbgoperator.Controller.{
  ReconcileError, Result, ok, err, is_terminal_for_generation, diagnostic_reason,
}
use fluidbgoperator.Controller.Steps.{Step, continue, done, fail, ◌>>◌}
use fluidbgoperator.Controller.Status.Transitions.{Precedes}
use fluidbgoperator.Controller.Status.Writers.Forward.{
  Forward, same-Forward, Forward-trans, update_status_reconcile_failure-Forward,
}
use fluidbgoperator.Controller.Reconcile.{
  await_change, requeue, Surroundings, World, phase_of, rollout_needs_restart,
}
use fluidbgoperator.Controller.Reconcile.Pass.{missing_namespace, cleanup_deleted_bgd, state_key}
use fluidbgoperator.Controller.Reconcile.Pass.Order.{
  Kept, write-Kept, deletion-Kept, then-Kept, done-Kept,
}
use fluidbgoperator.Controller.Reconcile.Pass.Restart.{reconcile_locked-Precedes}
use fluidbgoperator.Controller.Reconcile.Outer.{
  Latest, found, gone, failed, Entry, handled, error_message, publish_reconcile_error_status,
  cleanup_deleted, delete_latest, pass_latest, run_if, run_with_bgd_lease, reconcile_leased,
  reconcile_deleted, reconcile,
}

-- The pass ended in an error that is final for the generation.
abbrev pub IsRejected : {A : Type 0} → Result A → Type 0
IsRejected (ok a) = ⊥
IsRejected (err e) = is_terminal_for_generation e ≡ true

module _ (F : Floats) (S : StateStore) (env : Surroundings F) (entry : Entry F) where
  record Moved {A : Type 0} (w : World F S) (r : Result A × World F S) : Type 0 where
    forward : Forward F w.stored r.1.stored

  record Ended {A : Type 0} (w : World F S) (r : Result A × World F S) : Type 0 where
    ended : Forward F w.stored r.1.stored ⊎ IsRejected r.0

  publish-Kept :
      (bgd : BlueGreenDeployment F) (e : ReconcileError)
      → is_terminal_for_generation e ≡ false
      → Kept F S env (publish_reconcile_error_status F S env entry bgd e)
  unfolding publish_reconcile_error_status
  publish-Kept bgd e passing = rw passing (
      write-Kept F S env _ (
        update_status_reconcile_failure-Forward F env.now entry.error_reply (diagnostic_reason e)
          (error_message e) bgd))

  handled-Ended :
      {A : Type 0} (bgd : BlueGreenDeployment F) (w : World F S) (r : Result A × World F S)
      → Moved w r
      → Ended w (handled (publish_reconcile_error_status F S env entry bgd) r)
  unfolding handled
  handled-Ended bgd w (ok a, v) m = record { ended = inl m.forward }
  handled-Ended bgd w (err e, v) m = elim (Bool-cases (is_terminal_for_generation e)) [
    | inl final ↦ record { ended = inr final }
    | inr passing ↦ record {
      ended =
          inl
            (Forward-trans F w.stored v.stored _ m.forward ((publish-Kept bgd e passing).within v));
    }
  ]

  then_done-Ended :
      {A B : Type 0} (f : A → B) (w : World F S) (r : Result A × World F S)
      → Ended w r
      → Ended w (continue r (λ a. done (f a)))
  unfolding continue
  then_done-Ended f w (ok a, v) e = record { ended = e.ended }
  then_done-Ended f w (err x, v) e = record { ended = e.ended }

  abbrev pub Fresh : World F S → Latest F → Type 0
  Fresh w (found bgd) = (bgd ≡ w.stored) ⊎ (rollout_needs_restart F bgd (phase_of F bgd) ≡ false)
  Fresh w gone = Unit
  Fresh w (failed e) = Unit

  pass_latest-Moved :
      (latest : Latest F) (w : World F S)
      → Fresh w latest
      → Moved w (pass_latest F S env entry latest w)
  unfolding pass_latest
  pass_latest-Moved (found bgd) w h = record {
    forward = record { precedes = reconcile_locked-Precedes F S env bgd w h };
  }
  pass_latest-Moved gone w h = record { forward = same-Forward F w.stored }
  pass_latest-Moved (failed e) w h = record { forward = same-Forward F w.stored }

  cleanup_deleted-Kept :
      (bgd : BlueGreenDeployment F)
      → Kept F S env (cleanup_deleted F S env entry bgd >> done await_change)
  unfolding cleanup_deleted
  cleanup_deleted-Kept bgd =
      then-Kept F S env _ _ (go bgd.metadata.namespace) λ _. done-Kept F S env _
    where
      go :
          (namespace : Option Text)
          → Kept F S env (
              (elim namespace as (λ _. Step (World F S) (Unit {0})) [
                | none ↦ fail (missing_namespace F bgd)
                | some n ↦ cleanup_deleted_bgd F S env bgd (state_key F bgd n)
              ]))
      go none = record { within = λ w. same-Forward F w.stored }
      go (some n) = deletion-Kept F S env bgd (state_key F bgd n)

  delete_latest-Moved :
      (latest : Latest F) (w : World F S) → Moved w (delete_latest F S env entry latest w)
  unfolding delete_latest
  delete_latest-Moved (found bgd) w = record { forward = (cleanup_deleted-Kept bgd).within w }
  delete_latest-Moved gone w = record { forward = same-Forward F w.stored }
  delete_latest-Moved (failed e) w = record { forward = same-Forward F w.stored }

  if-Moved :
      {A : Type 0} (b : Bool) (m k : Step (World F S) A) (w : World F S)
      → Moved w (m w)
      → Moved w (k w)
      → Moved w ((if b then m else k) w)
  if-Moved true m k w first second = first
  if-Moved false m k w first second = second

  some-Moved :
      {A : Type 0} (w : World F S) (r : Result A × World F S)
      → Moved w r
      → Moved w (continue r (λ a. done (some a)))
  unfolding continue
  some-Moved w (ok a, v) h = record { forward = h.forward }
  some-Moved w (err e, v) h = record { forward = h.forward }

  acquired-Moved :
      {A : Type 0} (acquired : Result Bool) (m : Step (World F S) A) (w : World F S)
      → Moved w (m w)
      → Moved w (continue (acquired, w) (λ a. run_if F S env entry a m))
  unfolding continue run_if
  acquired-Moved (ok true) m w h = some-Moved w (m w) h
  acquired-Moved (ok false) m w h = record { forward = same-Forward F w.stored }
  acquired-Moved (err e) m w h = record { forward = same-Forward F w.stored }

  run_with-Moved :
      {A : Type 0} (bgd : BlueGreenDeployment F) (m : Step (World F S) A) (w : World F S)
      → Moved w (m w)
      → Moved w (run_with_bgd_lease F S env entry bgd m w)
  unfolding run_with_bgd_lease
  run_with-Moved bgd m w h =
      if-Moved (is_some bgd.metadata.uid && is_some bgd.metadata.name) _ (done none) w
        (acquired-Moved entry.acquired m w h) (record { forward = same-Forward F w.stored })

  if-Ended :
      {A : Type 0} (b : Bool) (m k : Step (World F S) A) (w : World F S)
      → Ended w (m w)
      → Ended w (k w)
      → Ended w ((if b then m else k) w)
  if-Ended true m k w first second = first
  if-Ended false m k w first second = second

  done-Ended : {A : Type 0} (a : A) (w : World F S) → Ended w (done a w)
  done-Ended a w = record { ended = inl (same-Forward F w.stored) }

  leased-Ended :
      (bgd : BlueGreenDeployment F) (w : World F S)
      → Fresh w entry.latest
      → Ended w (reconcile_leased F S env entry bgd w)
  unfolding reconcile_leased
  leased-Ended bgd w h =
      then_done-Ended (λ action. unwrap_or action (requeue 2)) w _
        (handled-Ended bgd w _ (run_with-Moved bgd _ w (pass_latest-Moved entry.latest w h)))

  deleted-Ended :
      (bgd : BlueGreenDeployment F) (w : World F S)
      → Ended w (reconcile_deleted F S env entry bgd w)
  unfolding reconcile_deleted
  deleted-Ended bgd w =
      if-Ended (is_some bgd.metadata.name) _ (done await_change) w
        (handled-Ended bgd w _ (delete_latest-Moved entry.latest w)) (done-Ended await_change w)

  reconcile-Ended :
      (bgd : BlueGreenDeployment F) (w : World F S)
      → Fresh w entry.latest
      → Ended w (reconcile F S env entry bgd w)
  unfolding reconcile
  reconcile-Ended bgd w h =
      if-Ended (not (is_some bgd.metadata.namespace)) (done await_change) _ w (done-Ended _ w) (
        if-Ended (not entry.unlocked) (done (requeue 1)) _ w (done-Ended _ w) (
          if-Ended (is_some bgd.metadata.deletion_timestamp) _ _ w (deleted-Ended bgd w)
            (leased-Ended bgd w h)))

  -- A whole pass, with the lock, the lease and the publication of errors around it, never takes the
  -- rollout back either, unless it ends in an error that is final for the generation, whose
  -- publication ends the rollout: whatever the informer's view of the deployment, whatever the lease,
  -- the calls, the store and the writers answer. The condition is that a restart is
  -- decided on the deployment as it is stored.
  pub reconcile-Precedes :
      (bgd : BlueGreenDeployment F) (w : World F S)
      → Fresh w entry.latest
      → Precedes F w.stored (reconcile F S env entry bgd w).1.stored
        ⊎ IsRejected (reconcile F S env entry bgd w).0
  reconcile-Precedes bgd w h = elim ((reconcile-Ended bgd w h).ended) [
    | inl onward ↦ inl onward.precedes
    | inr rejected ↦ inr rejected
  ]
