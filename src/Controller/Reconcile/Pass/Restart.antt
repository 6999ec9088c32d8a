-- ===== src/Controller/Reconcile/Pass/Restart.antt =====
-- A whole pass of `reconcile_locked` in operator/src/controller.rs, restart included.
use fluidbgoperator.Base.{
  ◌≡◌, refl, sym, subst, ◌∙◌, ◌⊎◌, inl, inr, Bool, true, false, not, Option, none, some, [], ◌∷◌,
  arith, if◌then◌else◌, is_some,
}
use fluidbgoperator.Base.Text.{Text}
use fluidbgoperator.Base.Int.{ltb_ℤ}
use fluidbgoperator.Store.{StateStore}
use fluidbgoperator.Strategy.Float64.{Floats}
use fluidbgoperator.Crd.{BlueGreenDeployment}
use fluidbgoperator.Controller.{Result, ok, err}
use fluidbgoperator.Controller.Steps.{Step, continue, bind-Within, done, fail, ◌>>◌}
use fluidbgoperator.Controller.Status.{generation, observed_generation}
use fluidbgoperator.Controller.Status.Transitions.{Precedes}
use fluidbgoperator.Controller.Status.Writers.{reset_status_for_new_rollout}
use fluidbgoperator.Controller.Status.Writers.Forward.{Forward, same-Forward, reset-Forward}
use fluidbgoperator.Controller.Reconcile.{
  Action, await_change, requeue, reset_write, Surroundings, World, phase_of, rollout_needs_restart,
  has_finalizer, bgd_finalizer,
}
use fluidbgoperator.Controller.Reconcile.Pass.{
  missing_namespace, state_key, call_for, write, change_store, clean_up, cleanup_deleted_bgd, patch,
  restart, continue_rollout, reconcile_named, reconcile_locked,
}
use fluidbgoperator.Controller.Reconcile.Pass.Order.{
  Kept, done-Kept, then-Kept, patch-Kept, continue_rollout-Kept, deletion-Kept,
}

module _ (F : Floats) (S : StateStore) (env : Surroundings F) where
  abbrev Untouched : World F S → World F S → Type 0
  Untouched u v = v.stored ≡ u.stored

  Untouched-trans : (u v w : World F S) → Untouched u v → Untouched v w → Untouched u w
  Untouched-trans u v w p q = q ∙ p

  clean_up-Untouched : (key : Text) (w : World F S) → (clean_up F S env key w).1.stored ≡ w.stored
  unfolding clean_up call_for change_store
  clean_up-Untouched key =
      bind-Within Untouched _ _ Untouched-trans (λ w. refl)
        λ _.
          bind-Within Untouched _ _ Untouched-trans (λ w. refl)
            λ _.
              bind-Within Untouched _ _ Untouched-trans (λ w. refl)
                λ _. bind-Within Untouched _ _ Untouched-trans (λ w. refl) λ _ w. refl

  after_clean_up :
      (bgd : BlueGreenDeployment F) (r : Result (Unit {0}) × World F S)
      → ltb_ℤ (observed_generation F bgd) (generation F bgd) ≡ true
      → r.1.stored ≡ bgd
      → Forward F bgd
          (continue r (λ _.
            write F S env (reset_status_for_new_rollout F env.now (env.replies reset_write) bgd)
            >> done (requeue 1))).1.stored
  unfolding continue write
  after_clean_up bgd (ok _, v) later same =
      rw same (reset-Forward F env.now (env.replies reset_write) bgd later)
  after_clean_up bgd (err e, v) later same = rw same (same-Forward F bgd)

  restart-Forward :
      (key : Text) (w : World F S)
      → rollout_needs_restart F w.stored (phase_of F w.stored) ≡ true
      → Forward F w.stored (restart F S env w.stored key w).1.stored
  unfolding restart rollout_needs_restart
  restart-Forward key w needed =
      after_clean_up w.stored (clean_up F S env key w) (ground (arith, needed))
        (clean_up-Untouched key w)

  -- The step moves this world onward.
  record MovesOn {A : Type 0} (w : World F S) (m : Step (World F S) A) : Type 0 where
    onward : Forward F w.stored (m w).1.stored

  if-MovesOn :
      {A : Type 0} (b : Bool) (m k : Step (World F S) A) (w : World F S)
      → (b ≡ true → MovesOn w m)
      → (b ≡ false → MovesOn w k)
      → MovesOn w (if b then m else k)
  if-MovesOn true m k w then_on else_on = then_on refl
  if-MovesOn false m k w then_on else_on = else_on refl

  moves : {A : Type 0} (w : World F S) (m : Step (World F S) A) → Kept F S env m → MovesOn w m
  moves w m k = record { onward = k.within w }

  abbrev FreshOrNoRestart : BlueGreenDeployment F → World F S → Type 0
  FreshOrNoRestart bgd w = (bgd ≡ w.stored) ⊎ (rollout_needs_restart F bgd (phase_of F bgd) ≡ false)

  restarted :
      (bgd : BlueGreenDeployment F) (key : Text) (w : World F S)
      → FreshOrNoRestart bgd w
      → rollout_needs_restart F bgd (phase_of F bgd) ≡ true
      → Forward F w.stored (restart F S env bgd key w).1.stored
  restarted bgd key w (inl fresh) needed =
      subst
        (λ b.
          rollout_needs_restart F b (phase_of F b) ≡ true
          → Forward F w.stored (restart F S env b key w).1.stored)
        (sym fresh) (restart-Forward key w) needed
  restarted bgd key w (inr unneeded) needed = absurd (cc)

  named-MovesOn :
      (bgd : BlueGreenDeployment F) (key : Text) (w : World F S)
      → FreshOrNoRestart bgd w
      → MovesOn w (reconcile_named F S env bgd key)
  unfolding reconcile_named
  named-MovesOn bgd key w h =
      let deletion : Step (World F S) Action =
        cleanup_deleted_bgd F S env bgd key >> done await_change in
      let finalizer : Step (World F S) Action =
        patch F S env bgd (bgd_finalizer ∷ []) >> done (requeue 1) in
      let latest : Step (World F S) Action =
        if rollout_needs_restart F bgd (phase_of F bgd)
        then restart F S env bgd key
        else continue_rollout F S env bgd key in
      let finalized : Step (World F S) Action =
        if not (has_finalizer F bgd) then finalizer else latest in
      if-MovesOn (is_some bgd.metadata.deletion_timestamp) deletion finalized w
        (λ _.
          moves w deletion
            (then-Kept F S env _ _ (deletion-Kept F S env bgd key) λ _. done-Kept F S env _))
        (λ _.
          if-MovesOn (not (has_finalizer F bgd)) finalizer latest w
            (λ _.
              moves w finalizer
                (then-Kept F S env _ _ (patch-Kept F S env bgd _) λ _. done-Kept F S env _))
            (λ _.
              if-MovesOn (rollout_needs_restart F bgd (phase_of F bgd)) (restart F S env bgd key)
                (continue_rollout F S env bgd key) w
                (λ needed. record { onward = restarted bgd key w h needed })
                (λ _. moves w _ (continue_rollout-Kept F S env bgd key))))

  -- A pass of the controller never takes the rollout back: whatever view of the deployment it reads,
  -- whatever the calls, the store and the writers answer, in whatever phase, the observed generation
  -- does not fall, within one generation the phase does not go back, and a terminal phase stays until
  -- a later generation begins. The one condition is that a pass that restarts the rollout read the
  -- deployment as it is stored.
  pub reconcile_locked-Precedes :
      (bgd : BlueGreenDeployment F) (w : World F S)
      → (bgd ≡ w.stored) ⊎ (rollout_needs_restart F bgd (phase_of F bgd) ≡ false)
      → Precedes F w.stored (reconcile_locked F S env bgd w).1.stored
  unfolding reconcile_locked
  reconcile_locked-Precedes bgd w h = go bgd.metadata.namespace
    where
      go :
          (namespace : Option Text)
          → Precedes F w.stored
              ((elim namespace as (λ _. Step (World F S) Action) [
                | none ↦ fail (missing_namespace F bgd)
                | some n ↦ reconcile_named F S env bgd (state_key F bgd n)
              ])
                w).1.stored
      go none = (same-Forward F w.stored).precedes
      go (some n) = (named-MovesOn bgd _ w h).onward.precedes
