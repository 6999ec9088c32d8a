-- ===== src/Controller/Reconcile/Pass/Order.antt =====
-- The order of phases over a pass of `reconcile_locked` in operator/src/controller.rs.
use fluidbgoperator.Base.{Bool, true, false, Option, none, some, List, if◌then◌else◌, is_some}
use fluidbgoperator.Base.Text.{Text}
use fluidbgoperator.Store
use fluidbgoperator.Store.{StateStore}
use fluidbgoperator.Strategy.{PromotionAction, continue_observing, promote, rollback, advance_step}
use fluidbgoperator.Strategy.Float64.{Floats}
use fluidbgoperator.Crd.{
  BgdPhase, pending, observing, promoting, draining, completed, rolled_back, invalid,
  BlueGreenDeployment,
}
use fluidbgoperator.Controller.{Result}
use fluidbgoperator.Controller.Steps.{Step, continue, Within, bind-Within, done, ◌>>=◌, ◌>>◌}
use fluidbgoperator.Controller.Status.Writers.Forward.{
  Forward, same-Forward, Forward-trans, set_phase-Forward, update_status_counts-Forward,
  ensure_rollout_generation-Forward, update_status_update_deferred-Forward,
  update_drain_started_at-Forward, update_status_generated_deployment_name-Forward,
  update_status_progress-Forward, with_finalizers-Forward,
}
use fluidbgoperator.Controller.Draining.Forward.{reconcile_draining-Forward}
use fluidbgoperator.Controller.Reconcile.{
  Call, patch_finalizers, get_candidate, name_write, Surroundings, World, with_finalizers, phase_of,
}
use fluidbgoperator.Controller.Reconcile.Pass.{
  prepare, act, load_snapshot, start_force_replace_rollout, reconcile_pending, reconcile_observing,
  reconcile_promoting, reconcile_phase, defer_update, continue_rollout, cleanup_deleted_bgd,
  ensure_generated_candidate_name, call_for, write, read_store, change_store, set_phase,
  start_drain_clock, clean_up, patch, drain_answers, drain,
}
use fluidbgoperator.Controller.Status.{status_of}
use fluidbgoperator.Controller.Status.Writers.{update_status_generated_deployment_name}

module _ (F : Floats) (S : StateStore) (env : Surroundings F) where
  abbrev pub Onward : World F S → World F S → Type 0
  Onward u v = Forward F u.stored v.stored

  pub record Kept {A : Type 0} (m : Step (World F S) A) : Type 0 where
    pub within : Within Onward m

  -- A step after another.
  pub then-Kept :
      {A B : Type 0} (m : Step (World F S) A) (k : A → Step (World F S) B)
      → Kept m
      → ((a : A) → Kept (k a))
      → Kept (λ w. continue (m w) k)
  then-Kept m k first rest = record {
    within =
        bind-Within Onward m k (λ u v w. Forward-trans F u.stored v.stored w.stored) first.within
          (λ a. (rest a).within);
  }

  pub done-Kept : {A : Type 0} (a : A) → Kept (done a)
  done-Kept a = record { within = λ w. same-Forward F w.stored }

  call-Kept : {A : Type 0} (c : Call) (r : Result A) → Kept (call_for F S env c r)
  unfolding call_for
  call-Kept c r = record { within = λ w. same-Forward F w.stored }

  pub write-Kept :
      (f : BlueGreenDeployment F → BlueGreenDeployment F)
      → ((s : BlueGreenDeployment F) → Forward F s (f s))
      → Kept (write F S env f)
  unfolding write
  write-Kept f onward = record { within = λ w. onward w.stored }

  read-Kept : {A : Type 0} (f : S.State → Store.Result A) → Kept (read_store F S env f)
  unfolding read_store
  read-Kept f = record { within = λ w. same-Forward F w.stored }

  change-Kept :
      {A : Type 0} (f : S.State → Store.Result A × S.State) → Kept (change_store F S env f)
  unfolding change_store
  change-Kept f = record { within = λ w. same-Forward F w.stored }

  pub clean_up-Kept : (key : Text) → Kept (clean_up F S env key)
  unfolding clean_up
  clean_up-Kept key = then-Kept _ _ (call-Kept _ _) λ _.
      then-Kept _ _ (call-Kept _ _)
        λ _. then-Kept _ _ (call-Kept _ _) λ _. then-Kept _ _ (change-Kept _) λ _. done-Kept tt

  if-Kept :
      {A : Type 0} (b : Bool) (m k : Step (World F S) A)
      → Kept m
      → Kept k
      → Kept (if b then m else k)
  if-Kept true m k first second = first
  if-Kept false m k first second = second

  set_phase-Kept : (bgd : BlueGreenDeployment F) (p : BgdPhase) → Kept (set_phase F S env bgd p)
  unfolding set_phase
  set_phase-Kept bgd p = write-Kept _ (set_phase-Forward F _ _ bgd p)

  start_drain_clock-Kept : (bgd : BlueGreenDeployment F) → Kept (start_drain_clock F S env bgd)
  unfolding start_drain_clock
  start_drain_clock-Kept bgd = write-Kept _ (update_drain_started_at-Forward F _ _ bgd)

  -- The end of a rollback and of a promotion.
  to_draining-Kept :
      {A : Type 0} (bgd : BlueGreenDeployment F) (k : Step (World F S) A)
      → Kept k
      → Kept (set_phase F S env bgd draining >> (start_drain_clock F S env bgd >> k))
  to_draining-Kept bgd k rest =
      then-Kept _ _ (set_phase-Kept bgd draining)
        λ _. then-Kept _ _ (start_drain_clock-Kept bgd) λ _. rest

  pub patch-Kept :
      (bgd : BlueGreenDeployment F) (finalizers : List Text) → Kept (patch F S env bgd finalizers)
  unfolding patch with_finalizers
  patch-Kept bgd finalizers = go bgd.metadata.name
    where
      go :
          (name : Option Text)
          → Kept (elim name [
            | none ↦ done tt
            | some _ ↦
                (call_for F S env patch_finalizers (env.answer patch_finalizers)
                  >> write F S env (with_finalizers F finalizers))
          ])
      go none = done-Kept tt
      go (some _) =
          then-Kept _ _ (call-Kept _ _) λ _. write-Kept _ (with_finalizers-Forward F finalizers)

  prepare-Kept : (bgd : BlueGreenDeployment F) → Kept (prepare F S env bgd)
  unfolding prepare
  prepare-Kept bgd = then-Kept _ _ (call-Kept _ _) λ b.
      if-Kept b _ _ (then-Kept _ _ (set_phase-Kept bgd completed) λ _. done-Kept _) (
        then-Kept _ _ (call-Kept _ _) λ _. then-Kept _ _ (call-Kept _ _) λ _.
          then-Kept _ _ (call-Kept _ _) λ _.
            then-Kept _ _ (call-Kept _ _)
              λ _. then-Kept _ _ (set_phase-Kept bgd observing) λ _. done-Kept _)

  name-Kept :
      (bgd : BlueGreenDeployment F) (name : Option Text)
      → Kept {A = Option Text} (elim name [
        | some existing ↦ done (some existing)
        | none ↦
            (call_for F S env get_candidate env.free_name >>= λ name.
            write F S env
              (update_status_generated_deployment_name F (env.replies name_write) name bgd)
            >> done none)
      ])
  name-Kept bgd (some _) = done-Kept _
  name-Kept bgd none = then-Kept _ _ (call-Kept _ _) λ name.
      then-Kept _ _ (write-Kept _ (update_status_generated_deployment_name-Forward F _ name bgd))
        λ _. done-Kept _

  reconcile_pending-Kept : (bgd : BlueGreenDeployment F) → Kept (reconcile_pending F S env bgd)
  unfolding reconcile_pending ensure_generated_candidate_name
  reconcile_pending-Kept bgd =
      then-Kept _ _ (write-Kept _ (ensure_rollout_generation-Forward F _ bgd)) λ _.
        then-Kept _ _ (call-Kept _ _) λ _.
          then-Kept _ _ (name-Kept bgd (status_of F bgd).generated_deployment_name)
            λ name. if-Kept (is_some name) _ _ (prepare-Kept bgd) (done-Kept _)

  act-Kept : (bgd : BlueGreenDeployment F) (a : PromotionAction) → Kept (act F S env bgd a)
  unfolding act
  act-Kept bgd continue_observing = done-Kept tt
  act-Kept bgd promote = set_phase-Kept bgd promoting
  act-Kept bgd rollback =
      then-Kept _ _ (call-Kept _ _)
        λ _. then-Kept _ _ (set_phase-Kept bgd draining) λ _. start_drain_clock-Kept bgd
  act-Kept bgd (advance_step step percent) =
      then-Kept _ _ (call-Kept _ _)
        λ _. write-Kept _ (update_status_progress-Forward F _ step percent bgd)

  result-Kept : {A : Type 0} (r : Result A) → Kept (λ w. (r, w))
  result-Kept r = record { within = λ w. same-Forward F w.stored }

  reconcile_observing-Kept :
      (bgd : BlueGreenDeployment F) (key : Text) → Kept (reconcile_observing F S env bgd key)
  unfolding reconcile_observing
  reconcile_observing-Kept bgd key = then-Kept _ _ (result-Kept _) λ _.
      then-Kept _ _ (read-Kept _) λ counts. then-Kept _ _ (read-Kept _) λ data_counts.
        then-Kept _ _ (read-Kept _) λ custom_counts. then-Kept _ _ (read-Kept _) λ message.
          then-Kept _ _ (write-Kept _ (update_status_counts-Forward F _ counts _ message bgd)) λ _.
            then-Kept _ _ (result-Kept _)
              λ action. then-Kept _ _ (act-Kept bgd action) λ _. done-Kept _

  reconcile_promoting-Kept : (bgd : BlueGreenDeployment F) → Kept (reconcile_promoting F S env bgd)
  unfolding reconcile_promoting
  reconcile_promoting-Kept bgd =
      then-Kept _ _ (call-Kept _ _)
        λ _. then-Kept _ _ (call-Kept _ _) λ _. to_draining-Kept bgd _ (done-Kept _)

  drain-Kept : (bgd : BlueGreenDeployment F) (key : Text) → Kept (drain F S env bgd key)
  unfolding drain
  drain-Kept bgd key =
      then-Kept _ _
        (record {
          within = λ w.
              reconcile_draining-Forward F env.now (drain_answers F S env key w.records) bgd
                w.stored;
        })
        λ _. done-Kept _

  reconcile_phase-Kept :
      (bgd : BlueGreenDeployment F) (key : Text) (phase : BgdPhase)
      → Kept (reconcile_phase F S env bgd key phase)
  unfolding reconcile_phase
  reconcile_phase-Kept bgd key pending = reconcile_pending-Kept bgd
  reconcile_phase-Kept bgd key observing = reconcile_observing-Kept bgd key
  reconcile_phase-Kept bgd key promoting = reconcile_promoting-Kept bgd
  reconcile_phase-Kept bgd key draining = drain-Kept bgd key
  reconcile_phase-Kept bgd key completed = then-Kept _ _ (clean_up-Kept key) λ _. done-Kept _
  reconcile_phase-Kept bgd key rolled_back = then-Kept _ _ (clean_up-Kept key) λ _. done-Kept _
  reconcile_phase-Kept bgd key invalid = then-Kept _ _ (clean_up-Kept key) λ _. done-Kept _

  load_snapshot-Kept : (bgd : BlueGreenDeployment F) → Kept (load_snapshot F S env bgd)
  unfolding load_snapshot
  load_snapshot-Kept bgd = then-Kept _ _ (call-Kept _ _) λ spec. done-Kept _

  defer_update-Kept : (bgd : BlueGreenDeployment F) → Kept (defer_update F S env bgd)
  unfolding defer_update
  defer_update-Kept bgd =
      then-Kept _ _
        (if-Kept _ _ _ (done-Kept _)
          (write-Kept _ (update_status_update_deferred-Forward F _ _ env.deferred_message bgd)))
        λ _. load_snapshot-Kept bgd

  force_replace-Kept :
      (bgd : BlueGreenDeployment F) → Kept (start_force_replace_rollout F S env bgd)
  unfolding start_force_replace_rollout
  force_replace-Kept bgd = then-Kept _ _ (call-Kept _ _) λ b.
      then-Kept _ _ (call-Kept _ _)
        λ _. then-Kept _ _ (set_phase-Kept b draining) λ _. start_drain_clock-Kept b

  pub continue_rollout-Kept :
      (bgd : BlueGreenDeployment F) (key : Text) → Kept (continue_rollout F S env bgd key)
  unfolding continue_rollout
  continue_rollout-Kept bgd key =
      let phase = phase_of F bgd in
      if-Kept _ _ _
        (if-Kept _ _ _ (then-Kept _ _ (force_replace-Kept bgd) λ _. done-Kept _)
          (then-Kept _ _ (defer_update-Kept bgd) λ b. reconcile_phase-Kept b key phase))
        (reconcile_phase-Kept bgd key phase)

  pub deletion-Kept :
      (bgd : BlueGreenDeployment F) (key : Text) → Kept (cleanup_deleted_bgd F S env bgd key)
  unfolding cleanup_deleted_bgd
  deletion-Kept bgd key = then-Kept _ _ (clean_up-Kept key) λ _. patch-Kept bgd _
