-- ===== src/Controller/Reconcile/Pass.antt =====
-- The steps of a pass: the branches of `reconcile_locked` in operator/src/controller.rs.
pub mod Order
pub mod Restart
mod Examples
use fluidbgoperator.Base.{
  not, Option, none, some, List, [], ◌∷◌, ◌++◌, if◌then◌else◌, is_some, unwrap_or,
}
use fluidbgoperator.Base.Lists.{keep}
use fluidbgoperator.Base.Text.{Text, codes, text_eq}
use fluidbgoperator.Store
use fluidbgoperator.Store.{StateStore, Counts, data_mode, custom_mode}
use fluidbgoperator.Strategy.{
  PromotionAction, continue_observing, promote, rollback, advance_step, actual_rate,
}
use fluidbgoperator.Strategy.Float64.{Floats}
use fluidbgoperator.Crd.{
  BgdPhase, pending, observing, promoting, draining, completed, rolled_back, invalid,
  BlueGreenDeployment,
}
use fluidbgoperator.Controller.{Result, ok, err, ReconcileError, resource}
use fluidbgoperator.Controller.Steps.{Step, done, fail, ◌>>=◌, ◌>>◌}
use fluidbgoperator.Controller.Promotion.{decide_promotion_action, validate_test_configuration}
use fluidbgoperator.Controller.Status.{status_of, update_status_phase}
use fluidbgoperator.Controller.Status.Writers.{
  ensure_rollout_generation, reset_status_for_new_rollout, update_status_update_deferred,
  update_drain_started_at, update_status_generated_deployment_name, update_status_counts,
  update_status_progress,
}
use fluidbgoperator.Controller.Draining.{Answers, of_store, force_replaces, reconcile_draining}
use fluidbgoperator.Controller.Reconcile.{
  Action, await_change, requeue, Call, cleanup_inception_resources, cleanup_test_resources,
  delete_rollout_spec_snapshot, patch_finalizers, ensure_rollout_spec_snapshot,
  load_rollout_spec_snapshot, get_candidate, bootstrap_initial_green_if_empty,
  resolve_current_green, validate_progressive_shifting_support, ensure_inception_resources,
  initialize_splitter_traffic, promote_candidate, begin_draining_after_promotion,
  begin_draining_after_rollback, drain_inception_points, apply_splitter_traffic_percent,
  reset_write, deferred_write, generation_write, name_write, phase_write, counts_write,
  drain_start_write, drains_write, progress_write, bgd_finalizer, Surroundings, World,
  has_finalizer, phase_of, rollout_needs_restart, active_rollout_has_new_spec_generation,
  should_start_force_replace_rollout, frozen, with_finalizers,
}
use fluidbgoperator.HttpApi.{blue_green_state_key}

pub missing_namespace : (F : Floats) → BlueGreenDeployment F → ReconcileError
missing_namespace F bgd = resource (
    codes "BlueGreenDeployment '"
    ++ (unwrap_or bgd.metadata.name (codes "unknown") ++ codes "' is missing metadata.namespace"))

pub state_key : (F : Floats) → BlueGreenDeployment F → Text → Text
state_key F bgd namespace =
    blue_green_state_key namespace (unwrap_or bgd.metadata.name (codes "unknown"))

module _ (F : Floats) (S : StateStore) (env : Surroundings F) where
  pub call_for : {A : Type 0} → Call → Result A → Step (World F S) A
  call_for c answer = λ w. (answer, record w { calls = c ∷ w.calls })

  abbrev pub call : Call → Step (World F S) (Unit {0})
  call c = call_for c (env.answer c)

  pub write : (BlueGreenDeployment F → BlueGreenDeployment F) → Step (World F S) (Unit {0})
  write f = λ w. (ok tt, record w { stored = f w.stored })

  pub read_store : {A : Type 0} → (S.State → Store.Result A) → Step (World F S) A
  read_store f = λ w. (of_store (f w.records), w)

  pub change_store : {A : Type 0} → (S.State → Store.Result A × S.State) → Step (World F S) A
  change_store f = λ w. let (r, s) = f w.records in (of_store r, record w { records = s })

  pub set_phase : BlueGreenDeployment F → BgdPhase → Step (World F S) (Unit {0})
  unfolding write
  set_phase bgd phase = write (update_status_phase F env.now (env.replies phase_write) bgd phase)

  pub start_drain_clock : BlueGreenDeployment F → Step (World F S) (Unit {0})
  unfolding write
  start_drain_clock bgd =
      write (update_drain_started_at F env.now (env.replies drain_start_write) bgd)

  -- The clean-up that a restart, a deletion and a terminal phase share.
  pub clean_up : Text → Step (World F S) (Unit {0})
  unfolding call_for change_store
  clean_up key = do
    call cleanup_inception_resources
    call cleanup_test_resources
    call delete_rollout_spec_snapshot
    removed ← change_store (S.cleanup_blue_green key)
    done tt

  pub patch : BlueGreenDeployment F → List Text → Step (World F S) (Unit {0})
  unfolding call_for write with_finalizers
  patch bgd finalizers = elim bgd.metadata.name [
    | none ↦ done tt
    | some _ ↦ do call patch_finalizers; write (with_finalizers F finalizers)
  ]

  pub cleanup_deleted_bgd : BlueGreenDeployment F → Text → Step (World F S) (Unit {0})
  unfolding clean_up patch
  cleanup_deleted_bgd bgd key = do
    clean_up key
    patch bgd (keep (λ f. not (text_eq f bgd_finalizer)) bgd.metadata.finalizers)

  pub restart : BlueGreenDeployment F → Text → Step (World F S) Action
  unfolding clean_up write
  restart bgd key = do
    clean_up key
    write (reset_status_for_new_rollout F env.now (env.replies reset_write) bgd)
    done (requeue 1)

  pub load_snapshot : BlueGreenDeployment F → Step (World F S) (BlueGreenDeployment F)
  unfolding call_for frozen
  load_snapshot bgd = do
    spec ← call_for load_rollout_spec_snapshot env.snapshot
    done (frozen F bgd spec)

  -- The snapshot, or the deployment itself where it cannot be loaded.
  pub snapshot_or_latest : BlueGreenDeployment F → Result (BlueGreenDeployment F)
  unfolding frozen
  snapshot_or_latest bgd = elim env.snapshot [ ok spec ↦ ok (frozen F bgd spec) | err e ↦ ok bgd ]

  pub start_force_replace_rollout : BlueGreenDeployment F → Step (World F S) (Unit {0})
  unfolding call_for snapshot_or_latest set_phase start_drain_clock
  start_force_replace_rollout bgd = do
    rollout_bgd ← call_for load_rollout_spec_snapshot (snapshot_or_latest bgd)
    call begin_draining_after_rollback
    set_phase rollout_bgd draining
    start_drain_clock rollout_bgd

  -- `none` where the name was only now chosen.
  pub ensure_generated_candidate_name : BlueGreenDeployment F → Step (World F S) (Option Text)
  unfolding call_for write
  ensure_generated_candidate_name bgd = elim (status_of F bgd).generated_deployment_name [
    | some existing ↦ done (some existing)
    | none ↦ do
      name ← call_for get_candidate env.free_name
      write (update_status_generated_deployment_name F (env.replies name_write) name bgd)
      done none
  ]

  pub prepare : BlueGreenDeployment F → Step (World F S) Action
  unfolding call_for set_phase
  prepare bgd = do
    bootstrapped ← call_for bootstrap_initial_green_if_empty env.bootstrapped
    if bootstrapped then (set_phase bgd completed >> done (requeue 300)) else do
      call resolve_current_green
      call validate_progressive_shifting_support
      call ensure_inception_resources
      call initialize_splitter_traffic
      set_phase bgd observing
      done (requeue 5)

  pub reconcile_pending : BlueGreenDeployment F → Step (World F S) Action
  unfolding call_for write ensure_generated_candidate_name prepare
  reconcile_pending bgd = do
    write (ensure_rollout_generation F (env.replies generation_write) bgd)
    call ensure_rollout_spec_snapshot
    generated_name ← ensure_generated_candidate_name bgd
    if is_some generated_name then prepare bgd else done (requeue 1)

  -- The `match` on the promotion action.
  pub act : BlueGreenDeployment F → PromotionAction → Step (World F S) (Unit {0})
  unfolding call_for write set_phase start_drain_clock
  act bgd continue_observing = done tt
  act bgd promote = set_phase bgd promoting
  act bgd rollback = do
    call begin_draining_after_rollback
    set_phase bgd draining
    start_drain_clock bgd
  act bgd (advance_step step traffic_percent) = do
    call (apply_splitter_traffic_percent traffic_percent)
    write (update_status_progress F (env.replies progress_write) step traffic_percent bgd)

  abbrev from_result : {A : Type 0} → Result A → Step (World F S) A
  from_result r = λ w. (r, w)

  pub reconcile_observing : BlueGreenDeployment F → Text → Step (World F S) Action
  unfolding act read_store write
  reconcile_observing bgd key = do
    from_result (validate_test_configuration F bgd)
    counts ← read_store (S.counts key)
    data_counts ← read_store (S.counts_for_mode key data_mode)
    custom_counts ← read_store (S.counts_for_mode key custom_mode)
    message ← read_store (S.latest_failure_message key)
    write (
        update_status_counts F (env.replies counts_write) counts (actual_rate F counts) message bgd)
    action ←
        from_result
          (decide_promotion_action F bgd data_counts custom_counts (status_of F bgd).current_step)
    act bgd action
    done (requeue 5)

  pub reconcile_promoting : BlueGreenDeployment F → Step (World F S) Action
  unfolding call_for set_phase start_drain_clock
  reconcile_promoting bgd = do
    call promote_candidate
    call begin_draining_after_promotion
    set_phase bgd draining
    start_drain_clock bgd
    done (requeue 5)

  pub drain_answers : Text → S.State → Answers
  drain_answers key s = record {
    ask = env.ask;
    counts = S.counts key s;
    latest_failure_message = S.latest_failure_message key s;
    cleanup = env.answer drain_inception_points;
    statuses_reply = env.replies drains_write;
    counts_reply = env.replies counts_write;
    phase_reply = env.replies phase_write;
  }

  pub drain : BlueGreenDeployment F → Text → Step (World F S) Action
  unfolding drain_answers
  drain bgd key =
      (λ (w : World F S).
        let r = reconcile_draining F env.now (drain_answers key w.records) bgd w.stored in
        (r.0, record w { stored = r.1; calls = drain_inception_points ∷ w.calls }))
      >> done (requeue 5)

  pub reconcile_phase : BlueGreenDeployment F → Text → BgdPhase → Step (World F S) Action
  unfolding reconcile_pending reconcile_observing reconcile_promoting drain clean_up
  reconcile_phase bgd key pending = reconcile_pending bgd
  reconcile_phase bgd key observing = reconcile_observing bgd key
  reconcile_phase bgd key promoting = reconcile_promoting bgd
  reconcile_phase bgd key draining = drain bgd key
  reconcile_phase bgd key completed = clean_up key >> done (requeue 300)
  reconcile_phase bgd key rolled_back = clean_up key >> done (requeue 300)
  reconcile_phase bgd key invalid = clean_up key >> done (requeue 300)

  -- The rollout of an older generation that goes on by its snapshot.
  pub defer_update : BlueGreenDeployment F → Step (World F S) (BlueGreenDeployment F)
  unfolding write load_snapshot
  defer_update bgd =
      (if force_replaces F bgd
        then done tt
        else write (
            update_status_update_deferred F env.now (env.replies deferred_write)
              env.deferred_message bgd))
      >> load_snapshot bgd

  pub continue_rollout : BlueGreenDeployment F → Text → Step (World F S) Action
  unfolding start_force_replace_rollout defer_update reconcile_phase
      active_rollout_has_new_spec_generation should_start_force_replace_rollout
  continue_rollout bgd key =
      let phase = phase_of F bgd in
      if active_rollout_has_new_spec_generation F bgd phase
      then (if should_start_force_replace_rollout F bgd phase
          then (start_force_replace_rollout bgd >> done (requeue 1))
          else (defer_update bgd >>= λ b. reconcile_phase b key phase))
      else reconcile_phase bgd key phase

  pub reconcile_named : BlueGreenDeployment F → Text → Step (World F S) Action
  unfolding cleanup_deleted_bgd patch restart continue_rollout has_finalizer rollout_needs_restart
  reconcile_named bgd key =
      if is_some bgd.metadata.deletion_timestamp
      then (cleanup_deleted_bgd bgd key >> done await_change)
      else (if not (has_finalizer F bgd)
          then (patch bgd (bgd_finalizer ∷ []) >> done (requeue 1))
          else (if rollout_needs_restart F bgd (phase_of F bgd)
              then restart bgd key
              else continue_rollout bgd key))

  pub reconcile_locked : BlueGreenDeployment F → Step (World F S) Action
  unfolding reconcile_named missing_namespace state_key
  reconcile_locked bgd = elim bgd.metadata.namespace [
    | none ↦ fail (missing_namespace F bgd)
    | some namespace ↦ reconcile_named bgd (state_key F bgd namespace)
  ]
