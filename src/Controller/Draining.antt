-- ===== src/Controller/Draining.antt =====
-- The drain of a rollout: operator/src/controller/phases/draining.rs. What the plugins answer, what the
-- store answers and whether the clean-up calls succeed are arguments; `stored` is the deployment on the
-- API server. A start of the drain that is no date, which the operator never writes, is not modelled.
pub mod Outcome
pub mod Promoted
pub mod Forward
mod Examples
use fluidbgoperator.Base.{
  ℕ, zero, suc, ◌+◌, ◌-◌, ◌/◌, ◌%◌, Bool, true, false, not, ◌&&◌, ◌||◌, Option, none, some, List,
  [], ◌∷◌, ◌++◌, if◌then◌else◌, ltb, unwrap_or,
}
use fluidbgoperator.Base.Lists.{any}
use fluidbgoperator.Base.Text.{decimal, Text, codes, text_eq}
use fluidbgoperator.Base.Int.{ℤ, pos, negsuc, ◌-ℤ◌, ltb_ℤ}
use fluidbgoperator.Store
use fluidbgoperator.Store.{Counts, error_text}
use fluidbgoperator.Strategy.{actual_rate}
use fluidbgoperator.Strategy.Float64.{Floats}
use fluidbgoperator.Crd.{
  ActiveRolloutUpdatePolicy, defer, force_replace, BgdPhase, completed, rolled_back,
  InceptionPointDrainPhase, drain_pending, successful, timed_out_maybe_successful,
  InceptionPointDrainStatus, InceptionPoint, BlueGreenDeployment,
}
use fluidbgoperator.Controller.{Result, ok, err, state_store, ◌>>=◌}
use fluidbgoperator.Controller.Status.{
  Reply, status_of, rollout_generation, generation, update_status_phase,
}
use fluidbgoperator.Controller.Status.Writers.{
  update_inception_point_drain_statuses, update_status_counts,
}

-- `PluginDrainStatusResponse`.
pub record PluginDrainStatus : Type 0 where
  pub drained : Bool
  pub message : Option Text

-- The `Display` of `i64`.
pub display : ℤ → Text
display (pos n) = decimal n
display (negsuc n) = b'-' ∷ decimal (suc n)

-- `num_seconds().max(0)` of a duration in nanoseconds.
pub whole_seconds : ℤ → ℤ
whole_seconds (pos n) = pos (n / 1000000000)
whole_seconds (negsuc n) = pos 0

pub is_final : InceptionPointDrainPhase → Bool
is_final drain_pending = false
is_final successful = true
is_final timed_out_maybe_successful = true

pub find_final : Text → List InceptionPointDrainStatus → Option InceptionPointDrainStatus
unfolding is_final
find_final name [] = none
find_final name (s ∷ rest) =
    if text_eq s.name name && is_final s.phase then some s else find_final name rest

-- The status that a plugin's answer makes, with the clock.
pub answered : ℤ → Text → Option PluginDrainStatus → InceptionPointDrainStatus
answered now name none = record {
  name = name;
  phase = successful;
  message = some (codes "plugin does not expose drainStatusPath");
  completed_at = some now;
}
answered now name (some a) =
    if a.drained
    then record { name = name; phase = successful; message = a.message; completed_at = some now }
    else record { name = name; phase = drain_pending; message = a.message; completed_at = none }

-- The seconds that an inception point may take to drain.
abbrev pub max_wait : InceptionPoint → ℤ
max_wait ip = elim ip.drain [
  | none ↦ pos 60
  | some drain ↦ unwrap_or drain.max_wait_seconds (pos 60)
]

pub timed_out_status : ℤ → InceptionPoint → InceptionPointDrainStatus
unfolding display
timed_out_status now ip = record {
  name = ip.name;
  phase = timed_out_maybe_successful;
  message = some (
      codes "max drain wait of "
      ++ (display (max_wait ip) ++ codes "s elapsed before plugin confirmed completion"));
  completed_at = some now;
}

-- One round of the loop. `ask` is the plugin's answer for an inception point.
pub drain_point :
    ℤ
    → ℤ
    → List InceptionPointDrainStatus
    → (InceptionPoint → Result (Option PluginDrainStatus))
    → InceptionPoint
    → Result InceptionPointDrainStatus
unfolding find_final timed_out_status answered
drain_point now elapsed previous ask ip = elim (find_final ip.name previous) [
  | some existing ↦ ok existing
  | none ↦
      if not (ltb_ℤ elapsed (max_wait ip))
      then ok (timed_out_status now ip)
      else (ask ip >>= λ a. ok (answered now ip.name a))
]

pub drain_points :
    ℤ
    → ℤ
    → List InceptionPointDrainStatus
    → (InceptionPoint → Result (Option PluginDrainStatus))
    → List InceptionPoint
    → Result (List InceptionPointDrainStatus)
unfolding drain_point
drain_points now elapsed previous ask [] = ok []
drain_points now elapsed previous ask (ip ∷ ips) =
    drain_point now elapsed previous ask ip >>= λ status.
    drain_points now elapsed previous ask ips >>= λ rest. ok (status ∷ rest)

-- `all_final` is false exactly when a status is pending, so the test is the second one alone.
pub is_pending : InceptionPointDrainStatus → Bool
unfolding is_final
is_pending s = not (is_final s.phase)

pub of_store : {A : Type 0} → Store.Result A → Result A
of_store (Store.Result.ok a) = ok a
of_store (Store.Result.err e) = err (state_store (error_text e))

-- What the calls of one drain round answer.
pub record Answers : Type 0 where
  pub ask : InceptionPoint → Result (Option PluginDrainStatus)
  pub counts : Store.Result Counts
  pub latest_failure_message : Store.Result (Option Text)
  pub cleanup : Result (Unit {0})
  pub statuses_reply : Reply
  pub counts_reply : Reply
  pub phase_reply : Reply

module _ (F : Floats) where
  pub force_replaces : BlueGreenDeployment F → Bool
  force_replaces bgd = elim bgd.spec.update_policy [
    | none ↦ false
    | some policy ↦ elim policy.active_rollout [
      | none ↦ false
      | some defer ↦ false
      | some force_replace ↦ true
    ]
  ]

  pub force_replace_interrupted_rollout : BlueGreenDeployment F → Bool
  unfolding force_replaces
  force_replace_interrupted_rollout bgd =
      let rollout = unwrap_or (rollout_generation F bgd) (pos 0) in
      force_replaces bgd && (ltb_ℤ (pos 0) rollout && ltb_ℤ rollout (generation F bgd))

  pub final_phase : BlueGreenDeployment F → Counts → BgdPhase
  unfolding force_replace_interrupted_rollout
  final_phase bgd c =
      if force_replace_interrupted_rollout bgd || (ltb 0 c.failed || ltb 0 c.timed_out)
      then rolled_back
      else completed

  pub elapsed_seconds : ℤ → BlueGreenDeployment F → ℤ
  unfolding whole_seconds
  elapsed_seconds now bgd = whole_seconds (now -ℤ unwrap_or (status_of F bgd).drain_started_at now)

  -- The end of a round, when no inception point is pending.
  pub settle :
      ℤ
      → Answers
      → BlueGreenDeployment F
      → Counts
      → Option Text
      → BlueGreenDeployment F
      → Result (Unit {0}) × BlueGreenDeployment F
  unfolding final_phase
  settle now answers bgd c message stored =
      let counted =
        update_status_counts F answers.counts_reply c (actual_rate F c) message bgd stored in
      if ltb 0 c.pending then (ok tt, counted) else elim answers.cleanup [
        | err e ↦ (err e, counted)
        | ok _ ↦
            (ok tt, update_status_phase F now answers.phase_reply bgd (final_phase bgd c) counted)
      ]

  pub with_statuses :
      ℤ
      → Answers
      → BlueGreenDeployment F
      → List InceptionPointDrainStatus
      → BlueGreenDeployment F
      → Result (Unit {0}) × BlueGreenDeployment F
  unfolding settle is_pending of_store
  with_statuses now answers bgd statuses stored =
      let updated =
        update_inception_point_drain_statuses F answers.statuses_reply statuses bgd stored in
      if any is_pending statuses then (ok tt, updated) else elim (of_store answers.counts) [
        | err e ↦ (err e, updated)
        | ok c ↦ elim (of_store answers.latest_failure_message) [
          | err e ↦ (err e, updated)
          | ok message ↦ settle now answers bgd c message updated
        ]
      ]

  pub reconcile_draining :
      ℤ
      → Answers
      → BlueGreenDeployment F
      → BlueGreenDeployment F
      → Result (Unit {0}) × BlueGreenDeployment F
  unfolding drain_points elapsed_seconds with_statuses
  reconcile_draining now answers bgd stored =
      elim (drain_points now (elapsed_seconds now bgd) (status_of F bgd).inception_point_drains
        answers.ask bgd.spec.inception_points) [
          | err e ↦ (err e, stored)
          | ok statuses ↦ with_statuses now answers bgd statuses stored
        ]
