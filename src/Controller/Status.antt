-- ===== src/Controller/Status.antt =====
-- operator/src/controller/status.rs: the writers of a deployment's status. `stored` is the object on
-- the API server. A writer reads it and replaces it, or patches it; a replacement is accepted only
-- if nobody wrote in between, so an accepted one acts on the stored object, and a refused or
-- conflicting one changes nothing. `now` is the clock.
pub mod Transitions
pub mod Conditions
pub mod Writers
use fluidbgoperator.Base.{
  ℕ, ◌+◌, ◌≡◌, refl, Bool, true, false, not, ◌&&◌, Option, none, some, List, [], ◌∷◌, ◌++◌,
  if◌then◌else◌, ltb, leb, unwrap_or,
}
use fluidbgoperator.Base.Lists.{keep}
use fluidbgoperator.Base.Text.{Text, codes, text_eq}
use fluidbgoperator.Base.Int.{ℤ, pos, ltb_ℤ}
use fluidbgoperator.Store.{Counts}
use fluidbgoperator.Strategy.{finalized}
use fluidbgoperator.Strategy.Float64.{Floats}
use fluidbgoperator.Crd.{
  BgdPhase, pending, observing, promoting, draining, completed, rolled_back, invalid,
  ConditionStatus, is_true, is_false, BlueGreenDeploymentCondition, InceptionPointDrainStatus,
  BlueGreenDeployment, BlueGreenDeploymentStatus,
}

-- What the API server answers to one writer.
pub record Reply : Type 0 where
  pub read_ok : Bool
  pub write_ok : Bool

pub phase_rank : BgdPhase → ℕ
phase_rank pending = 0
phase_rank observing = 1
phase_rank promoting = 2
phase_rank draining = 3
phase_rank completed = 4
phase_rank rolled_back = 4
phase_rank invalid = 4

abbrev pub phase_is_terminal : BgdPhase → Bool
phase_is_terminal completed = true
phase_is_terminal rolled_back = true
phase_is_terminal invalid = true
phase_is_terminal _ = false

-- The derived `==` of `BgdPhase`.
abbrev pub phase_eq : BgdPhase → BgdPhase → Bool
phase_eq pending pending = true
phase_eq observing observing = true
phase_eq promoting promoting = true
phase_eq draining draining = true
phase_eq completed completed = true
phase_eq rolled_back rolled_back = true
phase_eq invalid invalid = true
phase_eq _ _ = false

pub phase_transition_is_current : Option BgdPhase → ℤ → BgdPhase → ℤ → Bool
unfolding phase_rank
phase_transition_is_current latest_phase latest_generation requested_phase requested_generation =
    if ltb_ℤ requested_generation latest_generation
    then false
    else (if ltb_ℤ latest_generation requested_generation then true else elim latest_phase [
      | none ↦ true
      | some latest ↦
          if phase_eq latest requested_phase
          then true
          else (if phase_is_terminal latest
              then false
              else leb (phase_rank latest) (phase_rank requested_phase))
    ])

pub condition : Text → ConditionStatus → Text → Text → ℤ → ℤ → BlueGreenDeploymentCondition
condition condition_type status reason message observed_generation last_transition_time = record {
  condition_type = condition_type;
  status = status;
  reason = reason;
  message = message;
  observed_generation = observed_generation;
  last_transition_time = last_transition_time;
}

pub record PhaseConditions : Type 0 where
  pub ready : ConditionStatus
  pub progressing : ConditionStatus
  pub degraded : ConditionStatus
  pub reason : Text
  pub message : Text

-- The `match` of `conditions_for_phase`.
pub phase_conditions : BgdPhase → PhaseConditions
phase_conditions pending = record {
  ready = is_false;
  progressing = is_true;
  degraded = is_false;
  reason = codes "Pending";
  message = codes "Rollout is queued or initializing.";
}
phase_conditions observing = record {
  ready = is_false;
  progressing = is_true;
  degraded = is_false;
  reason = codes "Observing";
  message = codes "Rollout is collecting test evidence.";
}
phase_conditions promoting = record {
  ready = is_false;
  progressing = is_true;
  degraded = is_false;
  reason = codes "Promoting";
  message = codes "Rollout met promotion criteria and is switching traffic.";
}
phase_conditions draining = record {
  ready = is_false;
  progressing = is_true;
  degraded = is_false;
  reason = codes "Draining";
  message = codes "Rollout is draining temporary resources before completion.";
}
phase_conditions completed = record {
  ready = is_true;
  progressing = is_false;
  degraded = is_false;
  reason = codes "Completed";
  message = codes "Rollout completed successfully.";
}
phase_conditions rolled_back = record {
  ready = is_false;
  progressing = is_false;
  degraded = is_true;
  reason = codes "RolledBack";
  message = codes "Rollout failed promotion criteria or timed out and was rolled back.";
}
phase_conditions invalid = record {
  ready = is_false;
  progressing = is_false;
  degraded = is_true;
  reason = codes "InvalidSpec";
  message = codes "Rollout specification is invalid.";
}

pub is_completed : BgdPhase → Bool
is_completed completed = true
is_completed _ = false

pub conditions_for_phase : ℤ → BgdPhase → ℤ → List BlueGreenDeploymentCondition
unfolding condition phase_conditions is_completed
conditions_for_phase now phase observed_generation =
    let c = phase_conditions phase in
    let of = λ (t : Text) (s : ConditionStatus).
      condition t s c.reason c.message observed_generation now in
    of (codes "Ready") c.ready
    ∷ of (codes "Progressing") c.progressing
    ∷ of (codes "Degraded") c.degraded
    ∷ (if is_completed phase then of (codes "ReconcileFailed") is_false ∷ [] else [])

-- `retain` of the conditions of other types, then `push`.
pub set_condition :
    BlueGreenDeploymentCondition
    → List BlueGreenDeploymentCondition
    → List BlueGreenDeploymentCondition
set_condition c cs = keep (λ d. not (text_eq d.condition_type c.condition_type)) cs ++ (c ∷ [])

module _ (F : Floats) where
  -- `unwrap_or_default` of the status.
  pub default_status : BlueGreenDeploymentStatus F
  default_status = record {
    phase = none;
    generated_deployment_name = none;
    observed_generation = none;
    rollout_generation = none;
    test_cases_observed = none;
    test_cases_passed = none;
    test_cases_failed = none;
    test_cases_pending = none;
    test_cases_timed_out = none;
    current_success_rate = none;
    last_failure_message = none;
    current_traffic_percent = none;
    current_step = none;
    drain_started_at = none;
    inception_point_drains = [];
    conditions = [];
  }

  abbrev pub status_of : BlueGreenDeployment F → BlueGreenDeploymentStatus F
  status_of bgd = unwrap_or bgd.status default_status

  pub latest_phase : BlueGreenDeployment F → Option BgdPhase
  unfolding default_status
  latest_phase bgd = (status_of bgd).phase

  pub observed_generation : BlueGreenDeployment F → ℤ
  unfolding default_status
  observed_generation bgd = unwrap_or (status_of bgd).observed_generation (pos 0)

  pub rollout_generation : BlueGreenDeployment F → Option ℤ
  unfolding default_status
  rollout_generation bgd = (status_of bgd).rollout_generation

  pub generation : BlueGreenDeployment F → ℤ
  generation bgd = unwrap_or bgd.metadata.generation (pos 0)

  pub current_rollout_generation : BlueGreenDeployment F → ℤ
  unfolding rollout_generation generation
  current_rollout_generation bgd = unwrap_or (rollout_generation bgd) (generation bgd)

  pub phase_update_is_current : BlueGreenDeployment F → BgdPhase → ℤ → Bool
  unfolding latest_phase observed_generation phase_transition_is_current
  phase_update_is_current latest requested_phase requested_generation =
      phase_transition_is_current (latest_phase latest) (observed_generation latest) requested_phase
        requested_generation

  -- A write that stands behind `let Some(name)` and the server's acceptance.
  abbrev pub if_named :
      BlueGreenDeployment F
      → Bool
      → BlueGreenDeployment F
      → BlueGreenDeployment F
      → BlueGreenDeployment F
  if_named bgd accepted written stored = elim bgd.metadata.name [
    | none ↦ stored
    | some _ ↦ if accepted then written else stored
  ]

  pub if_named-cases {ℓ} :
      (P : BlueGreenDeployment F → Type ℓ) (bgd : BlueGreenDeployment F) (accepted : Bool)
      (written stored : BlueGreenDeployment F)
      → P stored
      → (accepted ≡ true → P written)
      → P (if_named bgd accepted written stored)
  if_named-cases P bgd accepted written stored same new = go bgd.metadata.name accepted new
    where
      go :
          (name : Option Text) (a : Bool)
          → (a ≡ true → P written)
          → P (elim name [ none ↦ stored | some _ ↦ if a then written else stored ])
      go none a n = same
      go (some _) true n = n refl
      go (some _) false n = same

  pub update_status_phase :
      ℤ → Reply → BlueGreenDeployment F → BgdPhase → BlueGreenDeployment F → BlueGreenDeployment F
  unfolding default_status current_rollout_generation phase_update_is_current conditions_for_phase
  update_status_phase now reply bgd phase stored =
      let gen = current_rollout_generation bgd in
      if_named bgd (reply.read_ok && (phase_update_is_current stored phase gen && reply.write_ok))
        (record stored {
          status = some (record (status_of stored) {
            phase = some phase;
            observed_generation = some gen;
            conditions = conditions_for_phase now phase gen;
          });
        })
        stored
