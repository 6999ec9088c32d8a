-- ===== src/Strategy/Progressive/Examples.antt =====
-- The properties of the progressive strategy at a rollout of two steps.
use fluidbgoperator.Base.{◌≤◌, ◌<◌, ◌≡◌, refl, true, some, [], ◌∷◌, arith}
use fluidbgoperator.Base.Int.{pos}
use fluidbgoperator.Base.Lists.{get_elem?}
use fluidbgoperator.Store.{Counts}
use fluidbgoperator.Strategy.{
  promote, continue_observing, advance_step, actual_rate, ratio, Resolves, ProgressiveStep, as_i32,
}
use fluidbgoperator.Strategy.FixedPoint.{fixed_point}
use fluidbgoperator.Strategy.Progressive.{
  ProgressiveStrategy, best_possible_rate, decide, decide_step, after_sample, next_action,
}
use fluidbgoperator.Strategy.Progressive.Rollout.{IsMet, decide-advance_step}
use fluidbgoperator.Strategy.Progressive.Completion.{observe_rounds, observe_rounds-promote}

abbrev first_step : ProgressiveStep fixed_point
first_step = record { traffic_percent = pos 10; observe_cases = pos 20; step_success_rate = 9000 }

abbrev second_step : ProgressiveStep fixed_point
second_step = record { traffic_percent = pos 50; observe_cases = pos 40; step_success_rate = 9500 }

abbrev two_steps : ProgressiveStrategy fixed_point
two_steps = record { steps = first_step ∷ second_step ∷ []; rollback_on_step_failure = true }

abbrev good : Counts
good = record { passed = 49; failed = 1; timed_out = 0; pending = 3 }

rate : actual_rate fixed_point good ≡ 9800
unfolding actual_rate ratio
rate = refl

advances : decide fixed_point two_steps good (some (pos 0)) ≡ advance_step (pos 1) (pos 50)
unfolding decide decide_step after_sample next_action best_possible_rate actual_rate ratio
advances = refl

decide-advance_step_example :
    (step next : ProgressiveStep fixed_point) × (get_elem? two_steps.steps 0 ≡ some step)
    × (get_elem? two_steps.steps 1 ≡ some next)
    × IsMet fixed_point good step
    × (pos 1 ≡ as_i32 1)
    × (pos 50 ≡ next.traffic_percent)
decide-advance_step_example =
    decide-advance_step fixed_point two_steps good (some (pos 0)) (pos 1) (pos 50) advances

first-IsMet : IsMet fixed_point good first_step
unfolding actual_rate ratio
first-IsMet = (omega arith, refl)

second-IsMet : IsMet fixed_point good second_step
unfolding actual_rate ratio
second-IsMet = (omega arith, refl)

observe_rounds-promote_example :
    (2 ≤ 2 → observe_rounds fixed_point two_steps good 2 (some (pos 0)) ≡ promote)
    × (2 < 2 → observe_rounds fixed_point two_steps good 2 (some (pos 0)) ≡ continue_observing)
observe_rounds-promote_example =
    observe_rounds-promote fixed_point two_steps good 2 (omega arith) (omega arith)
      (first-IsMet, (second-IsMet, tt)) (omega arith)

abbrev hopeless : Counts
hopeless = record { passed = 1; failed = 2; timed_out = 0; pending = 1 }

abbrev resolved : Counts
resolved = record { passed = 2; failed = 2; timed_out = 0; pending = 0 }

lost : fixed_point.lt_f64 (best_possible_rate fixed_point hopeless) 9000 ≡ true
unfolding best_possible_rate ratio
lost = refl

hopeless-Resolves : Resolves hopeless resolved
hopeless-Resolves = record {
  resolved_all = refl;
  kept = omega arith;
  from_pending = omega arith;
  same_total = refl;
}
