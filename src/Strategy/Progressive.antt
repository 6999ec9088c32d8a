-- ===== src/Strategy/Progressive.antt =====
-- operator/src/strategy/progressive.rs.
pub mod Rollout
pub mod Completion
pub mod Early
mod Examples
use fluidbgoperator.Base.{
  ℕ, ◌+◌, ◌*◌, ◌^◌, ◌≤◌, ◌<◌, ◌≡◌, ◌↔◌, ◌⊎◌, refl, inl, inr, Bool, true, false, not, ◌&&◌, ◌||◌,
  Option, none, some, List, arith, if◌then◌else◌, ltb, ◌==◌, unwrap_or, Bool-cases, ltb→lt,
}
use fluidbgoperator.Base.Lists.{length, get_elem?}
use fluidbgoperator.Base.Int.{ℤ, pos, ◌≤ℤ◌, ltb_ℤ}
use fluidbgoperator.Store.{Counts}
use fluidbgoperator.Strategy.{
  PromotionAction, continue_observing, promote, rollback, advance_step, finalized, as_usize, as_i32,
  ratio, actual_rate, ProgressiveStep, Resolves, resolved_rate, misses, actual_rate-le-ratio,
  best-ge-actual,
}
use fluidbgoperator.Strategy.Float64.{Floats}

module _ (F : Floats) where
  open F use {F64}

  pub record ProgressiveStrategy : Type 0 where
    pub steps : List (ProgressiveStep F)
    pub rollback_on_step_failure : Bool

  pub best_possible_rate : Counts → F64
  best_possible_rate c =
      let best_total = c.passed + c.failed + c.timed_out + c.pending in
      if best_total == 0 then F.zero_f64 else ratio F (c.passed + c.pending) best_total

  -- The end of `decide`, where the step's criterion is met: promote at the last step, or go on to
  -- the next one. The index `steps[step_idx + 1]` is in range behind the test.
  pub next_action : ProgressiveStrategy → ℕ → PromotionAction
  next_action st step_idx = elim (get_elem? st.steps (step_idx + 1)) [
    | none ↦ promote
    | some next_step ↦ advance_step (as_i32 (step_idx + 1)) next_step.traffic_percent
  ]

  pub after_sample : ProgressiveStrategy → Counts → ℕ → ProgressiveStep F → PromotionAction
  unfolding next_action
  after_sample st c step_idx step =
      if F.lt_f64 (actual_rate F c) step.step_success_rate
      then (if st.rollback_on_step_failure then rollback else continue_observing)
      else next_action st step_idx

  pub decide_step : ProgressiveStrategy → Counts → ℕ → ProgressiveStep F → PromotionAction
  unfolding after_sample best_possible_rate
  decide_step st c step_idx step =
      let total = finalized c in
      if ltb 0 c.pending
      then (if st.rollback_on_step_failure && F.lt_f64 (best_possible_rate c) step.step_success_rate
          then rollback
          else (if ltb_ℤ (pos total) step.observe_cases
              then continue_observing
              else after_sample st c step_idx step))
      else (if ltb_ℤ (pos total) step.observe_cases
          then continue_observing
          else after_sample st c step_idx step)

  -- `steps[step_idx]` behind the test of the length.
  pub decide : ProgressiveStrategy → Counts → Option ℤ → PromotionAction
  unfolding decide_step
  decide st c current_step =
      let step_idx = as_usize (unwrap_or current_step (pos 0)) in
      elim (get_elem? st.steps step_idx) [
        | none ↦ promote
        | some step ↦ decide_step st c step_idx step
      ]
