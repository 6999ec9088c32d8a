-- ===== src/Strategy/Progressive/Early.antt =====
-- The early rollback of a progressive step.
use fluidbgoperator.Base.{◌+◌, ◌<◌, ℕ, ◌≡◌, ◌∙◌, true, some, arith, if◌then◌else◌}
use fluidbgoperator.Base.Int.{ℤ, pos, ltb_ℤ}
use fluidbgoperator.Base.Lists.{get_elem?}
use fluidbgoperator.Store.{Counts}
use fluidbgoperator.Strategy.{
  continue_observing, rollback, finalized, as_usize, ProgressiveStep, Resolves, resolved_rate,
  misses, actual_rate, ratio,
}
use fluidbgoperator.Strategy.Float64.{Floats}
use fluidbgoperator.Strategy.Progressive.{
  ProgressiveStrategy, best_possible_rate, decide_step, after_sample, decide,
}
use fluidbgoperator.Strategy.Progressive.Rollout.{IsExact, decide-at}

module _ (F : Floats) where
  early :
      (st : ProgressiveStrategy F) (c : Counts) (i : ℕ) (step : ProgressiveStep F)
      → st.rollback_on_step_failure ≡ true
      → 0 < c.pending
      → F.lt_f64 (best_possible_rate F c) step.step_success_rate ≡ true
      → decide_step F st c i step ≡ rollback
  unfolding decide_step
  early st c i step on some_pending lost = ground arith

  later :
      (st : ProgressiveStrategy F) (c c' : Counts) (i : ℕ) (step : ProgressiveStep F)
      → IsExact F c
      → 0 < c.pending
      → st.rollback_on_step_failure ≡ true
      → F.lt_f64 (best_possible_rate F c) step.step_success_rate ≡ true
      → Resolves c c'
      → decide_step F st c' i step
        ≡ (if ltb_ℤ (pos (finalized c')) step.observe_cases then continue_observing else rollback)
  unfolding decide_step after_sample best_possible_rate
  later st c c' i step exact some_pending on lost v =
      let best = ratio F (c.passed + c.pending) (c.passed + c.failed + c.timed_out + c.pending) in
      let best_lost : F.lt_f64 best step.step_success_rate ≡ true = ground arith in
      let missed =
        misses F (actual_rate F c') best step.step_success_rate
          (resolved_rate F c c' exact some_pending v) best_lost in
      ground (arith, missed)

  -- The early rollback of a step does not wait for `observe_cases`: when the pending cases cannot
  -- recover the rate, the step is rolled back at once, at any sample size. The same evidence with
  -- its pending cases resolved, in any way, is rolled back only if it reaches `observe_cases`, and
  -- is observed further if it does not.
  pub early_rollback :
      (st : ProgressiveStrategy F) (c c' : Counts) (cur : ℤ) (step : ProgressiveStep F)
      → IsExact F c
      → get_elem? st.steps (as_usize cur) ≡ some step
      → st.rollback_on_step_failure ≡ true
      → 0 < c.pending
      → F.lt_f64 (best_possible_rate F c) step.step_success_rate ≡ true
      → Resolves c c'
      → (decide F st c (some cur) ≡ rollback)
        × (decide F st c' (some cur) ≡ (
            if ltb_ℤ (pos (finalized c')) step.observe_cases then continue_observing else rollback))
  early_rollback st c c' cur step exact found on some_pending lost v = (
    decide-at F st c (some cur) step found ∙ early st c (as_usize cur) step on some_pending lost,
    decide-at F st c' (some cur) step found
        ∙ later st c c' (as_usize cur) step exact some_pending on lost v,
  )
