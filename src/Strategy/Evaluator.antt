-- ===== src/Strategy/Evaluator.antt =====
-- operator/src/evaluator.rs: the stand-alone evaluation of a deployment's counts.
use fluidbgoperator.Base.{ℕ, ◌≡◌, arith, if◌then◌else◌}
use fluidbgoperator.Base.Int.{ℤ, pos, ltb_ℤ}
use fluidbgoperator.Store.{Counts, Result, ok, err}
use fluidbgoperator.Strategy.{
  PromotionAction, continue_observing, promote, rollback, finalized, actual_rate,
}
use fluidbgoperator.Strategy.Float64.{Floats}
use fluidbgoperator.Strategy.HardSwitch.{HardSwitchStrategy, decide}

module _ (F : Floats) where
  open F use {F64}

  pub data EvaluationResult : Type 0 where
    insufficient_data : EvaluationResult
    passed failed : F64 → ℕ → ℕ → EvaluationResult

  -- `counts` is the answer of the store.
  pub evaluate : Result Counts → ℤ → F64 → EvaluationResult
  evaluate (err e) min_test_cases success_rate = insufficient_data
  evaluate (ok c) min_test_cases success_rate =
      let total = finalized c in
      if ltb_ℤ (pos total) min_test_cases
      then insufficient_data
      else (if F.le_f64 success_rate (actual_rate F c)
          then passed (actual_rate F c) total c.passed
          else failed (actual_rate F c) total c.passed)

  -- The verdict of the hard-switch strategy that an evaluation stands for.
  abbrev pub action_of : EvaluationResult → PromotionAction
  action_of insufficient_data = continue_observing
  action_of (passed rate total good) = promote
  action_of (failed rate total good) = rollback

  -- The two routines agree: once no case is pending, the hard-switch strategy decides what the
  -- evaluator finds, for the same minimum and threshold.
  pub evaluate-decide :
      (st : HardSwitchStrategy F) (c : Counts)
      → c.pending ≡ 0
      → decide F st c ≡ action_of (evaluate (ok c) st.min_test_cases st.success_rate)
  unfolding evaluate decide
  evaluate-decide st c all_done = ground arith
