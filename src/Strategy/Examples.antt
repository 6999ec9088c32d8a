-- ===== src/Strategy/Examples.antt =====
-- The properties of the hard-switch strategy and of the evaluator at concrete counts.
use fluidbgoperator.Base.{◌≡◌, ◌↔◌, refl, true, arith}
use fluidbgoperator.Base.Int.{pos, ◌≤ℤ◌}
use fluidbgoperator.Store.{Counts}
use fluidbgoperator.Strategy.{promote, rollback, finalized, actual_rate, ratio, Resolves}
use fluidbgoperator.Strategy.FixedPoint.{fixed_point}
use fluidbgoperator.Strategy.HardSwitch.{
  HardSwitchStrategy, decide, cannot_recover, best_possible_rate, decide-promote_iff,
  early_rollback_final,
}

abbrev strict : HardSwitchStrategy fixed_point
strict = record { min_test_cases = pos 10; success_rate = 9800 }

abbrev all_good : Counts
all_good = record { passed = 100; failed = 1; timed_out = 0; pending = 0 }

abbrev hopeless : Counts
hopeless = record { passed = 3; failed = 2; timed_out = 1; pending = 5 }

abbrev hopeless_resolved : Counts
hopeless_resolved = record { passed = 8; failed = 2; timed_out = 1; pending = 0 }

decide-promote_iff_example : (decide fixed_point strict all_good ≡ promote) ↔ (
    (pos 10 ≤ℤ pos (finalized all_good))
    × (fixed_point.le_f64 9800 (actual_rate fixed_point all_good) ≡ true))
decide-promote_iff_example = decide-promote_iff fixed_point strict all_good (omega arith)

lost : cannot_recover fixed_point strict hopeless ≡ true
unfolding cannot_recover best_possible_rate ratio
lost = refl

resolved : Resolves hopeless hopeless_resolved
resolved = record {
  resolved_all = refl;
  kept = omega arith;
  from_pending = omega arith;
  same_total = refl;
}

early_rollback_final_example :
    (decide fixed_point strict hopeless ≡ rollback)
    × (decide fixed_point strict hopeless_resolved ≡ rollback)
early_rollback_final_example =
    early_rollback_final fixed_point strict hopeless hopeless_resolved (omega arith) (omega arith)
      lost resolved
