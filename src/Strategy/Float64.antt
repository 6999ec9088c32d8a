-- ===== src/Strategy/Float64.antt =====
-- What the strategies use of `f64`, as an interface: the conversion of a count, division, the two
-- comparisons and two literals. The laws are those of IEEE 754 arithmetic with rounding to nearest;
-- a count is exact up to 2 ^ 53. A comparison with a NaN is false, so no law turns a failed test
-- into the opposite one.
use fluidbgoperator.Base.{ℕ, ◌*◌, ◌^◌, ◌≤◌, ◌<◌, ◌≡◌, Bool, true, false}

pub record Floats : Type 1 where
  pub F64 : Type 0
  pub of_i64 : ℕ → F64
  pub divide : F64 → F64 → F64
  pub lt_f64 : F64 → F64 → Bool
  pub le_f64 : F64 → F64 → Bool
  pub zero_f64 : F64
  pub rate_098 : F64
  pub le_trans : (x y z : F64) → le_f64 x y ≡ true → le_f64 y z ≡ true → le_f64 x z ≡ true
  pub le_lt_trans : (x y z : F64) → le_f64 x y ≡ true → lt_f64 y z ≡ true → lt_f64 x z ≡ true
  pub le_not_lt : (x y : F64) → le_f64 x y ≡ true → lt_f64 y x ≡ false
  pub divide_mono :
      (a b c d : ℕ)
      → a ≤ 2 ^ 53
      → b ≤ 2 ^ 53
      → c ≤ 2 ^ 53
      → d ≤ 2 ^ 53
      → 0 < b
      → 0 < d
      → a * d ≤ c * b
      → le_f64 (divide (of_i64 a) (of_i64 b)) (divide (of_i64 c) (of_i64 d)) ≡ true
  pub divide_nonneg :
      (c d : ℕ)
      → c ≤ 2 ^ 53
      → d ≤ 2 ^ 53
      → 0 < d
      → le_f64 zero_f64 (divide (of_i64 c) (of_i64 d)) ≡ true
