-- ===== src/Strategy.antt =====
-- Promotion strategies: operator/src/strategy/mod.rs, hard_switch.rs and progressive.rs, and the
-- evaluator of operator/src/evaluator.rs. The `f64` arithmetic is a parameter.
pub mod Float64
pub mod HardSwitch
pub mod Progressive
pub mod Evaluator
pub mod FixedPoint
mod Examples
use fluidbgoperator.Base.{
  ℕ, suc, ◌+◌, ◌-◌, ◌*◌, ◌%◌, ◌^◌, ◌≤◌, ◌<◌, ◌≡◌, inl, inr, arith, Bool, true, false, ◌&&◌, ◌||◌,
  Option, none, some, List, [], ◌∷◌, if◌then◌else◌, ltb, leb, ◌==◌, ltb→lt, Bool-cases,
}
use native.Mathlib.Nat.{mul-le-mul_left, mul-le-mul_right}
use fluidbgoperator.Base.Lists.{length, get_elem?}
use fluidbgoperator.Base.Int.{ℤ, pos, negsuc, ltb_ℤ}
use fluidbgoperator.Store.{Counts, Result, ok, err}
use Float64.{Floats}

pub data PromotionAction : Type 0 where
  continue_observing promote rollback : PromotionAction
  advance_step : ℤ → ℤ → PromotionAction

-- The cases with a result.
abbrev pub finalized : Counts → ℕ
finalized c = c.passed + c.failed + c.timed_out

-- `x as usize` of an `i32` on a 64-bit machine, and `x as i32` of a `usize`.
abbrev pub as_usize : ℤ → ℕ
as_usize (pos n) = n
as_usize (negsuc n) = 2 ^ 64 - suc n

abbrev pub as_i32 : ℕ → ℤ
as_i32 n = let m = n % 2 ^ 32 in if ltb m (2 ^ 31) then pos m else negsuc (2 ^ 32 - 1 - m)

-- `after` comes from `before` when each pending case has got a result.
pub record Resolves (before after : Counts) : Type 0 where
  pub resolved_all : after.pending ≡ 0
  pub kept : before.passed ≤ after.passed
  pub from_pending : after.passed ≤ before.passed + before.pending
  pub same_total : finalized after ≡ finalized before + before.pending

module _ (F : Floats) where
  open F use {F64}

  -- A count as `f64`, divided: `a as f64 / b as f64`.
  unfoldable pub ratio : ℕ → ℕ → F64
  ratio a b = F.divide (F.of_i64 a) (F.of_i64 b)

  unfoldable pub actual_rate : Counts → F64
  unfolding ratio
  actual_rate c =
      let total = finalized c in if ltb 0 total then ratio c.passed total else F.zero_f64

  pub record DataPromotionSpec : Type 0 where
    pub min_test_cases : Option ℤ
    pub success_rate : Option F64
    pub timeout_seconds : Option ℤ

  pub record ProgressiveStep : Type 0 where
    pub traffic_percent : ℤ
    pub observe_cases : ℤ
    pub step_success_rate : F64

  -- The comparisons of the laws, with both sides counts.
  pub actual_rate-le-ratio :
      (c : Counts) (best total : ℕ)
      → finalized c ≤ 2 ^ 53
      → best ≤ 2 ^ 53
      → total ≤ 2 ^ 53
      → 0 < total
      → c.passed * total ≤ best * finalized c
      → F.le_f64 (actual_rate c) (ratio best total) ≡ true
  unfolding actual_rate
  actual_rate-le-ratio c best total hc hb ht pos_total h = elim (Bool-cases (ltb 0 (finalized c))) [
    | inl some_case ↦ rw some_case (
        F.divide_mono c.passed (finalized c) best total (omega arith) hc hb ht
          (ltb→lt 0 (finalized c) some_case) pos_total h)
    | inr no_case ↦ rw no_case (F.divide_nonneg best total hb ht pos_total)
  ]

  -- A rate that a lower bound of the threshold misses does not reach the threshold.
  pub misses :
      (x best rate : F64)
      → F.le_f64 x best ≡ true
      → F.lt_f64 best rate ≡ true
      → (F.le_f64 rate x ≡ false) × (F.lt_f64 x rate ≡ true)
  misses x best rate below lost =
      let under = F.le_lt_trans x best rate below lost in
      (
        elim (Bool-cases (F.le_f64 rate x)) [
          | inl reached ↦ ground (arith, F.le_not_lt rate x reached)
          | inr missed ↦ missed
        ],
        under,
      )

  pub resolved_rate :
      (c c' : Counts)
      → c.passed + c.failed + c.timed_out + c.pending ≤ 2 ^ 53
      → 0 < c.pending
      → Resolves c c'
      → F.le_f64
          (actual_rate c')
          (ratio (c.passed + c.pending) (c.passed + c.failed + c.timed_out + c.pending))
        ≡ true
  resolved_rate c c' exact some_pending v =
      actual_rate-le-ratio c' (c.passed + c.pending) (c.passed + c.failed + c.timed_out + c.pending)
        (omega arith) (omega arith) exact (omega arith)
        (rw v.same_total (mul-le-mul_right (finalized c + c.pending) v.from_pending))

-- If `q` pending cases all pass, the rate does not fall.
pub best-ge-actual : (p q t : ℕ) → p ≤ t → p * (t + q) ≤ (p + q) * t
best-ge-actual p q t h = omega (arith, mul-le-mul_left q h)
