-- ===== src/Strategy/HardSwitch.antt =====
-- operator/src/strategy/hard_switch.rs.
use fluidbgoperator.Base.{
  ◌+◌, ◌^◌, ◌≤◌, ◌<◌, ◌≡◌, ◌↔◌, refl, inl, inr, Bool, true, false, ◌||◌, Option, none, some, arith,
  if◌then◌else◌, ltb, ◌==◌, unwrap_or, Bool-cases,
}
use fluidbgoperator.Base.Int.{ℤ, pos, ◌≤ℤ◌, ltb_ℤ}
use fluidbgoperator.Store.{Counts}
use fluidbgoperator.Strategy.{
  PromotionAction, continue_observing, promote, rollback, finalized, ratio, actual_rate,
  DataPromotionSpec, actual_rate-le-ratio, best-ge-actual, Resolves, resolved_rate, misses,
}
use fluidbgoperator.Strategy.Float64.{Floats}

module _ (F : Floats) where
  open F use {F64}

  pub record HardSwitchStrategy : Type 0 where
    pub min_test_cases : ℤ
    pub success_rate : F64

  unfoldable pub from_criteria : DataPromotionSpec F → HardSwitchStrategy
  from_criteria criteria = record {
    min_test_cases = unwrap_or criteria.min_test_cases (pos 100);
    success_rate = unwrap_or criteria.success_rate F.rate_098;
  }

  unfoldable pub best_possible_rate : HardSwitchStrategy → Counts → Option F64
  best_possible_rate st c =
      let best_total = c.passed + c.failed + c.timed_out + c.pending in
      if ltb_ℤ (pos best_total) st.min_test_cases || best_total == 0
      then none
      else some (ratio F (c.passed + c.pending) best_total)

  -- The `if let` of `decide`.
  unfoldable pub cannot_recover : HardSwitchStrategy → Counts → Bool
  unfolding best_possible_rate
  cannot_recover st c = elim (best_possible_rate st c) [
    | none ↦ false
    | some best ↦ F.lt_f64 best st.success_rate
  ]

  unfoldable pub decide : HardSwitchStrategy → Counts → PromotionAction
  unfolding cannot_recover
  decide st c =
      let total = finalized c in
      let verdict = if F.le_f64 st.success_rate (actual_rate F c) then promote else rollback in
      if ltb 0 c.pending
      then (if cannot_recover st c
          then rollback
          else (if ltb_ℤ (pos total) st.min_test_cases then continue_observing else verdict))
      else (if ltb_ℤ (pos total) st.min_test_cases then continue_observing else verdict)

  -- Counts that `f64` represents exactly.
  abbrev IsExact : Counts → Type 0
  IsExact c = c.passed + c.failed + c.timed_out + c.pending ≤ 2 ^ 53

  recoverable :
      (st : HardSwitchStrategy) (c : Counts)
      → IsExact c
      → F.le_f64 st.success_rate (actual_rate F c) ≡ true
      → cannot_recover st c ≡ false
  unfolding cannot_recover
  recoverable st c exact met =
      let best_total = c.passed + c.failed + c.timed_out + c.pending in
      elim (Bool-cases (ltb_ℤ (pos best_total) st.min_test_cases || best_total == 0)) [
        | inl few ↦ rw (few, cannot_recover) refl
        | inr enough ↦
            rw (enough, cannot_recover)
              (F.le_not_lt st.success_rate (ratio F (c.passed + c.pending) best_total) (
                F.le_trans st.success_rate (actual_rate F c)
                  (ratio F (c.passed + c.pending) best_total) met
                  (actual_rate-le-ratio F c (c.passed + c.pending) best_total (omega arith)
                    (omega arith) exact (ground arith)
                    (omega
                      (arith, best-ge-actual c.passed c.pending (finalized c) (omega arith))))))
      ]

  -- The decision is made on the finalized sample alone, except that pending cases can force an
  -- early rollback. It promotes exactly when the sample is large enough and its rate reaches the
  -- threshold: the early rollback never takes a promotion away.
  pub decide-promote_iff :
      (st : HardSwitchStrategy) (c : Counts)
      → IsExact c
      → (decide st c ≡ promote) ↔ (
          (st.min_test_cases ≤ℤ pos (finalized c))
          × (F.le_f64 st.success_rate (actual_rate F c) ≡ true))
  unfolding decide
  decide-promote_iff st c exact =
      (λ h. ground arith, λ h. ground (arith, recoverable st c exact h.1))

  lost_means :
      (st : HardSwitchStrategy) (c : Counts)
      → cannot_recover st c ≡ true
      → let best_total = c.passed + c.failed + c.timed_out + c.pending in
        (st.min_test_cases ≤ℤ pos best_total)
        × (F.lt_f64 (ratio F (c.passed + c.pending) best_total) st.success_rate ≡ true)
  unfolding cannot_recover
  lost_means st c lost = ground arith

  -- An early rollback is final: when pending cases force it, every way in which they can end, all
  -- of them passing included, leads to a rollback as well.
  pub early_rollback_final :
      (st : HardSwitchStrategy) (c c' : Counts)
      → IsExact c
      → 0 < c.pending
      → cannot_recover st c ≡ true
      → Resolves c c'
      → (decide st c ≡ rollback) × (decide st c' ≡ rollback)
  unfolding decide
  early_rollback_final st c c' exact some_pending lost v =
      let best = ratio F (c.passed + c.pending) (c.passed + c.failed + c.timed_out + c.pending) in
      let missed =
        misses F (actual_rate F c') best st.success_rate (resolved_rate F c c' exact some_pending v)
          (lost_means st c lost).1 in
      (ground arith, ground (arith, lost_means st c lost, missed))
