-- ===== src/Strategy/Progressive/Rollout.antt =====
-- The steps that a progressive rollout takes.
use fluidbgoperator.Base.{
  ℕ, zero, suc, ◌+◌, ◌^◌, ◌≤◌, ◌<◌, ◌≡◌, refl, inl, inr, false, Option, none, some, List, [], ◌∷◌,
  arith, ltb, Bool-cases, Option-cases, unwrap_or, ltb→lt,
}
use fluidbgoperator.Base.Lists.{length, get_elem?}
use fluidbgoperator.Base.Int.{ℤ, pos, ◌≤ℤ◌}
use fluidbgoperator.Store.{Counts}
use fluidbgoperator.Strategy.{
  promote, advance_step, finalized, as_usize, as_i32, ratio, actual_rate, ProgressiveStep,
  actual_rate-le-ratio, best-ge-actual,
}
use fluidbgoperator.Strategy.Float64.{Floats}
use fluidbgoperator.Strategy.Progressive.{
  ProgressiveStrategy, best_possible_rate, next_action, after_sample, decide_step, decide,
}

pub as_i32-small : (n : ℕ) → n < 2 ^ 31 → as_i32 n ≡ pos n
as_i32-small n h = ground arith

get_elem?-none : {A : Type 0} (xs : List A) (i : ℕ) → length xs ≤ i → get_elem? xs i ≡ none
get_elem?-none [] i h = refl
get_elem?-none (x ∷ xs) zero h = absurd (omega arith)
get_elem?-none (x ∷ xs) (suc i) h = get_elem?-none xs i (omega arith)

module _ (F : Floats) where
  -- The criterion of a step, as the documentation states it: enough finalized cases, at a rate
  -- that is not below the step's.
  abbrev pub IsMet : Counts → ProgressiveStep F → Type 0
  IsMet c step =
      (step.observe_cases ≤ℤ pos (finalized c))
      × (F.lt_f64 (actual_rate F c) step.step_success_rate ≡ false)

  decide_step-moves :
      (st : ProgressiveStrategy F) (c : Counts) (i : ℕ) (step : ProgressiveStep F) (n t : ℤ)
      → decide_step F st c i step ≡ advance_step n t
      → IsMet c step × (next_action F st i ≡ advance_step n t)
  unfolding decide_step after_sample
  decide_step-moves st c i step n t e = ground arith

  next_action-moves :
      (st : ProgressiveStrategy F) (i : ℕ) (n t : ℤ)
      → next_action F st i ≡ advance_step n t
      → (next : ProgressiveStep F) × (get_elem? st.steps (i + 1) ≡ some next)
        × (n ≡ as_i32 (i + 1))
        × (t ≡ next.traffic_percent)
  unfolding next_action
  next_action-moves st i n t e = elim (Option-cases (get_elem? st.steps (i + 1))) [
    | inl out ↦ absurd (ground (arith, out))
    | inr (next, found) ↦ (next, found, ground (arith, found), ground (arith, found))
  ]

  pub decide-at :
      (st : ProgressiveStrategy F) (c : Counts) (cur : Option ℤ) (step : ProgressiveStep F)
      → get_elem? st.steps (as_usize (unwrap_or cur (pos 0))) ≡ some step
      → decide F st c cur ≡ decide_step F st c (as_usize (unwrap_or cur (pos 0))) step
  unfolding decide
  decide-at st c cur step found = rw (found, decide) refl

  pub decide-out :
      (st : ProgressiveStrategy F) (c : Counts) (cur : Option ℤ)
      → get_elem? st.steps (as_usize (unwrap_or cur (pos 0))) ≡ none
      → decide F st c cur ≡ promote
  unfolding decide
  decide-out st c cur out = rw (out, decide) refl

  -- Traffic moves one step at a time: when the decision is to advance, the criterion of the
  -- current step is met, a next step exists, and the step and the traffic share that are announced
  -- are those of that next step.
  pub decide-advance_step :
      (st : ProgressiveStrategy F) (c : Counts) (cur : Option ℤ) (n t : ℤ)
      → decide F st c cur ≡ advance_step n t
      → let i = as_usize (unwrap_or cur (pos 0)) in
        (step next : ProgressiveStep F) × (get_elem? st.steps i ≡ some step)
        × (get_elem? st.steps (i + 1) ≡ some next)
        × IsMet c step
        × (n ≡ as_i32 (i + 1))
        × (t ≡ next.traffic_percent)
  unfolding decide
  decide-advance_step st c cur n t e =
      let i = as_usize (unwrap_or cur (pos 0)) in
      elim (Option-cases (get_elem? st.steps i)) [
        | inl out ↦ absurd (ground (arith, out))
        | inr (step, found) ↦
            let moved = decide_step-moves st c i step n t (ground (arith, found)) in
            let (next, found', en, et) = next_action-moves st i n t moved.1 in
            (step, next, found, found', moved.0, en, et)
      ]

  abbrev pub IsExact : Counts → Type 0
  IsExact c = c.passed + c.failed + c.timed_out + c.pending ≤ 2 ^ 53

  -- Pending cases cannot take a met criterion away.
  met_recoverable :
      (c : Counts) (rate : F.F64)
      → IsExact c
      → 0 < c.pending
      → F.lt_f64 (actual_rate F c) rate ≡ false
      → F.lt_f64 (best_possible_rate F c) rate ≡ false
  unfolding best_possible_rate
  met_recoverable c rate exact some_pending met =
      let best_total = c.passed + c.failed + c.timed_out + c.pending in
      let best = ratio F (c.passed + c.pending) best_total in
      let below =
        actual_rate-le-ratio F c (c.passed + c.pending) best_total (omega arith) (omega arith) exact
          (omega arith)
          (omega (arith, best-ge-actual c.passed c.pending (finalized c) (omega arith))) in
      let chain = F.le_lt_trans (actual_rate F c) best rate below in
      elim (Bool-cases (F.lt_f64 best rate)) [
        | inl lost ↦ ground (arith, chain lost)
        | inr kept ↦ ground (arith, kept)
      ]

  pub decide_step-met :
      (st : ProgressiveStrategy F) (c : Counts) (i : ℕ) (step : ProgressiveStep F)
      → IsExact c
      → IsMet c step
      → decide_step F st c i step ≡ next_action F st i
  unfolding decide_step after_sample
  decide_step-met st c i step exact met = elim (Bool-cases (ltb 0 c.pending)) [
    | inl more ↦
        ground
          (arith, met_recoverable c step.step_success_rate exact (ltb→lt 0 c.pending more) met.1)
    | inr all_done ↦ ground arith
  ]
