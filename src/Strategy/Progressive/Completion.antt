-- ===== src/Strategy/Progressive/Completion.antt =====
-- A progressive rollout whose steps are all met reaches its promotion.
use fluidbgoperator.Base.{
  if◌then◌else◌, ltb, Bool-cases, ℕ, zero, suc, ◌+◌, ◌^◌, ◌≤◌, ◌<◌, ◌≡◌, refl, ap, ◌∙◌, inl, inr,
  Option, none, some, arith, Option-cases,
}
use fluidbgoperator.Base.Lists.{length, get_elem?, get_elem?_lt, get_elem?-some, All, All-get_elem?}
use fluidbgoperator.Base.Int.{ℤ, pos}
use fluidbgoperator.Store.{Counts}
use fluidbgoperator.Strategy.{
  PromotionAction, continue_observing, promote, advance_step, ProgressiveStep,
}
use fluidbgoperator.Strategy.Float64.{Floats}
use fluidbgoperator.Strategy.Progressive.{ProgressiveStrategy, next_action, decide}
use fluidbgoperator.Strategy.Progressive.Rollout.{
  IsMet, IsExact, decide-at, decide_step-met, as_i32-small,
}

-- An `AdvanceStep` goes on from the step that it announces; any other action is the result.
abbrev on_advance : PromotionAction → (ℤ → PromotionAction) → PromotionAction
on_advance (advance_step n t) next = next n
on_advance other next = other

module _ (F : Floats) where
  -- The rounds of the observing phase: the controller stores the step of an `AdvanceStep` as the
  -- current one, and decides again.
  pub observe_rounds : ProgressiveStrategy F → Counts → ℕ → Option ℤ → PromotionAction
  observe_rounds st c zero cur = continue_observing
  observe_rounds st c (suc k) cur =
      on_advance (decide F st c cur) (λ n. observe_rounds st c k (some n))

  one_round :
      (st : ProgressiveStrategy F) (c : Counts) (k i : ℕ) (step : ProgressiveStep F)
      → IsExact F c
      → IsMet F c step
      → get_elem? st.steps i ≡ some step
      → observe_rounds st c (suc k) (some (pos i))
        ≡ on_advance (next_action F st i) (λ n. observe_rounds st c k (some n))
  unfolding observe_rounds
  one_round st c k i step exact met found =
      ap (λ a. on_advance a (λ n. observe_rounds st c k (some n)))
        (decide-at F st c (some (pos i)) step found ∙ decide_step-met F st c i step exact met)

  beyond : (st : ProgressiveStrategy F) (i : ℕ) → length st.steps ≤ i → get_elem? st.steps i ≡ none
  beyond st i out = elim (Option-cases (get_elem? st.steps i)) [
    | inl absent ↦ absent
    | inr (step, found) ↦ absurd (omega (arith, get_elem?-some st.steps i found))
  ]

  -- A round at a step that is not the last one goes on to the next.
  round_on :
      (st : ProgressiveStrategy F) (c : Counts) (k i : ℕ)
      → IsExact F c
      → length st.steps < 2 ^ 31
      → All (IsMet F c) st.steps
      → i + 1 < length st.steps
      → observe_rounds st c (suc k) (some (pos i)) ≡ observe_rounds st c k (some (pos (i + 1)))
  unfolding next_action
  round_on st c k i exact short all_met more =
      let (step, found) = get_elem?_lt st.steps i (omega arith) in
      let (next, later) = get_elem?_lt st.steps (i + 1) more in
      one_round st c k i step exact (All-get_elem? (IsMet F c) st.steps i step all_met found) found
      ∙ rw (later, next_action) (rw (as_i32-small (i + 1) (omega arith)) refl)

  -- A round at the last step promotes.
  round_last :
      (st : ProgressiveStrategy F) (c : Counts) (k i : ℕ)
      → IsExact F c
      → All (IsMet F c) st.steps
      → length st.steps ≡ i + 1
      → observe_rounds st c (suc k) (some (pos i)) ≡ promote
  unfolding next_action
  round_last st c k i exact all_met last =
      let (step, found) = get_elem?_lt st.steps i (omega arith) in
      one_round st c k i step exact (All-get_elem? (IsMet F c) st.steps i step all_met found) found
      ∙ rw (beyond st (i + 1) (omega arith), next_action) refl

  rounds_from :
      (st : ProgressiveStrategy F) (c : Counts) (k i : ℕ)
      → IsExact F c
      → length st.steps < 2 ^ 31
      → All (IsMet F c) st.steps
      → i < length st.steps
      → observe_rounds st c k (some (pos i))
        ≡ (if ltb (i + k) (length st.steps) then continue_observing else promote)
  unfolding observe_rounds
  rounds_from st c zero i exact short all_met more = ground arith
  rounds_from st c (suc k) i exact short all_met more =
      elim (Bool-cases (ltb (i + 1) (length st.steps))) [
        | inl before ↦
            round_on st c k i exact short all_met (ground arith)
            ∙ (rounds_from st c k (i + 1) exact short all_met (ground arith) ∙ ground arith)
        | inr last ↦ round_last st c k i exact all_met (ground arith) ∙ ground arith
      ]

  -- Enough good evidence carries a rollout through, one step in each round: if there are steps and
  -- the counts meet the criterion of every one of them, whatever is still pending, then as many
  -- rounds as there are steps, or more, take it from the first step to the promotion, and fewer do
  -- not promote it. (The steps fit in an `i32`, and the counts are exact in `f64`.)
  pub observe_rounds-promote :
      (st : ProgressiveStrategy F) (c : Counts) (k : ℕ)
      → IsExact F c
      → length st.steps < 2 ^ 31
      → All (IsMet F c) st.steps
      → 0 < length st.steps
      → (length st.steps ≤ k → observe_rounds st c k (some (pos 0)) ≡ promote)
        × (k < length st.steps → observe_rounds st c k (some (pos 0)) ≡ continue_observing)
  observe_rounds-promote st c k exact short all_met some_step =
      let ends = rounds_from st c k 0 exact short all_met some_step in
      (λ enough. ends ∙ ground arith, λ few. ends ∙ ground arith)
