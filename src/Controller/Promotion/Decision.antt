-- ===== src/Controller/Promotion/Decision.antt =====
-- What a promotion decision rests on.
use fluidbgoperator.Base.{
  ◌+◌, ◌^◌, ◌≤◌, ◌<◌, ◌≡◌, ◌≢◌, ap, sym, ◌∙◌, ◌↔◌, ◌⊎◌, refl, inl, inr, Bool, true, false, Option,
  none, some, arith, is_some, Option-cases, Bool-cases,
}
use fluidbgoperator.Base.Int.{ℤ, pos, ◌≤ℤ◌}
use fluidbgoperator.Store.{Counts}
use fluidbgoperator.Strategy.{
  PromotionAction, promote, advance_step, finalized, actual_rate, DataPromotionSpec,
}
use fluidbgoperator.Strategy.Float64.{Floats}
use fluidbgoperator.Strategy.HardSwitch
use fluidbgoperator.Crd.{hard_switch, progressive, PromotionSpec, BlueGreenDeployment}
use fluidbgoperator.Controller.{ok, ◌>>=◌, Result-cases}
use fluidbgoperator.Controller.Promotion.{
  decide_custom_promotion, combine, strategy_action, data_action, custom_action,
  decide_promotion_action, validate_test_configuration,
}

combine-promote_data :
    (d : PromotionAction) (c : Option PromotionAction)
    → (combine (some d) c ≡ ok promote) ↔ ((d ≡ promote) × ((c ≡ none) ⊎ (c ≡ some promote)))
unfolding combine
combine-promote_data d c = (λ h. ground arith, λ h. ground arith)

decide_custom_promotion-promote :
    (c : Counts)
    → (decide_custom_promotion c ≡ promote)
      ↔ ((c.pending ≡ 0) × (c.failed ≡ 0) × (c.timed_out ≡ 0) × (0 < c.passed))
unfolding decide_custom_promotion
decide_custom_promotion-promote c = (λ h. ground arith, λ h. ground arith)

combine-advance :
    (d : Option PromotionAction) (a : PromotionAction) (n t : ℤ)
    → combine d (some a) ≢ ok (advance_step n t)
unfolding combine
combine-advance d a n t h = ground arith

combine-total :
    (d c : Option PromotionAction)
    → (d ≢ none) ⊎ (c ≢ none)
    → (a : PromotionAction) × (combine d c ≡ ok a)
unfolding combine
combine-total d c h = elim (Result-cases (combine d c)) [
  | inl good ↦ good
  | inr (e, bad) ↦ absurd (ground arith)
]

custom_asked :
    (F : Floats) (p : PromotionSpec F) (c : Counts)
    → ((is_some p.custom ≡ false) × (custom_action F p c ≡ none))
      ⊎ ((is_some p.custom ≡ true) × (custom_action F p c ≡ some (decide_custom_promotion c)))
unfolding custom_action
custom_asked F p c = ground arith

module _ (F : Floats) where
  data_action-hard :
      (p : PromotionSpec F) (spec : DataPromotionSpec F) (c : Counts) (cur : Option ℤ)
      → p.strategy.strategy_type ≡ hard_switch
      → p.data_promotion ≡ some spec
      → data_action F p c cur ≡ ok (some (HardSwitch.decide F (HardSwitch.from_criteria F spec) c))
  unfolding data_action strategy_action
  data_action-hard p spec c cur eh ed = rw (ed, data_action) (rw (eh, strategy_action) refl)

  decide-unfold :
      (bgd : BlueGreenDeployment F) (p : PromotionSpec F) (dc cc : Counts) (cur : Option ℤ)
      → bgd.spec.promotion ≡ some p
      → decide_promotion_action F bgd dc cc cur
        ≡ (data_action F p dc cur >>= λ action. combine action (custom_action F p cc))
  unfolding decide_promotion_action
  decide-unfold bgd p dc cc cur e = rw (e, decide_promotion_action) refl

  -- The evidence behind a promotion. A hard-switch deployment with data verification is promoted
  -- exactly when the finalized data cases reach the minimum and their rate reaches the threshold,
  -- and, where custom verification is configured as well, no custom case is pending, failed or
  -- timed out and at least one has passed.
  pub promotion_evidence :
      (bgd : BlueGreenDeployment F) (p : PromotionSpec F) (spec : DataPromotionSpec F)
      (dc cc : Counts) (cur : Option ℤ)
      → bgd.spec.promotion ≡ some p
      → p.strategy.strategy_type ≡ hard_switch
      → p.data_promotion ≡ some spec
      → dc.passed + dc.failed + dc.timed_out + dc.pending ≤ 2 ^ 53
      → let st = HardSwitch.from_criteria F spec in
        (decide_promotion_action F bgd dc cc cur ≡ ok promote) ↔ (
          (st.min_test_cases ≤ℤ pos (finalized dc))
          × (F.le_f64 st.success_rate (actual_rate F dc) ≡ true)
          × ((is_some p.custom ≡ false)
              ⊎ ((cc.pending ≡ 0) × (cc.failed ≡ 0) × (cc.timed_out ≡ 0) × (0 < cc.passed))))
  promotion_evidence bgd p spec dc cc cur ep eh ed exact =
      let st = HardSwitch.from_criteria F spec in
      let c = custom_action F p cc in
      let data_says = HardSwitch.decide F st dc in
      let whole : decide_promotion_action F bgd dc cc cur ≡ combine (some data_says) c =
        decide-unfold bgd p dc cc cur ep
        ∙ ap (λ r. r >>= λ action. combine action c) (data_action-hard p spec dc cur eh ed) in
      let both = combine-promote_data data_says c in
      let data_iff = HardSwitch.decide-promote_iff F st dc exact in
      let custom_iff = decide_custom_promotion-promote cc in
      (
        λ h.
            let parts = both.0 (sym whole ∙ h) in
            let evidence = data_iff.0 parts.0 in
            (
              evidence.0,
              evidence.1,
              elim (custom_asked F p cc) [
                | inl (unasked, no_action) ↦ inl unasked
                | inr (_, action) ↦ inr (custom_iff.0 (ground (arith, parts.1)))
              ],
            ),
        λ h.
            whole
            ∙ both.1 (
              data_iff.1 (h.0, h.1),
              elim (custom_asked F p cc) [
                | inl (_, no_action) ↦ inl no_action
                | inr (asked, action) ↦ inr (
                    action
                    ∙ ap some (
                        custom_iff.1
                          (elim h.2 [ inl unasked ↦ absurd (ground arith) | inr met ↦ met ])))
              ],
            ),
      )

  -- With custom verification configured the decision is never to advance a step, whatever the
  -- counts and the strategy say.
  pub custom_never_advances :
      (bgd : BlueGreenDeployment F) (p : PromotionSpec F) (dc cc : Counts) (cur : Option ℤ)
      (n t : ℤ)
      → bgd.spec.promotion ≡ some p
      → is_some p.custom ≡ true
      → decide_promotion_action F bgd dc cc cur ≢ ok (advance_step n t)
  custom_never_advances bgd p dc cc cur n t ep asked h = elim (custom_asked F p cc) [
    | inl (unasked, _) ↦ ground (arith, unasked)
    | inr (_, action) ↦ elim (Result-cases (data_action F p dc cur)) [
      | inl (d, ed) ↦ combine-advance d (decide_custom_promotion cc) n t (
          ap (combine d) (sym action)
          ∙ sym (ap (λ r. r >>= λ a. combine a (custom_action F p cc)) ed)
          ∙ sym (decide-unfold bgd p dc cc cur ep)
          ∙ h)
      | inr (e, ee) ↦ absurd (
          ground (
            arith,
            sym (ap (λ r. r >>= λ a. combine a (custom_action F p cc)) ee)
                ∙ sym (decide-unfold bgd p dc cc cur ep)
                ∙ h,
          ))
    ]
  ]

  abbrev pub has_steps : PromotionSpec F → Bool
  has_steps p = elim p.strategy.strategy_type [
    | hard_switch ↦ true
    | progressive ↦ is_some p.strategy.progressive
  ]

  strategy_action-total :
      (p : PromotionSpec F) (spec : DataPromotionSpec F) (c : Counts) (cur : Option ℤ)
      → has_steps p ≡ true
      → (a : PromotionAction) × (strategy_action F p spec c cur ≡ ok a)
  unfolding strategy_action
  strategy_action-total p spec c cur steps = elim (Result-cases (strategy_action F p spec c cur)) [
    | inl good ↦ good
    | inr (e, bad) ↦ absurd (ground arith)
  ]

  data_action-some :
      (p : PromotionSpec F) (spec : DataPromotionSpec F) (c : Counts) (cur : Option ℤ)
      → p.data_promotion ≡ some spec
      → data_action F p c cur ≡ (strategy_action F p spec c cur >>= λ b. ok (some b))
  unfolding data_action
  data_action-some p spec c cur present = rw (present, data_action) refl

  data_action-total :
      (p : PromotionSpec F) (c : Counts) (cur : Option ℤ)
      → has_steps p ≡ true
      → (d : Option PromotionAction) × (data_action F p c cur ≡ ok d)
        × (is_some p.data_promotion ≡ true → d ≢ none)
  unfolding data_action
  data_action-total p c cur steps = elim (Option-cases p.data_promotion) [
    | inl absent ↦ (none, rw (absent, data_action) refl, λ present. ground arith)
    | inr (spec, present) ↦
        let (a, ea) = strategy_action-total p spec c cur steps in
        (
          some a,
          data_action-some p spec c cur present ∙ ap (λ r. r >>= λ b. ok (some b)) ea,
          λ _ e. cc,
        )
  ]

  one_configured :
      (bgd : BlueGreenDeployment F) (p : PromotionSpec F)
      → bgd.spec.promotion ≡ some p
      → validate_test_configuration F bgd ≡ ok tt
      → (is_some p.data_promotion ≡ true) ⊎ (is_some p.custom ≡ true)
  unfolding validate_test_configuration
  one_configured bgd p ep valid = elim (Bool-cases (is_some p.data_promotion)) [
    | inl present ↦ inl present
    | inr absent ↦ elim (Bool-cases (is_some p.custom)) [
      | inl present ↦ inr present
      | inr none_at_all ↦ absurd (ground arith)
    ]
  ]

  -- A configuration that passes `validate_test_configuration`, has a promotion spec, and gives
  -- steps where it selects the progressive strategy, always yields a decision, never an error.
  pub validated_decides :
      (bgd : BlueGreenDeployment F) (p : PromotionSpec F) (dc cc : Counts) (cur : Option ℤ)
      → bgd.spec.promotion ≡ some p
      → validate_test_configuration F bgd ≡ ok tt
      → has_steps p ≡ true
      → (a : PromotionAction) × (decide_promotion_action F bgd dc cc cur ≡ ok a)
  validated_decides bgd p dc cc cur ep valid steps =
      let (d, ed, present) = data_action-total p dc cur steps in
      let (a, ea) = combine-total d (custom_action F p cc) (elim (one_configured bgd p ep valid) [
        | inl data_asked ↦ inl (present data_asked)
        | inr asked ↦ elim (custom_asked F p cc) [
          | inl (unasked, _) ↦ absurd (ground arith)
          | inr (_, action) ↦ inr (λ e. ground (arith, action))
        ]
      ]) in
      (
        a,
        decide-unfold bgd p dc cc cur ep
            ∙ ap (λ r. r >>= λ b. combine b (custom_action F p cc)) ed
            ∙ ea,
      )
