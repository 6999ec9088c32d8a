-- ===== src/Controller/Draining/Outcome.antt =====
-- The round that ends a drain, of operator/src/controller/phases/draining.rs.
use fluidbgoperator.Base.{
  ◌≡◌, refl, ◌∙◌, inl, inr, false, ◌&&◌, Option, some, List, [], ◌∷◌, arith, Bool-cases,
  Option-cases,
}
use fluidbgoperator.Base.Lists.{any, All}
use fluidbgoperator.Base.Text.{Text, text_eq}
use fluidbgoperator.Base.Int.{ℤ, ◌≤ℤ◌, ltb_ℤ}
use fluidbgoperator.Store
use fluidbgoperator.Store.{Counts}
use fluidbgoperator.Strategy.Float64.{Floats}
use fluidbgoperator.Crd.{InceptionPointDrainStatus, InceptionPoint, BlueGreenDeployment}
use fluidbgoperator.Controller.{Result, ok}
use fluidbgoperator.Controller.Status.{status_of, update_status_phase}
use fluidbgoperator.Strategy.{actual_rate}
use fluidbgoperator.Controller.Status.Writers.{
  update_inception_point_drain_statuses, update_status_counts,
}
use fluidbgoperator.Controller.Draining.{
  max_wait, timed_out_status, PluginDrainStatus, is_final, find_final, drain_point, drain_points,
  is_pending, of_store, Answers, final_phase, elapsed_seconds, settle, with_statuses,
  reconcile_draining,
}

find_final-not_pending :
    (name : Text) (prev : List InceptionPointDrainStatus) (s : InceptionPointDrainStatus)
    → find_final name prev ≡ some s
    → is_pending s ≡ false
unfolding find_final is_pending
find_final-not_pending name [] s e = absurd (cc)
find_final-not_pending name (p ∷ prev) s e =
    elim (Bool-cases (text_eq p.name name && is_final p.phase)) [
      | inl hit ↦ ground (arith, hit)
      | inr miss ↦ find_final-not_pending name prev s (rw miss at e)
    ]

point_over :
    (now elapsed : ℤ) (prev : List InceptionPointDrainStatus)
    (ask : InceptionPoint → Result (Option PluginDrainStatus)) (ip : InceptionPoint)
    → max_wait ip ≤ℤ elapsed
    → (s : InceptionPointDrainStatus) × (drain_point now elapsed prev ask ip ≡ ok s)
      × (is_pending s ≡ false)
unfolding drain_point is_pending timed_out_status is_final
point_over now elapsed prev ask ip over = elim (Option-cases (find_final ip.name prev)) [
  | inr (s, found) ↦ (s, rw (found, drain_point) refl, find_final-not_pending ip.name prev s found)
  | inl absent ↦
      let late : ltb_ℤ elapsed (max_wait ip) ≡ false = ground arith in
      (timed_out_status now ip, rw (absent, drain_point) (rw late refl), refl)
]

drain_points-over :
    (now elapsed : ℤ) (prev : List InceptionPointDrainStatus)
    (ask : InceptionPoint → Result (Option PluginDrainStatus)) (ips : List InceptionPoint)
    → All (λ ip. max_wait ip ≤ℤ elapsed) ips
    → (ss : List InceptionPointDrainStatus) × (drain_points now elapsed prev ask ips ≡ ok ss)
      × (any is_pending ss ≡ false)
unfolding drain_points
drain_points-over now elapsed prev ask [] over = ([], refl, refl)
drain_points-over now elapsed prev ask (ip ∷ ips) over =
    let (s, one, final) = point_over now elapsed prev ask ip over.0 in
    let (ss, rest, finals) = drain_points-over now elapsed prev ask ips over.1 in
    (s ∷ ss, rw (one, rest) refl, rw (final, finals) refl)

module _ (F : Floats) where
  settles :
      (now : ℤ) (answers : Answers) (bgd stored : BlueGreenDeployment F) (c : Counts)
      (message : Option Text)
      → c.pending ≡ 0
      → answers.cleanup ≡ ok tt
      → (counted : BlueGreenDeployment F) × (settle F now answers bgd c message stored ≡ (
        ok tt,
        update_status_phase F now answers.phase_reply bgd (final_phase F bgd c) counted,
      ))
  unfolding settle
  settles now answers bgd stored c message decided cleaned = (
    update_status_counts F answers.counts_reply c (actual_rate F c) message bgd stored,
    rw (cleaned, settle) (rw decided refl),
  )

  reconcile-with_statuses :
      (now : ℤ) (answers : Answers) (bgd stored : BlueGreenDeployment F)
      (ss : List InceptionPointDrainStatus)
      → drain_points now
          (elapsed_seconds F now bgd)
          (status_of F bgd).inception_point_drains
          answers.ask
          bgd.spec.inception_points
        ≡ ok ss
      → reconcile_draining F now answers bgd stored ≡ with_statuses F now answers bgd ss stored
  unfolding reconcile_draining
  reconcile-with_statuses now answers bgd stored ss made = rw (made, reconcile_draining) refl

  with_statuses-settle :
      (now : ℤ) (answers : Answers) (bgd stored : BlueGreenDeployment F)
      (ss : List InceptionPointDrainStatus) (c : Counts) (message : Option Text)
      → any is_pending ss ≡ false
      → answers.counts ≡ Store.Result.ok c
      → answers.latest_failure_message ≡ Store.Result.ok message
      → with_statuses F now answers bgd ss stored
        ≡ settle F now answers bgd c message
            (update_inception_point_drain_statuses F answers.statuses_reply ss bgd stored)
  unfolding with_statuses of_store
  with_statuses-settle now answers bgd stored ss c message final ec em =
      rw (final, with_statuses) (ground (arith, ec, em))

  -- A drain is bounded. Once every inception point has waited as long as it may, the round ends the
  -- drain, whatever the plugins answer, if the store answers, no case is pending and the clean-up
  -- calls succeed: the last write of the round asks for the final phase.
  pub drain_ends :
      (now : ℤ) (answers : Answers) (bgd stored : BlueGreenDeployment F) (c : Counts)
      (message : Option Text)
      → All (λ ip. max_wait ip ≤ℤ elapsed_seconds F now bgd) bgd.spec.inception_points
      → answers.counts ≡ Store.Result.ok c
      → answers.latest_failure_message ≡ Store.Result.ok message
      → c.pending ≡ 0
      → answers.cleanup ≡ ok tt
      → (counted : BlueGreenDeployment F) × (reconcile_draining F now answers bgd stored ≡ (
        ok tt,
        update_status_phase F now answers.phase_reply bgd (final_phase F bgd c) counted,
      ))
  drain_ends now answers bgd stored c message over ec em decided cleaned =
      let (ss, made, final) =
        drain_points-over now (elapsed_seconds F now bgd) (status_of F bgd).inception_point_drains
          answers.ask bgd.spec.inception_points over in
      let updated = update_inception_point_drain_statuses F answers.statuses_reply ss bgd stored in
      let (counted, ends) = settles now answers bgd updated c message decided cleaned in
      (
        counted,
        reconcile-with_statuses now answers bgd stored ss made
            ∙ with_statuses-settle now answers bgd stored ss c message final ec em
            ∙ ends,
      )
