-- ===== src/Controller/Draining/Forward.antt =====
-- A drain round of operator/src/controller/phases/draining.rs does not move the phase back.
use fluidbgoperator.Base.{inl, inr, Option, List, ltb, Bool-cases}
use fluidbgoperator.Base.Lists.{any}
use fluidbgoperator.Base.Text.{Text}
use fluidbgoperator.Base.Int.{ℤ}
use fluidbgoperator.Store.{Counts}
use fluidbgoperator.Strategy.{actual_rate}
use fluidbgoperator.Strategy.Float64.{Floats}
use fluidbgoperator.Crd.{InceptionPointDrainStatus, BlueGreenDeployment}
use fluidbgoperator.Controller.{Result-cases}
use fluidbgoperator.Controller.Status.{status_of}
use fluidbgoperator.Controller.Status.Writers.Forward.{
  Forward, same-Forward, Forward-trans, set_phase-Forward, update_status_counts-Forward,
  update_inception_point_drain_statuses-Forward,
}
use fluidbgoperator.Controller.Draining.{
  is_pending, of_store, Answers, drain_points, elapsed_seconds, final_phase, settle, with_statuses,
  reconcile_draining,
}

module _ (F : Floats) where
  settle-Forward :
      (now : ℤ) (answers : Answers) (bgd : BlueGreenDeployment F) (c : Counts)
      (message : Option Text) (stored : BlueGreenDeployment F)
      → Forward F stored (settle F now answers bgd c message stored).1
  unfolding settle
  settle-Forward now answers bgd c message stored =
      let counted =
        update_status_counts-Forward F answers.counts_reply c (actual_rate F c) message bgd
          stored in
      elim (Bool-cases (ltb 0 c.pending)) [
        | inl waits ↦ rw waits counted
        | inr over ↦ rw over (elim (Result-cases answers.cleanup) [
          | inr (e, failed) ↦ rw failed counted
          | inl (_, cleaned) ↦ rw cleaned (
              Forward-trans F stored _ _ counted
                (set_phase-Forward F now answers.phase_reply bgd (final_phase F bgd c) _))
        ])
      ]

  with_statuses-Forward :
      (now : ℤ) (answers : Answers) (bgd : BlueGreenDeployment F)
      (statuses : List InceptionPointDrainStatus) (stored : BlueGreenDeployment F)
      → Forward F stored (with_statuses F now answers bgd statuses stored).1
  unfolding with_statuses
  with_statuses-Forward now answers bgd statuses stored =
      let updated =
        update_inception_point_drain_statuses-Forward F answers.statuses_reply statuses bgd
          stored in
      elim (Bool-cases (any is_pending statuses)) [
        | inl waits ↦ rw waits updated
        | inr over ↦ rw over (elim (Result-cases (of_store answers.counts)) [
          | inr (e, failed) ↦ rw failed updated
          | inl (c, counted) ↦
              rw counted (elim (Result-cases (of_store answers.latest_failure_message)) [
                | inr (e, failed) ↦ rw failed updated
                | inl (message, read) ↦ rw read (
                    Forward-trans F stored _ _ updated (settle-Forward now answers bgd c message _))
              ])
        ])
      ]

  pub reconcile_draining-Forward :
      (now : ℤ) (answers : Answers) (bgd stored : BlueGreenDeployment F)
      → Forward F stored (reconcile_draining F now answers bgd stored).1
  unfolding reconcile_draining
  reconcile_draining-Forward now answers bgd stored =
      elim (Result-cases (
        drain_points now (elapsed_seconds F now bgd) (status_of F bgd).inception_point_drains
          answers.ask bgd.spec.inception_points)) [
            | inr (e, failed) ↦ rw (failed, reconcile_draining) (same-Forward F stored)
            | inl (statuses, asked) ↦
                rw (asked, reconcile_draining)
                  (with_statuses-Forward now answers bgd statuses stored)
          ]
