-- ===== src/Controller/Status/Writers/Examples.antt =====
-- Calls of the writers of the status, two of them stale.
use fluidbgoperator.Base.{refl, true, none, some, List, [], ◌∷◌}
use fluidbgoperator.Base.Text.{codes}
use fluidbgoperator.Base.Int.{pos}
use fluidbgoperator.Fixtures.{rollout}
use fluidbgoperator.Strategy.FixedPoint.{fixed_point}
use fluidbgoperator.Crd.{draining, BlueGreenDeployment}
use fluidbgoperator.Controller.Status.{
  Reply, phase_transition_is_current, latest_phase, observed_generation, generation,
  update_status_phase, current_rollout_generation,
}
use fluidbgoperator.Controller.Status.Transitions.{Precedes}
use fluidbgoperator.Controller.Status.Writers.{patch_status, reset_status_for_new_rollout}
use fluidbgoperator.Controller.Status.Writers.Runs.{
  StatusWrite, sets_phase, resets, invalidates, apply_write, run_writes, AreTimely,
  run_writes-Precedes,
}

abbrev accepted : Reply
accepted = record { read_ok = true; write_ok = true }

-- The deployment with a later specification.
abbrev edited : BlueGreenDeployment fixed_point
edited = record rollout {
  metadata = record rollout.metadata { generation = some (pos 3) };
  status = none;
}

-- The reset for the later specification, its rejection, and a stale phase.
abbrev writes : List (StatusWrite fixed_point)
writes =
    resets (pos 101) accepted edited
    ∷ invalidates (pos 102) accepted (codes "InvalidSpec") (codes "no steps") edited
    ∷ sets_phase (pos 103) accepted rollout draining
    ∷ []

writes-AreTimely : AreTimely fixed_point writes rollout
unfolding apply_write phase_transition_is_current latest_phase observed_generation generation
    update_status_phase reset_status_for_new_rollout current_rollout_generation patch_status
writes-AreTimely = (refl, (refl, (tt, tt)))

run_writes-Precedes_example : Precedes fixed_point rollout (run_writes fixed_point writes rollout)
run_writes-Precedes_example = run_writes-Precedes fixed_point writes rollout writes-AreTimely
