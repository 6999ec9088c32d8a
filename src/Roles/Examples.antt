-- ===== src/Roles/Examples.antt =====
-- The properties of role selection at a selection for a queue plugin.
use fluidbgoperator.Base.{◌≡◌, ◌↔◌, refl, true, Option, none, some, [], ◌∷◌, List}
use fluidbgoperator.Base.Lists.{keep}
use fluidbgoperator.Base.Text.{codes}
use fluidbgoperator.Base.Errors.{ok}
use fluidbgoperator.Crd.{
  PluginRole, duplicator, splitter, combiner, observer, consumer, PluginRoleConstraints,
}
use fluidbgoperator.Roles.{
  has_role, validate_role_selection, validate_roles, check_repeated, check_supported,
  validate_role_constraints, check_groups, QueueWorkerRole, combine, movement_roles,
  queue_worker_role,
}
use fluidbgoperator.Roles.Selection.{selection_starts_worker}

abbrev supported : List PluginRole
supported = duplicator ∷ splitter ∷ combiner ∷ observer ∷ consumer ∷ []

abbrev selected : List PluginRole
selected = combiner ∷ observer ∷ []

abbrev one_movement : PluginRoleConstraints
one_movement = record { mutually_exclusive = record { roles = movement_roles; reason = none } ∷ [] }

accepted : validate_role_selection supported selected (some one_movement) ≡ ok tt
unfolding validate_role_selection validate_roles check_repeated check_supported
    validate_role_constraints check_groups has_role
accepted = refl

selection_starts_worker_example :
    (w : Option QueueWorkerRole) × (queue_worker_role selected (codes "[Combiner, Observer]")
      ≡ ok w)
    × ((w ≡ some combine) ↔ (has_role selected combiner ≡ true))
    × ((w ≡ none) ↔ (keep (has_role selected) movement_roles ≡ []))
selection_starts_worker_example =
    selection_starts_worker supported selected one_movement none [] (codes "[Combiner, Observer]")
      accepted refl
