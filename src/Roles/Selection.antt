-- ===== src/Roles/Selection.antt =====
-- What a valid selection of roles is.
use fluidbgoperator.Base.{
  ◌≤◌, ◌≡◌, ◌≢◌, ◌↔◌, refl, true, false, Option, none, some, List, [], ◌∷◌, arith,
}
use fluidbgoperator.Base.Lists.{length, keep, All}
use fluidbgoperator.Base.Text.{Text}
use fluidbgoperator.Base.Errors.{ok}
use fluidbgoperator.Crd.{PluginRole, combiner, MutuallyExclusiveRoleGroup, PluginRoleConstraints}
use fluidbgoperator.Roles.{
  has_role, check_repeated, check_supported, validate_roles, check_groups,
  validate_role_constraints, validate_role_selection, QueueWorkerRole, combine, movement_roles,
  worker_of, queue_worker_role,
}

abbrev pub NoRepeats : List PluginRole → Type 0
NoRepeats [] = Unit
NoRepeats (r ∷ rs) = (has_role rs r ≡ false) × NoRepeats rs

check_repeated_iff : (rs : List PluginRole) → (check_repeated rs ≡ ok tt) ↔ NoRepeats rs
unfolding check_repeated
check_repeated_iff [] = (λ _. tt, λ _. refl)
check_repeated_iff (r ∷ rs) =
    let ih = check_repeated_iff rs in (λ h. ground (arith, ih), λ h. ground (arith, ih))

check_supported_iff :
    (av rs : List PluginRole) → (check_supported av rs ≡ ok tt) ↔ All (λ r. has_role av r ≡ true) rs
unfolding check_supported
check_supported_iff av [] = (λ _. tt, λ _. refl)
check_supported_iff av (r ∷ rs) =
    let ih = check_supported_iff av rs in (λ h. ground (arith, ih), λ h. ground (arith, ih))

check_groups_iff :
    (sel : List PluginRole) (gs : List MutuallyExclusiveRoleGroup)
    → (check_groups sel gs ≡ ok tt) ↔ All (λ g. length (keep (has_role sel) g.roles) ≤ 1) gs
unfolding check_groups
check_groups_iff sel [] = (λ _. tt, λ _. refl)
check_groups_iff sel (g ∷ gs) =
    let ih = check_groups_iff sel gs in (λ h. ground (arith, ih), λ h. ground (arith, ih))

validate_roles_iff :
    (av sel : List PluginRole)
    → (validate_roles av sel ≡ ok tt)
      ↔ ((sel ≢ []) × NoRepeats sel × All (λ r. has_role av r ≡ true) sel)
unfolding validate_roles
validate_roles_iff av [] = (λ h. absurd (ground arith), λ h. absurd (h.0 refl))
validate_roles_iff av (r ∷ rs) =
    let once = check_repeated_iff (r ∷ rs) in
    let known = check_supported_iff av (r ∷ rs) in
    (
      λ h. (λ e. ground arith, once.0 (ground arith), known.0 (ground arith)),
      λ h. ground (arith, once.1 h.1, known.1 h.2),
    )

-- A selection is accepted exactly when it is not empty, names no role twice, names only roles that
-- the plugin supports, and takes at most one role of each mutually exclusive group.
pub validate_role_selection_iff :
    (av sel : List PluginRole) (c : PluginRoleConstraints)
    → (validate_role_selection av sel (some c) ≡ ok tt) ↔ (
        (sel ≢ [])
        × NoRepeats sel
        × All (λ r. has_role av r ≡ true) sel
        × All (λ g. length (keep (has_role sel) g.roles) ≤ 1) c.mutually_exclusive)
unfolding validate_role_selection validate_role_constraints
validate_role_selection_iff av sel c =
    let roles = validate_roles_iff av sel in
    let groups = check_groups_iff sel c.mutually_exclusive in
    (
      λ h. let r = roles.0 (ground arith) in (r.0, r.1, r.2, groups.0 (ground arith)),
      λ h. ground (arith, roles.1 (h.0, h.1, h.2), groups.1 h.3),
    )

one_worker :
    (sel : List PluginRole) (shown : Text)
    → length (keep (has_role sel) movement_roles) ≤ 1
    → (w : Option QueueWorkerRole) × (queue_worker_role sel shown ≡ ok w)
      × ((w ≡ some combine) ↔ (has_role sel combiner ≡ true))
      × ((w ≡ none) ↔ (keep (has_role sel) movement_roles ≡ []))
unfolding queue_worker_role worker_of
one_worker sel shown h = (
  worker_of (keep (has_role sel) movement_roles),
  ground arith,
  (λ e. ground arith, λ e. ground arith),
  (λ e. ground arith, λ e. ground arith),
)

-- The operator's validation makes the plugin's start succeed. If a selection is accepted under
-- constraints that make the four movement roles exclusive, as those of the queue plugins do, then
-- the plugin chooses a queue worker without error: the combiner exactly when that role is
-- selected, and none exactly when no movement role is.
pub selection_starts_worker :
    (av sel : List PluginRole) (c : PluginRoleConstraints) (reason : Option Text)
    (rest : List MutuallyExclusiveRoleGroup) (shown : Text)
    → validate_role_selection av sel (some c) ≡ ok tt
    → c.mutually_exclusive ≡ record { roles = movement_roles; reason = reason } ∷ rest
    → (w : Option QueueWorkerRole) × (queue_worker_role sel shown ≡ ok w)
      × ((w ≡ some combine) ↔ (has_role sel combiner ≡ true))
      × ((w ≡ none) ↔ (keep (has_role sel) movement_roles ≡ []))
selection_starts_worker av sel c reason rest shown valid groups =
    one_worker sel shown (rw groups at ((validate_role_selection_iff av sel c).0 valid).3).0
