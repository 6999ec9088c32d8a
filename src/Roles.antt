-- ===== src/Roles.antt =====
-- Role selection: operator/src/validation.rs, and the choice of a queue worker in
-- sdk/rust/src/roles.rs. Both crates have the same seven roles.
pub mod Selection
mod Examples
use fluidbgoperator.Base.{
  ℕ, Bool, true, false, not, ◌||◌, Option, none, some, List, [], ◌∷◌, ◌++◌, if◌then◌else◌, ltb,
  ◌==◌,
}
use fluidbgoperator.Base.Lists.{length, keep, any}
use fluidbgoperator.Base.Text.{Text, codes, text_eq}
use fluidbgoperator.Base.Errors.{Checked, ok, err, ◌>>◌}
use fluidbgoperator.Crd.{
  PluginRole, duplicator, splitter, combiner, observer, mock, writer, consumer,
  PluginRoleConstraints, MutuallyExclusiveRoleGroup,
}

-- The derived `==`.
abbrev pub role_eq : PluginRole → PluginRole → Bool
role_eq duplicator duplicator = true
role_eq splitter splitter = true
role_eq combiner combiner = true
role_eq observer observer = true
role_eq mock mock = true
role_eq writer writer = true
role_eq consumer consumer = true
role_eq _ _ = false

pub has_role : List PluginRole → PluginRole → Bool
has_role roles role = any (λ r. role_eq r role) roles

pub role_name : PluginRole → Text
role_name duplicator = codes "duplicator"
role_name splitter = codes "splitter"
role_name combiner = codes "combiner"
role_name observer = codes "observer"
role_name mock = codes "mock"
role_name writer = codes "writer"
role_name consumer = codes "consumer"

-- The names joined by ", ".
pub role_list : List PluginRole → Text
unfolding role_name
role_list [] = []
role_list (r ∷ []) = role_name r
role_list (r ∷ s ∷ rs) = role_name r ++ (codes ", " ++ role_list (s ∷ rs))

-- The first loop of `validate_roles`: a role that occurs again behind itself.
pub check_repeated : List PluginRole → Checked (Unit {0})
unfolding has_role role_name
check_repeated [] = ok tt
check_repeated (role ∷ rest) =
    if has_role rest role
    then err (codes "role '" ++ (role_name role ++ codes "' is selected more than once"))
    else check_repeated rest

-- The second loop: a role that the plugin does not support.
pub check_supported : List PluginRole → List PluginRole → Checked (Unit {0})
unfolding has_role role_name role_list
check_supported available [] = ok tt
check_supported available (role ∷ rest) =
    if not (has_role available role)
    then err (
        codes "role '"
        ++ (role_name role
            ++ (codes "' is not supported by the selected plugin; supported roles: "
                ++ role_list available)))
    else check_supported available rest

pub validate_roles : List PluginRole → List PluginRole → Checked (Unit {0})
unfolding check_repeated check_supported
validate_roles available [] = err (codes "inception point must select at least one role")
validate_roles available (role ∷ rest) =
    check_repeated (role ∷ rest) >> check_supported available (role ∷ rest)

pub reason_text : Option Text → Text
reason_text none = []
reason_text (some reason) = codes " " ++ reason

pub check_groups : List PluginRole → List MutuallyExclusiveRoleGroup → Checked (Unit {0})
unfolding has_role role_list reason_text
check_groups selected [] = ok tt
check_groups selected (group ∷ groups) =
    let active = keep (has_role selected) group.roles in
    if ltb 1 (length active)
    then err (
        codes "unsupported role combination: roles "
        ++ (role_list active
            ++ (codes " are mutually exclusive for the selected plugin."
                ++ reason_text group.reason)))
    else check_groups selected groups

pub validate_role_constraints : List PluginRole → Option PluginRoleConstraints → Checked (Unit {0})
unfolding check_groups
validate_role_constraints selected none = ok tt
validate_role_constraints selected (some constraints) =
    check_groups selected constraints.mutually_exclusive

pub validate_role_selection :
    List PluginRole → List PluginRole → Option PluginRoleConstraints → Checked (Unit {0})
unfolding validate_roles validate_role_constraints
validate_role_selection available selected constraints =
    validate_roles available selected >> validate_role_constraints selected constraints

-- `field.split('.').next()`: the part before the first dot.
pub before_dot : Text → Text
before_dot [] = []
before_dot (c ∷ cs) = let rest = before_dot cs in if c == b'.' then [] else c ∷ rest

-- `shown` is the debug form of the supported namespaces in the message.
pub validate_field_namespace : Text → List Text → Text → Checked (Unit {0})
unfolding before_dot
validate_field_namespace field supported shown =
    let namespace = before_dot field in
    if not (any (λ ns. text_eq ns namespace) supported)
    then err (
        codes "field '"
        ++ (field
            ++ (codes "' uses namespace '"
                ++ (namespace ++ (codes "' which is not in supported namespaces: " ++ shown)))))
    else ok tt

pub data QueueWorkerRole : Type 0 where
  input combine : QueueWorkerRole

abbrev pub movement_roles : List PluginRole
movement_roles = duplicator ∷ splitter ∷ combiner ∷ consumer ∷ []

pub worker_of : List PluginRole → Option QueueWorkerRole
worker_of [] = none
worker_of (combiner ∷ _) = some combine
worker_of (_ ∷ _) = some input

-- `shown` is the debug form of the active roles in the message.
pub queue_worker_role : List PluginRole → Text → Checked (Option QueueWorkerRole)
unfolding has_role worker_of
queue_worker_role roles shown =
    let active = keep (has_role roles) movement_roles in
    if ltb 1 (length active)
    then err (codes "queue movement roles are mutually exclusive; selected roles: " ++ shown)
    else ok (worker_of active)
