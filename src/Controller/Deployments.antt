-- ===== src/Controller/Deployments.antt =====
-- The deployments of a rollout: operator/src/controller/deployments.rs and, of controller/resources.rs,
-- how the candidate's deployment is made.
pub mod Manifest
pub mod Candidates
pub mod Patch
pub mod Readiness
use fluidbgoperator.Base.{
  ℕ, zero, suc, Bool, true, false, not, ◌&&◌, Option, none, some, List, [], ◌∷◌, ◌++◌,
  if◌then◌else◌, unwrap_or,
}
use fluidbgoperator.Base.Text.{Text, codes, text_eq}
use fluidbgoperator.Base.Int.{ℤ, pos, ltb_ℤ}
use fluidbgoperator.Base.Map.{Map, insert}
use fluidbgoperator.Strategy.Float64.{Floats}
use fluidbgoperator.Kubernetes.{
  EnvVar, Container, DeploymentSpec, Deployment, DeploymentRef, DeploymentSelector,
  ManagedDeploymentSpec,
}
use fluidbgoperator.Kubernetes.Labels.{insert_all, without}
use fluidbgoperator.Crd.{BlueGreenDeployment}
use fluidbgoperator.Controller.{Result, ok, err, store, ◌>>=◌}
use fluidbgoperator.Controller.Status.{status_of}

abbrev pub green_label : Text
green_label = codes "fluidbg.io/green"

abbrev pub ref_label : Text
ref_label = codes "fluidbg.io/blue-green-ref"

abbrev pub uid_label : Text
uid_label = codes "fluidbg.io/blue-green-uid"

abbrev pub identity_label : Text
identity_label = codes "fluidbg.io/deployment"

-- The labels of the current green of a family.
pub green_selector : DeploymentSelector → Map Text
green_selector selector = insert green_label (codes "true") selector.match_labels

pub data AssignmentTarget : Type 0 where
  green blue test : AssignmentTarget

pub data AssignmentKind : Type 0 where
  env : AssignmentKind

pub record PropertyAssignment : Type 0 where
  pub target : AssignmentTarget
  pub kind : AssignmentKind
  pub name : Text
  pub value : Text
  pub container_name : Option Text

pub upsert_env : Text → Text → List EnvVar → List EnvVar
upsert_env name value [] = record { name = name; value = some value } ∷ []
upsert_env name value (e ∷ es) =
    if text_eq e.name name
    then record e { value = some value } ∷ es
    else e ∷ upsert_env name value es

-- The containers that an assignment names: one by its name, or all.
pub aims_at : Option Text → Text → Bool
aims_at none container = true
aims_at (some target) container = text_eq container target

pub set_env : Option Text → Text → Text → List Container → List Container
unfolding upsert_env aims_at
set_env container_name name value [] = []
set_env container_name name value (c ∷ cs) =
    (if aims_at container_name c.name then record c { env = upsert_env name value c.env } else c)
    ∷ set_env container_name name value cs

pub target_eq : AssignmentTarget → AssignmentTarget → Bool
target_eq green green = true
target_eq blue blue = true
target_eq test test = true
target_eq _ _ = false

pub set_envs : AssignmentTarget → List PropertyAssignment → List Container → List Container
unfolding set_env target_eq
set_envs target [] cs = cs
set_envs target (a ∷ as') cs =
    set_envs target as'
      (if target_eq a.target target then set_env a.container_name a.name a.value cs else cs)

pub apply_assignments_to_deployment_spec :
    AssignmentTarget → List PropertyAssignment → DeploymentSpec → Result DeploymentSpec
unfolding set_envs
apply_assignments_to_deployment_spec target assignments spec = elim spec.pod_spec [
  | none ↦ err (store (codes "deployment has no pod template spec"))
  | some containers ↦ ok (record spec { pod_spec = some (set_envs target assignments containers) })
]

-- A change of the labels of the object and of its pods.
pub relabel : (Map Text → Map Text) → Deployment → Result Deployment
relabel change d =
    let missing : Result Deployment = err (store (codes "deployment template metadata missing")) in
    elim d.spec [
      | none ↦ missing
      | some spec ↦ elim spec.template_labels [
        | none ↦ missing
        | some labels ↦ ok (record d {
          labels = change d.labels;
          spec = some (record spec { template_labels = some (change labels) });
        })
      ]
    ]

pub apply_family_labels_to_deployment : Map Text → Deployment → Result Deployment
unfolding relabel
apply_family_labels_to_deployment [] d =
    err (store (codes "selector.matchLabels must contain at least one label"))
apply_family_labels_to_deployment (l ∷ ls) d = relabel (insert_all (l ∷ ls)) d

pub set_green_label : Bool → Deployment → Result Deployment
unfolding relabel
set_green_label is_green d =
    relabel (insert green_label (if is_green then codes "true" else codes "false")) d

pub clear_rollout_candidate_labels : Deployment → Result Deployment
unfolding relabel
clear_rollout_candidate_labels d =
    relabel (λ labels. without uid_label (without ref_label labels)) d

pub apply_runtime_identity_selector : Text → Deployment → Result Deployment
apply_runtime_identity_selector name d = elim d.spec [
  | none ↦ err (store (codes "deployment spec missing"))
  | some spec ↦ elim spec.template_labels [
    | none ↦ err (store (codes "deployment template metadata missing"))
    | some labels ↦ ok (record d {
      spec = some (record spec {
        selector_labels = insert identity_label name spec.selector_labels;
        template_labels = some (insert identity_label name labels);
      });
    })
  ]
]

-- `deployment_is_ready`: the latest generation is observed, updated and available.
pub deployment_is_ready : Deployment → Bool
deployment_is_ready d = elim d.spec [
  | none ↦ false
  | some spec ↦ elim d.status [
    | none ↦ false
    | some status ↦
        let replicas = unwrap_or spec.replicas (pos 1) in
        let desired = if ltb_ℤ replicas (pos 0) then pos 0 else replicas in
        let at_least = λ (o : Option ℤ) (least : ℤ). not (ltb_ℤ (unwrap_or o (pos 0)) least) in
        at_least status.observed_generation (unwrap_or d.generation (pos 0))
        && (at_least status.updated_replicas desired && at_least status.available_replicas desired)
  ]
]

-- The attempts left, and what the API server answers to each, the next one first; it is read every
-- two seconds.
pub wait_for_deployment_ready : Text → Text → ℕ → (ℕ → Result Deployment) → Result (Unit {0})
unfolding deployment_is_ready
wait_for_deployment_ready namespace name zero observe = err (
    store (
      codes "deployment '"
      ++ (namespace ++ (b'/' ∷ (name ++ codes "' did not become ready after rollout")))))
wait_for_deployment_ready namespace name (suc left) observe =
    let later = wait_for_deployment_ready namespace name left (λ i. observe (suc i)) in
    observe 0 >>= λ current. if deployment_is_ready current then ok tt else later

unfoldable pub deployment_namespace : DeploymentRef → Text → Text
deployment_namespace r default_namespace = unwrap_or r.namespace default_namespace

pub deployment_namespace_spec : ManagedDeploymentSpec → Text → Text
deployment_namespace_spec spec default_namespace = unwrap_or spec.namespace default_namespace

module _ (F : Floats) where
  unfoldable pub candidate_ref : BlueGreenDeployment F → DeploymentRef
  candidate_ref bgd = record {
    name =
        unwrap_or (status_of F bgd).generated_deployment_name
          (unwrap_or bgd.metadata.name (codes "bgd") ++ codes "-pending");
    namespace = bgd.spec.deployment.namespace;
  }

  pub apply_rollout_candidate_labels : BlueGreenDeployment F → Deployment → Result Deployment
  unfolding relabel
  apply_rollout_candidate_labels bgd d =
      relabel
        (λ labels.
          insert uid_label (unwrap_or bgd.metadata.uid [])
            (insert ref_label (unwrap_or bgd.metadata.name []) labels))
        d

  -- The object that `apply_deployment_manifest` writes. `patched` is `deployment_spec_with_test_patch`.
  pub deployment_manifest :
      BlueGreenDeployment F
      → Text
      → Result DeploymentSpec
      → Bool
      → List PropertyAssignment
      → Result Deployment
  unfolding candidate_ref deployment_namespace_spec apply_assignments_to_deployment_spec
      apply_family_labels_to_deployment set_green_label clear_rollout_candidate_labels
      apply_rollout_candidate_labels apply_runtime_identity_selector
  deployment_manifest bgd default_namespace patched is_green assignments =
      let candidate = candidate_ref bgd in
      let base = if is_green then ok bgd.spec.deployment.spec else patched in
      base >>= λ spec.
      (if is_green then ok spec else apply_assignments_to_deployment_spec blue assignments spec)
      >>= λ assigned.
          apply_family_labels_to_deployment bgd.spec.selector.match_labels (record {
            name = some candidate.name;
            namespace = deployment_namespace_spec bgd.spec.deployment default_namespace;
            generation = none;
            labels = [];
            spec = some assigned;
            status = none;
          })
          >>= λ family. set_green_label is_green family >>= λ labeled.
              (if is_green
                then clear_rollout_candidate_labels labeled
                else apply_rollout_candidate_labels bgd labeled)
              >>= λ cleared. apply_runtime_identity_selector candidate.name cleared
