-- ===== src/Controller/Rollout.antt =====
-- The switch from green to candidate: operator/src/controller/phases/rollout.rs, and of
-- controller/deployments.rs the calls that read and change the cluster. What the API server, the
-- plugins and the candidate's pods answer is an argument; a call that fails changes nothing.
pub mod Greens
pub mod Selection
pub mod Steps
pub mod Promotion
mod Examples
use fluidbgoperator.Base.{
  ℕ, suc, Bool, true, false, not, ◌&&◌, ◌||◌, Option, none, some, List, [], ◌∷◌, ◌++◌,
  if◌then◌else◌, unwrap_or,
}
use fluidbgoperator.Base.Lists.{length}
use fluidbgoperator.Base.Text.{decimal, Text, codes, text_eq, is_empty}
use fluidbgoperator.Base.Map.{Map}
use fluidbgoperator.Strategy.Float64.{Floats}
use fluidbgoperator.Kubernetes.{
  DeploymentSpec, Deployment, DeploymentRef, DeploymentSelector, Cluster, list_labeled, put, remove,
}
use fluidbgoperator.Crd.{BlueGreenDeployment}
use fluidbgoperator.Controller.{Result, ok, err, store, ReconcileError, ◌>>=◌ as ◌and_then◌}
use fluidbgoperator.Controller.Steps.{Step, done, fail, ◌>>=◌, ◌>>◌}
use fluidbgoperator.Controller.Deployments.{
  PropertyAssignment, set_green_label, wait_for_deployment_ready, deployment_namespace,
  candidate_ref, deployment_manifest, green_selector,
}

pub data RolloutCall : Type 0 where
  list_greens list_family get_deployment write_deployment adopt_green start_draining : RolloutCall
  delete_green delete_candidate : RolloutCall

-- `observed` is what the API server shows of the candidate while the operator waits for it, and
-- `patched` what `deployment_spec_with_test_patch` makes of its specification.
pub record RolloutAnswers : Type 0 where
  pub answer : RolloutCall → Result (Unit {0})
  pub observed : ℕ → Result Deployment
  pub patched : Result DeploymentSpec

abbrev pub count_text : List DeploymentRef → Text
count_text ds = decimal (length ds)

-- The loop of `select_previous_green_for_promotion`: whether the candidate was seen, and the others.
pub scan_greens : Text → (Text → Bool) → List Deployment → Result (Bool × List DeploymentRef)
scan_greens green_namespace is_candidate [] = ok (false, [])
scan_greens green_namespace is_candidate (d ∷ ds) =
    let rest = scan_greens green_namespace is_candidate ds in
    elim d.name [
      | none ↦ err (store (codes "selected green deployment has no name"))
      | some name ↦ elim rest [
        | err e ↦ err e
        | ok (seen, previous) ↦
            if is_candidate name
            then ok (true, previous)
            else ok (seen, record { name = name; namespace = some green_namespace } ∷ previous)
      ]
    ]

-- The `match` on both.
pub choose_previous : Text → DeploymentRef → Bool → List DeploymentRef → Result DeploymentRef
choose_previous ns candidate true (d ∷ []) = ok d
choose_previous ns candidate true [] = ok candidate
choose_previous ns candidate true (d ∷ e ∷ ds) = err (
    store (
      codes "promotion found candidate plus "
      ++ (count_text (d ∷ e ∷ ds)
          ++ (codes " previous green deployments in namespace '"
              ++ (ns ++ codes "'; expected at most one previous green")))))
choose_previous ns candidate false (d ∷ []) = ok d
choose_previous ns candidate false [] =
    err (store (codes "selector matched no green deployments in namespace '" ++ (ns ++ codes "'")))
choose_previous ns candidate false (d ∷ e ∷ ds) = err (
    store (
      codes "selector matched "
      ++ (count_text (d ∷ e ∷ ds)
          ++ (codes " green deployments in namespace '"
              ++ (ns
                  ++ codes
                      "'; expected exactly one or an in-progress promotion candidate plus previous green")))))

pub select_previous_green_for_promotion :
    Text → List Deployment → DeploymentRef → Text → Result DeploymentRef
unfolding scan_greens choose_previous
select_previous_green_for_promotion green_namespace greens candidate default_namespace =
    let same_namespace =
      text_eq green_namespace (deployment_namespace candidate default_namespace) in
    elim (scan_greens green_namespace (λ name. text_eq name candidate.name && same_namespace)
      greens) [
        | err e ↦ err e
        | ok (seen, previous) ↦ choose_previous green_namespace candidate seen previous
      ]

abbrev pub green_namespace_of : DeploymentSelector → Text → Text
green_namespace_of selector namespace = unwrap_or selector.namespace namespace

abbrev pub has_no_labels : DeploymentSelector → Bool
has_no_labels selector = elim selector.match_labels [ [] ↦ true | _ ∷ _ ↦ false ]

abbrev pub no_labels : ReconcileError
no_labels = store (codes "selector.matchLabels must contain at least one label")

module _ (answers : RolloutAnswers) where
  pub ask : RolloutCall → Step Cluster (Unit {0})
  ask call = λ c. (answers.answer call, c)

  pub list_now : RolloutCall → Text → Map Text → Step Cluster (List Deployment)
  unfolding ask
  list_now call namespace wanted = ask call >> (λ c. (ok (list_labeled namespace wanted c), c))

  pub change : (Cluster → Cluster) → Step Cluster (Unit {0})
  change f = λ c. (ok tt, f c)

  abbrev pub of_result : {A : Type 0} → Result A → Step Cluster A
  of_result r = λ c. (r, c)

  pub resolve_previous_green_for_promotion :
      Text → DeploymentSelector → DeploymentRef → Step Cluster DeploymentRef
  unfolding list_now select_previous_green_for_promotion
  resolve_previous_green_for_promotion namespace selector candidate =
      if has_no_labels selector
      then fail no_labels
      else (list_now list_greens (green_namespace_of selector namespace) (green_selector selector)
          >>= λ greens. of_result (
              select_previous_green_for_promotion (green_namespace_of selector namespace) greens
                candidate namespace))

  pub delete_current_green : Text → DeploymentRef → DeploymentRef → Step Cluster (Unit {0})
  unfolding ask change
  delete_current_green namespace candidate green =
      let candidate_namespace = deployment_namespace candidate namespace in
      let green_namespace = deployment_namespace green namespace in
      if text_eq candidate.name green.name && text_eq candidate_namespace green_namespace
      then done tt
      else (ask delete_green >> change (remove green_namespace green.name))

module _ (F : Floats) (answers : RolloutAnswers) where
  -- The name and the namespace are those of the object.
  pub apply_deployment_manifest :
      BlueGreenDeployment F → Text → Bool → List PropertyAssignment → Step Cluster (Unit {0})
  unfolding ask change
  apply_deployment_manifest bgd namespace is_green assignments = do
    d ← of_result answers (deployment_manifest F bgd namespace answers.patched is_green assignments)
    ask answers get_deployment
    ask answers write_deployment
    change answers (put d.namespace (candidate_ref F bgd).name d)

  pub promote_candidate : BlueGreenDeployment F → Text → Step Cluster DeploymentRef
  unfolding resolve_previous_green_for_promotion apply_deployment_manifest
  promote_candidate bgd namespace = do
    current_green ←
        resolve_previous_green_for_promotion answers namespace bgd.spec.selector
          (candidate_ref F bgd)
    apply_deployment_manifest bgd namespace true []
    of_result answers (
        wait_for_deployment_ready (deployment_namespace (candidate_ref F bgd) namespace)
          (candidate_ref F bgd).name 60 answers.observed)
    done current_green

  pub begin_draining_after_promotion :
      BlueGreenDeployment F → Text → DeploymentRef → Step Cluster (Unit {0})
  unfolding ask delete_current_green
  begin_draining_after_promotion bgd namespace previous_green = do
    ask answers start_draining
    delete_current_green answers namespace (candidate_ref F bgd) previous_green

  pub begin_draining_after_rollback : BlueGreenDeployment F → Text → Step Cluster (Unit {0})
  unfolding ask change
  begin_draining_after_rollback bgd namespace = do
    ask answers start_draining
    ask answers delete_candidate
    change answers
        (remove (deployment_namespace (candidate_ref F bgd) namespace) (candidate_ref F bgd).name)

  -- The switch of a pass in the phase `Promoting`.
  pub switch_traffic : BlueGreenDeployment F → Text → Step Cluster (Unit {0})
  unfolding promote_candidate begin_draining_after_promotion
  switch_traffic bgd namespace = do
    previous_green ← promote_candidate bgd namespace
    begin_draining_after_promotion bgd namespace previous_green

  pub bootstrap_initial_green_if_empty : BlueGreenDeployment F → Text → Step Cluster Bool
  unfolding list_now apply_deployment_manifest
  bootstrap_initial_green_if_empty bgd namespace =
      let selector = bgd.spec.selector in
      if has_no_labels selector
      then fail no_labels
      else (list_now answers list_family (green_namespace_of selector namespace)
            selector.match_labels
          >>= λ family. elim family [
            | _ ∷ _ ↦ done false
            | [] ↦ (apply_deployment_manifest bgd namespace true [] >> done true)
          ])
