-- ===== src/Kubernetes.antt =====
-- The fields of Kubernetes deployments that the operator reads and writes, and the deployments of a
-- cluster as the API server holds them: a listing selects by namespace and labels, and an object is
-- replaced, created and deleted by its namespace and its name.
pub mod Labels
use fluidbgoperator.Base.{
  Bool, true, false, not, ◌&&◌, Option, none, some, List, [], ◌∷◌, if◌then◌else◌,
}
use fluidbgoperator.Base.Lists.{all, keep}
use fluidbgoperator.Base.Text.{Text, text_eq, option_text_eq}
use fluidbgoperator.Base.Int.{ℤ}
use fluidbgoperator.Base.Map.{Map, lookup}

pub record EnvVar : Type 0 where
  pub name : Text
  pub value : Option Text

pub record Container : Type 0 where
  pub name : Text
  pub env : List EnvVar

-- `template_labels` is nothing where the template has no metadata; absent labels are no labels.
pub record DeploymentSpec : Type 0 where
  pub replicas : Option ℤ
  pub selector_labels : Map Text
  pub template_labels : Option (Map Text)
  pub pod_spec : Option (List Container)

pub record DeploymentStatus : Type 0 where
  pub observed_generation : Option ℤ
  pub updated_replicas : Option ℤ
  pub available_replicas : Option ℤ

pub record Deployment : Type 0 where
  pub name : Option Text
  pub namespace : Text
  pub generation : Option ℤ
  pub labels : Map Text
  pub spec : Option DeploymentSpec
  pub status : Option DeploymentStatus

pub record DeploymentRef : Type 0 where
  pub name : Text
  pub namespace : Option Text

pub record DeploymentSelector : Type 0 where
  pub namespace : Option Text
  pub match_labels : Map Text

pub record ManagedDeploymentSpec : Type 0 where
  pub namespace : Option Text
  pub spec : DeploymentSpec

abbrev pub Cluster : Type 0
Cluster = List Deployment

-- An equality-based label selector.
unfoldable pub has_labels : Map Text → Map Text → Bool
has_labels [] labels = true
has_labels ((k, v) ∷ wanted) labels =
    option_text_eq (lookup k labels) (some v) && has_labels wanted labels

abbrev pub is_named : Text → Text → Deployment → Bool
is_named namespace name d = text_eq d.namespace namespace && option_text_eq d.name (some name)

abbrev pub is_selected : Text → Map Text → Deployment → Bool
is_selected namespace wanted d = text_eq d.namespace namespace && has_labels wanted d.labels

abbrev pub list_labeled : Text → Map Text → Cluster → List Deployment
list_labeled namespace wanted = keep (is_selected namespace wanted)

unfoldable pub find : Text → Text → Cluster → Option Deployment
find namespace name [] = none
find namespace name (d ∷ ds) = if is_named namespace name d then some d else find namespace name ds

-- A replacement of the object of that name, or its creation.
unfoldable pub put : Text → Text → Deployment → Cluster → Cluster
put namespace name new [] = new ∷ []
put namespace name new (d ∷ ds) =
    if is_named namespace name d then new ∷ ds else d ∷ put namespace name new ds

abbrev pub remove : Text → Text → Cluster → Cluster
remove namespace name = keep (λ d. not (is_named namespace name d))
