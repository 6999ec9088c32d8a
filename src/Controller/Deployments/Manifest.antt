-- ===== src/Controller/Deployments/Manifest.antt =====
-- What the manifest of a promoted candidate is: its name, its namespace and its labels.
use fluidbgoperator.Base.{
  ◌≡◌, refl, inl, inr, true, false, none, some, [], ◌∷◌, arith, Option-cases,
}
use fluidbgoperator.Base.Text.{Text, codes, text_eq, text_eq_iff}
use fluidbgoperator.Base.Map.{Map, insert, lookup, lookup-insert, insert-Distinct, Distinct}
use fluidbgoperator.Strategy.Float64.{Floats}
use fluidbgoperator.Kubernetes.{has_labels, DeploymentSpec, Deployment, DeploymentSelector}
use fluidbgoperator.Kubernetes.Labels.{
  insert_all, without, lookup-without, lookup-insert_all, has_labels_of_lookup,
}
use fluidbgoperator.Crd.{BlueGreenDeployment}
use fluidbgoperator.Controller.{Result, ok, ◌>>=◌}
use fluidbgoperator.Controller.Deployments.{
  green_label, ref_label, uid_label, green_selector, relabel, candidate_ref, deployment_namespace,
  deployment_namespace_spec, apply_family_labels_to_deployment, set_green_label,
  clear_rollout_candidate_labels, apply_runtime_identity_selector, deployment_manifest,
}

-- The keys of the selector are a map's, and none of them marks candidates.
pub record IsFamilySelector (selector : DeploymentSelector) : Type 0 where
  pub distinct : Distinct selector.match_labels
  pub no_ref : lookup ref_label selector.match_labels ≡ none
  pub no_uid : lookup uid_label selector.match_labels ≡ none

-- The labels that a promoted candidate gets, over the keys for green and for candidates.
abbrev promoted_labels : Text → Text → Text → Text → Map Text → Map Text
promoted_labels g t r u family = without u (without r (insert g t (insert_all family [])))

promoted_lookup :
    (g t r u : Text) (m : Map Text)
    → text_eq r g ≡ false
    → text_eq u g ≡ false
    → Distinct m
    → lookup r m ≡ none
    → lookup u m ≡ none
    → (k v : Text) → lookup k (insert g t m) ≡ some v
    → lookup k (promoted_labels g t r u m) ≡ some v
unfolding lookup
promoted_lookup g t r u m rg ug d nr nu k v e = ground (
  arith,
  lookup-insert g k t m,
  lookup-insert g k t (insert_all m []),
  lookup-without r k (insert g t (insert_all m [])),
  lookup-without u k (without r (insert g t (insert_all m []))),
  lookup-insert_all k m [] d,
  text_eq_iff g k,
  text_eq_iff r k,
  text_eq_iff u k,
  text_eq_iff r g,
  text_eq_iff u g,
)

promoted_labels-selected :
    (selector : DeploymentSelector)
    → IsFamilySelector selector
    → has_labels
        (green_selector selector)
        (promoted_labels green_label (codes "true") ref_label uid_label selector.match_labels)
      ≡ true
unfolding green_selector text_eq
promoted_labels-selected selector is =
    has_labels_of_lookup _ _
      (insert-Distinct selector.match_labels green_label (codes "true") is.distinct)
      (promoted_lookup green_label (codes "true") ref_label uid_label selector.match_labels refl
        refl is.distinct is.no_ref is.no_uid)

-- The object is the promoted candidate.
pub record IsGreenCandidate (F : Floats) (bgd : BlueGreenDeployment F) (namespace : Text)
    (d : Deployment) : Type 0 where
  pub named : d.name ≡ some (candidate_ref F bgd).name
  pub placed : d.namespace ≡ deployment_namespace_spec bgd.spec.deployment namespace
  pub selected : has_labels (green_selector bgd.spec.selector) d.labels ≡ true

-- What the three changes of the labels make of an object, in the order of the manifest.
abbrev labeled : Map Text → Text → Deployment → Result Deployment
labeled family name d = apply_family_labels_to_deployment family d >>= λ a.
    set_green_label true a >>= λ b.
    clear_rollout_candidate_labels b >>= λ c. apply_runtime_identity_selector name c

labeled-fields :
    (family : Map Text) (name : Text) (d out : Deployment) (spec : DeploymentSpec)
    → d.spec ≡ some spec
    → labeled family name d ≡ ok out
    → (out.name ≡ d.name)
      × (out.namespace ≡ d.namespace)
      × (out.labels
          ≡ without uid_label
              (without ref_label (insert green_label (codes "true") (insert_all family d.labels))))
unfolding apply_family_labels_to_deployment set_green_label relabel clear_rollout_candidate_labels
    apply_runtime_identity_selector
labeled-fields [] name d out spec s e = absurd (cc)
labeled-fields (l ∷ ls) name d out spec s e = elim (Option-cases spec.template_labels) [
  | inl missing ↦ absurd (ground (arith, missing))
  | inr (labels, present) ↦ ground (arith, present)
]

module _ (F : Floats) where
  pub deployment_manifest-IsGreenCandidate :
      (bgd : BlueGreenDeployment F) (namespace : Text) (patched : Result DeploymentSpec)
      (d : Deployment)
      → IsFamilySelector bgd.spec.selector
      → deployment_manifest F bgd namespace patched true [] ≡ ok d
      → IsGreenCandidate F bgd namespace d
  unfolding deployment_manifest
  deployment_manifest-IsGreenCandidate bgd namespace patched d is e =
      let (name, place, labels) =
        labeled-fields bgd.spec.selector.match_labels (candidate_ref F bgd).name _ d _ refl e in
      record {
        named = name;
        placed = place;
        selected = rw labels (promoted_labels-selected bgd.spec.selector is);
      }

  pub placed_like :
      (bgd : BlueGreenDeployment F) (namespace : Text)
      → deployment_namespace_spec bgd.spec.deployment namespace
        ≡ deployment_namespace (candidate_ref F bgd) namespace
  unfolding deployment_namespace_spec deployment_namespace candidate_ref
  placed_like bgd namespace = refl
