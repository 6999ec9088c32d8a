-- ===== src/Controller/Rollout/Steps.antt =====
-- What the calls of a switch do one by one: nothing, or the write of the candidate as a green.
use fluidbgoperator.Base.{◌≡◌, refl, sym, subst, ◌∙◌, Bool, true, false, [], if◌then◌else◌}
use fluidbgoperator.Base.Text.{Text, text_eq_refl}
use fluidbgoperator.Base.Map.{Map}
use fluidbgoperator.Strategy.Float64.{Floats}
use fluidbgoperator.Kubernetes.{Deployment, DeploymentRef, Cluster, list_labeled, is_selected, put}
use fluidbgoperator.Crd.{BlueGreenDeployment}
use fluidbgoperator.Controller.{Result, ok, err}
use fluidbgoperator.Controller.Steps.{continue, After, bind-After, ◌>>=◌, ◌>>◌, fail}
use fluidbgoperator.Controller.Deployments.{
  green_selector, candidate_ref, deployment_namespace, deployment_manifest,
}
use fluidbgoperator.Controller.Deployments.Manifest.{
  IsFamilySelector, IsGreenCandidate, deployment_manifest-IsGreenCandidate, placed_like,
}
use fluidbgoperator.Controller.Rollout.{
  RolloutCall, RolloutAnswers, select_previous_green_for_promotion, green_namespace_of,
  has_no_labels, ask, list_now, change, resolve_previous_green_for_promotion,
  apply_deployment_manifest, no_labels, list_greens, get_deployment, write_deployment,
}
use fluidbgoperator.Controller.Rollout.Selection.{Previous, select-Previous}
use fluidbgoperator.Controller.Rollout.Greens.{
  greens, IsServed, called, others, eq→called, others-put, any-put,
}

module _ (F : Floats) (answers : RolloutAnswers) (bgd : BlueGreenDeployment F)
    (namespace : Text) where
  abbrev pub candidate : DeploymentRef
  candidate = candidate_ref F bgd

  abbrev pub green_namespace : Text
  green_namespace = green_namespace_of bgd.spec.selector namespace

  abbrev pub Same : Cluster → Cluster → Type 0
  Same c v = v ≡ c

  pub ask-After :
      (call : RolloutCall) (c : Cluster) → After (Same c) (λ _. Same c) (ask answers call c)
  unfolding ask
  ask-After call c = go (answers.answer call)
    where
      go : (r : Result (Unit {0})) → After (Same c) (λ _. Same c) (r, c)
      go (ok _) = refl
      go (err _) = refl

  pub ask_from :
      (call : RolloutCall) (c v : Cluster)
      → v ≡ c
      → After (Same c) (λ _. Same c) (ask answers call v)
  ask_from call c v same =
      subst (λ x. After (Same c) (λ _. Same c) (ask answers call x)) (sym same) (ask-After call c)

  list_now-After :
      (call : RolloutCall) (ns : Text) (wanted : Map Text) (c : Cluster)
      → After
          (Same c)
          (λ ds v. (v ≡ c) × (ds ≡ list_labeled ns wanted c))
          (list_now answers call ns wanted c)
  unfolding list_now
  list_now-After call ns wanted c =
      bind-After (Same c) (λ _. Same c) (λ ds v. (v ≡ c) × (ds ≡ list_labeled ns wanted c)) _ _
        (ask-After call c) (λ _ v same. (same, rw same refl))

  pub resolve-After :
      (c : Cluster)
      → deployment_namespace candidate namespace ≡ green_namespace
      → After
          (Same c)
          (λ p v. (v ≡ c) × Previous green_namespace candidate (greens F bgd namespace c) p)
          (resolve_previous_green_for_promotion answers namespace bgd.spec.selector candidate c)
  unfolding resolve_previous_green_for_promotion
  resolve-After c place = go (has_no_labels bgd.spec.selector)
    where
      selected :
          (v : Cluster)
          → v ≡ c
          → (r : Result DeploymentRef)
          → select_previous_green_for_promotion green_namespace
              (greens F bgd namespace c)
              candidate
              namespace
            ≡ r
          → After
              (Same c)
              (λ p w. (w ≡ c) × Previous green_namespace candidate (greens F bgd namespace c) p)
              (r, v)
      selected v same (err e) s = same
      selected v same (ok p) s = (
        same,
        select-Previous green_namespace (greens F bgd namespace c) candidate namespace p place s,
      )

      go :
          (b : Bool)
          → After
              (Same c)
              (λ p v. (v ≡ c) × Previous green_namespace candidate (greens F bgd namespace c) p)
              ((if b
                  then fail no_labels
                  else (list_now answers list_greens green_namespace
                        (green_selector bgd.spec.selector)
                      >>= λ ds c'. (
                        select_previous_green_for_promotion green_namespace ds candidate namespace,
                        c',
                      )))
                c)
      go true = refl
      go false =
          bind-After (Same c) (λ ds v. (v ≡ c) × (ds ≡ greens F bgd namespace c)) _ _ _
            (list_now-After list_greens green_namespace (green_selector bgd.spec.selector) c)
            (λ ds v (same, listed). selected v same _ (rw listed refl))

  -- The candidate is written as a green, and the other greens are as they were.
  abbrev pub Promoted : Cluster → Cluster → Type 0
  Promoted c v =
      IsServed F bgd namespace v
      × (others candidate.name (greens F bgd namespace v)
          ≡ others candidate.name (greens F bgd namespace c))

  written-Promoted :
      (c : Cluster) (d : Deployment)
      → deployment_namespace candidate namespace ≡ green_namespace
      → IsGreenCandidate F bgd namespace d
      → Promoted c (put d.namespace candidate.name d c)
  written-Promoted c d place is =
      let here : d.namespace ≡ green_namespace =
        is.placed ∙ (placed_like F bgd namespace ∙ place) in
      let named : called candidate.name d ≡ true = eq→called candidate.name d is.named in
      let chosen : is_selected green_namespace (green_selector bgd.spec.selector) d ≡ true =
        rw here (rw (text_eq_refl green_namespace) is.selected) in
      subst (λ n. Promoted c (put n candidate.name d c)) (sym here)
        (
          any-put green_namespace (green_selector bgd.spec.selector) candidate.name d c named
              chosen,
          others-put green_namespace (green_selector bgd.spec.selector) candidate.name d c named,
        )

  pub apply-After :
      (c : Cluster)
      → IsFamilySelector bgd.spec.selector
      → deployment_namespace candidate namespace ≡ green_namespace
      → After
          (Same c)
          (λ _. Promoted c)
          (apply_deployment_manifest F answers bgd namespace true [] c)
  unfolding apply_deployment_manifest change continue
  apply-After c is place = made (deployment_manifest F bgd namespace answers.patched true []) refl
    where
      made :
          (r : Result Deployment)
          → deployment_manifest F bgd namespace answers.patched true [] ≡ r
          → After
              (Same c)
              (λ _. Promoted c)
              (continue
                (r, c)
                (λ d.
                  ask answers get_deployment
                  >> (ask answers write_deployment
                      >> change answers (put d.namespace candidate.name d))))
      made (err e) m = refl
      made (ok d) m =
          bind-After (Same c) (λ _. Same c) (λ _. Promoted c) (ask answers get_deployment c) _
            (ask-After get_deployment c)
            (λ _ u u_same.
              bind-After (Same c) (λ _. Same c) (λ _. Promoted c) (ask answers write_deployment u) _
                (ask_from write_deployment c u u_same)
                (λ _ v v_same. rw v_same (
                  written-Promoted c d place
                    (deployment_manifest-IsGreenCandidate F bgd namespace answers.patched d is m))))
