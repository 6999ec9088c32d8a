-- ===== src/Controller/Rollout/Promotion.antt =====
-- What a switch of the traffic leaves in the cluster, on every branch.
use fluidbgoperator.Base.{◌≡◌, refl, sym, subst, ap, ◌∙◌, ◌⊎◌, inl, inr, true, false, [], arith}
use fluidbgoperator.Base.Text.{Text, text_eq, text_eq_iff, text_eq_refl}
use fluidbgoperator.Strategy.Float64.{Floats}
use fluidbgoperator.Kubernetes.{DeploymentRef, Cluster, remove}
use fluidbgoperator.Crd.{BlueGreenDeployment}
use fluidbgoperator.Controller.{Result, ok, err}
use fluidbgoperator.Controller.Steps.{continue, After, bind-After, weaken-After, done}
use fluidbgoperator.Controller.Deployments.{
  green_selector, candidate_ref, deployment_namespace, wait_for_deployment_ready,
}
use fluidbgoperator.Controller.Deployments.Manifest.{IsFamilySelector}
use fluidbgoperator.Controller.Deployments.Readiness.{WasReady, wait-WasReady}
use fluidbgoperator.Controller.Rollout.{
  RolloutAnswers, green_namespace_of, ask, change, resolve_previous_green_for_promotion,
  delete_current_green, apply_deployment_manifest, promote_candidate,
  begin_draining_after_promotion, switch_traffic, start_draining, delete_green,
}
use fluidbgoperator.Controller.Rollout.Selection.{Previous, others_first}
use fluidbgoperator.Controller.Rollout.Greens.{
  greens, IsServed, called, others, eq→called, others-remove, any-remove,
}
use fluidbgoperator.Controller.Rollout.Steps.{Promoted, ask-After, resolve-After, apply-After}

module _ (F : Floats) (answers : RolloutAnswers) (bgd : BlueGreenDeployment F)
    (namespace : Text) where
  abbrev candidate : DeploymentRef
  candidate = candidate_ref F bgd

  abbrev green_namespace : Text
  green_namespace = green_namespace_of bgd.spec.selector namespace

  -- Between the candidate's write and the deletion.
  Switched : Cluster → Cluster → Type 0
  Switched c v = (v ≡ c) ⊎ Promoted F answers bgd namespace c v

  abbrev CandidateReady : Type 0
  CandidateReady = WasReady 60 answers.observed

  Ready : Cluster → DeploymentRef → Cluster → Type 0
  Ready c p v =
      Promoted F answers bgd namespace c v
      × Previous green_namespace candidate (greens F bgd namespace c) p
      × CandidateReady

  promote-After :
      (c : Cluster)
      → IsFamilySelector bgd.spec.selector
      → deployment_namespace candidate namespace ≡ green_namespace
      → After (Switched c) (Ready c) (promote_candidate F answers bgd namespace c)
  unfolding promote_candidate Switched Ready continue
  promote-After c is place =
      bind-After (Switched c)
        (λ p v. (v ≡ c) × Previous green_namespace candidate (greens F bgd namespace c) p) (Ready c)
        (resolve_previous_green_for_promotion answers namespace bgd.spec.selector candidate c) _
        (weaken-After
          (resolve_previous_green_for_promotion answers namespace bgd.spec.selector candidate c)
          (λ w h. inl h) (λ p v h. h) (resolve-After F answers bgd namespace c place))
        (λ p u (u_same, previous).
          bind-After (Switched c) (λ _. Promoted F answers bgd namespace c) (Ready c)
            (apply_deployment_manifest F answers bgd namespace true [] u) _
            (subst
              (λ x.
                After (Switched c) (λ _. Promoted F answers bgd namespace c)
                  (apply_deployment_manifest F answers bgd namespace true [] x))
              (sym u_same)
              (weaken-After (apply_deployment_manifest F answers bgd namespace true [] c)
                (λ w h. inl h) (λ _ v h. h) (apply-After F answers bgd namespace c is place)))
            (λ _ v promoted. waited p v promoted previous _ refl))
    where
      waited :
          (p : DeploymentRef) (v : Cluster)
          → Promoted F answers bgd namespace c v
          → Previous green_namespace candidate (greens F bgd namespace c) p
          → (r : Result (Unit {0}))
          → wait_for_deployment_ready
              (deployment_namespace candidate namespace)
              candidate.name
              60
              answers.observed
            ≡ r
          → After (Switched c) (Ready c) (continue (r, v) (λ _. done p))
      waited p v promoted previous (ok _) seen =
          (promoted, previous, wait-WasReady _ _ 60 answers.observed seen)
      waited p v promoted previous (err e) seen = inr promoted

  -- The candidate is the one green of the family.
  abbrev IsSoleGreen : Cluster → Type 0
  IsSoleGreen v =
      IsServed F bgd namespace v × (others candidate.name (greens F bgd namespace v) ≡ [])

  -- The candidate was seen ready, and is the one green of the family.
  abbrev IsSwitched : Cluster → Type 0
  IsSwitched v =
      CandidateReady
      × IsServed F bgd namespace v
      × (others candidate.name (greens F bgd namespace v) ≡ [])

  delete-After :
      (c v : Cluster) (p : DeploymentRef)
      → deployment_namespace candidate namespace ≡ green_namespace
      → Ready c p v
      → After (Switched c) (λ _. IsSwitched) (delete_current_green answers namespace candidate p v)
  unfolding delete_current_green Ready Switched deployment_namespace change
  delete-After c v p place ((served, kept), inl (same, none_left), seen) = rw same (
      rw (text_eq_refl candidate.name) (
        rw (text_eq_refl (deployment_namespace candidate namespace))
          (seen, served, kept ∙ none_left)))
  delete-After c v p place ((served, kept), inr (d, only, named, placed), seen) =
      let apart : called candidate.name d ≡ false =
        others_first candidate.name (greens F bgd namespace c) d [] only in
      let differ : text_eq p.name candidate.name ≡ false = rw named at apart in
      let differ' : text_eq candidate.name p.name ≡ false =
        ground (arith, text_eq_iff p.name candidate.name, text_eq_iff candidate.name p.name) in
      rw differ' (
        bind-After (Switched c) (λ _ u. u ≡ v) (λ _. IsSwitched) (ask answers delete_green v) _
          (weaken-After (ask answers delete_green v) (λ w same. inr (rw same (served, kept)))
            (λ _ w same. same) (ask-After F answers bgd namespace delete_green v))
          (λ _ u same.
            let sole = removed (deployment_namespace p namespace) (rw placed refl) differ in
            rw same (seen, sole.0, sole.1)))
    where
      removed :
          (ns : Text)
          → ns ≡ green_namespace
          → text_eq p.name candidate.name ≡ false
          → IsSoleGreen (remove ns p.name v)
      removed ns at_green differ = rw at_green (
        any-remove green_namespace (green_selector bgd.spec.selector) candidate.name p.name v differ
            ∙ served,
        others-remove green_namespace (green_selector bgd.spec.selector) candidate.name p.name v
            ∙ (ap (others p.name) (kept ∙ only) ∙ rw (eq→called p.name d named) refl),
      )

  -- What an error leaves: the cluster as it was, or with the candidate among the greens of the
  -- family and all its other greens still there.
  abbrev pub NothingLost : Cluster → Cluster → Type 0
  NothingLost c v =
      (v ≡ c)
      ⊎ (IsServed F bgd namespace v
          × (others candidate.name (greens F bgd namespace v)
              ≡ others candidate.name (greens F bgd namespace c)))

  -- A switch of the traffic, whatever the API server, the plugins and the candidate's pods answer. If
  -- it fails, no other green of the family is lost: the cluster is as it was, or the candidate has
  -- been made a green and every other green is there as before. If it succeeds, one of the 60 reads
  -- showed the candidate ready, and the candidate is the only green of the family. The candidate's
  -- namespace is the one that the selector names, and the selector's keys are distinct and mark no
  -- candidates.
  pub switch_traffic-After :
      (c : Cluster)
      → IsFamilySelector bgd.spec.selector
      → deployment_namespace candidate namespace ≡ green_namespace
      → After
          (NothingLost c)
          (λ _ v.
            WasReady 60 answers.observed
            × IsServed F bgd namespace v
            × (others candidate.name (greens F bgd namespace v) ≡ []))
          (switch_traffic F answers bgd namespace c)
  unfolding switch_traffic begin_draining_after_promotion Switched Ready continue
  switch_traffic-After c is place =
      bind-After (Switched c) (Ready c) (λ _. IsSwitched)
        (promote_candidate F answers bgd namespace c) _ (promote-After c is place)
        (λ p v ready.
          bind-After (Switched c) (λ _ u. u ≡ v) (λ _. IsSwitched) (ask answers start_draining v) _
            (weaken-After (ask answers start_draining v) (λ w same. inr (rw same ready.0))
              (λ _ w same. same) (ask-After F answers bgd namespace start_draining v))
            (λ _ u same.
              subst
                (λ x.
                  After (Switched c) (λ _. IsSwitched)
                    (delete_current_green answers namespace candidate p x))
                (sym same) (delete-After c v p place ready)))
