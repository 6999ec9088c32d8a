-- ===== src/Controller/Rollout/Examples.antt =====
-- A promotion whose deletion of the previous green fails, and its repetition.
use fluidbgoperator.Base.{◌≡◌, refl, none, some, [], ◌∷◌}
use fluidbgoperator.Base.Text.{codes, text_eq}
use fluidbgoperator.Base.Int.{pos}
use fluidbgoperator.Base.Map.{Distinct, lookup}
use fluidbgoperator.Strategy.FixedPoint.{fixed_point}
use fluidbgoperator.Kubernetes.{Deployment}
use fluidbgoperator.Fixtures.{rollout, orders_spec}
use fluidbgoperator.Controller.{ok, err, store}
use fluidbgoperator.Controller.Steps.{After}
use fluidbgoperator.Controller.Deployments.{candidate_ref, deployment_namespace}
use fluidbgoperator.Controller.Deployments.Manifest.{IsFamilySelector}
use fluidbgoperator.Controller.Rollout.{delete_green, RolloutAnswers, switch_traffic}
use fluidbgoperator.Controller.Rollout.Greens.{greens, IsServed, others}
use fluidbgoperator.Controller.Rollout.Promotion.{NothingLost, switch_traffic-After}
use fluidbgoperator.Controller.Deployments.Readiness.{WasReady}

abbrev old_green : Deployment
old_green = record {
  name = some (codes "orders-a1");
  namespace = codes "ns";
  generation = some (pos 1);
  labels = (codes "app", codes "orders") ∷ (codes "fluidbg.io/green", codes "true") ∷ [];
  spec = some orders_spec;
  status = none;
}

abbrev ready : Deployment
ready = record old_green {
  status = some (record {
    observed_generation = some (pos 1);
    updated_replicas = some (pos 1);
    available_replicas = some (pos 1);
  });
}

-- The API server refuses the deletion.
abbrev deletion_fails : RolloutAnswers
deletion_fails = record {
  answer = λ call. elim call [ delete_green ↦ err (store (codes "forbidden")) | _ ↦ ok tt ];
  observed = λ i. ok ready;
  patched = ok orders_spec;
}

family : IsFamilySelector rollout.spec.selector
unfolding Distinct lookup text_eq
family = record { distinct = (refl, tt); no_ref = refl; no_uid = refl }

candidate_place : deployment_namespace (candidate_ref fixed_point rollout) (codes "ns") ≡ codes "ns"
unfolding deployment_namespace candidate_ref
candidate_place = refl

switch_traffic-After_example :
    After
      (NothingLost fixed_point deletion_fails rollout (codes "ns") (old_green ∷ []))
      (λ _ v.
        WasReady 60 deletion_fails.observed
        × IsServed fixed_point rollout (codes "ns") v
        × (others
              (candidate_ref fixed_point rollout).name
              (greens fixed_point rollout (codes "ns") v)
            ≡ []))
      (switch_traffic fixed_point deletion_fails rollout (codes "ns") (old_green ∷ []))
switch_traffic-After_example =
    switch_traffic-After fixed_point deletion_fails rollout (codes "ns") (old_green ∷ []) family
      candidate_place
