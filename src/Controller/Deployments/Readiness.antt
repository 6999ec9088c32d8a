-- ===== src/Controller/Deployments/Readiness.antt =====
-- What a wait for a deployment that ends well has seen.
use fluidbgoperator.Base.{ℕ, zero, suc, ◌<◌, ◌≡◌, inl, inr, true, arith, Bool-cases}
use fluidbgoperator.Base.Text.{Text}
use fluidbgoperator.Kubernetes.{Deployment}
use fluidbgoperator.Controller.{Result, ok, Result-cases}
use fluidbgoperator.Controller.Deployments.{deployment_is_ready, wait_for_deployment_ready}

-- One of the reads, of which there are so many, showed the deployment as ready.
pub record WasReady (attempts : ℕ) (observe : ℕ → Result Deployment) : Type 0 where
  pub read : ℕ
  pub within : read < attempts
  pub shown : Deployment
  pub answered : observe read ≡ ok shown
  pub is_ready : deployment_is_ready shown ≡ true

pub wait-WasReady :
    (namespace name : Text) (attempts : ℕ) (observe : ℕ → Result Deployment)
    → wait_for_deployment_ready namespace name attempts observe ≡ ok tt
    → WasReady attempts observe
unfolding wait_for_deployment_ready
wait-WasReady namespace name zero observe h = absurd (cc)
wait-WasReady namespace name (suc left) observe h = elim (Result-cases (observe 0)) [
  | inr (e, failed) ↦ absurd (ground (arith, failed, h))
  | inl (d, answered) ↦ elim (Bool-cases (deployment_is_ready d)) [
    | inl is_ready ↦ record {
      read = 0;
      within = omega arith;
      shown = d;
      answered = answered;
      is_ready = is_ready;
    }
    | inr not_ready ↦
        let later =
          wait-WasReady namespace name left (λ i. observe (suc i))
            (ground (arith, answered, not_ready, h)) in
        record {
          read = suc later.read;
          within = omega (arith, later.within);
          shown = later.shown;
          answered = later.answered;
          is_ready = later.is_ready;
        }
  ]
]
