-- ===== src/Controller.antt =====
-- The reconcile controller: operator/src/controller.rs and the modules below it. Here: its errors.
pub mod Promotion
pub mod Status
pub mod Lease
pub mod Draining
pub mod Steps
pub mod Reconcile
pub mod Deployments
pub mod Rollout
pub mod Inception
pub mod Orphans
mod Examples
use fluidbgoperator.Base.{◌≡◌, refl, ◌⊎◌, inl, inr, Bool, true, false}
use fluidbgoperator.Base.Text.{Text, codes}

pub data ReconcileError : Type 0 where
  invalid_spec store state_store lease plugin_manager plugin_inceptor : Text → ReconcileError
  plugin_drain_status plugin_traffic_shift auth resource k8s : Text → ReconcileError

pub data Result {ℓ} (A : Type ℓ) : Type ℓ where
  ok : A → Result A
  err : ReconcileError → Result A

infixl 5 ◌>>=◌
abbrev pub ◌>>=◌ {ℓ κ} : {A : Type ℓ} {B : Type κ} → Result A → (A → Result B) → Result B
ok a >>= f = f a
err e >>= f = err e

pub diagnostic_reason : ReconcileError → Text
diagnostic_reason (invalid_spec _) = codes "InvalidSpec"
diagnostic_reason (store _) = codes "ControllerError"
diagnostic_reason (state_store _) = codes "StateStoreError"
diagnostic_reason (lease _) = codes "LeaseError"
diagnostic_reason (plugin_manager _) = codes "PluginManagerError"
diagnostic_reason (plugin_inceptor _) = codes "PluginInceptorError"
diagnostic_reason (plugin_drain_status _) = codes "PluginDrainStatusError"
diagnostic_reason (plugin_traffic_shift _) = codes "PluginTrafficShiftError"
diagnostic_reason (auth _) = codes "AuthError"
diagnostic_reason (resource _) = codes "ResourceError"
diagnostic_reason (k8s _) = codes "KubernetesApiError"

pub is_terminal_for_generation : ReconcileError → Bool
is_terminal_for_generation (invalid_spec _) = true
is_terminal_for_generation _ = false

pub Result-cases {ℓ} :
    {A : Type ℓ} (r : Result A) → ((a : A) × (r ≡ ok a)) ⊎ ((e : ReconcileError) × (r ≡ err e))
Result-cases (ok a) = inl (a, refl)
Result-cases (err e) = inr (e, refl)
