-- ===== src/Controller/Rollout/Selection.antt =====
-- Which green `select_previous_green_for_promotion` selects.
use fluidbgoperator.Base.{
  ◌≡◌, refl, ◌⊎◌, inl, inr, Bool, true, false, ◌&&◌, some, List, [], ◌∷◌, arith, Bool-cases,
}
use fluidbgoperator.Base.Text.{Text, text_eq, text_eq_refl}
use fluidbgoperator.Kubernetes.{Deployment, DeploymentRef}
use fluidbgoperator.Controller.{Result, ok, err}
use fluidbgoperator.Controller.Deployments.{deployment_namespace}
use fluidbgoperator.Controller.Rollout.{
  scan_greens, choose_previous, select_previous_green_for_promotion,
}
use fluidbgoperator.Controller.Rollout.Greens.{called, others, Refs, scan_greens-Refs}

-- The previous green that is selected: the candidate itself where it is the only one left, or else
-- the only other green.
abbrev pub Previous : Text → DeploymentRef → List Deployment → DeploymentRef → Type 0
Previous ns candidate greens p =
    ((p ≡ candidate) × (others candidate.name greens ≡ []))
    ⊎ ((d : Deployment) × (others candidate.name greens ≡ d ∷ [])
        × (d.name ≡ some p.name)
        × (p.namespace ≡ some ns))

chosen-Previous :
    (ns : Text) (candidate : DeploymentRef) (seen : Bool) (previous : List DeploymentRef)
    (os : List Deployment) (p : DeploymentRef)
    → Refs ns previous os
    → choose_previous ns candidate seen previous ≡ ok p
    → ((p ≡ candidate) × (os ≡ []))
      ⊎ ((d : Deployment) × (os ≡ d ∷ []) × (d.name ≡ some p.name) × (p.namespace ≡ some ns))
unfolding choose_previous
chosen-Previous ns candidate true [] [] p refs e = inl (cc, refl)
chosen-Previous ns candidate false [] os p refs e = absurd (cc)
chosen-Previous ns candidate true [] (d ∷ ds) p refs e = elim refs [ ]
chosen-Previous ns candidate true (r ∷ []) [] p refs e = elim refs [ ]
chosen-Previous ns candidate false (r ∷ []) [] p refs e = elim refs [ ]
chosen-Previous ns candidate true (r ∷ []) (d ∷ d' ∷ ds) p refs e = elim (refs.2) [ ]
chosen-Previous ns candidate false (r ∷ []) (d ∷ d' ∷ ds) p refs e = elim (refs.2) [ ]
chosen-Previous ns candidate true (r ∷ []) (d ∷ []) p refs e =
    let same : r ≡ p = cc in inr (d, refl, rw (← same) refs.0, rw (← same) refs.1)
chosen-Previous ns candidate false (r ∷ []) (d ∷ []) p refs e =
    let same : r ≡ p = cc in inr (d, refl, rw (← same) refs.0, rw (← same) refs.1)
chosen-Previous ns candidate true (r ∷ s ∷ rs) os p refs e = absurd (cc)
chosen-Previous ns candidate false (r ∷ s ∷ rs) os p refs e = absurd (cc)

pub select-Previous :
    (ns : Text) (greens : List Deployment) (candidate : DeploymentRef) (namespace : Text)
    (p : DeploymentRef)
    → deployment_namespace candidate namespace ≡ ns
    → select_previous_green_for_promotion ns greens candidate namespace ≡ ok p
    → Previous ns candidate greens p
unfolding select_previous_green_for_promotion
select-Previous ns greens candidate namespace p same e =
    go (scan_greens ns is_candidate greens) refl e
  where
    is_candidate : Text → Bool
    is_candidate name =
        text_eq name candidate.name && text_eq ns (deployment_namespace candidate namespace)

    only_name : (n : Text) → is_candidate n ≡ text_eq n candidate.name
    only_name n = rw same (rw (text_eq_refl ns) (ground arith))

    go :
        (r : Result (Bool × List DeploymentRef))
        → scan_greens ns is_candidate greens ≡ r
        → (elim r [
          | err x ↦ err x
          | ok (seen, previous) ↦ choose_previous ns candidate seen previous
        ])
          ≡ ok p
        → Previous ns candidate greens p
    go (err x) s h = absurd (cc)
    go (ok (seen, previous)) s h =
        chosen-Previous ns candidate seen previous (others candidate.name greens) p
          (scan_greens-Refs ns candidate.name is_candidate greens seen previous only_name s).1 h

-- The first other green is not called like the candidate.
pub others_first :
    (name : Text) (ds : List Deployment) (d : Deployment) (rest : List Deployment)
    → others name ds ≡ d ∷ rest
    → called name d ≡ false
others_first name [] d rest e = absurd (cc)
others_first name (x ∷ xs) d rest e = elim (Bool-cases (called name x)) [
  | inl same ↦ others_first name xs d rest (rw same at e)
  | inr differs ↦ let first : x ≡ d = ground (arith, differs) in rw (← first) differs
]
