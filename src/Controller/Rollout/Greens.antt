-- ===== src/Controller/Rollout/Greens.antt =====
-- The greens of a family other than the candidate, and how the changes of the cluster act on them.
use fluidbgoperator.Base.{
  ◌≡◌, refl, inl, inr, Bool, true, false, not, ◌&&◌, some, List, [], ◌∷◌, arith, Bool-cases,
  Option-cases,
}
use fluidbgoperator.Base.Lists.{any, keep}
use fluidbgoperator.Base.Text.{Text, text_eq, text_eq_iff, text_eq_refl, option_text_eq}
use fluidbgoperator.Base.Map.{Map}
use fluidbgoperator.Kubernetes.{
  Deployment, DeploymentRef, Cluster, is_selected, list_labeled, put, remove,
}
use fluidbgoperator.Controller.{ok, Result-cases}
use fluidbgoperator.Controller.Rollout.{scan_greens, green_namespace_of}
use fluidbgoperator.Controller.Deployments.{green_selector, candidate_ref}
use fluidbgoperator.Strategy.Float64.{Floats}
use fluidbgoperator.Crd.{BlueGreenDeployment}

abbrev pub called : Text → Deployment → Bool
called name d = option_text_eq d.name (some name)

abbrev pub others : Text → List Deployment → List Deployment
others name = keep (λ d. not (called name d))

pub called→eq : (name : Text) (d : Deployment) → called name d ≡ true → d.name ≡ some name
called→eq name d h = elim (Option-cases d.name) [
  | inl unnamed ↦ absurd (ground (arith, unnamed))
  | inr (n, named) ↦ ground (arith, named, text_eq_iff n name)
]

pub eq→called : (name : Text) (d : Deployment) → d.name ≡ some name → called name d ≡ true
eq→called name d e = rw e (text_eq_refl name)

module _ (ns : Text) (wanted : Map Text) (name : Text) where
  pub others-put :
      (new : Deployment) (c : Cluster)
      → called name new ≡ true
      → others name (list_labeled ns wanted (put ns name new c))
        ≡ others name (list_labeled ns wanted c)
  unfolding put
  others-put new [] h = ground arith
  others-put new (d ∷ ds) h = ground (arith, others-put new ds h)

  pub any-put :
      (new : Deployment) (c : Cluster)
      → called name new ≡ true
      → is_selected ns wanted new ≡ true
      → any (called name) (list_labeled ns wanted (put ns name new c)) ≡ true
  unfolding put
  any-put new [] h s = ground arith
  any-put new (d ∷ ds) h s = ground (arith, any-put new ds h s)

  pub others-remove :
      (p : Text) (c : Cluster)
      → others name (list_labeled ns wanted (remove ns p c))
        ≡ others p (others name (list_labeled ns wanted c))
  others-remove p [] = refl
  others-remove p (d ∷ ds) = ground (arith, others-remove p ds)

  called_both :
      (p : Text) (d : Deployment) → text_eq p name ≡ false → called p d && called name d ≡ false
  called_both p d h = elim (Option-cases d.name) [
    | inl unnamed ↦ rw unnamed refl
    | inr (n, named) ↦
        rw named (ground (arith, text_eq_iff n p, text_eq_iff n name, text_eq_iff p name))
  ]

  pub any-remove :
      (p : Text) (c : Cluster)
      → text_eq p name ≡ false
      → any (called name) (list_labeled ns wanted (remove ns p c))
        ≡ any (called name) (list_labeled ns wanted c)
  any-remove p [] h = refl
  any-remove p (d ∷ ds) h = ground (arith, any-remove p ds h, called_both p d h)

-- The references are those of the deployments, in order.
abbrev pub Refs : Text → List DeploymentRef → List Deployment → Type 0
Refs ns [] [] = Unit
Refs ns (r ∷ rs) (d ∷ ds) = (d.name ≡ some r.name) × (r.namespace ≡ some ns) × Refs ns rs ds
Refs ns [] (d ∷ ds) = ⊥
Refs ns (r ∷ rs) [] = ⊥

pub scan_greens-Refs :
    (ns name : Text) (is_candidate : Text → Bool) (ds : List Deployment) (seen : Bool)
    (previous : List DeploymentRef)
    → ((n : Text) → is_candidate n ≡ text_eq n name)
    → scan_greens ns is_candidate ds ≡ ok (seen, previous)
    → (seen ≡ any (called name) ds) × Refs ns previous (others name ds)
unfolding scan_greens
scan_greens-Refs ns name is_candidate [] seen previous same e =
    let nothing : previous ≡ [] = ground arith in (ground arith, rw nothing tt)
scan_greens-Refs ns name is_candidate (d ∷ ds) seen previous same e = elim (Option-cases d.name) [
  | inl unnamed ↦ absurd (ground (arith, unnamed))
  | inr (n, named) ↦ elim (Result-cases (scan_greens ns is_candidate ds)) [
    | inr (x, failed) ↦ absurd (ground (arith, named, failed))
    | inl ((s, rest), scanned) ↦
        let (seen', refs) = scan_greens-Refs ns name is_candidate ds s rest same scanned in
        elim (Bool-cases (is_candidate n)) [
          | inl candidate ↦
              let here : called name d ≡ true = rw named (ground (arith, same n)) in
              let all : previous ≡ rest = ground (arith, named, scanned) in
              (rw here (ground (arith, named, scanned)), rw (here, all) refs)
          | inr other ↦
              let here : called name d ≡ false = rw named (ground (arith, same n)) in
              let all : previous ≡ record { name = n; namespace = some ns } ∷ rest =
                ground (arith, named, scanned) in
              (rw here (ground (arith, named, scanned, seen')), rw (here, all) (named, refl, refs))
        ]
  ]
]

module _ (F : Floats) (bgd : BlueGreenDeployment F) (namespace : Text) where
  -- The current greens of the family.
  abbrev pub greens : Cluster → List Deployment
  greens =
      list_labeled (green_namespace_of bgd.spec.selector namespace)
        (green_selector bgd.spec.selector)

  -- The candidate is a current green.
  abbrev pub IsServed : Cluster → Type 0
  IsServed c = any (called (candidate_ref F bgd).name) (greens c) ≡ true
