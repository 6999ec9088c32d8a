-- ===== src/Controller/Status/Conditions.antt =====
-- The conditions that a deployment reports.
use fluidbgoperator.Base.{◌≡◌, refl, ◌∙◌, Bool, not, List, [], ◌∷◌, ◌++◌, arith, if◌then◌else◌}
use mathlib.Core.List.{append-nil}
use fluidbgoperator.Base.Lists.{keep}
use fluidbgoperator.Base.Text.{Text, text_eq, text_eq_iff}
use fluidbgoperator.Crd.{BlueGreenDeploymentCondition}
use fluidbgoperator.Controller.Status.{set_condition}

abbrev pub of_type : Text → BlueGreenDeploymentCondition → Bool
of_type t c = text_eq c.condition_type t

keep-append :
    (p : BlueGreenDeploymentCondition → Bool) (xs ys : List BlueGreenDeploymentCondition)
    → keep p (xs ++ ys) ≡ keep p xs ++ keep p ys
keep-append p [] ys = refl
keep-append p (x ∷ xs) ys = ground (arith, keep-append p xs ys)

kept_types :
    (t u : Text) (cs : List BlueGreenDeploymentCondition)
    → keep (of_type t) (keep (λ d. not (text_eq d.condition_type u)) cs)
      ≡ (if text_eq u t then [] else keep (of_type t) cs)
kept_types t u [] = ground arith
kept_types t u (c ∷ cs) = ground (
  arith,
  kept_types t u cs,
  text_eq_iff c.condition_type u,
  text_eq_iff c.condition_type t,
  text_eq_iff u t,
)

-- Setting a condition leaves exactly one of its type, the new one, and all conditions of every
-- other type as they were, in their order.
pub set_condition_lem :
    (c : BlueGreenDeploymentCondition) (cs : List BlueGreenDeploymentCondition) (t : Text)
    → keep (of_type t) (set_condition c cs)
      ≡ (if text_eq c.condition_type t then c ∷ [] else keep (of_type t) cs)
unfolding set_condition
set_condition_lem c cs t =
    keep-append (of_type t) (keep (λ d. not (text_eq d.condition_type c.condition_type)) cs)
      (c ∷ [])
    ∙ ground (arith, kept_types t c.condition_type cs, append-nil (keep (of_type t) cs))
