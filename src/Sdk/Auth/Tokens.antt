-- ===== src/Sdk/Auth/Tokens.antt =====
-- Which headers and tokens are accepted.
use fluidbgoperator.Base.{
  ℕ, ◌≡◌, ◌≢◌, ◌↔◌, refl, sym, ap, subst, ◌∙◌, inl, inr, true, false, Option, none, some, [], ◌∷◌,
  ◌++◌, arith, Option-cases,
}
use fluidbgoperator.Base.Lists.{All}
use fluidbgoperator.Base.Text.{Text, codes}
use fluidbgoperator.Sdk.Auth.{
  constant_time_eq, strip_prefix, bearer_value, bearer_token, bearer_matches,
}
use fluidbgoperator.Sdk.Auth.Bytes.{IsByte, constant_time_eq_refl, constant_time_eq_iff}

strip_prefix_lem : (p s r : Text) → (strip_prefix p s ≡ some r) ↔ (s ≡ p ++ r)
unfolding strip_prefix
strip_prefix_lem [] s r = (λ h. ground arith, λ h. ap some h)
strip_prefix_lem (x ∷ xs) [] r = (λ h. absurd (cc), λ h. absurd (cc))
strip_prefix_lem (x ∷ xs) (y ∷ ys) r =
    let ih = strip_prefix_lem xs ys r in (λ h. ground (arith, ih), λ h. ground (arith, ih))

abbrev pub OfBytes : Option Text → Type 0
OfBytes none = Unit
OfBytes (some value) = All IsByte value

suffix-All : (p s : Text) → All IsByte (p ++ s) → All IsByte s
suffix-All [] s h = h
suffix-All (x ∷ xs) s h = suffix-All xs s h.1

value_matches :
    (value token : Text)
    → All IsByte token
    → All IsByte value
    → (elim (bearer_token value) [ none ↦ false | some actual ↦ constant_time_eq actual token ])
      ≡ true
    → value ≡ bearer_value token
unfolding bearer_token bearer_value
value_matches value token ht hv h = elim (Option-cases (bearer_token value)) [
  | inl other ↦ absurd (ground (arith, other))
  | inr (actual, found) ↦
      let shape = (strip_prefix_lem (codes "Bearer ") value actual).0 found in
      let bytes = suffix-All (codes "Bearer ") actual (subst (All IsByte) shape hv) in
      let same = (constant_time_eq_iff actual token bytes ht).0 (ground (arith, found)) in
      shape ∙ ap (λ t. codes "Bearer " ++ t) same
]

bearer_accepts :
    (x : ℕ) (xs : Text) → bearer_matches (some (bearer_value (x ∷ xs))) (some (x ∷ xs)) ≡ true
unfolding bearer_matches
bearer_accepts x xs = rw (bearer_token-bearer_value (x ∷ xs)) (constant_time_eq_refl (x ∷ xs))
  where
    bearer_token-bearer_value : (t : Text) → bearer_token (bearer_value t) ≡ some t
    bearer_token-bearer_value t =
        unfold bearer_token in
        unfold bearer_value in (strip_prefix_lem (codes "Bearer ") (codes "Bearer " ++ t) t).1 refl

-- A header is accepted exactly when it is the expected token behind `Bearer `, and no header is
-- accepted where the expected token is empty.
pub bearer_matches_iff :
    (header_value : Option Text) (expected_token : Text)
    → All IsByte expected_token
    → OfBytes header_value
    → (bearer_matches header_value (some expected_token) ≡ true)
      ↔ ((expected_token ≢ []) × (header_value ≡ some (bearer_value expected_token)))
unfolding bearer_matches
bearer_matches_iff h [] he hv = (λ e. absurd (cc), λ e. absurd (e.0 refl))
bearer_matches_iff none (x ∷ xs) he hv = (λ e. absurd (cc), λ e. absurd (cc))
bearer_matches_iff (some value) (x ∷ xs) he hv = (
  λ e. ((λ z. cc), ap some (value_matches value (x ∷ xs) he hv e)),
  λ e. subst (λ v. bearer_matches v (some (x ∷ xs)) ≡ true) (sym e.1) (bearer_accepts x xs),
)
