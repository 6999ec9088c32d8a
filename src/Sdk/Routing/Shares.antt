-- ===== src/Sdk/Routing/Shares.antt =====
-- What the percentage decides.
use fluidbgoperator.Base.{
  ℕ, zero, suc, ◌%◌, ◌+◌, ◌≤◌, ◌<◌, ◌≡◌, ◌↔◌, true, arith, leb, ltb, if◌then◌else◌, [], Bool-cases,
  inl, inr,
}
use fluidbgoperator.Base.Text.{Text}
use fluidbgoperator.Sdk.Routing.{routes_to_blue}

routes_to_blue_iff :
    (hash : Text → ℕ) (payload : Text) (p : ℕ)
    → (routes_to_blue hash payload p ≡ true) ↔ (hash payload % 100 < p)
unfolding routes_to_blue
routes_to_blue_iff hash payload p = (λ e. ground (arith, e), λ h. ground (arith, h))

-- How many of the first `n` remainders go to blue.
abbrev pub routed : ℕ → ℕ → ℕ
routed p zero = 0
routed p (suc r) = routed p r + (if routes_to_blue (λ _. r) [] p then 1 else 0)

abbrev pub min : ℕ → ℕ → ℕ
min m n = if leb m n then m else n

routed-min : (p n : ℕ) → n ≤ 100 → routed p n ≡ min p n
routed-min p zero h = ground arith
routed-min p (suc r) h =
    let before = routed-min p r (omega arith) in
    let iff = routes_to_blue_iff (λ _. r) [] p in
    elim (Bool-cases (routes_to_blue (λ _. r) [] p)) [
      | inl e ↦ rw e (ground (arith, before, iff.0 e))
      | inr e ↦ elim (Bool-cases (ltb r p)) [
        | inl below ↦ absurd (ground (arith, e, iff.1 (ground (arith, below)), h))
        | inr above ↦ rw e (ground (arith, before, above))
      ]
    ]

-- A message goes to blue exactly when its hash modulo 100 is below the percentage; of the 100 remainders
-- as many as the percentage says, and not more than 100, go to blue; and a message that goes to
-- blue still does when the percentage grows.
pub routes_to_blue_share :
    (hash : Text → ℕ) (payload : Text) (p : ℕ)
    → ((routes_to_blue hash payload p ≡ true) ↔ (hash payload % 100 < p))
      × ((routed p 100 ≡ min p 100)
          × ((q : ℕ)
              → p ≤ q
              → routes_to_blue hash payload p ≡ true
              → routes_to_blue hash payload q ≡ true))
routes_to_blue_share hash payload p = (
  routes_to_blue_iff hash payload p,
  (
    routed-min p 100 (omega arith),
    λ q h e.
        (routes_to_blue_iff hash payload q).1
          (omega (arith, h, (routes_to_blue_iff hash payload p).0 e)),
  ),
)
