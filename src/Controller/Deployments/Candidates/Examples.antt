-- ===== src/Controller/Deployments/Candidates/Examples.antt =====
-- The second of the attempts is free.
use fluidbgoperator.Base.{ℕ, ◌≤◌, ◌≡◌, ◌↔◌, if◌then◌else◌}
use fluidbgoperator.Base.Lists.{length}
use fluidbgoperator.Base.Text.{Text, codes, text_eq}
use fluidbgoperator.Strategy.FixedPoint.{fixed_point}
use fluidbgoperator.Controller.{ok}
use fluidbgoperator.Fixtures.{rollout, digest}
use fluidbgoperator.Controller.Deployments.Candidates.{
  Lookup, exists, missing, generated_candidate_name_seed, find_free_name,
}
use fluidbgoperator.Controller.Deployments.Candidates.Search.{
  attempted, base_of, IsFirstFree, find_free_name_iff,
}

abbrev answer : Text → Lookup
answer name = if text_eq name (codes "orders-wwwwww") then exists else missing

abbrev seed : Text
seed = generated_candidate_name_seed fixed_point digest rollout

find_free_name_iff_example :
    ((find_free_name fixed_point digest answer rollout ≡ ok (codes "orders-xxxxxx")) ↔ (
      (k : ℕ) × (codes "orders-xxxxxx"
        ≡ attempted answer (base_of fixed_point digest rollout) digest seed k)
      × IsFirstFree answer (base_of fixed_point digest rollout) digest seed 0 32 k))
    × ((k : ℕ) → length (attempted answer (base_of fixed_point digest rollout) digest seed k) ≤ 253)
find_free_name_iff_example =
    find_free_name_iff fixed_point digest answer rollout (codes "orders-xxxxxx")
