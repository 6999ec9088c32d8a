-- ===== src/Controller/Deployments/Candidates.antt =====
-- The name of a candidate: generated_candidate_name_seed, candidate_name_with_suffix,
-- deterministic_candidate_suffixes and the search of ensure_generated_candidate_name of
-- operator/src/controller/deployments.rs. `digest` is SHA-256. Names are ASCII.
pub mod Search
mod Examples
use fluidbgoperator.Base.{
  ℕ, zero, suc, ◌+◌, ◌-◌, ◌%◌, Bool, true, false, ltb, Option, none, some, List, [], ◌∷◌, ◌++◌, map,
  if◌then◌else◌, unwrap_or,
}
use fluidbgoperator.Base.Lists.{length, take}
use fluidbgoperator.Base.Text.{Text, codes, decimal}
use fluidbgoperator.Strategy.Float64.{Floats}
use fluidbgoperator.Crd.{BlueGreenDeployment}
use fluidbgoperator.Controller.{Result, ok, err, store, ReconcileError}
use fluidbgoperator.Controller.Status.{current_rollout_generation}
use fluidbgoperator.Controller.Draining.{display}

pub max_name_len : ℕ
max_name_len = 253

pub candidate_name_with_suffix : Text → Text → Text
unfolding max_name_len
candidate_name_with_suffix base suffix =
    let max_base_len = max_name_len - (length suffix + 1) in
    let trimmed_base = if ltb max_base_len (length base) then take max_base_len base else base in
    trimmed_base ++ (b'-' ∷ suffix)

-- A digit or a lower-case letter.
abbrev pub base36 : ℕ → ℕ
base36 byte = let value = byte % 36 in if ltb value 10 then b'0' + value else b'a' + (value - 10)

-- What the API server answers when it is asked for a deployment of this name.
pub data Lookup : Type 0 where
  exists missing : Lookup
  fails : ReconcileError → Lookup

abbrev pub no_free_name : ReconcileError
no_free_name = store (codes "failed to generate a non-colliding deployment name after 32 attempts")

-- One round, with what the further rounds give.
pub search_step : Lookup → Text → Result Text → Result Text
search_step exists name rest = rest
search_step missing name rest = ok name
search_step (fails e) name rest = err e

-- The loop over the suffixes.
pub search : (Text → Lookup) → Text → List Text → Result Text
unfolding candidate_name_with_suffix search_step
search answer base [] = err no_free_name
search answer base (suffix ∷ suffixes) =
    let name = candidate_name_with_suffix base suffix in
    search_step (answer name) name (search answer base suffixes)

module _ (digest : Text → List ℕ) where
  pub suffix_of : Text → ℕ → Text
  suffix_of seed attempt = take 6 (map base36 (digest (seed ++ (b':' ∷ decimal attempt))))

  -- The suffixes of the attempts from one on.
  pub suffixes_from : Text → ℕ → ℕ → List Text
  unfolding suffix_of
  suffixes_from seed attempt zero = []
  suffixes_from seed attempt (suc more) =
      suffix_of seed attempt ∷ suffixes_from seed (attempt + 1) more

  pub deterministic_candidate_suffixes : Text → List Text
  unfolding suffixes_from
  deterministic_candidate_suffixes seed = suffixes_from seed 0 32

module _ (F : Floats) (digest : Text → List ℕ) where
  pub generated_candidate_name_seed : BlueGreenDeployment F → Text
  generated_candidate_name_seed bgd =
      unwrap_or bgd.metadata.name (codes "bgd")
      ++ (b':'
          ∷ (unwrap_or bgd.metadata.uid [] ++ (b':' ∷ display (current_rollout_generation F bgd))))

  -- The name that `ensure_generated_candidate_name` writes where none is chosen yet.
  pub find_free_name : (Text → Lookup) → BlueGreenDeployment F → Result Text
  unfolding generated_candidate_name_seed deterministic_candidate_suffixes search
  find_free_name answer bgd =
      search answer (unwrap_or bgd.metadata.name (codes "bgd"))
        (deterministic_candidate_suffixes digest (generated_candidate_name_seed bgd))
