-- ===== src/Controller/Orphans.antt =====
-- The clean-up of what deleted deployments have left: cleanup_orphaned_blue_green_refs,
-- cleanup_single_orphaned_blue_green_ref and split_blue_green_state_key of
-- operator/src/controller.rs. The deletions are logged, newest first; what the listings, the store and
-- the leases answer is an argument.
pub mod Deletions
mod Examples
mod Keys
mod Single
use fluidbgoperator.Base.{
  ℕ, ◌+◌, Bool, true, false, ltb, ◌==◌, Option, none, some, List, [], ◌∷◌, ◌++◌, if◌then◌else◌,
  unwrap_or,
}
use fluidbgoperator.Base.Lists.{any}
use fluidbgoperator.Base.Text.{Text, codes, text_eq}
use fluidbgoperator.Store.{Result as StoreResult, ok as stored, err as failed, error_text}
use fluidbgoperator.Controller.{Result, ok, err, resource, state_store, ReconcileError}
use fluidbgoperator.Controller.Steps.{Step, done, ◌>>=◌, ◌>>◌}

-- `str::split_once`.
pub split_once : ℕ → Text → Option (Text × Text)
split_once c [] = none
split_once c (x ∷ xs) =
    let rest = split_once c xs in
    if x == c then some ([], xs) else elim rest [ none ↦ none | some (a, b) ↦ some (x ∷ a, b) ]

pub split_blue_green_state_key : Text → Result (Text × Text)
unfolding split_once
split_blue_green_state_key key = elim (split_once b'/' key) [
  | none ↦ err (resource (codes "state key '" ++ (key ++ codes "' is not namespace-qualified")))
  | some parts ↦ ok parts
]

pub data Deletion : Type 0 where
  resources : Text → Text → Deletion
  records : Text → Deletion

abbrev pub Log : Type 0
Log = List Deletion

-- The keys of the deployments, as they are listed first, and what is asked after that.
pub record Answers : Type 0 where
  pub existing : Result (List Text)
  pub refs : StoreResult (List Text)
  pub owned : Result (List Text)
  pub lease : Text → Result Bool
  pub resources_deleted : Text → Text → Result (Unit {0})
  pub records_deleted : Text → StoreResult ℕ

abbrev pub contains : List Text → Text → Bool
contains keys key = any (λ k. text_eq k key) keys

-- The order of strings: the first code that differs decides.
pub text_before : Text → Text → Bool
text_before xs [] = false
text_before [] (y ∷ ys) = true
text_before (x ∷ xs) (y ∷ ys) = let rest = text_before xs ys in if x == y then rest else ltb x y

-- `BTreeSet::insert` and `BTreeSet::extend`, on the keys in their order.
pub insert : List Text → Text → List Text
unfolding text_before
insert [] k = k ∷ []
insert (x ∷ xs) k =
    let rest = insert xs k in
    if text_before k x then k ∷ x ∷ xs else if text_eq k x then x ∷ xs else x ∷ rest

pub extend : List Text → List Text → List Text
unfolding insert
extend keys [] = keys
extend keys (k ∷ more) = extend (insert keys k) more

pub from_store : {A : Type 0} → StoreResult A → Result A
from_store (stored a) = ok a
from_store (failed e) = err (state_store (error_text e))

abbrev pub of_result : {A : Type 0} → Result A → Step Log A
of_result r = λ log. (r, log)

-- A deletion counts as asked for whatever is answered.
pub delete : {A : Type 0} → Deletion → Result A → Step Log A
delete d r = λ log. (r, d ∷ log)

module _ (answers : Answers) where
  pub cleanup_single_orphaned_blue_green_ref : Text → Step Log (Unit {0})
  unfolding split_blue_green_state_key delete from_store
  cleanup_single_orphaned_blue_green_ref key =
      of_result (split_blue_green_state_key key) >>= λ (namespace, blue_green_ref).
      delete (resources namespace blue_green_ref)
        (answers.resources_deleted namespace blue_green_ref)
      >> (delete (records key) (from_store (answers.records_deleted key)) >> done tt)

  -- `run_with_orphan_lease`: nothing is done where another operator holds the lease.
  pub clean_if : Bool → Text → Step Log Bool
  unfolding cleanup_single_orphaned_blue_green_ref
  clean_if true key = cleanup_single_orphaned_blue_green_ref key >> done true
  clean_if false key = done false

  pub clean_one : Text → Step Log Bool
  unfolding clean_if
  clean_one key = of_result (answers.lease key) >>= λ acquired. clean_if acquired key

  -- What is in the listing of the deployments is passed over.
  pub clean_unless : Bool → Text → Step Log Bool
  unfolding clean_one
  clean_unless true key = done false
  clean_unless false key = clean_one key

  pub clean_all : List Text → List Text → ℕ → Step Log ℕ
  unfolding clean_unless
  clean_all existing [] cleaned = done cleaned
  clean_all existing (key ∷ keys) cleaned = clean_unless (contains existing key) key >>= λ c.
      clean_all existing keys (if c then cleaned + 1 else cleaned)

  pub cleanup_orphaned_blue_green_refs : Step Log ℕ
  unfolding from_store extend clean_all
  cleanup_orphaned_blue_green_refs = of_result answers.existing >>= λ existing.
      of_result (from_store answers.refs) >>= λ refs.
      of_result answers.owned >>= λ owned. clean_all existing (extend refs owned) 0
