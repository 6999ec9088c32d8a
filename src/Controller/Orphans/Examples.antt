-- ===== src/Controller/Orphans/Examples.antt =====
-- Two keys are in the store, one of them with a deployment, and a third is on a resource.
use fluidbgoperator.Base.{refl, [], ◌∷◌, ◌≡◌, true, List}
use fluidbgoperator.Base.Text.{Text, codes}
use fluidbgoperator.Store.{ok as stored}
use fluidbgoperator.Controller.{ok}
use fluidbgoperator.Controller.Steps.{After}
use fluidbgoperator.Controller.Orphans.{
  Answers, resources, records, insert, cleanup_orphaned_blue_green_refs,
}
use fluidbgoperator.Controller.Orphans.Deletions.{Justified, Complete, cleanup_deletions}

abbrev existing : List Text
existing = codes "ns/orders" ∷ []

abbrev refs : List Text
refs = codes "ns/gone" ∷ codes "ns/orders" ∷ []

abbrev owned : List Text
owned = codes "ns/lost" ∷ codes "ns/gone" ∷ []

abbrev answers : Answers
answers = record {
  existing = ok existing;
  refs = stored refs;
  owned = ok owned;
  lease = λ _. ok true;
  resources_deleted = λ _ _. ok tt;
  records_deleted = λ _. stored 3;
}

cleans_two : cleanup_orphaned_blue_green_refs answers [] ≡ (
  ok 2,
  records (codes "ns/lost")
      ∷ resources (codes "ns") (codes "lost")
      ∷ records (codes "ns/gone")
      ∷ resources (codes "ns") (codes "gone")
      ∷ [],
)
unfolding cleanup_orphaned_blue_green_refs fluidbgoperator.Controller.Steps.continue
    fluidbgoperator.Base.Text.text_eq
cleans_two = refl

keeps_order :
    insert (codes "b" ∷ codes "ba" ∷ []) (codes "aa") ≡ codes "aa" ∷ codes "b" ∷ codes "ba" ∷ []
unfolding insert
keeps_order = refl

cleanup_deletions_example :
    After
      (Justified existing refs owned)
      (λ _ w. Justified existing refs owned w × Complete answers existing refs owned w)
      (cleanup_orphaned_blue_green_refs answers [])
cleanup_deletions_example = cleanup_deletions answers existing refs owned refl refl refl
