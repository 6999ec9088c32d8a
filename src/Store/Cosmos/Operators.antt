-- ===== src/Store/Cosmos/Operators.antt =====
-- Several operators on one Cosmos container: their reads and their writes in any order.
use fluidbgoperator.Base.{
  ◌≡◌, refl, sym, ap, ◌∙◌, inl, inr, some, List, [], ◌∷◌, Bool, true, false, arith, ℕ, Bool-cases,
}
use fluidbgoperator.Base.Text.{Text}
use fluidbgoperator.Base.Lists.{get_elem?}
use fluidbgoperator.Store.{ok, TestCaseRecord}
use fluidbgoperator.Store.Documents.{CosmosTestCase, is_pending_status}
use fluidbgoperator.Store.Container.{Container}
use fluidbgoperator.Store.Cosmos.{
  Change, verdict, timeout, decrement, changed, Plan, refuses, keeps, writes, prepare, first,
  register, replace_doc,
}

planned : CosmosTestCase → Plan → CosmosTestCase
planned doc (writes written) = written
planned doc (refuses e) = doc
planned doc keeps = doc

-- The pending document that a change has read, and what it writes for it.
pub record Read (doc source : CosmosTestCase) : Type 0 where
  pub pending : is_pending_status source.status ≡ true
  pub same_id : doc.id ≡ source.id
  pub same_etag : doc.etag ≡ source.etag

written-Read :
    (change : Change) (source doc : CosmosTestCase)
    → is_pending_status source.status ≡ true
    → writes (changed change source) ≡ writes doc
    → Read doc source
unfolding changed planned
written-Read change source doc p e = record {
  pending = p;
  same_id = ap (λ l. (planned source l).id) (sym e) ∙ kept change;
  same_etag = ap (λ l. (planned source l).etag) (sym e) ∙ kept_etag change;
}
  where
    kept : (c : Change) → (changed c source).id ≡ source.id
    kept (verdict pass message) = refl
    kept timeout = refl
    kept decrement = refl

    kept_etag : (c : Change) → (changed c source).etag ≡ source.etag
    kept_etag (verdict pass message) = refl
    kept_etag timeout = refl
    kept_etag decrement = refl

pub prepare-Read :
    (change : Change) (test_id : Text) (source doc : CosmosTestCase)
    → prepare change test_id (some source) ≡ writes doc
    → Read doc source
unfolding prepare
prepare-Read (verdict pass message) test_id source doc e =
    elim (Bool-cases (is_pending_status source.status)) [
      | inl p ↦ written-Read (verdict pass message) source doc p (ground (arith, e, p))
      | inr p ↦ absurd (ground (arith, e, p))
    ]
prepare-Read timeout test_id source doc e = elim (Bool-cases (is_pending_status source.status)) [
  | inl p ↦ written-Read (timeout) source doc p (ground (arith, e, p))
  | inr p ↦ absurd (ground (arith, e, p))
]
prepare-Read decrement test_id source doc e = elim (Bool-cases (is_pending_status source.status)) [
  | inl p ↦ written-Read (decrement) source doc p (ground (arith, e, p))
  | inr p ↦ absurd (ground (arith, e, p))
]

module _ (C : Container) where
  -- The container, and the documents that operators are about to write.
  pub record World : Type 0 where
    pub container : C.State
    pub flights : List CosmosTestCase

  -- One request. A write may land, may be lost, and may land more than once.
  pub data Step (digest : Text → Text) : World → World → Type 0 where
    reads :
        {w : World} (change : Change) (bg test_id : Text) (docs : List CosmosTestCase)
        (doc : CosmosTestCase)
        → C.select_run bg test_id w.container ≡ ok docs
        → prepare change test_id (first docs) ≡ writes doc
        → Step digest w (record w { flights = doc ∷ w.flights })
    lands :
        {w : World} (i : ℕ) (doc : CosmosTestCase)
        → get_elem? w.flights i ≡ some doc
        → Step digest w (record w { container = (replace_doc C doc w.container).1 })
    registers :
        {w : World} (run : TestCaseRecord)
        → Step digest w (record w { container = (register C digest run w.container).1 })
    deletes :
        {w : World} (doc : CosmosTestCase)
        → Step digest w (record w { container = (C.delete doc w.container).1 })

  pub data Reachable (digest : Text → Text) : World → Type 0 where
    starts : (s : C.State) → Reachable digest (record { container = s; flights = [] })
    goes : {w w' : World} → Reachable digest w → Step digest w w' → Reachable digest w'

  unfoldable pub is_deletion : {digest : Text → Text} {w w' : World} → Step digest w w' → Bool
  is_deletion (deletes doc) = true
  is_deletion (reads change bg test_id docs doc read planned) = false
  is_deletion (lands i doc e) = false
  is_deletion (registers run) = false
