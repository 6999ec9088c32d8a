-- ===== src/Store/Cosmos/Finality.antt =====
-- A write of one operator does not overwrite what another has decided.
use fluidbgoperator.Base.{
  ◌≡◌, refl, sym, ap, subst, ◌∙◌, ◌⊎◌, inl, inr, Option, none, some, List, [], ◌∷◌, Bool, true,
  false, arith,
}
use fluidbgoperator.Base.Text.{Text}
use fluidbgoperator.Base.Lists.{All, All-get_elem?}
use fluidbgoperator.Store.{TestCaseRecord}
use fluidbgoperator.Store.Documents.{CosmosTestCase, is_pending_status, document_of}
use fluidbgoperator.Store.Container.{Container, IsContainer, Matches}
use fluidbgoperator.Store.Cosmos.{Change, writes, prepare, first, register, replace_doc}
use fluidbgoperator.Store.Cosmos.Operators.{
  World, Step, reads, lands, registers, deletes, Reachable, starts, goes, is_deletion, prepare-Read,
}

etag_of : Option CosmosTestCase → Option Text
etag_of none = none
etag_of (some doc) = doc.etag

pending_of : Option CosmosTestCase → Bool
pending_of none = true
pending_of (some doc) = is_pending_status doc.status

module _ (C : Container) (L : IsContainer C) where
  -- A write that is under way has an entity tag that was in use, of a pending document.
  record IsSound (s : C.State) (doc : CosmosTestCase) : Type 0 where
    tag : Text
    tagged : doc.etag ≡ some tag
    issued : L.Issued s tag
    pending :
        (source : CosmosTestCase)
        → L.stored s doc.id ≡ some source
        → source.etag ≡ some tag
        → is_pending_status source.status ≡ true

  -- What a request does to one stored document.
  data Fate (s s' : C.State) (k : Text) : Type 0 where
    stays : L.stored s' k ≡ L.stored s k → Fate s s' k
    goes_away : L.stored s' k ≡ none → Fate s s' k
    appears :
        (doc : CosmosTestCase) (e : Text)
        → L.stored s' k ≡ some (record doc { etag = some e })
        → (L.Issued s e → ⊥)
        → Fate s s' k

  record Evolves (s s' : C.State) : Type 0 where
    issued : (e : Text) → L.Issued s e → L.Issued s' e
    fate : (k : Text) → Fate s s' k

  IsSound-Fate :
      (s s' : C.State) (doc : CosmosTestCase)
      → ((e : Text) → L.Issued s e → L.Issued s' e)
      → Fate s s' doc.id
      → IsSound s doc
      → IsSound s' doc
  unfolding etag_of
  IsSound-Fate s s' doc mono (stays same) h = record {
    tag = h.tag;
    tagged = h.tagged;
    issued = mono h.tag h.issued;
    pending = λ source e t. h.pending source (sym same ∙ e) t;
  }
  IsSound-Fate s s' doc mono (goes_away gone) h = record {
    tag = h.tag;
    tagged = h.tagged;
    issued = mono h.tag h.issued;
    pending = λ source e t. absurd (cc);
  }
  IsSound-Fate s s' doc mono (appears new e now fresh) h = record {
    tag = h.tag;
    tagged = h.tagged;
    issued = mono h.tag h.issued;
    pending = λ source e' t. absurd (fresh (subst (λ x. L.Issued s x) (used source e' t) h.issued));
  }
    where
      used :
          (source : CosmosTestCase)
          → L.stored s' doc.id ≡ some source
          → source.etag ≡ some h.tag
          → h.tag ≡ e
      used source e' t = let tags : source.etag ≡ some e = ap etag_of (sym e' ∙ now) in cc

  All-Evolves :
      (s s' : C.State)
      → Evolves s s'
      → (docs : List CosmosTestCase) → All (IsSound s) docs
      → All (IsSound s') docs
  All-Evolves s s' v [] h = tt
  All-Evolves s s' v (doc ∷ docs) h =
      (IsSound-Fate s s' doc v.issued (v.fate doc.id) h.0, All-Evolves s s' v docs h.1)

  create-Evolves : (d : CosmosTestCase) (s : C.State) → Evolves s (C.create d s).1
  create-Evolves d s = record {
    issued = L.create_issued d s;
    fate = λ k. elim (L.created d s k) [
      | inl same ↦ stays same
      | inr (absent, (e, now, fresh)) ↦ appears d e now fresh
    ];
  }

  replace-Evolves :
      (m : Option Text) (d : CosmosTestCase) (s : C.State) → Evolves s (C.replace m d s).1
  replace-Evolves m d s = record {
    issued = L.replace_issued m d s;
    fate = λ k. elim (L.replaced m d s k) [
      | inl same ↦ stays same
      | inr (here, matches, (e, now, fresh)) ↦ appears d e now fresh
    ];
  }

  delete-Evolves : (d : CosmosTestCase) (s : C.State) → Evolves s (C.delete d s).1
  delete-Evolves d s = record {
    issued = L.delete_issued d s;
    fate = λ k. elim (L.deleted d s k) [ inl same ↦ stays same | inr gone ↦ goes_away gone ];
  }

  read-IsSound :
      (s : C.State) (change : Change) (test_id : Text) (docs : List CosmosTestCase)
      (doc : CosmosTestCase)
      → All (λ d. L.stored s d.id ≡ some d) docs
      → prepare change test_id (first docs) ≡ writes doc
      → IsSound s doc
  unfolding prepare first pending_of
  read-IsSound s change test_id [] doc found e = absurd (ground (arith, e))
  read-IsSound s change test_id (source ∷ docs) doc found e =
      let r = prepare-Read change test_id source doc e in
      let (tag, tagged, issued) = L.tagged s source.id source found.0 in
      record {
        tag = tag;
        tagged = r.same_etag ∙ tagged;
        issued = issued;
        pending = λ other e' t.
            ap pending_of (sym e' ∙ (ap (L.stored s) r.same_id ∙ found.0)) ∙ r.pending;
      }

  lands-Evolves : (d : CosmosTestCase) (s : C.State) → Evolves s (replace_doc C d s).1
  unfolding replace_doc
  lands-Evolves d s = replace-Evolves d.etag d s

  registers-Evolves :
      (digest : Text → Text) (run : TestCaseRecord) (s : C.State)
      → Evolves s (register C digest run s).1
  unfolding register
  registers-Evolves digest run s = create-Evolves (document_of digest run) s

  flights-IsSound :
      (digest : Text → Text) {w : World C}
      → Reachable C digest w
      → All (IsSound w.container) w.flights
  flights-IsSound digest (starts s) = tt
  flights-IsSound digest (goes {w} before (reads change bg test_id docs doc read plan)) = (
    read-IsSound w.container change test_id docs doc (L.selected bg test_id w.container docs read)
        plan,
    flights-IsSound digest before,
  )
  flights-IsSound digest (goes {w} before (lands i doc e)) =
      All-Evolves w.container (replace_doc C doc w.container).1 (lands-Evolves doc w.container)
        w.flights (flights-IsSound digest before)
  flights-IsSound digest (goes {w} before (registers run)) =
      All-Evolves w.container (register C digest run w.container).1
        (registers-Evolves digest run w.container) w.flights (flights-IsSound digest before)
  flights-IsSound digest (goes {w} before (deletes doc)) =
      All-Evolves w.container (C.delete doc w.container).1 (delete-Evolves doc w.container)
        w.flights (flights-IsSound digest before)

  -- The write of a change takes the place of a pending document only.
  lands_on_pending :
      (s : C.State) (doc : CosmosTestCase) (k : Text) (d : CosmosTestCase)
      → IsSound s doc
      → L.stored s k ≡ some d
      → is_pending_status d.status ≡ false
      → L.stored (replace_doc C doc s).1 k ≡ some d
  unfolding replace_doc
  lands_on_pending s doc k d h e final = elim (L.replaced doc.etag doc s k) [
    | inl same ↦ same ∙ e
    | inr (here, matches, written) ↦
        let tag : d.etag ≡ some h.tag =
          subst (λ o. Matches o (some d)) h.tagged (subst (λ o. Matches doc.etag o) e matches) in
        absurd (ground (arith, h.pending d (ap (L.stored s) here ∙ e) tag, final))
  ]

  registers_elsewhere :
      (digest : Text → Text) (run : TestCaseRecord) (s : C.State) (k : Text) (d : CosmosTestCase)
      → L.stored s k ≡ some d
      → L.stored (register C digest run s).1 k ≡ some d
  unfolding register
  registers_elsewhere digest run s k d e = elim (L.created (document_of digest run) s k) [
    | inl same ↦ same ∙ e
    | inr (absent, written) ↦ absurd (cc)
  ]

  -- On a container that keeps to what Cosmos DB documents, whatever operators read, write and register
  -- in whatever order: a stored document with a verdict or a timeout stays as it is until a
  -- cleanup deletes it.
  pub finalized_document_stays :
      (digest : Text → Text) {w w' : World C}
      → Reachable C digest w
      → (step : Step C digest w w') (k : Text) (d : CosmosTestCase)
      → L.stored w.container k ≡ some d
      → is_pending_status d.status ≡ false
      → (L.stored w'.container k ≡ some d)
        ⊎ ((is_deletion C step ≡ true) × (L.stored w'.container k ≡ none))
  unfolding is_deletion
  finalized_document_stays digest past (reads change bg test_id docs doc read plan) k d e final =
      inl e
  finalized_document_stays digest {w} past (lands i doc flight) k d e final = inl (
      lands_on_pending w.container doc k d
        (All-get_elem? (IsSound w.container) w.flights i doc (flights-IsSound digest past) flight) e
        final)
  finalized_document_stays digest {w} past (registers run) k d e final =
      inl (registers_elsewhere digest run w.container k d e)
  finalized_document_stays digest {w} past (deletes doc) k d e final =
      elim (L.deleted doc w.container k) [ inl same ↦ inl (same ∙ e) | inr gone ↦ inr (refl, gone) ]
