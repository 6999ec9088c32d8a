-- ===== src/Store/Cosmos.antt =====
-- The store on Azure Cosmos DB: operator/src/state_store/cosmos.rs. What the requests carry besides the
-- document (dates, signatures and tokens) is not modelled.
pub mod Operators
pub mod Finality
pub mod Agreement
pub mod Refinement
use fluidbgoperator.Base.{
  ℕ, zero, suc, ◌+◌, Bool, true, false, not, ◌||◌, ◌==◌, Option, none, some, List, [], ◌∷◌, ◌++◌,
  map, if◌then◌else◌, unwrap_or,
}
use fluidbgoperator.Base.Text.{Text, codes, decimal}
use fluidbgoperator.Base.Int.{ℤ, pos, ◌-ℤ◌, ltb_ℤ}
use fluidbgoperator.Store.{
  StoreError, not_found, conflict, other, Result, ok, err, TestCaseRecord, VerificationMode, Counts,
}
use fluidbgoperator.Store.Documents.{CosmosTestCase, is_pending_status, document_of, record_of}
use fluidbgoperator.Store.Container.{Reply, failed, answered, CountRow, Container, is_success}

-- The three changes that read a document and write it back.
pub data Change : Type 0 where
  verdict : Bool → Option Text → Change
  timeout decrement : Change

unfoldable pub changed : Change → CosmosTestCase → CosmosTestCase
changed (verdict pass message) doc = record doc {
  status = if pass then codes "Passed" else codes "Failed";
  verdict = some pass;
  failure_message = message;
}
changed timeout doc = record doc { status = codes "TimedOut"; verdict = none }
changed decrement doc = record doc { retries_remaining = doc.retries_remaining -ℤ pos 1 }

-- What the code does with the document that it read.
pub data Plan : Type 0 where
  refuses : StoreError → Plan
  keeps : Plan
  writes : CosmosTestCase → Plan

unfoldable pub prepare : Change → Text → Option CosmosTestCase → Plan
unfolding changed
prepare change test_id none = refuses (not_found test_id)
prepare decrement test_id (some doc) =
    if not (is_pending_status doc.status) || not (ltb_ℤ (pos 0) doc.retries_remaining)
    then keeps
    else writes (changed decrement doc)
prepare (verdict pass message) test_id (some doc) =
    if not (is_pending_status doc.status)
    then refuses (not_found test_id)
    else writes (changed (verdict pass message) doc)
prepare timeout test_id (some doc) =
    if not (is_pending_status doc.status)
    then refuses (not_found test_id)
    else writes (changed timeout doc)

unfoldable pub first : List CosmosTestCase → Option CosmosTestCase
first [] = none
first (d ∷ ds) = some d

abbrev pub http_error : Text → StoreError
http_error e = other (codes "cosmos http request failed: " ++ e)

pub registered : Reply → Result (Unit {0})
registered (failed e) = err (http_error e)
registered (answered n body) =
    if n == 200 || (n == 201 || n == 409)
    then ok tt
    else err (other (codes "cosmos register failed: " ++ (decimal n ++ (codes " " ++ body))))

abbrev pub replace_error : ℕ → Text → StoreError
replace_error n body = other (codes "cosmos replace failed: " ++ (decimal n ++ (codes " " ++ body)))

pub replaced : Text → Reply → Result (Unit {0})
replaced test_id (failed e) = err (http_error e)
replaced test_id (answered n body) =
    if is_success n
    then ok tt
    else (if n == 412 then err (conflict test_id) else err (replace_error n body))

abbrev unwrap_count : Option ℕ → ℕ
unwrap_count o = unwrap_or o 0

pub counts_of_row : List CountRow → Counts
counts_of_row [] = record { passed = 0; failed = 0; timed_out = 0; pending = 0 }
counts_of_row (r ∷ rs) = record {
  passed = unwrap_count r.passed;
  failed = unwrap_count r.failed;
  timed_out = unwrap_count r.timed_out;
  pending = unwrap_count r.pending;
}

-- The `?` operator before the last line.
abbrev pub answer_with : {A : Type 0} → A → Result (Unit {0}) → Result A
answer_with x (err e) = err e
answer_with x (ok _) = ok x

module _ (C : Container) where
  pub register : (Text → Text) → TestCaseRecord → C.State → Result (Unit {0}) × C.State
  unfolding registered
  register digest run s =
      let (reply, s') = C.create (document_of digest run) s in (registered reply, s')

  unfoldable pub get_doc : Text → Text → C.State → Result (Option CosmosTestCase)
  unfolding first
  get_doc blue_green_ref test_id s = elim (C.select_run blue_green_ref test_id s) [
    | err e ↦ err e
    | ok docs ↦ ok (first docs)
  ]

  pub get : Text → Text → C.State → Result (Option TestCaseRecord)
  unfolding get_doc
  get blue_green_ref test_id s = elim (get_doc blue_green_ref test_id s) [
    | err e ↦ err e
    | ok none ↦ ok none
    | ok (some doc) ↦ ok (some (record_of doc))
  ]

  unfoldable pub replace_doc : CosmosTestCase → C.State → Result (Unit {0}) × C.State
  unfolding replaced
  replace_doc doc s = let (reply, s') = C.replace doc.etag doc s in (replaced doc.test_id reply, s')

  -- The writing half of a change, with what the call answers in each case.
  pub carry_out : {A : Type 0} → (CosmosTestCase → A) → A → Plan → C.State → Result A × C.State
  unfolding replace_doc
  carry_out done_with kept (refuses e) s = (err e, s)
  carry_out done_with kept keeps s = (ok kept, s)
  carry_out done_with kept (writes doc) s =
      let (r, s') = replace_doc doc s in (answer_with (done_with doc) r, s')

  -- A change from its read to its write.
  pub apply_change :
      {A : Type 0} → Change → (CosmosTestCase → A) → A → Text → Text → C.State → Result A × C.State
  unfolding get_doc prepare carry_out
  apply_change change done_with kept blue_green_ref test_id s =
      elim (get_doc blue_green_ref test_id s) [
        | err e ↦ (err e, s)
        | ok doc ↦ carry_out done_with kept (prepare change test_id doc) s
      ]

  pub set_verdict : Text → Text → Bool → Option Text → C.State → Result (Unit {0}) × C.State
  unfolding apply_change
  set_verdict blue_green_ref test_id pass failure_message =
      apply_change (verdict pass failure_message) (λ _. tt) tt blue_green_ref test_id

  pub mark_timed_out : Text → Text → C.State → Result (Unit {0}) × C.State
  unfolding apply_change
  mark_timed_out blue_green_ref test_id = apply_change timeout (λ _. tt) tt blue_green_ref test_id

  pub decrement_retries : Text → Text → C.State → Result (Option ℤ) × C.State
  unfolding apply_change
  decrement_retries blue_green_ref test_id =
      apply_change decrement (λ doc. some doc.retries_remaining) none blue_green_ref test_id

  pub list_pending : C.State → Result (List TestCaseRecord)
  list_pending s = elim (C.select_pending s) [ err e ↦ err e | ok docs ↦ ok (map record_of docs) ]

  pub counts_for_mode_query : Text → Option VerificationMode → C.State → Result Counts
  unfolding counts_of_row
  counts_for_mode_query bg mode s = elim (C.select_counts bg mode s) [
    | err e ↦ err e
    | ok rows ↦ ok (counts_of_row rows)
  ]

  pub counts : Text → C.State → Result Counts
  unfolding counts_for_mode_query
  counts bg = counts_for_mode_query bg none

  pub counts_for_mode : Text → VerificationMode → C.State → Result Counts
  unfolding counts_for_mode_query
  counts_for_mode bg mode = counts_for_mode_query bg (some mode)

  pub latest_failure_message : Text → C.State → Result (Option Text)
  latest_failure_message bg s = elim (C.select_failure bg s) [
    | err e ↦ err e
    | ok [] ↦ ok none
    | ok (message ∷ _) ↦ ok message
  ]

  -- A request without an answer ends the loop.
  pub delete_docs : List CosmosTestCase → ℕ → C.State → Result ℕ × C.State
  delete_docs [] deleted s = (ok deleted, s)
  delete_docs (doc ∷ docs) deleted s =
      let (reply, s') = C.delete doc s in
      elim reply [
        | failed e ↦ (err (http_error e), s')
        | answered n body ↦ delete_docs docs (if is_success n then deleted + 1 else deleted) s'
      ]

  pub cleanup_blue_green : Text → C.State → Result ℕ × C.State
  unfolding delete_docs
  cleanup_blue_green bg s = elim (C.select_blue_green bg s) [
    | err e ↦ (err e, s)
    | ok docs ↦ delete_docs docs 0 s
  ]

  pub cleanup_expired : ℤ → C.State → Result ℕ × C.State
  unfolding delete_docs
  cleanup_expired now s = elim (C.select_expired now s) [
    | err e ↦ (err e, s)
    | ok docs ↦ delete_docs docs 0 s
  ]
