-- ===== src/Store/Cosmos/Agreement.antt =====
-- When a call on the Cosmos store and one on the in-memory store agree, and that the writing half of
-- a change does.
use fluidbgoperator.Base.{
  ◌==◌, ◌≡◌, refl, sym, ap, ◌∙◌, ◌⊎◌, inl, inr, Option, none, some, Bool, true, false, not, ℕ,
  Bool-cases,
}
use fluidbgoperator.Base.Text.{Text, text_eq, text_eq_refl}
use fluidbgoperator.Base.Int.{pos, ◌-ℤ◌}
use fluidbgoperator.Base.Map.{lookup, insert, lookup-insert}
use fluidbgoperator.Store.{
  Result, ok, err, conflict, StoreError, TestStatus, TestCaseRecord, is_pending, status_is_pending,
}
use fluidbgoperator.Store.Memory.{MemoryStore, with_verdict, with_timeout, record_key}
use fluidbgoperator.Store.Memory as Memory
use fluidbgoperator.Store.Documents.{
  CosmosTestCase, is_pending_status, status_text, status_of_text, record_of,
}
use fluidbgoperator.Store.Documents.RoundTrip.{
  status_of_text-status_text, is_pending_status-status_text,
}
use fluidbgoperator.Store.Container.{Reply, failed, answered, Container, IsContainer, is_success}
use fluidbgoperator.Store.Cosmos.{
  Change, verdict, timeout, decrement, changed, writes, prepare, get_doc, replace_error, http_error,
  replaced, answer_with, carry_out, replace_doc, apply_change,
}

abbrev pub is_refusal : Reply → Bool
is_refusal (failed e) = true
is_refusal (answered n body) = not (is_success n)

-- A status that the store writes.
abbrev pub IsWritten : Option CosmosTestCase → Type 0
IsWritten none = Unit
IsWritten (some doc) = (s : TestStatus) × (doc.status ≡ status_text s)

abbrev pub read_record : Option CosmosTestCase → Option TestCaseRecord
read_record none = none
read_record (some doc) = some (record_of doc)

-- The status of the record, for a document with a status that the store writes.
pub status_of_record :
    (doc : CosmosTestCase)
    → IsWritten (some doc)
    → is_pending_status doc.status ≡ is_pending (record_of doc)
unfolding record_of
status_of_record doc (s, e) =
    ap is_pending_status e
    ∙ (is_pending_status-status_text (record (record_of doc) { status = s })
        ∙ ap status_is_pending (sym (ap status_of_text e ∙ status_of_text-status_text s)))

success_of_answer :
    {A : Type 0} (x : A) (test_id : Text) (reply : Reply)
    → ((answer_with x (replaced test_id reply) ≡ ok x)
        × ((n : ℕ) × (body : Text) × (reply ≡ answered n body) × (is_success n ≡ true)))
      ⊎ ((is_refusal reply ≡ true)
          × ((e : StoreError) × (answer_with x (replaced test_id reply) ≡ err e)))
unfolding replaced
success_of_answer x test_id (failed e) = inr (refl, (http_error e, refl))
success_of_answer x test_id (answered n body) = elim (Bool-cases (is_success n)) [
  | inl good ↦ inl (rw good refl, (n, body, refl, good))
  | inr bad ↦ inr (ap not bad, failure bad)
]
  where
    failure :
        is_success n ≡ false
        → (e : StoreError) × (answer_with x (replaced test_id (answered n body)) ≡ err e)
    failure bad = elim (Bool-cases (n == 412)) [
      | inl stale ↦ (conflict test_id, rw (bad, stale) refl)
      | inr other_status ↦ (replace_error n body, rw (bad, other_status) refl)
    ]

-- What a change does to a record.
abbrev pub change_record : Change → TestCaseRecord → TestCaseRecord
change_record (verdict pass message) run = with_verdict pass message run
change_record timeout run = with_timeout run
change_record decrement run = record run { retries_remaining = run.retries_remaining -ℤ pos 1 }

record_of-changed :
    (change : Change) (doc : CosmosTestCase) (e : Text)
    → record_of (record (changed change doc) { etag = some e })
      ≡ change_record change (record_of doc)
unfolding record_of changed with_verdict with_timeout status_of_text text_eq
record_of-changed (verdict true message) doc e = refl
record_of-changed (verdict false message) doc e = refl
record_of-changed timeout doc e = refl
record_of-changed decrement doc e = refl

get-insert :
    (bg test_id : Text) (run : TestCaseRecord) (m : MemoryStore)
    → Memory.get bg test_id (insert (record_key bg test_id) run m) ≡ ok (some run)
unfolding Memory.get
get-insert bg test_id run m = ap ok (
    lookup-insert (record_key bg test_id) (record_key bg test_id) run m
    ∙ rw (text_eq_refl (record_key bg test_id)) refl)

pub lookup_of_get :
    (bg test_id : Text) (m : MemoryStore) (o : Option TestCaseRecord)
    → Memory.get bg test_id m ≡ ok o
    → lookup (record_key bg test_id) m ≡ o
unfolding Memory.get
lookup_of_get bg test_id m o e = cc

module _ (C : Container) (L : IsContainer C) where
  -- One call on both stores, after `o` was read: the results agree and both are as before, or
  -- both hold one new record, or the container has refused the write and the call has failed.
  pub data Agree {A : Type 0} (change : Change) (bg test_id : Text) (o : Option CosmosTestCase)
      (s : C.State) (m : MemoryStore) (c : Result A × C.State) (r : Result A × MemoryStore)
      : Type 0 where
    unchanged : c.0 ≡ r.0 → c.1 ≡ s → r.1 ≡ m → Agree change bg test_id o s m c r
    recorded :
        (doc : CosmosTestCase)
        → c.0 ≡ r.0
        → L.stored c.1 doc.id ≡ some doc
        → Memory.get bg test_id r.1 ≡ ok (some (record_of doc))
        → Agree change bg test_id o s m c r
    refused :
        (source : CosmosTestCase)
        → o ≡ some source
        → is_refusal (C.replace (changed change source).etag (changed change source) s).0 ≡ true
        → (e : StoreError) × (c.0 ≡ err e)
        → Agree change bg test_id o s m c r

  carry_out-writes :
      {A : Type 0} (done_with : CosmosTestCase → A) (kept : A) (doc : CosmosTestCase) (s : C.State)
      → (((carry_out C done_with kept (writes doc) s).0 ≡ ok (done_with doc))
          × ((e : Text) × (L.stored (carry_out C done_with kept (writes doc) s).1 doc.id
                ≡ some (record doc { etag = some e }))))
        ⊎ ((is_refusal (C.replace doc.etag doc s).0 ≡ true)
            × ((e : StoreError) × ((carry_out C done_with kept (writes doc) s).0 ≡ err e)))
  unfolding carry_out replace_doc
  carry_out-writes done_with kept doc s =
      elim (success_of_answer (done_with doc) doc.test_id (C.replace doc.etag doc s).0) [
        | inr bad ↦ inr bad
        | inl (good, (n, body, reply, success)) ↦
            inl (good, L.replace_done doc.etag doc s n body reply success)
      ]

  -- A change that writes, on both stores.
  pub both_write :
      {A : Type 0} (done_with : CosmosTestCase → A) (kept : A) (change : Change)
      (doc : CosmosTestCase) (bg test_id : Text) (s : C.State) (m : MemoryStore)
      → Agree change bg test_id
          (some doc)
          s
          m
          (carry_out C done_with kept (writes (changed change doc)) s)
          (
            ok (done_with (changed change doc)),
            insert (record_key bg test_id) (change_record change (record_of doc)) m,
          )
  both_write done_with kept change doc bg test_id s m =
      elim (carry_out-writes done_with kept (changed change doc) s) [
        | inr (bad, error) ↦ refused doc refl bad error
        | inl (good, (e, now)) ↦
            recorded (record (changed change doc) { etag = some e }) good now
              (get-insert bg test_id (change_record change (record_of doc)) m
                ∙ ap (λ r. ok (some r)) (sym (record_of-changed change doc e)))
      ]

  pub apply_change-read :
      {A : Type 0} (change : Change) (done_with : CosmosTestCase → A) (kept : A) (bg test_id : Text)
      (s : C.State) (o : Option CosmosTestCase)
      → get_doc C bg test_id s ≡ ok o
      → apply_change C change done_with kept bg test_id s
        ≡ carry_out C done_with kept (prepare change test_id o) s
  unfolding apply_change
  apply_change-read change done_with kept bg test_id s o e = rw (e, apply_change) refl
