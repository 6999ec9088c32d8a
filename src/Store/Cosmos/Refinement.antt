-- ===== src/Store/Cosmos/Refinement.antt =====
-- The changes of the Cosmos store against those of the in-memory store.
use fluidbgoperator.Base.{
  ◌≡◌, refl, sym, ◌∙◌, inl, inr, Option, none, some, Bool, not, Bool-cases, if◌then◌else◌,
}
use fluidbgoperator.Base.Text.{Text}
use fluidbgoperator.Base.Int.{pos, ltb_ℤ, ◌-ℤ◌}
use fluidbgoperator.Base.Map.{insert}
use fluidbgoperator.Store.{ok, err, not_found, is_pending}
use fluidbgoperator.Store.Memory.{MemoryStore, with_verdict, with_timeout, record_key}
use fluidbgoperator.Store.Memory as Memory
use fluidbgoperator.Store.Documents.{CosmosTestCase, is_pending_status, record_of}
use fluidbgoperator.Store.Container.{Container, IsContainer}
use fluidbgoperator.Store.Cosmos.{
  verdict, timeout, decrement, changed, prepare, get_doc, carry_out, set_verdict, mark_timed_out,
  decrement_retries,
}
use fluidbgoperator.Store.Cosmos.Agreement.{
  IsWritten, read_record, status_of_record, lookup_of_get, Agree, unchanged, both_write,
  apply_change-read,
}

module _ (C : Container) (L : IsContainer C) where
  set_verdict-Agree :
      (bg test_id : Text) (pass : Bool) (message : Option Text) (s : C.State) (m : MemoryStore)
      (o : Option CosmosTestCase)
      → get_doc C bg test_id s ≡ ok o
      → IsWritten o
      → Memory.get bg test_id m ≡ ok (read_record o)
      → Agree C L
          (verdict pass message)
          bg
          test_id
          o
          s
          m
          (set_verdict C bg test_id pass message s)
          (Memory.set_verdict bg test_id pass message m)
  unfolding set_verdict Memory.set_verdict prepare changed carry_out
  set_verdict-Agree bg test_id pass message s m o found written same =
      rw
        (
          apply_change-read C L (verdict pass message) (λ _. tt) tt bg test_id s o found,
          lookup_of_get bg test_id m (read_record o) same,
          Memory.set_verdict,
        )
        (go o written)
    where
      go :
          (o : Option CosmosTestCase)
          → IsWritten o
          → Agree C L
              (verdict pass message)
              bg
              test_id
              o
              s
              m
              (carry_out C (λ _. tt) tt (prepare (verdict pass message) test_id o) s)
              (elim (read_record o) [
                | none ↦ (err (not_found test_id), m)
                | some run ↦
                    if not (is_pending run)
                    then (err (not_found test_id), m)
                    else (ok tt, insert (record_key bg test_id) (with_verdict pass message run) m)
              ])
      go none w = unchanged refl refl refl
      go (some doc) w = elim (Bool-cases (is_pending_status doc.status)) [
        | inr settled ↦
            rw (settled, sym (status_of_record doc w) ∙ settled) (unchanged refl refl refl)
        | inl waits ↦
            rw (waits, sym (status_of_record doc w) ∙ waits)
              (both_write C L (λ _. tt) tt (verdict pass message) doc bg test_id s m)
      ]

  mark_timed_out-Agree :
      (bg test_id : Text) (s : C.State) (m : MemoryStore) (o : Option CosmosTestCase)
      → get_doc C bg test_id s ≡ ok o
      → IsWritten o
      → Memory.get bg test_id m ≡ ok (read_record o)
      → Agree C L timeout bg test_id o s m
          (mark_timed_out C bg test_id s)
          (Memory.mark_timed_out bg test_id m)
  unfolding mark_timed_out Memory.mark_timed_out prepare changed carry_out
  mark_timed_out-Agree bg test_id s m o found written same =
      rw
        (
          apply_change-read C L timeout (λ _. tt) tt bg test_id s o found,
          lookup_of_get bg test_id m (read_record o) same,
          Memory.mark_timed_out,
        )
        (go o written)
    where
      go :
          (o : Option CosmosTestCase)
          → IsWritten o
          → Agree C L timeout bg test_id o s m
              (carry_out C (λ _. tt) tt (prepare timeout test_id o) s)
              (elim (read_record o) [
                | none ↦ (err (not_found test_id), m)
                | some run ↦
                    if not (is_pending run)
                    then (err (not_found test_id), m)
                    else (ok tt, insert (record_key bg test_id) (with_timeout run) m)
              ])
      go none w = unchanged refl refl refl
      go (some doc) w = elim (Bool-cases (is_pending_status doc.status)) [
        | inr settled ↦
            rw (settled, sym (status_of_record doc w) ∙ settled) (unchanged refl refl refl)
        | inl waits ↦
            rw (waits, sym (status_of_record doc w) ∙ waits)
              (both_write C L (λ _. tt) tt timeout doc bg test_id s m)
      ]

  decrement_retries-Agree :
      (bg test_id : Text) (s : C.State) (m : MemoryStore) (o : Option CosmosTestCase)
      → get_doc C bg test_id s ≡ ok o
      → IsWritten o
      → Memory.get bg test_id m ≡ ok (read_record o)
      → Agree C L decrement bg test_id o s m
          (decrement_retries C bg test_id s)
          (Memory.decrement_retries bg test_id m)
  unfolding decrement_retries Memory.decrement_retries prepare changed carry_out record_of
  decrement_retries-Agree bg test_id s m o found written same =
      rw
        (
          apply_change-read C L decrement (λ doc. some doc.retries_remaining) none bg test_id s o
              found,
          lookup_of_get bg test_id m (read_record o) same,
          Memory.decrement_retries,
        )
        (go o written)
    where
      go :
          (o : Option CosmosTestCase)
          → IsWritten o
          → Agree C L decrement bg test_id o s m
              (carry_out C (λ doc. some doc.retries_remaining) none (prepare decrement test_id o) s)
              (elim (read_record o) [
                | none ↦ (err (not_found test_id), m)
                | some run ↦
                    if not (is_pending run)
                    then (ok none, m)
                    else (if ltb_ℤ (pos 0) run.retries_remaining
                        then (
                          ok (some (run.retries_remaining -ℤ pos 1)),
                          insert
                              (record_key bg test_id)
                              (record run { retries_remaining = run.retries_remaining -ℤ pos 1 })
                              m,
                        )
                        else (ok none, m))
              ])
      go none w = unchanged refl refl refl
      go (some doc) w = elim (Bool-cases (is_pending_status doc.status)) [
        | inr settled ↦
            rw (settled, sym (status_of_record doc w) ∙ settled) (unchanged refl refl refl)
        | inl waits ↦ elim (Bool-cases (ltb_ℤ (pos 0) doc.retries_remaining)) [
          | inr spent ↦
              rw (waits, sym (status_of_record doc w) ∙ waits, spent) (unchanged refl refl refl)
          | inl left ↦
              rw (waits, sym (status_of_record doc w) ∙ waits, left)
                (both_write C L (λ doc. some doc.retries_remaining) none decrement doc bg test_id s
                  m)
        ]
      ]

  -- Where a read of a test case gives a document with a status that the store writes, or none, and the
  -- in-memory store holds the record of that document, or none: `set_verdict`, `mark_timed_out`
  -- and `decrement_retries` have the same result on both stores, and leave both as they are or
  -- leave the new record in memory and a document of it in the container; the exception is a
  -- replacement of a document that the container refuses.
  pub changes-Agree :
      (bg test_id : Text) (pass : Bool) (message : Option Text) (s : C.State) (m : MemoryStore)
      (o : Option CosmosTestCase)
      → get_doc C bg test_id s ≡ ok o
      → IsWritten o
      → Memory.get bg test_id m ≡ ok (read_record o)
      → Agree C L
          (verdict pass message)
          bg
          test_id
          o
          s
          m
          (set_verdict C bg test_id pass message s)
          (Memory.set_verdict bg test_id pass message m)
        × Agree C L timeout bg test_id o s m
            (mark_timed_out C bg test_id s)
            (Memory.mark_timed_out bg test_id m)
        × Agree C L decrement bg test_id o s m
            (decrement_retries C bg test_id s)
            (Memory.decrement_retries bg test_id m)
  changes-Agree bg test_id pass message s m o found written same = (
    set_verdict-Agree bg test_id pass message s m o found written same,
    mark_timed_out-Agree bg test_id s m o found written same,
    decrement_retries-Agree bg test_id s m o found written same,
  )
