-- ===== src/Store/Container/Instance/Examples.antt =====
-- Two operators on the container in memory; the laws and the theorems at concrete documents.
use fluidbgoperator.Base.{◌≡◌, ◌⊎◌, refl, none, some, [], ◌∷◌, true, false, arith}
use fluidbgoperator.Base.Text.{Text, codes, text_eq}
use fluidbgoperator.Base.Int.{pos}
use fluidbgoperator.Base.Map.{lookup}
use fluidbgoperator.Base.Bytes.{byte_limit}
use fluidbgoperator.Store.{TestStatus, data_mode, TestCaseRecord, seconds}
use fluidbgoperator.Store.Memory.{MemoryStore, record_key}
use fluidbgoperator.Store.Memory as Memory
use fluidbgoperator.Store.Documents.{
  CosmosTestCase, is_pending_status, status_text, status_of_text, document_of, record_of,
}
use fluidbgoperator.Store.Documents.RoundTrip.{record_of-document_of, cosmos_document_id_injective}
use fluidbgoperator.Store.Cosmos.{
  verdict, timeout, decrement, changed, prepare, first, get_doc, set_verdict, mark_timed_out,
  decrement_retries, replace_doc,
}
use fluidbgoperator.Store.Cosmos.Operators.{
  World, Step, reads, lands, Reachable, starts, goes, is_deletion,
}
use fluidbgoperator.Store.Cosmos.Finality.{finalized_document_stays}
use fluidbgoperator.Store.Cosmos.Agreement.{Agree}
use fluidbgoperator.Store.Cosmos.Refinement.{changes-Agree}
use fluidbgoperator.Store.Container.Instance.{
  Rows, no_rows, put, changed_row-Below, Below-suc, select, onto, document, replace, stored,
  rows_container, rows-IsContainer,
}

abbrev order : TestCaseRecord
order = record {
  test_id = codes "ORD-1";
  blue_green_ref = codes "shop";
  triggered_at = pos 1000;
  source_inception_point = codes "orders";
  timeout = seconds (pos 60);
  status = TestStatus.triggered;
  verdict = none;
  verification_mode = data_mode;
  verify_url = codes "http://check";
  verifier_auth_token = [];
  retries_remaining = pos 2;
  failure_message = none;
}

-- A digest for the examples, which keeps everything.
abbrev digest : Text → Text
digest t = t

record_of-document_of_example : record_of (document_of digest order) ≡ order
record_of-document_of_example = record_of-document_of digest order (pos 60) refl

cosmos_document_id_injective_example :
    (codes "shop" ≡ codes "shop") × (codes "ORD-1" ≡ codes "ORD-1")
unfolding byte_limit
cosmos_document_id_injective_example =
    cosmos_document_id_injective digest (codes "shop") (codes "ORD-1") (codes "shop")
      (codes "ORD-1") (λ e. e) (omega arith, (omega arith, (omega arith, (omega arith, tt)))) refl

abbrev id_of_order : Text
id_of_order = codes "shop/ORD-1"

abbrev order_document : CosmosTestCase
order_document = record {
  id = id_of_order;
  etag = some (0 ∷ []);
  test_id = codes "ORD-1";
  blue_green_ref = codes "shop";
  triggered_at = pos 1000;
  trigger_inception_point = codes "orders";
  timeout_seconds = pos 60;
  status = codes "Triggered";
  verdict = none;
  verification_mode = codes "Data";
  verify_url = codes "http://check";
  verifier_auth_token = [];
  retries_remaining = pos 2;
  failure_message = none;
  expires_at = pos 60000001000;
}

abbrev passed_document : CosmosTestCase
passed_document = record order_document { status = codes "Passed"; verdict = some true }

abbrev late_document : CosmosTestCase
late_document = record order_document { status = codes "TimedOut" }

rows : Rows
unfolding put
rows = put order_document no_rows

abbrev both_read : World rows_container
both_read = record { container = rows; flights = late_document ∷ passed_document ∷ [] }

both_read-Reachable : Reachable rows_container digest both_read
unfolding rows put changed_row-Below Below-suc select stored document onto get_doc first prepare
    changed is_pending_status text_eq replace_doc replace rows-IsContainer
both_read-Reachable =
    goes
      (goes (starts rows) (
        reads (verdict true none) (codes "shop") (codes "ORD-1") (order_document ∷ [])
          passed_document refl refl))
      (reads timeout (codes "shop") (codes "ORD-1") (order_document ∷ []) late_document refl refl)

-- After the verdict has landed.
abbrev decided : World rows_container
decided = record both_read { container = (replace_doc rows_container passed_document rows).1 }

decided-Reachable : Reachable rows_container digest decided
unfolding rows put changed_row-Below Below-suc select stored document onto get_doc first prepare
    changed is_pending_status text_eq replace_doc replace rows-IsContainer
decided-Reachable = goes both_read-Reachable (lands 1 passed_document refl)

-- The write of the timeout comes after the verdict.
too_late :
    Step rows_container digest decided (record decided {
      container = (replace_doc rows_container late_document decided.container).1;
    })
unfolding rows put changed_row-Below Below-suc select stored document onto get_doc first prepare
    changed is_pending_status text_eq replace_doc replace rows-IsContainer
too_late = lands 0 late_document refl

finalized_document_stays_example :
    (stored (replace_doc rows_container late_document decided.container).1 id_of_order
      ≡ some (record passed_document { etag = some (1 ∷ []) }))
    ⊎ ((is_deletion rows_container too_late ≡ true)
        × (stored (replace_doc rows_container late_document decided.container).1 id_of_order
            ≡ none))
unfolding rows put changed_row-Below Below-suc select stored document onto get_doc first prepare
    changed is_pending_status text_eq replace_doc replace rows-IsContainer
finalized_document_stays_example =
    finalized_document_stays rows_container rows-IsContainer digest decided-Reachable too_late
      id_of_order (record passed_document { etag = some (1 ∷ []) }) refl refl

in_memory : MemoryStore
in_memory = (record_key (codes "shop") (codes "ORD-1"), order) ∷ []

changes-Agree_example :
    Agree rows_container rows-IsContainer
      (verdict false (some (codes "wrong")))
      (codes "shop")
      (codes "ORD-1")
      (some order_document)
      rows
      in_memory
      (set_verdict rows_container (codes "shop") (codes "ORD-1") false (some (codes "wrong")) rows)
      (Memory.set_verdict (codes "shop") (codes "ORD-1") false (some (codes "wrong")) in_memory)
    × Agree rows_container rows-IsContainer timeout
        (codes "shop")
        (codes "ORD-1")
        (some order_document)
        rows
        in_memory
        (mark_timed_out rows_container (codes "shop") (codes "ORD-1") rows)
        (Memory.mark_timed_out (codes "shop") (codes "ORD-1") in_memory)
    × Agree rows_container rows-IsContainer decrement
        (codes "shop")
        (codes "ORD-1")
        (some order_document)
        rows
        in_memory
        (decrement_retries rows_container (codes "shop") (codes "ORD-1") rows)
        (Memory.decrement_retries (codes "shop") (codes "ORD-1") in_memory)
unfolding rows put changed_row-Below Below-suc select stored document onto get_doc first prepare
    changed is_pending_status text_eq replace_doc replace rows-IsContainer in_memory Memory.get
    lookup record_of status_text status_of_text record_key
changes-Agree_example =
    changes-Agree rows_container rows-IsContainer (codes "shop") (codes "ORD-1") false
      (some (codes "wrong")) rows in_memory (some order_document) refl (TestStatus.triggered, refl)
      refl
