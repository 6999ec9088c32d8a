-- ===== src/Store/Documents.antt =====
-- The documents of operator/src/state_store/cosmos.rs, and the records that they stand for.
pub mod RoundTrip
use fluidbgoperator.Base.{
  ℕ, zero, suc, ◌-◌, ◌*◌, ◌/◌, Bool, true, false, ◌||◌, Option, none, some, List, [], ◌∷◌,
  if◌then◌else◌,
}
use fluidbgoperator.Base.Text.{Text, codes, text_eq}
use fluidbgoperator.Base.Int.{ℤ, pos, negsuc}
use fluidbgoperator.Base.Bytes.{framed}
use fluidbgoperator.Store.{
  TestStatus, VerificationMode, data_mode, custom_mode, TestCaseRecord, seconds, expires_at,
}

pub record CosmosTestCase : Type 0 where
  pub id : Text
  pub etag : Option Text
  pub test_id : Text
  pub blue_green_ref : Text
  pub triggered_at : ℤ
  pub trigger_inception_point : Text
  pub timeout_seconds : ℤ
  pub status : Text
  pub verdict : Option Bool
  pub verification_mode : Text
  pub verify_url : Text
  pub verifier_auth_token : Text
  pub retries_remaining : ℤ
  pub failure_message : Option Text
  pub expires_at : ℤ

-- `Duration::num_seconds`, which drops a part of a second.
pub num_seconds : ℤ → ℤ
num_seconds (pos n) = pos (n / 1000000000)
num_seconds (negsuc n) = let s = suc n / 1000000000 in elim s [ zero ↦ pos 0 | suc k ↦ negsuc k ]

unfoldable pub status_text : TestStatus → Text
status_text TestStatus.triggered = codes "Triggered"
status_text TestStatus.observing = codes "Observing"
status_text TestStatus.passed = codes "Passed"
status_text TestStatus.failed = codes "Failed"
status_text TestStatus.timed_out = codes "TimedOut"

unfoldable pub status_of_text : Text → TestStatus
status_of_text s =
    if text_eq s (codes "Observing")
    then TestStatus.observing
    else (if text_eq s (codes "Passed")
        then TestStatus.passed
        else (if text_eq s (codes "Failed")
            then TestStatus.failed
            else (if text_eq s (codes "TimedOut")
                then TestStatus.timed_out
                else TestStatus.triggered)))

pub mode_text : VerificationMode → Text
mode_text data_mode = codes "Data"
mode_text custom_mode = codes "Custom"

pub mode_of_text : Text → VerificationMode
mode_of_text s = if text_eq s (codes "Custom") then custom_mode else data_mode

-- `is_pending_status`.
unfoldable pub is_pending_status : Text → Bool
is_pending_status s = text_eq s (codes "Triggered") || text_eq s (codes "Observing")

-- `digest` is SHA-256 with the URL-safe base64 of its result.
pub cosmos_document_id : (Text → Text) → Text → Text → Text
unfolding framed
cosmos_document_id digest blue_green_ref test_id = digest (framed (blue_green_ref ∷ test_id ∷ []))

module _ (digest : Text → Text) where
  unfoldable pub document_of : TestCaseRecord → CosmosTestCase
  unfolding num_seconds status_text mode_text cosmos_document_id
  document_of run = record {
    id = cosmos_document_id digest run.blue_green_ref run.test_id;
    etag = none;
    test_id = run.test_id;
    blue_green_ref = run.blue_green_ref;
    triggered_at = run.triggered_at;
    trigger_inception_point = run.source_inception_point;
    timeout_seconds = num_seconds run.timeout;
    status = status_text run.status;
    verdict = run.verdict;
    verification_mode = mode_text run.verification_mode;
    verify_url = run.verify_url;
    verifier_auth_token = run.verifier_auth_token;
    retries_remaining = run.retries_remaining;
    failure_message = run.failure_message;
    expires_at = expires_at run;
  }

unfoldable pub record_of : CosmosTestCase → TestCaseRecord
unfolding status_of_text mode_of_text
record_of doc = record {
  test_id = doc.test_id;
  blue_green_ref = doc.blue_green_ref;
  triggered_at = doc.triggered_at;
  source_inception_point = doc.trigger_inception_point;
  timeout = seconds doc.timeout_seconds;
  status = status_of_text doc.status;
  verdict = doc.verdict;
  verification_mode = mode_of_text doc.verification_mode;
  verify_url = doc.verify_url;
  verifier_auth_token = doc.verifier_auth_token;
  retries_remaining = doc.retries_remaining;
  failure_message = doc.failure_message;
}
