-- ===== src/Store.antt =====
-- The test case store: operator/src/state_store/mod.rs, the types and their methods.
-- Times and durations are integers, in nanoseconds; a sum past the range of chrono, where the code
-- panics, is not modelled.
pub mod Memory
pub mod Documents
pub mod Container
pub mod Cosmos
use fluidbgoperator.Base.{ℕ, suc, ◌*◌, ◌-◌, Bool, true, false, Option, List, ◌++◌}
use fluidbgoperator.Base.Text.{Text, codes}
use fluidbgoperator.Base.Int.{ℤ, pos, negsuc, ◌+ℤ◌}

-- `postgres` carries the rendered driver error.
pub data StoreError : Type 0 where
  not_found postgres conflict other : Text → StoreError

-- `Result` of the store.
pub data Result {ℓ} (A : Type ℓ) : Type ℓ where
  ok : A → Result A
  err : StoreError → Result A

pub data TestStatus : Type 0 where
  triggered observing passed failed timed_out : TestStatus

pub data VerificationMode : Type 0 where
  data_mode custom_mode : VerificationMode

pub record TestCaseRecord : Type 0 where
  pub test_id : Text
  pub blue_green_ref : Text
  pub triggered_at : ℤ
  pub source_inception_point : Text
  pub timeout : ℤ
  pub status : TestStatus
  pub verdict : Option Bool
  pub verification_mode : VerificationMode
  pub verify_url : Text
  pub verifier_auth_token : Text
  pub retries_remaining : ℤ
  pub failure_message : Option Text

-- `Duration::seconds`.
abbrev pub seconds : ℤ → ℤ
seconds (pos n) = pos (n * 1000000000)
seconds (negsuc n) = negsuc (suc n * 1000000000 - 1)

abbrev pub expires_at : TestCaseRecord → ℤ
expires_at r = r.triggered_at +ℤ r.timeout

abbrev pub status_is_pending : TestStatus → Bool
status_is_pending triggered = true
status_is_pending observing = true
status_is_pending _ = false

abbrev pub is_pending : TestCaseRecord → Bool
is_pending r = status_is_pending r.status

abbrev pub status_is_finalized : TestStatus → Bool
status_is_finalized passed = true
status_is_finalized failed = true
status_is_finalized timed_out = true
status_is_finalized _ = false

abbrev pub is_finalized : TestCaseRecord → Bool
is_finalized r = status_is_finalized r.status

-- The counters start at 0 and are only incremented, so they are natural numbers; an `i64` would
-- overflow at 2 ^ 63 records.
pub record Counts : Type 0 where
  pub passed : ℕ
  pub failed : ℕ
  pub timed_out : ℕ
  pub pending : ℕ

abbrev pub mode_eq : VerificationMode → VerificationMode → Bool
mode_eq data_mode data_mode = true
mode_eq custom_mode custom_mode = true
mode_eq _ _ = false

-- The `Display` of `StoreError`.
pub error_text : StoreError → Text
error_text (not_found id) = codes "not found: " ++ id
error_text (postgres e) = codes "postgres error: " ++ e
error_text (conflict e) = codes "concurrent modification: " ++ e
error_text (other e) = e

-- The trait `StateStore` as an interface: an operation takes the state of the store and returns its
-- result with the state that it leaves. `cleanup_expired` takes the clock.
pub record StateStore : Type 1 where
  pub State : Type 0
  pub register : TestCaseRecord → State → Result (Unit {0}) × State
  pub get : Text → Text → State → Result (Option TestCaseRecord)
  pub set_verdict : Text → Text → Bool → Option Text → State → Result (Unit {0}) × State
  pub mark_timed_out : Text → Text → State → Result (Unit {0}) × State
  pub decrement_retries : Text → Text → State → Result (Option ℤ) × State
  pub list_pending : State → Result (List TestCaseRecord)
  pub counts : Text → State → Result Counts
  pub counts_for_mode : Text → VerificationMode → State → Result Counts
  pub latest_failure_message : Text → State → Result (Option Text)
  pub cleanup_blue_green : Text → State → Result ℕ × State
  pub cleanup_expired : ℤ → State → Result ℕ × State
