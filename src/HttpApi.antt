-- ===== src/HttpApi.antt =====
-- The HTTP API of the operator: operator/src/http_api.rs, with `blue_green_state_key` of
-- operator/src/controller.rs. A handler takes the state of the store and returns the answer with the
-- state that it leaves. The claims of a header, the deployment that the API server finds, and the
-- clock are arguments.
pub mod Authorization
pub mod Verdicts
mod Examples
use fluidbgoperator.Base.{
  Bool, true, false, not, ◌&&◌, ◌||◌, Option, none, some, List, [], ◌∷◌, ◌++◌, if◌then◌else◌,
  unwrap_or, is_some,
}
use fluidbgoperator.Base.Text.{Text, codes, text_eq, is_empty, option_text_eq}
use fluidbgoperator.Base.Int.{ℤ, pos}
use fluidbgoperator.Base.Errors.{Checked, ok, err}
use fluidbgoperator.Store
use fluidbgoperator.Store.{
  TestCaseRecord, TestStatus, triggered, data_mode, Counts, StateStore, error_text, seconds,
}
use fluidbgoperator.Strategy.Float64.{Floats}
use fluidbgoperator.Crd.{BlueGreenDeployment, completed, rolled_back, BgdPhase}
use fluidbgoperator.Sdk.Auth.{PluginAuthClaims, bearer_token, bearer_matches}

pub data StatusCode : Type 0 where
  ok_status created bad_request unauthorized not_found gone internal_server_error : StatusCode

pub record RegisterTestCaseRequest : Type 0 where
  pub test_id : Text
  pub blue_green_ref : Text
  pub inception_point : Text
  pub triggered_at : Option ℤ
  pub timeout_seconds : Option ℤ
  pub verify_url : Option Text

pub record VerdictRequest : Type 0 where
  pub test_id : Text
  pub blue_green_ref : Option Text
  pub passed : Bool

-- `RegisterTestCaseResponse` and `VerdictResponse`, which have the same fields, with the status.
pub record Response : Type 0 where
  pub status_code : StatusCode
  pub test_id : Text
  pub status : Text

pub record CountsResponse : Type 0 where
  pub status_code : StatusCode
  pub blue_green_ref : Text
  pub counted : Counts

-- What the API server answers to the request for a deployment; a failure carries its text.
pub data Lookup (F : Floats) : Type 0 where
  present : BlueGreenDeployment F → Lookup F
  missing : Lookup F
  failure : Text → Lookup F

abbrev pub answer : StatusCode → Text → Text → Response
answer code id status = record { status_code = code; test_id = id; status = status }

pub blue_green_state_key : Text → Text → Text
blue_green_state_key namespace name = namespace ++ (b'/' ∷ name)

pub claims_match_request : PluginAuthClaims → RegisterTestCaseRequest → Bool
claims_match_request claims req =
    text_eq claims.blue_green_ref req.blue_green_ref
    && text_eq claims.inception_point req.inception_point

pub verdict_authorized : Option Text → TestCaseRecord → Bool
verdict_authorized header_value r = bearer_matches header_value (some r.verifier_auth_token)

pub state_key_for_authorized_ref : PluginAuthClaims → Text → Option Text
unfolding blue_green_state_key
state_key_for_authorized_ref claims requested_ref =
    let state_key = blue_green_state_key claims.namespace claims.blue_green_ref in
    if text_eq requested_ref claims.blue_green_ref || text_eq requested_ref state_key
    then some state_key
    else none

-- `Some(BGDPhase::Completed | BGDPhase::RolledBack)`.
pub phase_is_over : Option BgdPhase → Bool
phase_is_over (some completed) = true
phase_is_over (some rolled_back) = true
phase_is_over _ = false

abbrev pub status_phase : {F : Floats} → BlueGreenDeployment F → Option BgdPhase
status_phase bgd = elim bgd.status [ none ↦ none | some status ↦ status.phase ]

-- `nothing wrong` or the status code and text of the refusal.
pub check_bgd : {F : Floats} → Text → Lookup F → Option (StatusCode × Text)
unfolding phase_is_over
check_bgd claim_uid missing = some (gone, codes "BlueGreenDeploymentGone")
check_bgd claim_uid (failure other) =
    some (internal_server_error, codes "BlueGreenDeploymentLookupFailed: " ++ other)
check_bgd claim_uid (present bgd) =
    if not (option_text_eq bgd.metadata.uid (some claim_uid))
    then some (unauthorized, codes "Unauthorized")
    else (if is_some bgd.metadata.deletion_timestamp || phase_is_over (status_phase bgd)
        then some (gone, codes "BlueGreenDeploymentTerminal")
        else none)

-- `find namespace name` is the lookup.
pub validate_registration_bgd :
    {F : Floats}
    → (Text → Text → Lookup F)
    → PluginAuthClaims
    → RegisterTestCaseRequest
    → Option (StatusCode × Text)
unfolding check_bgd
validate_registration_bgd find claims req = elim claims.blue_green_uid [
  | none ↦ some (unauthorized, codes "Unauthorized")
  | some claim_uid ↦
      if is_empty claim_uid
      then some (unauthorized, codes "Unauthorized")
      else check_bgd claim_uid (find claims.namespace req.blue_green_ref)
]

-- The record that a registration makes.
pub registered_run : ℤ → Option Text → PluginAuthClaims → RegisterTestCaseRequest → TestCaseRecord
unfolding blue_green_state_key
registered_run now auth_header claims req = record {
  test_id = req.test_id;
  blue_green_ref = blue_green_state_key claims.namespace req.blue_green_ref;
  triggered_at = unwrap_or req.triggered_at now;
  source_inception_point = req.inception_point;
  timeout = seconds (unwrap_or req.timeout_seconds (pos 60));
  status = triggered;
  verdict = none;
  verification_mode = data_mode;
  verify_url = unwrap_or req.verify_url [];
  verifier_auth_token = unwrap_or (elim auth_header [ none ↦ none | some h ↦ bearer_token h ]) [];
  retries_remaining = pos 0;
  failure_message = none;
}

abbrev pub zero_counts : Counts
zero_counts = record { passed = 0; failed = 0; timed_out = 0; pending = 0 }

module _ (S : StateStore) where
  -- The answer to `register`, whose result and state are given.
  pub register_reply : Text → Store.Result (Unit {0}) × S.State → Response × S.State
  register_reply id (Store.Result.ok _, s) = (answer created id (codes "Triggered"), s)
  register_reply id (Store.Result.err e, s) =
      (answer internal_server_error id (codes "error: " ++ error_text e), s)

  -- `claims` is what `validate_plugin_auth` finds in the header.
  pub register_test_case :
      {F : Floats}
      → ℤ
      → (Text → Text → Lookup F)
      → Checked (Option PluginAuthClaims)
      → Option Text
      → RegisterTestCaseRequest
      → S.State
      → Response × S.State
  unfolding register_reply registered_run validate_registration_bgd claims_match_request
  register_test_case now find (err e) auth_header req s =
      (answer unauthorized req.test_id (codes "Unauthorized"), s)
  register_test_case now find (ok none) auth_header req s =
      (answer unauthorized req.test_id (codes "Unauthorized"), s)
  register_test_case now find (ok (some claims)) auth_header req s =
      if not (claims_match_request claims req)
      then (answer unauthorized req.test_id (codes "Unauthorized"), s)
      else elim (validate_registration_bgd find claims req) [
        | some (status_code, status) ↦ (answer status_code req.test_id status, s)
        | none ↦
            register_reply req.test_id (S.register (registered_run now auth_header claims req) s)
      ]

  pub verdict_reply : VerdictRequest → Store.Result (Unit {0}) × S.State → Response × S.State
  verdict_reply req (Store.Result.ok _, s) =
      (answer ok_status req.test_id (if req.passed then codes "Passed" else codes "Failed"), s)
  verdict_reply req (Store.Result.err e, s) =
      (answer not_found req.test_id (codes "error: " ++ error_text e), s)

  -- `set_verdict` from the point where the record is loaded.
  pub verdict_on_record :
      Option Text
      → VerdictRequest
      → Text
      → Store.Result (Option TestCaseRecord)
      → S.State
      → Response × S.State
  unfolding verdict_reply verdict_authorized
  verdict_on_record auth_header req state_key (Store.Result.err e) s =
      (answer internal_server_error req.test_id (codes "error: " ++ error_text e), s)
  verdict_on_record auth_header req state_key (Store.Result.ok none) s =
      (answer not_found req.test_id (codes "error: test case not found"), s)
  verdict_on_record auth_header req state_key (Store.Result.ok (some r)) s =
      if not (verdict_authorized auth_header r)
      then (answer unauthorized req.test_id (codes "Unauthorized"), s)
      else verdict_reply req (S.set_verdict state_key req.test_id req.passed none s)

  pub verdict_for_ref :
      Checked (Option PluginAuthClaims)
      → Option Text
      → VerdictRequest
      → Text
      → S.State
      → Response × S.State
  unfolding verdict_on_record state_key_for_authorized_ref
  verdict_for_ref (err e) auth_header req blue_green_ref s =
      (answer unauthorized req.test_id (codes "Unauthorized"), s)
  verdict_for_ref (ok none) auth_header req blue_green_ref s =
      (answer unauthorized req.test_id (codes "Unauthorized"), s)
  verdict_for_ref (ok (some claims)) auth_header req blue_green_ref s =
      elim (state_key_for_authorized_ref claims blue_green_ref) [
        | none ↦ (answer unauthorized req.test_id (codes "Unauthorized"), s)
        | some state_key ↦
            verdict_on_record auth_header req state_key (S.get state_key req.test_id s) s
      ]

  pub set_verdict :
      Checked (Option PluginAuthClaims)
      → Option Text
      → VerdictRequest
      → S.State
      → Response × S.State
  unfolding verdict_for_ref
  set_verdict claims auth_header req s = elim req.blue_green_ref [
    | none ↦ (answer bad_request req.test_id (codes "error: blue_green_ref is required"), s)
    | some blue_green_ref ↦ verdict_for_ref claims auth_header req blue_green_ref s
  ]

  pub counts_reply : Text → Store.Result Counts → CountsResponse
  counts_reply state_key (Store.Result.ok c) = record {
    status_code = ok_status;
    blue_green_ref = state_key;
    counted = c;
  }
  counts_reply state_key (Store.Result.err e) = record {
    status_code = internal_server_error;
    blue_green_ref = state_key;
    counted = zero_counts;
  }

  pub get_counts : Checked (Option PluginAuthClaims) → Text → S.State → CountsResponse
  unfolding counts_reply state_key_for_authorized_ref
  get_counts (ok (some claims)) bg_ref s = elim (state_key_for_authorized_ref claims bg_ref) [
    | none ↦ record { status_code = unauthorized; blue_green_ref = bg_ref; counted = zero_counts }
    | some state_key ↦ counts_reply state_key (S.counts state_key s)
  ]
  get_counts _ bg_ref s = record {
    status_code = unauthorized;
    blue_green_ref = bg_ref;
    counted = zero_counts;
  }
