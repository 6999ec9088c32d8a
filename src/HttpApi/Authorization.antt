-- ===== src/HttpApi/Authorization.antt =====
-- Who may change the store through the HTTP API, over the in-memory store.
use fluidbgoperator.Base.{
  ◌≡◌, ◌≢◌, ◌⊎◌, refl, sym, ap, ◌∙◌, inl, inr, true, false, Option, none, some, arith, Bool-cases,
  Option-cases, is_some,
}
use fluidbgoperator.Base.Text.{Text, codes, text_eq_iff, option_text_eq}
use fluidbgoperator.Base.Int.{ℤ}
use fluidbgoperator.Base.Errors.{Checked, ok, err}
use fluidbgoperator.Store.Memory
use fluidbgoperator.Store.Memory.{MemoryStore, memory_store, record_key, with_verdict}
use fluidbgoperator.Store.Memory.Registration.{register-ok}
use fluidbgoperator.Strategy.Float64.{Floats}
use fluidbgoperator.Crd.{BlueGreenDeployment}
use fluidbgoperator.Sdk.Auth.{PluginAuthClaims}
use fluidbgoperator.HttpApi.{
  answer, StatusCode, created, RegisterTestCaseRequest, Lookup, present, missing, failure,
  claims_match_request, phase_is_over, status_phase, check_bgd, validate_registration_bgd,
  registered_run, register_reply, register_test_case,
}

same_uid : (o : Option Text) (u : Text) → option_text_eq o (some u) ≡ true → o ≡ some u
same_uid none u e = absurd (cc)
same_uid (some v) u e = ap some ((text_eq_iff v u).0 e)

is_none : {A : Type 0} (o : Option A) → is_some o ≡ false → o ≡ none
is_none none e = refl
is_none (some a) e = absurd (cc)

check_bgd-none :
    {F : Floats} (uid : Text) (found : Lookup F)
    → check_bgd uid found ≡ none
    → (bgd : BlueGreenDeployment F) × (found ≡ present bgd)
      × (bgd.metadata.uid ≡ some uid)
      × (bgd.metadata.deletion_timestamp ≡ none)
      × (phase_is_over (status_phase bgd) ≡ false)
unfolding check_bgd
check_bgd-none uid missing e = absurd (cc)
check_bgd-none uid (failure other) e = absurd (cc)
check_bgd-none uid (present bgd) e = (
  bgd,
  refl,
  same_uid bgd.metadata.uid uid (ground arith),
  is_none bgd.metadata.deletion_timestamp (ground arith),
  ground arith,
)

validate-none :
    {F : Floats} (find : Text → Text → Lookup F) (claims : PluginAuthClaims)
    (req : RegisterTestCaseRequest)
    → validate_registration_bgd find claims req ≡ none
    → (uid : Text) × (claims.blue_green_uid ≡ some uid)
      × (check_bgd uid (find claims.namespace req.blue_green_ref) ≡ none)
unfolding validate_registration_bgd
validate-none find claims req e = elim (Option-cases claims.blue_green_uid) [
  | inl absent ↦ absurd (ground (arith, absent))
  | inr (uid, given) ↦ (uid, given, ground (arith, given))
]

check_bgd-refuses :
    {F : Floats} (uid : Text) (found : Lookup F) (refusal : StatusCode × Text)
    → check_bgd uid found ≡ some refusal
    → refusal.0 ≢ created
unfolding check_bgd
check_bgd-refuses uid missing refusal e h = ground arith
check_bgd-refuses uid (failure other) refusal e h = ground arith
check_bgd-refuses uid (present bgd) refusal e h = ground arith

validate-refuses :
    {F : Floats} (find : Text → Text → Lookup F) (claims : PluginAuthClaims)
    (req : RegisterTestCaseRequest) (refusal : StatusCode × Text)
    → validate_registration_bgd find claims req ≡ some refusal
    → refusal.0 ≢ created
unfolding validate_registration_bgd
validate-refuses find claims req refusal e h = elim (Option-cases claims.blue_green_uid) [
  | inl absent ↦ ground (arith, absent)
  | inr (uid, given) ↦
      ground
        (arith, given, check_bgd-refuses uid (find claims.namespace req.blue_green_ref) refusal)
]

register-passes :
    {F : Floats} (now : ℤ) (find : Text → Text → Lookup F) (claims : PluginAuthClaims)
    (header : Option Text) (req : RegisterTestCaseRequest) (s : MemoryStore)
    → claims_match_request claims req ≡ true
    → validate_registration_bgd find claims req ≡ none
    → register_test_case memory_store now find (ok (some claims)) header req s ≡ (
      answer created req.test_id (codes "Triggered"),
      (Memory.register (registered_run now header claims req) s).1,
    )
unfolding register_test_case register_reply
register-passes now find claims header req s same valid =
    rw (same, valid, register_test_case)
      (ap (register_reply memory_store req.test_id)
        (register-ok (registered_run now header claims req) s))

register-refused :
    {F : Floats} (now : ℤ) (find : Text → Text → Lookup F) (claims : PluginAuthClaims)
    (header : Option Text) (req : RegisterTestCaseRequest) (s : MemoryStore)
    (refusal : StatusCode × Text)
    → claims_match_request claims req ≡ true
    → validate_registration_bgd find claims req ≡ some refusal
    → register_test_case memory_store now find (ok (some claims)) header req s
      ≡ (answer refusal.0 req.test_id refusal.1, s)
unfolding register_test_case
register-refused now find claims header req s refusal same valid =
    rw (same, valid, register_test_case) refl

-- A registration is accepted only from a plugin of the deployment that it names: the header has
-- claims, they carry the deployment and the inception point of the request, and the deployment that
-- they mean exists under their uid, is not being deleted, and is neither completed nor rolled back.
-- The store then holds what `register` makes of the record built from the claims. Any other request
-- is answered with another status and leaves the store as it was.
pub registration_is_authorized :
    {F : Floats}
    → (now : ℤ) (find : Text → Text → Lookup F) (auth : Checked (Option PluginAuthClaims))
      (header : Option Text) (req : RegisterTestCaseRequest) (s : MemoryStore)
    → let out = register_test_case memory_store now find auth header req s in
      ((claims : PluginAuthClaims) × (uid : Text) × (bgd : BlueGreenDeployment F)
        × (out.0.status_code ≡ created)
        × (auth ≡ ok (some claims))
        × (claims.blue_green_ref ≡ req.blue_green_ref)
        × (claims.inception_point ≡ req.inception_point)
        × (claims.blue_green_uid ≡ some uid)
        × (find claims.namespace req.blue_green_ref ≡ present bgd)
        × (bgd.metadata.uid ≡ some uid)
        × (bgd.metadata.deletion_timestamp ≡ none)
        × (phase_is_over (status_phase bgd) ≡ false)
        × (out.1 ≡ (Memory.register (registered_run now header claims req) s).1))
      ⊎ ((out.0.status_code ≢ created) × (out.1 ≡ s))
unfolding register_test_case claims_match_request
registration_is_authorized now find (err e) header req s = inr ((λ e. cc), refl)
registration_is_authorized now find (ok none) header req s = inr ((λ e. cc), refl)
registration_is_authorized now find (ok (some claims)) header req s =
    elim (Bool-cases (claims_match_request claims req)) [
      | inr other ↦ inr (rw other ((λ e. cc), refl))
      | inl same ↦ elim (Option-cases (validate_registration_bgd find claims req)) [
        | inr ((code, status), refused) ↦
            let out = register-refused now find claims header req s (code, status) same refused in
            inr (
              λ h.
                  validate-refuses find claims req (code, status) refused
                    (sym (ap (λ o. o.0.status_code) out) ∙ h),
              ap (λ o. o.1) out,
            )
        | inl valid ↦
            let (uid, given, checked) = validate-none find claims req valid in
            let (bgd, found, right_uid, kept, running) = check_bgd-none uid _ checked in
            let out = register-passes now find claims header req s same valid in
            inl (
              claims,
              uid,
              bgd,
              ap (λ o. o.0.status_code) out,
              refl,
              (text_eq_iff _ _).0 (ground arith),
              (text_eq_iff _ _).0 (ground arith),
              given,
              found,
              right_uid,
              kept,
              running,
              ap (λ o. o.1) out,
            )
      ]
    ]
