-- ===== src/HttpApi/Verdicts.antt =====
-- Who may decide a test case through the HTTP API, over the in-memory store.
use fluidbgoperator.Base.{
  ◌≡◌, ◌≢◌, ◌⊎◌, refl, sym, ap, subst, inl, inr, true, Option, none, some, Bool-cases, Option-cases,
}
use fluidbgoperator.Base.Text.{Text, codes, text_eq, text_eq_iff}
use fluidbgoperator.Base.Errors.{Checked, ok, err}
use fluidbgoperator.Base.Map.{lookup, insert}
use fluidbgoperator.Store
use fluidbgoperator.Store.{TestCaseRecord, is_pending}
use fluidbgoperator.Store.Memory
use fluidbgoperator.Store.Memory.{MemoryStore, memory_store, record_key, with_verdict}
use fluidbgoperator.Store.Memory.Verdicts.{Decides, set_verdict-Decides, get-lookup}
use fluidbgoperator.Sdk.Auth.{PluginAuthClaims}
use fluidbgoperator.HttpApi.{
  answer, bad_request, ok_status, unauthorized, VerdictRequest, Response, blue_green_state_key,
  verdict_authorized, state_key_for_authorized_ref, verdict_reply, verdict_on_record,
  verdict_for_ref, set_verdict,
}

abbrev pub Out : Type 0
Out = Response × MemoryStore

abbrev pub Refused : MemoryStore → Out → Type 0
Refused s out = (out.0.status_code ≢ ok_status) × (out.1 ≡ s)

-- The case is open, the header is its verifier's token, and its record gets the verdict.
abbrev pub Accepted :
    Option Text → VerdictRequest → Text → MemoryStore → Out → TestCaseRecord → Type 0
Accepted header req key s out r =
    (out.0.status_code ≡ ok_status)
    × (lookup (record_key key req.test_id) s ≡ some r)
    × (is_pending r ≡ true)
    × (verdict_authorized header r ≡ true)
    × (out.1 ≡ insert (record_key key req.test_id) (with_verdict req.passed none r) s)

module _ (header : Option Text) (req : VerdictRequest) (s : MemoryStore) where
  reply-cases :
      (key : Text) (r : TestCaseRecord) (given : Store.Result (Unit {0}) × MemoryStore)
      → lookup (record_key key req.test_id) s ≡ some r
      → verdict_authorized header r ≡ true
      → Decides key req.test_id (with_verdict req.passed none) s given
      → ((r : TestCaseRecord) × Accepted header req key s (verdict_reply memory_store req given) r)
        ⊎ Refused s (verdict_reply memory_store req given)
  unfolding verdict_reply
  reply-cases key r given found allowed (inl (q, found', open_case, e)) =
      let same : r ≡ q = cc in
      let allowed' = subst (λ x. verdict_authorized header x ≡ true) same allowed in
      inl (q, rw e (refl, found', open_case, allowed', refl))
  reply-cases key r given found allowed (inr (closed, e)) = inr (rw e ((λ h. cc), refl))

  on_record-cases :
      (key : Text) (o : Option TestCaseRecord)
      → lookup (record_key key req.test_id) s ≡ o
      → let out = verdict_on_record memory_store header req key (Store.Result.ok o) s in
        ((r : TestCaseRecord) × Accepted header req key s out r) ⊎ Refused s out
  unfolding verdict_on_record
  on_record-cases key none found = inr ((λ h. cc), refl)
  on_record-cases key (some r) found = elim (Bool-cases (verdict_authorized header r)) [
    | inr stranger ↦ inr (rw stranger ((λ h. cc), refl))
    | inl allowed ↦ rw allowed (
        reply-cases key r (Memory.set_verdict key req.test_id req.passed none s) found allowed
          (set_verdict-Decides key req.test_id req.passed none s))
  ]

  state_key-cases :
      (claims : PluginAuthClaims) (ref : Text)
      → let key = blue_green_state_key claims.namespace claims.blue_green_ref in
        ((state_key_for_authorized_ref claims ref ≡ some key)
          × ((ref ≡ claims.blue_green_ref) ⊎ (ref ≡ key)))
        ⊎ (state_key_for_authorized_ref claims ref ≡ none)
  unfolding state_key_for_authorized_ref
  state_key-cases claims ref =
      let key = blue_green_state_key claims.namespace claims.blue_green_ref in
      elim (Bool-cases (text_eq ref claims.blue_green_ref)) [
        | inl same ↦ inl (rw same (refl, inl ((text_eq_iff _ _).0 same)))
        | inr differ ↦ elim (Bool-cases (text_eq ref key)) [
          | inl same ↦ inl (rw (differ, same) (refl, inr ((text_eq_iff _ _).0 same)))
          | inr other ↦ inr (rw (differ, other) refl)
        ]
      ]

  for_ref-some :
      (claims : PluginAuthClaims) (ref key : Text)
      → state_key_for_authorized_ref claims ref ≡ some key
      → verdict_for_ref memory_store (ok (some claims)) header req ref s
        ≡ verdict_on_record memory_store header req key
            (Store.Result.ok (lookup (record_key key req.test_id) s))
            s
  unfolding verdict_for_ref
  for_ref-some claims ref key e =
      rw (e, verdict_for_ref)
        (ap (λ o. verdict_on_record memory_store header req key o s) (get-lookup key req.test_id s))

  for_ref-none :
      (claims : PluginAuthClaims) (ref : Text)
      → state_key_for_authorized_ref claims ref ≡ none
      → verdict_for_ref memory_store (ok (some claims)) header req ref s
        ≡ (answer unauthorized req.test_id (codes "Unauthorized"), s)
  unfolding verdict_for_ref
  for_ref-none claims ref e = rw (e, verdict_for_ref) refl

  abbrev pub Decided : Checked (Option PluginAuthClaims) → Out → Type 0
  Decided auth out =
      ((claims : PluginAuthClaims) × (ref : Text) × (r : TestCaseRecord) × (auth ≡ ok (some claims))
        × (req.blue_green_ref ≡ some ref)
        × ((ref ≡ claims.blue_green_ref)
            ⊎ (ref ≡ blue_green_state_key claims.namespace claims.blue_green_ref))
        × Accepted header req (blue_green_state_key claims.namespace claims.blue_green_ref) s out r)
      ⊎ Refused s out

  for_ref-Decided :
      (auth : Checked (Option PluginAuthClaims)) (ref : Text)
      → req.blue_green_ref ≡ some ref
      → Decided auth (verdict_for_ref memory_store auth header req ref s)
  unfolding verdict_for_ref
  for_ref-Decided (err x) ref given = inr ((λ h. cc), refl)
  for_ref-Decided (ok none) ref given = inr ((λ h. cc), refl)
  for_ref-Decided (ok (some claims)) ref given = elim (state_key-cases claims ref) [
    | inr stranger ↦
        subst (Decided (ok (some claims))) (sym (for_ref-none claims ref stranger))
          (inr ((λ h. cc), refl))
    | inl (named, which) ↦
        let key = blue_green_state_key claims.namespace claims.blue_green_ref in
        subst (Decided (ok (some claims))) (sym (for_ref-some claims ref key named))
          (elim (on_record-cases key (lookup (record_key key req.test_id) s) refl) [
            | inl (r, accepted) ↦ inl (claims, ref, r, refl, given, which, accepted)
            | inr refused ↦ inr refused
          ])
  ]

  set_verdict-named :
      (auth : Checked (Option PluginAuthClaims)) (ref : Text)
      → req.blue_green_ref ≡ some ref
      → set_verdict memory_store auth header req s
        ≡ verdict_for_ref memory_store auth header req ref s
  unfolding set_verdict
  set_verdict-named auth ref given =
      ap
        (λ o. elim o [
          | none ↦ (answer bad_request req.test_id (codes "error: blue_green_ref is required"), s)
          | some named ↦ verdict_for_ref memory_store auth header req named s
        ])
        given

  set_verdict-unnamed :
      (auth : Checked (Option PluginAuthClaims))
      → req.blue_green_ref ≡ none
      → Refused s (set_verdict memory_store auth header req s)
  unfolding set_verdict
  set_verdict-unnamed auth absent = rw (absent, set_verdict) ((λ h. cc), refl)

  -- Who may decide a case. A verdict is answered `OK` only if the request names a deployment, the
  -- header has claims for that very deployment, the case is open in the store under its key, and the
  -- header is the token that the case was registered with; then the record gets the verdict and
  -- nothing else changes. Any other request is answered otherwise and leaves the store as it was.
  pub verdict_is_authorized :
      (auth : Checked (Option PluginAuthClaims))
      → Decided auth (set_verdict memory_store auth header req s)
  verdict_is_authorized auth = elim (Option-cases req.blue_green_ref) [
    | inl absent ↦ inr (set_verdict-unnamed auth absent)
    | inr (ref, given) ↦
        subst (Decided auth) (sym (set_verdict-named auth ref given))
          (for_ref-Decided auth ref given)
  ]
