-- ===== src/Store/Documents/RoundTrip.antt =====
-- Documents and records go into each other, and ids are apart.
use fluidbgoperator.Base.{sym, ◌≡◌, refl, ap₂, ◌∙◌, ap, ◌<◌, [], ◌∷◌, arith, suc, ◌-◌, ◌*◌, ◌/◌}
use fluidbgoperator.Base.Lists.{length, All}
use fluidbgoperator.Base.Text.{Text, text_eq}
use fluidbgoperator.Base.Int.{ℤ, pos, negsuc}
use fluidbgoperator.Base.Bytes.{byte_limit, framed, framed_injective}
use fluidbgoperator.Store.{
  TestStatus, VerificationMode, data_mode, custom_mode, TestCaseRecord, seconds, is_pending,
}
use fluidbgoperator.Store.Documents.{
  num_seconds, status_text, status_of_text, mode_text, mode_of_text, is_pending_status,
  cosmos_document_id, document_of, record_of,
}

pub status_of_text-status_text : (s : TestStatus) → status_of_text (status_text s) ≡ s
unfolding status_of_text status_text text_eq
status_of_text-status_text TestStatus.triggered = refl
status_of_text-status_text TestStatus.observing = refl
status_of_text-status_text TestStatus.passed = refl
status_of_text-status_text TestStatus.failed = refl
status_of_text-status_text TestStatus.timed_out = refl

mode_of_text-mode_text : (m : VerificationMode) → mode_of_text (mode_text m) ≡ m
unfolding mode_of_text mode_text text_eq
mode_of_text-mode_text data_mode = refl
mode_of_text-mode_text custom_mode = refl

pub is_pending_status-status_text :
    (run : TestCaseRecord) → is_pending_status (status_text run.status) ≡ is_pending run
unfolding is_pending_status status_text text_eq
is_pending_status-status_text run = go run.status
  where
    go :
        (s : TestStatus)
        → is_pending_status (status_text s) ≡ is_pending (record run { status = s })
    go TestStatus.triggered = refl
    go TestStatus.observing = refl
    go TestStatus.passed = refl
    go TestStatus.failed = refl
    go TestStatus.timed_out = refl

cut_to_seconds :
    (digest : Text → Text) (run : TestCaseRecord)
    → record_of (document_of digest run)
      ≡ record run { timeout = seconds (num_seconds run.timeout) }
unfolding record_of document_of
cut_to_seconds digest run =
    ap₂
      (λ s m. record run {
        timeout = seconds (num_seconds run.timeout);
        status = s;
        verification_mode = m;
      })
      (status_of_text-status_text run.status) (mode_of_text-mode_text run.verification_mode)

num_seconds-seconds : (z : ℤ) → num_seconds (seconds z) ≡ z
unfolding num_seconds
num_seconds-seconds (pos n) = ap pos (omega arith)
num_seconds-seconds (negsuc n) =
    let e : suc (suc n * 1000000000 - 1) / 1000000000 ≡ suc n = omega arith in
    rw (e, num_seconds) refl

-- A record whose timeout is in whole seconds is given back by its document.
pub record_of-document_of :
    (digest : Text → Text) (run : TestCaseRecord) (z : ℤ)
    → run.timeout ≡ seconds z
    → record_of (document_of digest run) ≡ run
record_of-document_of digest run z e =
    cut_to_seconds digest run
    ∙ ap (λ t. record run { timeout = t })
        (ap (λ t. seconds (num_seconds t)) e ∙ (ap seconds (num_seconds-seconds z) ∙ sym e))

-- Where the digest does not collide on the inputs of two test cases, and a text is shorter than
-- 2 ^ 64 bytes, the documents of the two have one id only if the deployments and the tests are
-- the same.
pub cosmos_document_id_injective :
    (digest : Text → Text) (bg test_id bg' test_id' : Text)
    → (digest (framed (bg ∷ test_id ∷ [])) ≡ digest (framed (bg' ∷ test_id' ∷ []))
        → framed (bg ∷ test_id ∷ []) ≡ framed (bg' ∷ test_id' ∷ []))
    → All (λ t. length t < byte_limit 8) (bg ∷ test_id ∷ bg' ∷ test_id' ∷ [])
    → cosmos_document_id digest bg test_id ≡ cosmos_document_id digest bg' test_id'
    → (bg ≡ bg') × (test_id ≡ test_id')
unfolding cosmos_document_id
cosmos_document_id_injective digest bg test_id bg' test_id' no_collision short e =
    let same =
      framed_injective (bg ∷ test_id ∷ []) (bg' ∷ test_id' ∷ []) refl (short.0, (short.1.0, tt))
        (short.1.1.0, (short.1.1.1.0, tt)) (no_collision e) in
    (cc, cc)
