-- ===== src/Store/Memory/Order.antt =====
-- A hash map has no order: what the store reports must not depend on the order of its entries.
use mathlib.Core.List.{Perm, Permᴰ}
use mathlib.Core.Logic.{∥∥₁_elim}
use native.Mathlib.Nat.{ℕ_set}
use fluidbgoperator.Base.{◌≡◌, refl, sym, ap, ◌∙◌, Bool, true, ◌&&◌, some, [], ◌∷◌, arith}
use fluidbgoperator.Base.Text.{Text, text_eq}
use fluidbgoperator.Base.Map.{values, count_if}
use fluidbgoperator.Store.{ok, TestCaseRecord, VerificationMode, is_pending, mode_eq}
use fluidbgoperator.Store.Memory.{MemoryStore, counts, counts_for_mode, latest_failure_message}
use fluidbgoperator.Store.Memory.Counting.{
  has_passed, has_failed, has_timed_out, count_by, counts-count_by, counts_for_mode-count_by,
}

count_if-Permᴰ :
    (p : TestCaseRecord → Bool) {s t : MemoryStore} → Permᴰ s t → count_if p s ≡ count_if p t
unfolding count_if
count_if-Permᴰ p Permᴰ.nil = refl
count_if-Permᴰ p (Permᴰ.cons e q) = ground (arith, count_if-Permᴰ p q)
count_if-Permᴰ p (Permᴰ.swap e f) = ground arith
count_if-Permᴰ p (Permᴰ.trans q r) = count_if-Permᴰ p q ∙ count_if-Permᴰ p r

count_if-perm :
    (p : TestCaseRecord → Bool) (s t : MemoryStore) → Perm s t → count_if p s ≡ count_if p t
count_if-perm p s t q = ∥∥₁_elim q (ℕ_set (count_if p s) (count_if p t)) (λ d. count_if-Permᴰ p d)

count_by-perm :
    (p : TestCaseRecord → Bool) (s t : MemoryStore) → Perm s t → count_by p s ≡ count_by p t
unfolding count_by
count_by-perm p s t q = ground (
  arith,
  count_if-perm (λ r. p r && has_passed r.status) s t q,
  count_if-perm (λ r. p r && has_failed r.status) s t q,
  count_if-perm (λ r. p r && has_timed_out r.status) s t q,
  count_if-perm (λ r. p r && is_pending r) s t q,
)

-- The counters, of all cases and of one mode, do not depend on the order in which the map yields
-- its entries.
pub counts-perm :
    (bg : Text) (mode : VerificationMode) (s t : MemoryStore)
    → Perm s t
    → (counts bg s ≡ counts bg t) × (counts_for_mode bg mode s ≡ counts_for_mode bg mode t)
counts-perm bg mode s t q = (
  counts-count_by bg s
      ∙ ap ok (count_by-perm (λ r. text_eq r.blue_green_ref bg) s t q)
      ∙ sym (counts-count_by bg t),
  counts_for_mode-count_by bg mode s
      ∙ ap ok (
          count_by-perm (λ r. text_eq r.blue_green_ref bg && mode_eq r.verification_mode mode) s t
            q)
      ∙ sym (counts_for_mode-count_by bg mode t),
)

-- The failure message that is reported as the latest is the one that the map yields last, not the
-- one of the latest case: of two cases of a deployment, with different keys and with messages,
-- either may be reported, as the map orders them.
pub latest_failure_message_order :
    (bg k l m n : Text) (q r : TestCaseRecord)
    → text_eq q.blue_green_ref bg ≡ true
    → text_eq r.blue_green_ref bg ≡ true
    → q.failure_message ≡ some m
    → r.failure_message ≡ some n
    → (latest_failure_message bg ((k, q) ∷ (l, r) ∷ []) ≡ ok (some n))
      × (latest_failure_message bg ((l, r) ∷ (k, q) ∷ []) ≡ ok (some m))
unfolding latest_failure_message values
latest_failure_message_order bg k l m n q r hq hr eq er = ground arith
