-- ===== src/Store/Memory/Cleanup.antt =====
-- What the two clean-ups remove, what they keep, and the number that they report.
use fluidbgoperator.Base.{
  ◌-◌, ◌≡◌, refl, ◌∙◌, ap, Bool, not, ◌&&◌, none, some, [], ◌∷◌, arith, if◌then◌else◌,
}
use fluidbgoperator.Base.Lists.{length}
use fluidbgoperator.Base.Text.{Text, text_eq}
use fluidbgoperator.Base.Int.{ℤ, ltb_ℤ}
use fluidbgoperator.Base.Map.{lookup, retain, Distinct, count_if, lookup-retain, length-retain}
use fluidbgoperator.Store.{ok, TestCaseRecord, is_pending, expires_at}
use fluidbgoperator.Store.Memory.{
  MemoryStore, counts, no_counts, cleanup_blue_green, cleanup_expired, is_expired,
}
use fluidbgoperator.Store.Memory.Counting.{
  has_passed, has_failed, has_timed_out, count_by, counts-count_by,
}

count_if-not-not :
    (p : TestCaseRecord → Bool) (s : MemoryStore) → count_if (λ r. not (not (p r))) s ≡ count_if p s
unfolding count_if
count_if-not-not p [] = refl
count_if-not-not p ((k, r) ∷ s) = ground (arith, count_if-not-not p s)

removed :
    (p : TestCaseRecord → Bool) (s : MemoryStore)
    → length s - length (retain (λ r. not (p r)) s) ≡ count_if p s
removed p s = omega (arith, length-retain (λ r. not (p r)) s, count_if-not-not p s)

none_left :
    (p q : TestCaseRecord → Bool) (s : MemoryStore)
    → count_if (λ r. p r && q r) (retain (λ r. not (p r)) s) ≡ 0
unfolding count_if retain
none_left p q [] = refl
none_left p q ((k, r) ∷ s) = ground (arith, none_left p q s)

-- Cleaning up a deployment removes exactly its records and reports how many they were: afterwards
-- all of its counters are 0, and `get` finds every other record, and none of its own.
pub cleanup_blue_green_lem :
    (bg key : Text) (s : MemoryStore) (r : TestCaseRecord)
    → Distinct s
    → lookup key s ≡ some r
    → let out = cleanup_blue_green bg s in
      (out.0 ≡ ok (count_if (λ r. text_eq r.blue_green_ref bg) s))
      × (counts bg out.1 ≡ ok no_counts)
      × (lookup key out.1 ≡ (if text_eq r.blue_green_ref bg then none else some r))
unfolding cleanup_blue_green count_by
cleanup_blue_green_lem bg key s r d f = (
  ap ok (removed of_bg s),
  counts-count_by bg (retain (λ r. not (of_bg r)) s)
      ∙ rw
          (
            none_left of_bg (λ r. has_passed r.status) s,
            none_left of_bg (λ r. has_failed r.status) s,
            none_left of_bg (λ r. has_timed_out r.status) s,
            none_left of_bg is_pending s,
          )
          refl,
  ground (arith, lookup-retain (λ r. not (of_bg r)) s key d f),
)
  where
    of_bg : TestCaseRecord → Bool
    of_bg r = text_eq r.blue_green_ref bg

-- The clean-up of expired cases removes exactly the pending ones whose expiry has passed, reports
-- how many they were, and keeps every other record, finalized ones at any age included.
pub cleanup_expired_lem :
    (now : ℤ) (key : Text) (s : MemoryStore) (r : TestCaseRecord)
    → Distinct s
    → lookup key s ≡ some r
    → let out = cleanup_expired now s in
      (out.0 ≡ ok (count_if (λ r. is_pending r && ltb_ℤ (expires_at r) now) s))
      × (lookup key out.1 ≡ (if is_pending r && ltb_ℤ (expires_at r) now then none else some r))
unfolding cleanup_expired is_expired
cleanup_expired_lem now key s r d f =
    (ap ok (removed expired s), ground (arith, lookup-retain (λ r. not (expired r)) s key d f))
  where
    expired : TestCaseRecord → Bool
    expired r = is_pending r && ltb_ℤ (expires_at r) now
