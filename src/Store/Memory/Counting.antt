-- ===== src/Store/Memory/Counting.antt =====
-- The counters against an independent count of the records, and how a verdict moves them.
use fluidbgoperator.Base.{
  ◌+◌, ◌≡◌, refl, ◌∙◌, inl, inr, Bool, true, false, ◌&&◌, [], ◌∷◌, arith, Bool-cases,
}
use fluidbgoperator.Base.Lists.{keep}
use fluidbgoperator.Base.Text.{Text, text_eq}
use fluidbgoperator.Base.Map.{values, count_if}
use fluidbgoperator.Store.{
  ok, TestCaseRecord, TestStatus, passed, failed, timed_out, VerificationMode, data_mode,
  custom_mode, Counts, is_pending, status_is_pending, mode_eq,
}
use fluidbgoperator.Store.Memory.{
  MemoryStore, count_run, counts_loop, no_counts, counts_for_runs, counts, counts_for_mode,
}

abbrev pub has_passed : TestStatus → Bool
has_passed passed = true
has_passed _ = false

abbrev pub has_failed : TestStatus → Bool
has_failed failed = true
has_failed _ = false

abbrev pub has_timed_out : TestStatus → Bool
has_timed_out timed_out = true
has_timed_out _ = false

-- The counts of the records that pass a test, each counter by a count of its own.
unfoldable pub count_by : (TestCaseRecord → Bool) → MemoryStore → Counts
count_by p s = record {
  passed = count_if (λ r. p r && has_passed r.status) s;
  failed = count_if (λ r. p r && has_failed r.status) s;
  timed_out = count_if (λ r. p r && has_timed_out r.status) s;
  pending = count_if (λ r. p r && is_pending r) s;
}

pub add_counts : Counts → Counts → Counts
add_counts a b = record {
  passed = a.passed + b.passed;
  failed = a.failed + b.failed;
  timed_out = a.timed_out + b.timed_out;
  pending = a.pending + b.pending;
}

loop-count_by :
    (p : TestCaseRecord → Bool) (s : MemoryStore) (c : Counts)
    → counts_loop c (keep p (values s)) ≡ add_counts c (count_by p s)
unfolding counts_loop count_by add_counts values count_if
loop-count_by p [] c = ground arith
loop-count_by p ((k, r) ∷ s) c = elim (Bool-cases (p r)) [
  | inl y ↦ ground (arith, loop-count_by p s (count_run r.status c))
  | inr n ↦ ground (arith, loop-count_by p s c)
]

-- The loop counts what an independent count of each status finds: each counter of
-- `counts_for_runs` over the records that pass a test is the number of those records with the
-- status, the two unfinished statuses together for `pending`.
pub counts_for_runs-count_by :
    (p : TestCaseRecord → Bool) (s : MemoryStore)
    → counts_for_runs (keep p (values s)) ≡ count_by p s
unfolding counts_for_runs add_counts
counts_for_runs-count_by p s = loop-count_by p s no_counts ∙ ground arith

pub counts-count_by :
    (bg : Text) (s : MemoryStore) → counts bg s ≡ ok (count_by (λ r. text_eq r.blue_green_ref bg) s)
unfolding counts
counts-count_by bg s = rw (counts_for_runs-count_by (λ r. text_eq r.blue_green_ref bg) s)

split_mode :
    (p : TestCaseRecord → Bool) (q : TestStatus → Bool) (s : MemoryStore)
    → count_if (λ r. p r && q r.status) s
      ≡ count_if (λ r. (p r && mode_eq r.verification_mode data_mode) && q r.status) s
        + count_if (λ r. (p r && mode_eq r.verification_mode custom_mode) && q r.status) s
unfolding count_if
split_mode p q [] = ground arith
split_mode p q ((k, r) ∷ s) = ground (arith, split_mode p q s)

split_status :
    (p : TestCaseRecord → Bool) (s : MemoryStore)
    → let c = count_by p s in c.passed + c.failed + c.timed_out + c.pending ≡ count_if p s
unfolding count_if count_by
split_status p [] = refl
split_status p ((k, r) ∷ s) = ground (arith, split_status p s)

pub counts_for_mode-count_by :
    (bg : Text) (mode : VerificationMode) (s : MemoryStore)
    → counts_for_mode bg mode s
      ≡ ok (count_by (λ r. text_eq r.blue_green_ref bg && mode_eq r.verification_mode mode) s)
unfolding counts_for_mode
counts_for_mode-count_by bg mode s = rw (
    counts_for_runs-count_by (λ r. text_eq r.blue_green_ref bg && mode_eq r.verification_mode mode)
      s)

-- The four counters of a deployment add up to the number of its records, and each is the sum of
-- the counters of its data cases and of its custom cases.
pub counts_partition :
    (bg : Text) (s : MemoryStore) (c d m : Counts)
    → counts bg s ≡ ok c
    → counts_for_mode bg data_mode s ≡ ok d
    → counts_for_mode bg custom_mode s ≡ ok m
    → (c.passed + c.failed + c.timed_out + c.pending
        ≡ count_if (λ r. text_eq r.blue_green_ref bg) s)
      × (c ≡ add_counts d m)
unfolding add_counts count_by
counts_partition bg s c d m ec ed em = ground (
  arith,
  counts-count_by bg s,
  counts_for_mode-count_by bg data_mode s,
  counts_for_mode-count_by bg custom_mode s,
  split_status (λ r. text_eq r.blue_green_ref bg) s,
  split_mode (λ r. text_eq r.blue_green_ref bg) has_passed s,
  split_mode (λ r. text_eq r.blue_green_ref bg) has_failed s,
  split_mode (λ r. text_eq r.blue_green_ref bg) has_timed_out s,
  split_mode (λ r. text_eq r.blue_green_ref bg) status_is_pending s,
)
