-- ===== src/Store/Memory.antt =====
-- The in-memory store: operator/src/state_store/memory.rs. An operation takes the map under the
-- lock and returns its result with the new map; `now` is the clock that the code reads.
pub mod Step
pub mod Finality
pub mod Invariant
pub mod Counting
pub mod Verdicts
pub mod Registration
pub mod Order
pub mod Cleanup
mod Examples
use fluidbgoperator.Base.{
  ℕ, zero, suc, ◌+◌, ◌-◌, Bool, true, false, not, ◌&&◌, Option, none, some, List, [], ◌∷◌, ◌++◌,
  if◌then◌else◌,
}
use fluidbgoperator.Base.Lists.{length, keep}
use fluidbgoperator.Base.Text.{Text, text_eq, is_empty}
use fluidbgoperator.Base.Int.{ℤ, pos, ◌-ℤ◌, ltb_ℤ}
use fluidbgoperator.Base.Map.{Map, lookup, insert, retain, values}
use fluidbgoperator.Store.{
  Result, ok, err, not_found, TestCaseRecord, TestStatus, triggered, observing, passed, failed,
  timed_out, VerificationMode, Counts, expires_at, is_pending, is_finalized, mode_eq, StateStore,
}

abbrev pub MemoryStore : Type 0
MemoryStore = Map TestCaseRecord

pub new : MemoryStore
new = []

-- The unit separator U+001F between the two parts.
unfoldable pub record_key : Text → Text → Text
record_key blue_green_ref test_id = blue_green_ref ++ (0x1f ∷ test_id)

-- The second arm of `register`: a duplicate of a pending case completes the stored one.
pub merge : TestCaseRecord → TestCaseRecord → TestCaseRecord
merge existing run = record existing {
  verify_url =
      if is_empty existing.verify_url && not (is_empty run.verify_url)
      then run.verify_url
      else existing.verify_url;
  verifier_auth_token =
      if is_empty existing.verifier_auth_token && not (is_empty run.verifier_auth_token)
      then run.verifier_auth_token
      else existing.verifier_auth_token;
  triggered_at =
      if ltb_ℤ run.triggered_at existing.triggered_at
      then run.triggered_at
      else existing.triggered_at;
  timeout = if ltb_ℤ existing.timeout run.timeout then run.timeout else existing.timeout;
  source_inception_point =
      if is_empty existing.source_inception_point
      then run.source_inception_point
      else existing.source_inception_point;
}

pub key_of : TestCaseRecord → Text
key_of run = record_key run.blue_green_ref run.test_id

pub register_at : Option TestCaseRecord → TestCaseRecord → MemoryStore → MemoryStore
register_at none run s = insert (key_of run) run s
register_at (some existing) run s =
    if is_finalized existing then s else insert (key_of run) (merge existing run) s

pub register : TestCaseRecord → MemoryStore → Result (Unit {0}) × MemoryStore
unfolding register_at
register run s = (ok tt, register_at (lookup (key_of run) s) run s)

unfoldable pub get : Text → Text → MemoryStore → Result (Option TestCaseRecord)
get blue_green_ref test_id s = ok (lookup (record_key blue_green_ref test_id) s)

-- The record that a verdict leaves.
unfoldable pub with_verdict : Bool → Option Text → TestCaseRecord → TestCaseRecord
with_verdict pass failure_message run = record run {
  verdict = some pass;
  failure_message = failure_message;
  status = if pass then TestStatus.passed else TestStatus.failed;
}

unfoldable pub set_verdict :
    Text → Text → Bool → Option Text → MemoryStore → Result (Unit {0}) × MemoryStore
unfolding with_verdict
set_verdict blue_green_ref test_id pass failure_message s =
    let key = record_key blue_green_ref test_id in
    elim (lookup key s) [
      | none ↦ (err (not_found test_id), s)
      | some run ↦
          if not (is_pending run)
          then (err (not_found test_id), s)
          else (ok tt, insert key (with_verdict pass failure_message run) s)
    ]

unfoldable pub with_timeout : TestCaseRecord → TestCaseRecord
with_timeout run = record run { status = TestStatus.timed_out; verdict = none }

unfoldable pub mark_timed_out : Text → Text → MemoryStore → Result (Unit {0}) × MemoryStore
unfolding with_timeout
mark_timed_out blue_green_ref test_id s =
    let key = record_key blue_green_ref test_id in
    elim (lookup key s) [
      | none ↦ (err (not_found test_id), s)
      | some run ↦
          if not (is_pending run)
          then (err (not_found test_id), s)
          else (ok tt, insert key (with_timeout run) s)
    ]

unfoldable pub decrement_retries : Text → Text → MemoryStore → Result (Option ℤ) × MemoryStore
decrement_retries blue_green_ref test_id s =
    let key = record_key blue_green_ref test_id in
    elim (lookup key s) [
      | none ↦ (err (not_found test_id), s)
      | some run ↦
          if not (is_pending run)
          then (ok none, s)
          else (if ltb_ℤ (pos 0) run.retries_remaining
              then (
                ok (some (run.retries_remaining -ℤ pos 1)),
                insert key (record run { retries_remaining = run.retries_remaining -ℤ pos 1 }) s,
              )
              else (ok none, s))
    ]

pub list_pending : MemoryStore → Result (List TestCaseRecord)
list_pending s = ok (keep is_pending (values s))

-- One round of the loop in `counts_for_runs`.
pub count_run : TestStatus → Counts → Counts
count_run TestStatus.passed c = record c { passed = c.passed + 1 }
count_run TestStatus.failed c = record c { failed = c.failed + 1 }
count_run TestStatus.timed_out c = record c { timed_out = c.timed_out + 1 }
count_run triggered c = record c { pending = c.pending + 1 }
count_run observing c = record c { pending = c.pending + 1 }

pub counts_loop : Counts → List TestCaseRecord → Counts
unfolding count_run
counts_loop c [] = c
counts_loop c (run ∷ runs) = counts_loop (count_run run.status c) runs

abbrev pub no_counts : Counts
no_counts = record { passed = 0; failed = 0; timed_out = 0; pending = 0 }

pub counts_for_runs : List TestCaseRecord → Counts
unfolding counts_loop
counts_for_runs runs = counts_loop no_counts runs

pub counts : Text → MemoryStore → Result Counts
counts bg s = ok (counts_for_runs (keep (λ r. text_eq r.blue_green_ref bg) (values s)))

pub counts_for_mode : Text → VerificationMode → MemoryStore → Result Counts
counts_for_mode bg mode s = ok (
    counts_for_runs
      (keep (λ r. text_eq r.blue_green_ref bg && mode_eq r.verification_mode mode) (values s)))

pub last_message : Option Text → List TestCaseRecord → Option Text
last_message latest [] = latest
last_message latest (run ∷ runs) =
    last_message (elim run.failure_message [ none ↦ latest | some m ↦ some m ]) runs

pub latest_failure_message : Text → MemoryStore → Result (Option Text)
unfolding last_message
latest_failure_message bg s =
    ok (last_message none (keep (λ r. text_eq r.blue_green_ref bg) (values s)))

pub cleanup_blue_green : Text → MemoryStore → Result ℕ × MemoryStore
cleanup_blue_green bg s =
    let s' = retain (λ r. not (text_eq r.blue_green_ref bg)) s in (ok (length s - length s'), s')

pub is_expired : ℤ → TestCaseRecord → Bool
is_expired now r = is_pending r && ltb_ℤ (expires_at r) now

pub cleanup_expired : ℤ → MemoryStore → Result ℕ × MemoryStore
unfolding is_expired
cleanup_expired now s =
    let s' = retain (λ r. not (is_expired now r)) s in (ok (length s - length s'), s')

-- `impl StateStore for MemoryStore`.
abbrev pub memory_store : StateStore
memory_store = record {
  State = MemoryStore;
  register = register;
  get = get;
  set_verdict = set_verdict;
  mark_timed_out = mark_timed_out;
  decrement_retries = decrement_retries;
  list_pending = list_pending;
  counts = counts;
  counts_for_mode = counts_for_mode;
  latest_failure_message = latest_failure_message;
  cleanup_blue_green = cleanup_blue_green;
  cleanup_expired = cleanup_expired;
}
