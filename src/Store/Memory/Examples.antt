-- ===== src/Store/Memory/Examples.antt =====
-- The properties of the in-memory store at concrete stores.
use mathlib.Core.List.{Perm, Permᴰ}
use fluidbgoperator.Base.{
  ◌+◌, ◌≡◌, refl, true, false, not, ◌&&◌, none, some, List, [], ◌∷◌, ◌++◌, one_if,
}
use fluidbgoperator.Base.Text.{Text, codes, text_eq, text_eq_refl}
use fluidbgoperator.Base.Int.{pos}
use fluidbgoperator.Base.Lists.{keep}
use fluidbgoperator.Base.Map.{lookup, Distinct, insert, values}
use fluidbgoperator.Store.{
  ok, err, not_found, TestCaseRecord, TestStatus, triggered, data_mode, custom_mode, Counts,
}
use fluidbgoperator.Store.Memory.{
  MemoryStore, record_key, key_of, with_verdict, set_verdict, mark_timed_out, counts,
  counts_for_mode, counts_for_runs, counts_loop, count_run, no_counts, latest_failure_message,
}
use fluidbgoperator.Store.Memory.Step.{Op, registers, verdicts, times_out, cleans, expires, run_ops}
use fluidbgoperator.Store.Memory.Finality.{finalized_is_final}
use fluidbgoperator.Store.Memory.Invariant.{IsValid, run_ops-IsValid}
use fluidbgoperator.Store.Memory.Counting.{count_by, counts_for_runs-count_by}
use fluidbgoperator.Store.Memory.Verdicts.{verdict_wins, set_verdict-counts}
use fluidbgoperator.Store.Memory.Order.{latest_failure_message_order}

abbrev bg : Text
bg = codes "ns/app"

abbrev other_bg : Text
other_bg = codes "ns/web"

abbrev open_case : TestCaseRecord
open_case = record {
  test_id = codes "t1";
  blue_green_ref = bg;
  triggered_at = pos 10;
  source_inception_point = codes "orders";
  timeout = pos 60;
  status = triggered;
  verdict = none;
  verification_mode = data_mode;
  verify_url = codes "http://t";
  verifier_auth_token = [];
  retries_remaining = pos 2;
  failure_message = none;
}

abbrev passed_case : TestCaseRecord
passed_case = record open_case {
  test_id = codes "t2";
  status = TestStatus.passed;
  verdict = some true;
  failure_message = some (codes "slow");
}

abbrev other_case : TestCaseRecord
other_case = record open_case { blue_green_ref = other_bg; verification_mode = custom_mode }

abbrev key1 : Text
key1 = bg ++ (0x1f ∷ codes "t1")

abbrev key2 : Text
key2 = bg ++ (0x1f ∷ codes "t2")

abbrev key3 : Text
key3 = other_bg ++ (0x1f ∷ codes "t1")

abbrev three_cases : MemoryStore
three_cases = (key1, open_case) ∷ (key2, passed_case) ∷ (key3, other_case) ∷ []

three_cases-Distinct : Distinct three_cases
unfolding Distinct lookup text_eq
three_cases-Distinct = (refl, (refl, (refl, tt)))

three_cases-IsValid : IsValid three_cases
unfolding key_of record_key
three_cases-IsValid = record {
  distinct = three_cases-Distinct;
  coherent = ((refl, refl), ((refl, refl), ((refl, refl), tt)));
}

abbrev calls : List Op
calls =
    verdicts bg (codes "t2") false none
    ∷ times_out bg (codes "t2")
    ∷ registers open_case
    ∷ cleans other_bg
    ∷ expires (pos 1000)
    ∷ []

finalized_is_final_example : lookup key2 (run_ops three_cases calls) ≡ some passed_case
unfolding lookup text_eq
finalized_is_final_example =
    finalized_is_final three_cases calls key2 passed_case three_cases-Distinct refl refl refl

run_ops-IsValid_example : IsValid (run_ops three_cases calls)
run_ops-IsValid_example =
    run_ops-IsValid three_cases calls (tt, (tt, (refl, (tt, (tt, tt))))) three_cases-IsValid

accepted : (set_verdict bg (codes "t1") true none three_cases).0 ≡ ok tt
unfolding set_verdict record_key lookup text_eq
accepted = refl

verdict_wins_example :
    let s' = (set_verdict bg (codes "t1") true none three_cases).1 in
    (set_verdict bg (codes "t1") false (some (codes "late")) s'
      ≡ (err (not_found (codes "t1")), s'))
    × (mark_timed_out bg (codes "t1") s' ≡ (err (not_found (codes "t1")), s'))
verdict_wins_example =
    verdict_wins bg (codes "t1") true false none (some (codes "late")) three_cases accepted

timed_out_first : (mark_timed_out bg (codes "t1") three_cases).0 ≡ ok tt
unfolding mark_timed_out record_key lookup text_eq
timed_out_first = refl

found : lookup (record_key bg (codes "t1")) three_cases ≡ some open_case
unfolding record_key lookup text_eq
found = refl

abbrev before : Counts
before = record { passed = 1; failed = 0; timed_out = 0; pending = 1 }

abbrev after : Counts
after = record { passed = 2; failed = 0; timed_out = 0; pending = 0 }

counted : counts bg three_cases ≡ ok before
unfolding counts counts_for_runs counts_loop count_run text_eq values
counted = refl

counted_after : counts bg (set_verdict bg (codes "t1") true none three_cases).1 ≡ ok after
unfolding counts counts_for_runs counts_loop count_run text_eq values set_verdict with_verdict
    record_key lookup insert
counted_after = refl

set_verdict-counts_example :
    (before.pending ≡ after.pending + one_if (text_eq bg bg))
    × (after.passed ≡ before.passed + one_if (text_eq bg bg && true))
    × (after.failed ≡ before.failed + one_if (text_eq bg bg && not true))
    × (after.timed_out ≡ before.timed_out)
set_verdict-counts_example =
    set_verdict-counts bg (codes "t1") bg true none three_cases open_case before after found refl
      refl counted counted_after

counts_for_runs-count_by_example :
    counts_for_runs (keep (λ r. text_eq r.blue_green_ref bg) (values three_cases))
    ≡ count_by (λ r. text_eq r.blue_green_ref bg) three_cases
counts_for_runs-count_by_example =
    counts_for_runs-count_by (λ r. text_eq r.blue_green_ref bg) three_cases

counted_data : counts_for_mode bg data_mode three_cases ≡ ok before
unfolding counts_for_mode counts_for_runs counts_loop count_run text_eq values
counted_data = refl

counted_custom : counts_for_mode bg custom_mode three_cases ≡ ok no_counts
unfolding counts_for_mode counts_for_runs counts_loop count_run text_eq values
counted_custom = refl

abbrev repeated_case : TestCaseRecord
repeated_case = record open_case { triggered_at = pos 5; verifier_auth_token = codes "secret" }

abbrev reordered : MemoryStore
reordered = (key2, passed_case) ∷ (key1, open_case) ∷ (key3, other_case) ∷ []

same_entries : Perm three_cases reordered
same_entries = ∣ Permᴰ.swap refl refl ∣₁

abbrev failing_case : TestCaseRecord
failing_case = record open_case {
  triggered_at = pos 20;
  status = TestStatus.failed;
  verdict = some false;
  failure_message = some (codes "lost");
}

latest_failure_message_order_example :
    (latest_failure_message bg ((key2, passed_case) ∷ (key1, failing_case) ∷ [])
      ≡ ok (some (codes "lost")))
    × (latest_failure_message bg ((key1, failing_case) ∷ (key2, passed_case) ∷ [])
        ≡ ok (some (codes "slow")))
latest_failure_message_order_example =
    latest_failure_message_order bg key2 key1 (codes "slow") (codes "lost") passed_case failing_case
      of_bg of_bg refl refl
  where
    of_bg : text_eq bg bg ≡ true
    of_bg = text_eq_refl bg

found_again : lookup key2 three_cases ≡ some passed_case
unfolding lookup text_eq
found_again = refl
