-- ===== src/Store/Memory/Verdicts.antt =====
-- A verdict or a timeout on one case: when it is accepted, what it writes, whom it leaves alone.
use fluidbgoperator.Base.{
  ◌+◌, ◌≡◌, refl, ap, ◌⊎◌, inl, inr, Bool, true, false, not, ◌&&◌, Option, some, arith, one_if,
  Bool-cases, Option-cases,
}
use fluidbgoperator.Base.Text.{
  Text, text_eq, text_eq_refl, text_eq_iff, contains_char, join_injective,
}
use fluidbgoperator.Base.Map.{lookup, insert, lookup-insert, count_if, count_if-insert_old}
use fluidbgoperator.Store.{Result, ok, err, not_found, TestCaseRecord, Counts, is_pending}
use fluidbgoperator.Store.Memory.{
  MemoryStore, record_key, get, set_verdict, with_verdict, mark_timed_out, with_timeout, counts,
}
use fluidbgoperator.Store.Memory.Counting.{
  has_passed, has_failed, has_timed_out, count_by, counts-count_by,
}

-- Keys of two cases are equal only if the cases are, as long as neither deployment's reference
-- holds the separator U+001F.
pub record_key_injective :
    (bg bg' id id' : Text)
    → contains_char 0x1f bg ≡ false
    → contains_char 0x1f bg' ≡ false
    → record_key bg id ≡ record_key bg' id'
    → (bg ≡ bg') × (id ≡ id')
unfolding record_key
record_key_injective bg bg' id id' h h' e = join_injective 0x1f bg bg' id id' h h' e

pub get-lookup : (bg id : Text) (s : MemoryStore) → get bg id s ≡ ok (lookup (record_key bg id) s)
unfolding get
get-lookup bg id s = refl

-- What a call that decides a case does, with the record that it writes for an open one.
abbrev pub Decides :
    Text
    → Text
    → (TestCaseRecord → TestCaseRecord)
    → MemoryStore
    → Result (Unit {0}) × MemoryStore
    → Type 0
Decides bg id write s out =
    ((r : TestCaseRecord) × (lookup (record_key bg id) s ≡ some r)
      × (is_pending r ≡ true)
      × (out ≡ (ok tt, insert (record_key bg id) (write r) s)))
    ⊎ (((r : TestCaseRecord) → lookup (record_key bg id) s ≡ some r → is_pending r ≡ false)
        × (out ≡ (err (not_found id), s)))

pub set_verdict-Decides :
    (bg id : Text) (pass : Bool) (message : Option Text) (s : MemoryStore)
    → Decides bg id (with_verdict pass message) s (set_verdict bg id pass message s)
unfolding set_verdict
set_verdict-Decides bg id pass message s = elim (Option-cases (lookup (record_key bg id) s)) [
  | inl e ↦ inr (λ r f. cc, rw (e, set_verdict) refl)
  | inr (run, e) ↦ elim (Bool-cases (is_pending run)) [
    | inl p ↦ inl (run, e, p, rw (e, set_verdict) (rw p refl))
    | inr p ↦ inr (λ r f. ground arith, rw (e, set_verdict) (rw p refl))
  ]
]

pub mark_timed_out-Decides :
    (bg id : Text) (s : MemoryStore) → Decides bg id with_timeout s (mark_timed_out bg id s)
unfolding mark_timed_out
mark_timed_out-Decides bg id s = elim (Option-cases (lookup (record_key bg id) s)) [
  | inl e ↦ inr (λ r f. cc, rw (e, mark_timed_out) refl)
  | inr (run, e) ↦ elim (Bool-cases (is_pending run)) [
    | inl p ↦ inl (run, e, p, rw (e, mark_timed_out) (rw p refl))
    | inr p ↦ inr (λ r f. ground arith, rw (e, mark_timed_out) (rw p refl))
  ]
]

pub lookup-insert_self :
    (k : Text) (v : TestCaseRecord) (s : MemoryStore) → lookup k (insert k v s) ≡ some v
lookup-insert_self k v s = ground (arith, lookup-insert k k v s, text_eq_refl k)

decided_twice :
    (bg id : Text) (w w' : TestCaseRecord → TestCaseRecord) (s : MemoryStore)
    (out out' : Result (Unit {0}) × MemoryStore)
    → ((r : TestCaseRecord) → is_pending (w r) ≡ false)
    → Decides bg id w s out
    → out.0 ≡ ok tt
    → Decides bg id w' out.1 out'
    → out' ≡ (err (not_found id), out.1)
decided_twice bg id w w' s out out' closed (inr (h, e)) o d' = absurd (cc)
decided_twice bg id w w' s out out' closed (inl (r, f, p, e)) o (inr (h, e')) = e'
decided_twice bg id w w' s out out' closed (inl (r, f, p, e)) o (inl (q, f', p', e')) =
    ground (arith, closed r, lookup-insert_self (record_key bg id) (w r) s)

with_verdict-closed :
    (pass : Bool) (message : Option Text) (r : TestCaseRecord)
    → is_pending (with_verdict pass message r) ≡ false
unfolding with_verdict
with_verdict-closed true message r = refl
with_verdict-closed false message r = refl

with_timeout-closed : (r : TestCaseRecord) → is_pending (with_timeout r) ≡ false
unfolding with_timeout
with_timeout-closed r = refl

-- The first decision of a case wins: once a verdict on it is accepted, a later verdict and a later
-- timeout are both answered `NotFound` with its test id, and change nothing.
pub verdict_wins :
    (bg id : Text) (pass pass' : Bool) (message message' : Option Text) (s : MemoryStore)
    → (set_verdict bg id pass message s).0 ≡ ok tt
    → let s' = (set_verdict bg id pass message s).1 in
      (set_verdict bg id pass' message' s' ≡ (err (not_found id), s'))
      × (mark_timed_out bg id s' ≡ (err (not_found id), s'))
verdict_wins bg id pass pass' message message' s o =
    let s' = (set_verdict bg id pass message s).1 in
    let first = set_verdict-Decides bg id pass message s in
    (
      decided_twice bg id (with_verdict pass message) (with_verdict pass' message') s _ _
          (with_verdict-closed pass message) first o (set_verdict-Decides bg id pass' message' s'),
      decided_twice bg id (with_verdict pass message) with_timeout s _ _
          (with_verdict-closed pass message) first o (mark_timed_out-Decides bg id s'),
    )

-- After a timeout is accepted, no verdict and no second timeout is.
pub timeout_wins :
    (bg id : Text) (pass : Bool) (message : Option Text) (s : MemoryStore)
    → (mark_timed_out bg id s).0 ≡ ok tt
    → let s' = (mark_timed_out bg id s).1 in
      (set_verdict bg id pass message s' ≡ (err (not_found id), s'))
      × (mark_timed_out bg id s' ≡ (err (not_found id), s'))
timeout_wins bg id pass message s o =
    let s' = (mark_timed_out bg id s).1 in
    let first = mark_timed_out-Decides bg id s in
    (
      decided_twice bg id with_timeout (with_verdict pass message) s _ _ with_timeout-closed first o
          (set_verdict-Decides bg id pass message s'),
      decided_twice bg id with_timeout with_timeout s _ _ with_timeout-closed first o
          (mark_timed_out-Decides bg id s'),
    )

-- How an accepted verdict moves the counters of any reference.
moved :
    (bg id : Text) (pass : Bool) (message : Option Text) (s : MemoryStore) (r : TestCaseRecord)
    (ref : Text)
    → lookup (record_key bg id) s ≡ some r
    → is_pending r ≡ true
    → r.blue_green_ref ≡ bg
    → let b = count_by (λ r. text_eq r.blue_green_ref ref) s in
      let a =
        count_by
          (λ r. text_eq r.blue_green_ref ref)
          (insert (record_key bg id) (with_verdict pass message r) s) in
      (b.pending ≡ a.pending + one_if (text_eq bg ref))
      × (a.passed ≡ b.passed + one_if (text_eq bg ref && pass))
      × (a.failed ≡ b.failed + one_if (text_eq bg ref && not pass))
      × (a.timed_out ≡ b.timed_out)
unfolding count_by with_verdict
moved bg id pass message s r ref f p e = ground (
  arith,
  count (λ q. text_eq q.blue_green_ref ref && has_passed q.status),
  count (λ q. text_eq q.blue_green_ref ref && has_failed q.status),
  count (λ q. text_eq q.blue_green_ref ref && has_timed_out q.status),
  count (λ q. text_eq q.blue_green_ref ref && is_pending q),
)
  where
    count :
        (t : TestCaseRecord → Bool)
        → count_if t (insert (record_key bg id) (with_verdict pass message r) s) + one_if (t r)
          ≡ count_if t s + one_if (t (with_verdict pass message r))
    count t = count_if-insert_old t s (record_key bg id) (with_verdict pass message r) f

-- An accepted verdict moves one case of its deployment from `pending` to `passed` or to `failed`,
-- as it says, leaves `timed_out` alone, and moves no counter of another deployment. (The record
-- that stands under the key belongs to the deployment, as it does in a well-formed store.)
pub set_verdict-counts :
    (bg id ref : Text) (pass : Bool) (message : Option Text) (s : MemoryStore) (r : TestCaseRecord)
    (b a : Counts)
    → lookup (record_key bg id) s ≡ some r
    → is_pending r ≡ true
    → r.blue_green_ref ≡ bg
    → counts ref s ≡ ok b
    → counts ref (set_verdict bg id pass message s).1 ≡ ok a
    → (b.pending ≡ a.pending + one_if (text_eq bg ref))
      × (a.passed ≡ b.passed + one_if (text_eq bg ref && pass))
      × (a.failed ≡ b.failed + one_if (text_eq bg ref && not pass))
      × (a.timed_out ≡ b.timed_out)
set_verdict-counts bg id ref pass message s r b a f p e eb ea = ground (
  arith,
  moved bg id pass message s r ref f p e,
  set_verdict_writes,
  counts-count_by ref s,
  counts-count_by ref (insert (record_key bg id) (with_verdict pass message r) s),
)
  where
    set_verdict_writes :
        set_verdict bg id pass message s
        ≡ (ok tt, insert (record_key bg id) (with_verdict pass message r) s)
    set_verdict_writes = unfold set_verdict in rw (f, set_verdict) (rw p refl)

-- A decision on one case changes no other: what `get` finds for another test or another
-- deployment is the same after a verdict and after a timeout, where neither reference holds the
-- separator U+001F of the keys.
pub decision_isolated :
    (bg id bg' id' : Text) (pass : Bool) (message : Option Text) (s : MemoryStore)
    → contains_char 0x1f bg ≡ false
    → contains_char 0x1f bg' ≡ false
    → ((bg ≡ bg') × (id ≡ id') → ⊥)
    → (get bg' id' (set_verdict bg id pass message s).1 ≡ get bg' id' s)
      × (get bg' id' (mark_timed_out bg id s).1 ≡ get bg' id' s)
unfolding get
decision_isolated bg id bg' id' pass message s h h' other = (
  untouched _ _ (set_verdict-Decides bg id pass message s),
  untouched _ _ (mark_timed_out-Decides bg id s),
)
  where
    keys_differ : text_eq (record_key bg id) (record_key bg' id') ≡ false
    keys_differ = elim (Bool-cases (text_eq (record_key bg id) (record_key bg' id'))) [
      | inl same ↦
          absurd (other (record_key_injective bg bg' id id' h h' ((text_eq_iff _ _).0 same)))
      | inr differ ↦ differ
    ]

    untouched :
        (w : TestCaseRecord → TestCaseRecord) (out : Result (Unit {0}) × MemoryStore)
        → Decides bg id w s out
        → ok (lookup (record_key bg' id') out.1) ≡ ok (lookup (record_key bg' id') s)
    untouched w out (inl (r, f, p, e)) =
        rw (ap (λ o. o.1) e) (
          ground
            (arith, lookup-insert (record_key bg id) (record_key bg' id') (w r) s, keys_differ))
    untouched w out (inr (f, e)) = rw (ap (λ o. o.1) e) refl
