-- ===== src/Store/Memory/Invariant.antt =====
-- Well-formedness of the map: each record stands under its own key, and its verdict is the one
-- that its status stands for.
use fluidbgoperator.Base.{
  ◌≡◌, refl, Bool, true, false, Option, none, some, List, [], ◌∷◌, inl, inr, if◌then◌else◌,
  Bool-cases, Option-cases,
}
use fluidbgoperator.Base.Lists.{All}
use fluidbgoperator.Base.Text.{Text}
use fluidbgoperator.Base.Int.{pos, ltb_ℤ}
use fluidbgoperator.Base.Map.{lookup, insert, Distinct, insert-All, retain-All, lookup-All}
use fluidbgoperator.Store.{TestCaseRecord, TestStatus, passed, failed, is_pending, is_finalized}
use fluidbgoperator.Store.Memory.{
  MemoryStore, record_key, key_of, merge, register, register_at, set_verdict, with_verdict,
  mark_timed_out, with_timeout, decrement_retries, cleanup_blue_green, cleanup_expired,
}
use fluidbgoperator.Store.Memory.Step.{
  Op, registers, verdicts, times_out, decrements, cleans, expires, step, run_ops,
}
use fluidbgoperator.Store.Memory.Finality.{step-Distinct}

-- The verdict that a status stands for.
abbrev pub verdict_of : TestStatus → Option Bool
verdict_of passed = some true
verdict_of failed = some false
verdict_of _ = none

abbrev pub IsCoherent : Text × TestCaseRecord → Type 0
IsCoherent (key, r) = (key ≡ key_of r) × (r.verdict ≡ verdict_of r.status)

pub record IsValid (s : MemoryStore) : Type 0 where
  pub distinct : Distinct s
  pub coherent : All IsCoherent s

-- What the callers register: a case with no verdict yet.
abbrev pub RegistersOpen : Op → Type 0
RegistersOpen (registers run) = run.verdict ≡ verdict_of run.status
RegistersOpen _ = Unit

merge-IsCoherent :
    (old run : TestCaseRecord)
    → IsCoherent (key_of run, old)
    → IsCoherent (key_of run, merge old run)
unfolding merge key_of
merge-IsCoherent old run c = c

register-IsCoherent :
    (o : Option TestCaseRecord) (run : TestCaseRecord) (s : MemoryStore)
    → lookup (key_of run) s ≡ o
    → run.verdict ≡ verdict_of run.status
    → All IsCoherent s
    → All IsCoherent (register_at o run s)
unfolding register_at
register-IsCoherent none run s e h a = insert-All IsCoherent s (key_of run) run (refl, h) a
register-IsCoherent (some old) run s e h a = elim (Bool-cases (is_finalized old)) [
  | inl done ↦ rw done a
  | inr more ↦ rw more (
      insert-All IsCoherent s (key_of run) (merge old run)
        (merge-IsCoherent old run (lookup-All IsCoherent s (key_of run) old a e)) a)
]

-- The shape that the three updates of one record share.
update-IsCoherent :
    (s : MemoryStore) (key : Text) (old upd : TestCaseRecord)
    → lookup key s ≡ some old
    → (IsCoherent (key, old) → IsCoherent (key, upd))
    → All IsCoherent s
    → All IsCoherent (insert key upd s)
update-IsCoherent s key old upd e f a =
    insert-All IsCoherent s key upd (f (lookup-All IsCoherent s key old a e)) a

set_verdict-IsCoherent :
    (bg id : Text) (pass : Bool) (message : Option Text) (s : MemoryStore)
    → All IsCoherent s
    → All IsCoherent (set_verdict bg id pass message s).1
unfolding set_verdict with_verdict key_of
set_verdict-IsCoherent bg id pass message s a = elim (Option-cases (lookup (record_key bg id) s)) [
  | inl e ↦ rw (e, set_verdict) a
  | inr (run, e) ↦ elim (Bool-cases (is_pending run)) [
    | inl p ↦
        rw (e, set_verdict)
          (rw p (
            update-IsCoherent s (record_key bg id) run (with_verdict pass message run) e
              (λ c. (c.0, verdict_written pass)) a))
    | inr p ↦ rw (e, set_verdict) (rw p a)
  ]
]
  where
    verdict_written :
        (b : Bool) → ◌≡◌ {A = Option Bool} (some b) (verdict_of (if b then passed else failed))
    verdict_written true = refl
    verdict_written false = refl

mark_timed_out-IsCoherent :
    (bg id : Text) (s : MemoryStore) → All IsCoherent s → All IsCoherent (mark_timed_out bg id s).1
unfolding mark_timed_out with_timeout key_of
mark_timed_out-IsCoherent bg id s a = elim (Option-cases (lookup (record_key bg id) s)) [
  | inl e ↦ rw (e, mark_timed_out) a
  | inr (run, e) ↦ elim (Bool-cases (is_pending run)) [
    | inl p ↦
        rw (e, mark_timed_out)
          (rw p
            (update-IsCoherent s (record_key bg id) run (with_timeout run) e (λ c. (c.0, refl)) a))
    | inr p ↦ rw (e, mark_timed_out) (rw p a)
  ]
]

decrement_retries-IsCoherent :
    (bg id : Text) (s : MemoryStore)
    → All IsCoherent s
    → All IsCoherent (decrement_retries bg id s).1
unfolding decrement_retries key_of
decrement_retries-IsCoherent bg id s a = elim (Option-cases (lookup (record_key bg id) s)) [
  | inl e ↦ rw (e, decrement_retries) a
  | inr (run, e) ↦ elim (Bool-cases (is_pending run)) [
    | inr p ↦ rw (e, decrement_retries) (rw p a)
    | inl p ↦ elim (Bool-cases (ltb_ℤ (pos 0) run.retries_remaining)) [
      | inr done ↦ rw (e, decrement_retries) (rw p (rw done a))
      | inl more ↦
          rw (e, decrement_retries)
            (rw p (rw more (update-IsCoherent s (record_key bg id) run _ e (λ c. c) a)))
    ]
  ]
]

step-IsCoherent :
    (s : MemoryStore) (op : Op) → RegistersOpen op → All IsCoherent s → All IsCoherent (step s op)
unfolding step register cleanup_blue_green cleanup_expired
step-IsCoherent s (registers run) h a = register-IsCoherent (lookup (key_of run) s) run s refl h a
step-IsCoherent s (verdicts bg id pass message) h a = set_verdict-IsCoherent bg id pass message s a
step-IsCoherent s (times_out bg id) h a = mark_timed_out-IsCoherent bg id s a
step-IsCoherent s (decrements bg id) h a = decrement_retries-IsCoherent bg id s a
step-IsCoherent s (cleans bg) h a = retain-All IsCoherent _ s a
step-IsCoherent s (expires now) h a = retain-All IsCoherent _ s a

pub step-IsValid : (s : MemoryStore) (op : Op) → RegistersOpen op → IsValid s → IsValid (step s op)
step-IsValid s op h v = record {
  distinct = step-Distinct s op v.distinct;
  coherent = step-IsCoherent s op h v.coherent;
}

-- Every sequence of calls keeps the map well formed: no key occurs twice, each record stands under
-- the key of its own deployment and test, and its verdict is `Some(true)` when it has passed,
-- `Some(false)` when it has failed and `None` otherwise. The registered records must satisfy the
-- last point.
pub run_ops-IsValid :
    (s : MemoryStore) (ops : List Op) → All RegistersOpen ops → IsValid s → IsValid (run_ops s ops)
unfolding run_ops
run_ops-IsValid s [] h v = v
run_ops-IsValid s (op ∷ ops) h v = run_ops-IsValid (step s op) ops h.1 (step-IsValid s op h.0 v)
