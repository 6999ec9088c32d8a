-- ===== src/Store/Memory/Step.antt =====
-- The calls of the in-memory store as one step function, and what a call can do to the map.
use fluidbgoperator.Base.{
  ◌≡◌, refl, inl, inr, Bool, true, false, not, Option, none, some, List, [], ◌∷◌, arith, Bool-cases,
  Option-cases,
}
use fluidbgoperator.Base.Text.{Text, text_eq}
use fluidbgoperator.Base.Int.{ℤ, pos, ◌-ℤ◌, ltb_ℤ}
use fluidbgoperator.Base.Map.{lookup, insert, retain}
use fluidbgoperator.Store.{TestCaseRecord, is_pending, is_finalized}
use fluidbgoperator.Store.Memory.{
  MemoryStore, record_key, key_of, merge, register, register_at, set_verdict, with_verdict,
  mark_timed_out, with_timeout, decrement_retries, cleanup_blue_green, cleanup_expired, is_expired,
}

-- The methods of `StateStore` that take the write lock.
pub data Op : Type 0 where
  registers : TestCaseRecord → Op
  verdicts : Text → Text → Bool → Option Text → Op
  times_out decrements : Text → Text → Op
  cleans : Text → Op
  expires : ℤ → Op

unfoldable pub step : MemoryStore → Op → MemoryStore
step s (registers run) = (register run s).1
step s (verdicts bg id pass message) = (set_verdict bg id pass message s).1
step s (times_out bg id) = (mark_timed_out bg id s).1
step s (decrements bg id) = (decrement_retries bg id s).1
step s (cleans bg) = (cleanup_blue_green bg s).1
step s (expires now) = (cleanup_expired now s).1

unfoldable pub run_ops : MemoryStore → List Op → MemoryStore
run_ops s [] = s
run_ops s (op ∷ ops) = run_ops (step s op) ops

-- What no update of a record changes.
pub record SameCase (old upd : TestCaseRecord) : Type 0 where
  pub same_id : upd.test_id ≡ old.test_id
  pub same_ref : upd.blue_green_ref ≡ old.blue_green_ref
  pub same_mode : upd.verification_mode ≡ old.verification_mode

pub data Change (s t : MemoryStore) : Type 0 where
  unchanged : t ≡ s → Change s t
  added :
      (run : TestCaseRecord)
      → lookup (key_of run) s ≡ none
      → t ≡ insert (key_of run) run s
      → Change s t
  updated :
      (key : Text) (old upd : TestCaseRecord)
      → lookup key s ≡ some old
      → is_pending old ≡ true
      → SameCase old upd
      → t ≡ insert key upd s
      → Change s t

pending_of_open : (r : TestCaseRecord) → is_finalized r ≡ false → is_pending r ≡ true
pending_of_open r h = ground arith

merge-SameCase : (old run : TestCaseRecord) → SameCase old (merge old run)
unfolding merge
merge-SameCase old run = record { same_id = refl; same_ref = refl; same_mode = refl }

register_at-Change :
    (o : Option TestCaseRecord) (run : TestCaseRecord) (s : MemoryStore)
    → lookup (key_of run) s ≡ o
    → Change s (register_at o run s)
unfolding register_at
register_at-Change none run s e = added run e refl
register_at-Change (some old) run s e = elim (Bool-cases (is_finalized old)) [
  | inl done ↦ rw done (unchanged refl)
  | inr open_case ↦ rw open_case (
      updated (key_of run) old (merge old run) e (pending_of_open old open_case)
        (merge-SameCase old run) refl)
]

pub register-Change : (run : TestCaseRecord) (s : MemoryStore) → Change s (register run s).1
unfolding register
register-Change run s = register_at-Change (lookup (key_of run) s) run s refl

pub set_verdict-Change :
    (bg id : Text) (pass : Bool) (message : Option Text) (s : MemoryStore)
    → Change s (set_verdict bg id pass message s).1
unfolding set_verdict with_verdict
set_verdict-Change bg id pass message s = elim (Option-cases (lookup (record_key bg id) s)) [
  | inl e ↦ rw (e, set_verdict) (unchanged refl)
  | inr (run, e) ↦ elim (Bool-cases (is_pending run)) [
    | inl p ↦
        rw (e, set_verdict)
          (rw p (
            updated (record_key bg id) run (with_verdict pass message run) e p
              (record { same_id = refl; same_ref = refl; same_mode = refl }) refl))
    | inr p ↦ rw (e, set_verdict) (rw p (unchanged refl))
  ]
]

pub mark_timed_out-Change : (bg id : Text) (s : MemoryStore) → Change s (mark_timed_out bg id s).1
unfolding mark_timed_out with_timeout
mark_timed_out-Change bg id s = elim (Option-cases (lookup (record_key bg id) s)) [
  | inl e ↦ rw (e, mark_timed_out) (unchanged refl)
  | inr (run, e) ↦ elim (Bool-cases (is_pending run)) [
    | inl p ↦
        rw (e, mark_timed_out)
          (rw p (
            updated (record_key bg id) run (with_timeout run) e p
              (record { same_id = refl; same_ref = refl; same_mode = refl }) refl))
    | inr p ↦ rw (e, mark_timed_out) (rw p (unchanged refl))
  ]
]

pub decrement_retries-Change :
    (bg id : Text) (s : MemoryStore) → Change s (decrement_retries bg id s).1
unfolding decrement_retries
decrement_retries-Change bg id s = elim (Option-cases (lookup (record_key bg id) s)) [
  | inl e ↦ rw (e, decrement_retries) (unchanged refl)
  | inr (run, e) ↦ elim (Bool-cases (is_pending run)) [
    | inr p ↦ rw (e, decrement_retries) (rw p (unchanged refl))
    | inl p ↦ elim (Bool-cases (ltb_ℤ (pos 0) run.retries_remaining)) [
      | inr done ↦ rw (e, decrement_retries) (rw p (rw done (unchanged refl)))
      | inl more ↦
          rw (e, decrement_retries)
            (rw p (
              rw more (
                updated (record_key bg id) run
                  (record run { retries_remaining = run.retries_remaining -ℤ pos 1 }) e p
                  (record { same_id = refl; same_ref = refl; same_mode = refl }) refl)))
    ]
  ]
]

-- Every call is a change of one case at most, or a `retain`.
pub step-cases {ℓ} :
    (P : MemoryStore → Type ℓ) (s : MemoryStore) (op : Op)
    → ((t : MemoryStore) → Change s t → P t)
    → ((bg : Text) → op ≡ cleans bg → P (retain (λ r. not (text_eq r.blue_green_ref bg)) s))
    → ((now : ℤ) → op ≡ expires now → P (retain (λ r. not (is_expired now r)) s))
    → P (step s op)
unfolding step cleanup_blue_green cleanup_expired
step-cases P s (registers run) one clean expire = one _ (register-Change run s)
step-cases P s (verdicts bg id pass message) one clean expire =
    one _ (set_verdict-Change bg id pass message s)
step-cases P s (times_out bg id) one clean expire = one _ (mark_timed_out-Change bg id s)
step-cases P s (decrements bg id) one clean expire = one _ (decrement_retries-Change bg id s)
step-cases P s (cleans bg) one clean expire = clean bg refl
step-cases P s (expires now) one clean expire = expire now refl
