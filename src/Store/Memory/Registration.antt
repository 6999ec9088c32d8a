-- ===== src/Store/Memory/Registration.antt =====
-- Registering a case: a repeated call changes nothing more, and a duplicate only completes.
use fluidbgoperator.Base.{
  ◌≡◌, refl, ap, inl, inr, Option, none, some, arith, if◌then◌else◌, Bool-cases,
}
use fluidbgoperator.Base.Text.{Text, text_eq_refl, is_empty}
use fluidbgoperator.Base.Int.{◌≤ℤ◌}
use fluidbgoperator.Base.Map.{lookup, insert, lookup-insert, insert-same}
use fluidbgoperator.Store.{ok, TestCaseRecord, is_finalized}
use fluidbgoperator.Store.Memory.{MemoryStore, key_of, merge, register, register_at}

pub register-ok :
    (run : TestCaseRecord) (s : MemoryStore) → register run s ≡ (ok tt, (register run s).1)
unfolding register
register-ok run s = refl

merge-merge : (old run : TestCaseRecord) → merge (merge old run) run ≡ merge old run
unfolding merge
merge-merge old run = ground arith

merge_self : (run : TestCaseRecord) → merge run run ≡ run
unfolding merge
merge_self run = ground arith

lookup-insert_self :
    (k : Text) (v : TestCaseRecord) (s : MemoryStore) → lookup k (insert k v s) ≡ some v
lookup-insert_self k v s = ground (arith, lookup-insert k k v s, text_eq_refl k)

register_at_again :
    (run v : TestCaseRecord) (s : MemoryStore)
    → lookup (key_of run) s ≡ some v
    → merge v run ≡ v
    → register_at (lookup (key_of run) s) run s ≡ s
unfolding register_at
register_at_again run v s f m = elim (Bool-cases (is_finalized v)) [
  | inl done ↦ rw (f, register_at) (rw done refl)
  | inr more ↦ rw (f, register_at) (rw (more, m) (insert-same (key_of run) v s f))
]

register_at_idem :
    (o : Option TestCaseRecord) (run : TestCaseRecord) (s : MemoryStore)
    → lookup (key_of run) s ≡ o
    → let s' = register_at o run s in register_at (lookup (key_of run) s') run s' ≡ s'
unfolding register_at
register_at_idem none run s e =
    register_at_again run run (insert (key_of run) run s) (lookup-insert_self (key_of run) run s)
      (merge_self run)
register_at_idem (some old) run s e = elim (Bool-cases (is_finalized old)) [
  | inl done ↦ rw done (rw (e, register_at) (rw done refl))
  | inr more ↦ rw more (
      register_at_again run (merge old run) (insert (key_of run) (merge old run) s)
        (lookup-insert_self (key_of run) (merge old run) s) (merge-merge old run))
]

-- Registering is idempotent: when a plugin repeats a registration, the store stays as the first
-- one left it, whether the case was new, open or finalized.
pub register_idem :
    (run : TestCaseRecord) (s : MemoryStore) → register run (register run s).1 ≡ register run s
unfolding register
register_idem run s = ap (λ t. (ok tt, t)) (register_at_idem (lookup (key_of run) s) run s refl)

-- What a merged registration keeps: the case starts no later and may run no shorter than either
-- record says, its status is that of the stored record, and a verification address or a token is
-- taken from the new one exactly where the stored one is empty.
pub merge-keeps :
    (old run : TestCaseRecord)
    → let m = merge old run in
      (m.triggered_at ≤ℤ old.triggered_at)
      × (m.triggered_at ≤ℤ run.triggered_at)
      × (old.timeout ≤ℤ m.timeout)
      × (run.timeout ≤ℤ m.timeout)
      × (m.status ≡ old.status)
      × (m.verify_url ≡ (if is_empty old.verify_url then run.verify_url else old.verify_url))
      × (m.verifier_auth_token ≡ (
          if is_empty old.verifier_auth_token
          then run.verifier_auth_token
          else old.verifier_auth_token))
unfolding merge
merge-keeps old run = ground arith
