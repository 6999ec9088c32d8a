-- ===== src/Store/Memory/Finality.antt =====
-- A verdict or a timeout is final, and operations on one case leave the others alone.
use fluidbgoperator.Base.{
  ◌≡◌, refl, ◌∙◌, Bool, true, false, not, ◌&&◌, none, some, List, [], ◌∷◌, arith,
}
use fluidbgoperator.Base.Text.{Text, text_eq, text_eq_iff}
use fluidbgoperator.Base.Int.{ℤ}
use fluidbgoperator.Base.Map.{
  lookup, insert, Distinct, lookup-insert, insert-Distinct, lookup-retain, retain-Distinct,
}
use fluidbgoperator.Store.{TestCaseRecord, is_pending, is_finalized}
use fluidbgoperator.Store.Memory.{MemoryStore, new, key_of, is_expired}
use fluidbgoperator.Store.Memory.Step.{
  Op, cleans, step, run_ops, Change, unchanged, added, updated, step-cases,
}

Change-Distinct : {s t : MemoryStore} → Change s t → Distinct s → Distinct t
Change-Distinct (unchanged e) d = rw e d
Change-Distinct (added run m e) d = rw e (insert-Distinct _ _ run d)
Change-Distinct (updated key old upd f p c e) d = rw e (insert-Distinct _ key upd d)

pub step-Distinct : (s : MemoryStore) (op : Op) → Distinct s → Distinct (step s op)
step-Distinct s op d =
    step-cases Distinct s op (λ t c. Change-Distinct c d) (λ bg e. retain-Distinct _ s d)
      (λ now e. retain-Distinct _ s d)

pub run_ops-Distinct : (s : MemoryStore) (ops : List Op) → Distinct s → Distinct (run_ops s ops)
unfolding run_ops
run_ops-Distinct s [] d = d
run_ops-Distinct s (op ∷ ops) d = run_ops-Distinct (step s op) ops (step-Distinct s op d)

pub new-Distinct : Distinct new
unfolding new Distinct
new-Distinct = tt

-- The operation that drops the records of one deployment.
abbrev pub cleans_ref : Op → Text → Bool
cleans_ref (cleans bg) ref = text_eq ref bg
cleans_ref _ ref = false

abbrev pub never_cleans : List Op → Text → Bool
never_cleans [] ref = true
never_cleans (op ∷ ops) ref = not (cleans_ref op ref) && never_cleans ops ref

insert_other :
    (s : MemoryStore) (k key : Text) (old upd r : TestCaseRecord)
    → lookup k s ≡ some old
    → is_pending old ≡ true
    → lookup key s ≡ some r
    → is_finalized r ≡ true
    → lookup key (insert k upd s) ≡ some r
insert_other s k key old upd r f p e h =
    ground (arith, lookup-insert k key upd s, text_eq_iff k key)

insert_fresh :
    (s : MemoryStore) (k key : Text) (run r : TestCaseRecord)
    → lookup k s ≡ none
    → lookup key s ≡ some r
    → lookup key (insert k run s) ≡ some r
insert_fresh s k key run r f e = ground (arith, lookup-insert k key run s, text_eq_iff k key)

Change-keeps :
    {s t : MemoryStore} (key : Text) (r : TestCaseRecord)
    → Change s t
    → lookup key s ≡ some r
    → is_finalized r ≡ true
    → lookup key t ≡ some r
Change-keeps key r (unchanged e) f h = rw e f
Change-keeps {s} key r (added run m e) f h = rw e (insert_fresh s (key_of run) key run r m f)
Change-keeps {s} key r (updated j old upd g p c e) f h =
    rw e (insert_other s j key old upd r g p f h)

not_expired : (now : ℤ) (r : TestCaseRecord) → is_finalized r ≡ true → is_expired now r ≡ false
unfolding is_expired
not_expired now r h = ground arith

step_keeps_final :
    (s : MemoryStore) (op : Op) (key : Text) (r : TestCaseRecord)
    → Distinct s
    → lookup key s ≡ some r
    → is_finalized r ≡ true
    → cleans_ref op r.blue_green_ref ≡ false
    → lookup key (step s op) ≡ some r
step_keeps_final s op key r d f h c =
    step-cases (λ t. lookup key t ≡ some r) s op (λ t ch. Change-keeps key r ch f h)
      (λ bg e.
        let kept : text_eq r.blue_green_ref bg ≡ false = rw e at c in
        lookup-retain _ s key d f ∙ rw kept refl)
      (λ now e. lookup-retain _ s key d f ∙ rw (not_expired now r h) refl)

-- Once a case has passed, failed or timed out, its record is never changed again by any sequence
-- of calls, as long as none of them cleans up the deployment that it belongs to. (Keys occur once,
-- as they do in every store that calls build from the new one.)
pub finalized_is_final :
    (s : MemoryStore) (ops : List Op) (key : Text) (r : TestCaseRecord)
    → Distinct s
    → lookup key s ≡ some r
    → is_finalized r ≡ true
    → never_cleans ops r.blue_green_ref ≡ true
    → lookup key (run_ops s ops) ≡ some r
unfolding run_ops
finalized_is_final s [] key r d f h c = f
finalized_is_final s (op ∷ ops) key r d f h c =
    finalized_is_final (step s op) ops key r (step-Distinct s op d)
      (step_keeps_final s op key r d f h (ground arith)) h (ground arith)
