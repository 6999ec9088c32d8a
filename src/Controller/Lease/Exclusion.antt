-- ===== src/Controller/Lease/Exclusion.antt =====
-- Who writes over a lease object, of operator/src/controller/lease.rs.
use fluidbgoperator.Base.{
  ℕ, ◌≡◌, ◌⊎◌, refl, sym, ap, subst, ◌∙◌, inl, inr, true, some, List, [], ◌∷◌, ◌++◌, arith,
  Bool-cases, Option-cases,
}
use fluidbgoperator.Base.Int.{ℤ}
use fluidbgoperator.Controller.Lease.{
  LeaseConfig, LeaseSpec, lease_expired, held_by, lease_can_be_acquired, Stored, Kind, acquires,
  renews, Attempt, World, Event, reads, writes, deletes, goes_on, written, accepts, nth,
  write_attempt, happens, run, empty,
}
use fluidbgoperator.Controller.Lease.History.{
  IsSound, IsFresh, nth-All, run-IsFresh, empty-IsFresh, WasRead, run-snoc, AllRead, nothing_read,
  run-AllRead,
}

-- An attempt of the world writes the new object. Its operator read the old one earlier in the
-- history, and at the time of that read it held the old lease or the old lease had expired.
pub record IsTakenBy (es : List Event) (e : Event) (old : Stored) (spec : LeaseSpec) (new : Stored)
    : Type 0 where
  pub index : ℕ
  pub at : ℤ
  pub attempt : Attempt
  pub is_write : e ≡ writes index at
  pub pending_attempt : nth index (run es empty).attempts ≡ some attempt
  pub written_by : new.spec ≡ some (written attempt at)
  pub before : List Event
  pub after : List Event
  pub history : es ≡ before ++ (reads attempt.kind attempt.config attempt.read_at ∷ after)
  pub saw : (run before empty).stored ≡ some old
  pub entitled : (held_by attempt.config spec ≡ true) ⊎ (lease_expired attempt.read_at spec ≡ true)

-- How the new object came to stand behind the old one.
abbrev pub Succeeds : List Event → Event → Stored → LeaseSpec → Stored → Type 0
Succeeds es e old spec new = (new ≡ old) ⊎ IsTakenBy es e old spec new

may_write :
    (kind : Kind) (config : LeaseConfig) (at : ℤ) (old : Stored) (spec : LeaseSpec)
    → old.spec ≡ some spec
    → goes_on kind config at (some old) ≡ true
    → (held_by config spec ≡ true) ⊎ (lease_expired at spec ≡ true)
unfolding goes_on lease_can_be_acquired
may_write acquires config at old spec e g = elim (Bool-cases (held_by config spec)) [
  | inl mine ↦ inl mine
  | inr other ↦ inr (ground (arith, other))
]
may_write renews config at old spec e g = inl (ground arith)

write_attempt-Succeeds :
    (es : List Event) (i : ℕ) (a : Attempt) (now : ℤ) (old new : Stored) (spec : LeaseSpec)
    → nth i (run es empty).attempts ≡ some a
    → IsSound (run es empty) a
    → WasRead es a
    → (run es empty).stored ≡ some old
    → old.spec ≡ some spec
    → (write_attempt a now (run es empty)).stored ≡ some new
    → Succeeds es (writes i now) old spec new
unfolding write_attempt
write_attempt-Succeeds es i a now old new spec found s r eo held en =
    elim (Bool-cases (accepts (run es empty).stored a.object)) [
      | inr refused ↦ inl (ground (arith, refused))
      | inl accepted ↦
          let read_old : a.object ≡ some old = s.same accepted ∙ eo in
          inr (record {
            index = i;
            at = now;
            attempt = a;
            is_write = refl;
            pending_attempt = found;
            written_by = ground (arith, accepted);
            before = r.before;
            after = r.after;
            history = r.history;
            saw = r.saw ∙ read_old;
            entitled =
                may_write a.kind a.config a.read_at old spec held
                  (subst (λ o. goes_on a.kind a.config a.read_at o ≡ true) read_old s.decided);
          })
    ]

happens-writes :
    (i : ℕ) (now : ℤ) (w : World) (a : Attempt)
    → nth i w.attempts ≡ some a
    → happens (writes i now) w ≡ write_attempt a now w
unfolding happens
happens-writes i now w a found = rw (found, happens) refl

happens-Succeeds :
    (es : List Event) (e : Event) (old new : Stored) (spec : LeaseSpec)
    → IsFresh (run es empty)
    → AllRead es (run es empty)
    → (run es empty).stored ≡ some old
    → old.spec ≡ some spec
    → (happens e (run es empty)).stored ≡ some new
    → Succeeds es e old spec new
unfolding happens
happens-Succeeds es (reads kind config at) old new spec f all eo held en =
    inl (elim (Bool-cases (goes_on kind config at (run es empty).stored)) [
      | inl goes ↦ ground (arith, goes)
      | inr stops ↦ ground (arith, stops)
    ])
happens-Succeeds es (writes i now) old new spec f all eo held en =
    let w = run es empty in
    elim (Option-cases (nth i w.attempts)) [
      | inl absent ↦ inl (ground (arith, absent))
      | inr (a, found) ↦
          write_attempt-Succeeds es i a now old new spec found
            (nth-All (IsSound w) i w.attempts a found f.sound)
            (nth-All (WasRead es) i w.attempts a found all) eo held
            (sym (ap (λ v. v.stored) (happens-writes i now w a found)) ∙ en)
    ]
happens-Succeeds es deletes old new spec f all eo held en = absurd (cc)

-- A lease does not pass to another operator while it is held. However the reads and writes of any
-- operators interleave, delayed writes included, a lease object that replaces another one is written
-- by the attempt of an operator that had read that very object from the server earlier, and that
-- at the time of its read held the old lease or found it expired.
pub lease_exclusion :
    (es : List Event) (e : Event) (old new : Stored) (spec : LeaseSpec)
    → (run es empty).stored ≡ some old
    → old.spec ≡ some spec
    → (run (es ++ (e ∷ [])) empty).stored ≡ some new
    → Succeeds es e old spec new
lease_exclusion es e old new spec eo held en =
    happens-Succeeds es e old new spec (run-IsFresh es empty empty-IsFresh)
      (run-AllRead [] es nothing_read) eo held (sym (ap (λ v. v.stored) (run-snoc es e empty)) ∙ en)
