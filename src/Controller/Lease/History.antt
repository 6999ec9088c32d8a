-- ===== src/Controller/Lease/History.antt =====
-- What a history of reads and writes of one lease keeps: versions stand for contents, and attempts come
-- from reads.
use fluidbgoperator.Base.{
  ℕ, zero, suc, ◌+◌, ◌<◌, ◌≡◌, refl, sym, ap, subst, ◌∙◌, inl, inr, true, false, Option, none, some,
  List, [], ◌∷◌, ◌++◌, arith, Bool-cases, Option-cases,
}
use fluidbgoperator.Base.Int.{ℤ}
use fluidbgoperator.Base.Lists.{All}
use fluidbgoperator.Controller.Lease.{
  LeaseConfig, LeaseSpec, Stored, Kind, Attempt, World, Event, reads, writes, deletes, goes_on,
  written, accepts, nth, write_attempt, happens, run, empty,
}

abbrev pub Below : ℕ → Option Stored → Type 0
Below n none = Unit
Below n (some object) = object.version < n

-- What was decided on is what the attempt read, and a version stands for one content.
pub record IsSound (w : World) (a : Attempt) : Type 0 where
  pub old : Below w.next_version a.object
  pub same : accepts w.stored a.object ≡ true → a.object ≡ w.stored
  pub decided : goes_on a.kind a.config a.read_at a.object ≡ true

pub record IsFresh (w : World) : Type 0 where
  pub stored_below : Below w.next_version w.stored
  pub sound : All (IsSound w) w.attempts

Below-suc : (n : ℕ) (o : Option Stored) → Below n o → Below (n + 1) o
Below-suc n none b = tt
Below-suc n (some object) b = omega arith

not_new :
    (n : ℕ) (spec : LeaseSpec) (o : Option Stored)
    → Below n o
    → accepts (some (record { version = n; spec = some spec })) o ≡ false
not_new n spec none b = refl
not_new n spec (some object) b = ground arith

-- `All` over a changed world.
All-map :
    {P Q : Attempt → Type 0}
    → ((a : Attempt) → P a → Q a)
    → (list : List Attempt) → All P list
    → All Q list
All-map f [] h = tt
All-map f (a ∷ rest) h = (f a h.0, All-map f rest h.1)

pub nth-All :
    (P : Attempt → Type 0) (i : ℕ) (list : List Attempt) (a : Attempt)
    → nth i list ≡ some a
    → All P list
    → P a
unfolding nth
nth-All P i [] a e h = absurd (cc)
nth-All P zero (b ∷ rest) a e h = subst P (cc) h.0
nth-All P (suc i) (b ∷ rest) a e h = nth-All P i rest a e h.1

reads-IsFresh :
    (kind : Kind) (config : LeaseConfig) (now : ℤ) (w : World)
    → IsFresh w
    → IsFresh (happens (reads kind config now) w)
unfolding happens
reads-IsFresh kind config now w f = elim (Bool-cases (goes_on kind config now w.stored)) [
  | inr stops ↦ rw stops f
  | inl goes ↦ rw goes (record {
    stored_below = f.stored_below;
    sound = (
      record { old = f.stored_below; same = λ _. refl; decided = goes },
      All-map (λ a s. record { old = s.old; same = s.same; decided = s.decided }) w.attempts
          f.sound,
    );
  })
]

write_attempt-IsFresh :
    (a : Attempt) (now : ℤ) (w : World) → IsFresh w → IsFresh (write_attempt a now w)
unfolding write_attempt
write_attempt-IsFresh a now w f = elim (Bool-cases (accepts w.stored a.object)) [
  | inr refused ↦ rw refused f
  | inl accepted ↦ rw accepted (record {
    stored_below = omega arith;
    sound =
        All-map
          (λ b s. record {
            old = Below-suc w.next_version b.object s.old;
            same = λ e.
                absurd (ground (arith, e, not_new w.next_version (written a now) b.object s.old));
            decided = s.decided;
          })
          w.attempts f.sound;
  })
]

happens-IsFresh : (e : Event) (w : World) → IsFresh w → IsFresh (happens e w)
unfolding happens
happens-IsFresh (reads kind config now) w f = reads-IsFresh kind config now w f
happens-IsFresh (writes i now) w f = elim (Option-cases (nth i w.attempts)) [
  | inl absent ↦ rw (absent, happens) f
  | inr (a, found) ↦ rw (found, happens) (write_attempt-IsFresh a now w f)
]
happens-IsFresh deletes w f = record {
  stored_below = tt;
  sound =
      All-map (λ a s. record { old = s.old; same = none_only a.object; decided = s.decided })
        w.attempts f.sound;
}
  where
    none_only : (o : Option Stored) → accepts none o ≡ true → o ≡ none
    none_only none e = refl
    none_only (some object) e = absurd (cc)

pub run-IsFresh : (es : List Event) (w : World) → IsFresh w → IsFresh (run es w)
unfolding run
run-IsFresh [] w f = f
run-IsFresh (e ∷ es) w f = run-IsFresh es (happens e w) (happens-IsFresh e w f)

pub empty-IsFresh : IsFresh empty
unfolding empty
empty-IsFresh = record { stored_below = tt; sound = tt }

-- The attempt was made by a read in this history: at that moment the server had the object that the
-- attempt carries.
pub record WasRead (es : List Event) (a : Attempt) : Type 0 where
  pub before : List Event
  pub after : List Event
  pub history : es ≡ before ++ (reads a.kind a.config a.read_at ∷ after)
  pub saw : (run before empty).stored ≡ a.object

pub run-snoc :
    (es : List Event) (e : Event) (w : World) → run (es ++ (e ∷ [])) w ≡ happens e (run es w)
unfolding run
run-snoc [] e w = refl
run-snoc (x ∷ xs) e w = run-snoc xs e (happens x w)

append_assoc : (xs ys zs : List Event) → (xs ++ ys) ++ zs ≡ xs ++ (ys ++ zs)
append_assoc [] ys zs = refl
append_assoc (x ∷ xs) ys zs = ap (λ l. x ∷ l) (append_assoc xs ys zs)

append_nil : (xs : List Event) → xs ++ [] ≡ xs
append_nil [] = refl
append_nil (x ∷ xs) = ap (λ l. x ∷ l) (append_nil xs)

WasRead-more :
    (es : List Event) (e : Event) (a : Attempt) → WasRead es a → WasRead (es ++ (e ∷ [])) a
WasRead-more es e a r = record {
  before = r.before;
  after = r.after ++ (e ∷ []);
  history =
      ap (λ l. l ++ (e ∷ [])) r.history
      ∙ append_assoc r.before (reads a.kind a.config a.read_at ∷ r.after) (e ∷ []);
  saw = r.saw;
}

abbrev pub AllRead : List Event → World → Type 0
AllRead es w = All (WasRead es) w.attempts

write_attempt-attempts :
    (a : Attempt) (now : ℤ) (w : World) → (write_attempt a now w).attempts ≡ w.attempts
unfolding write_attempt
write_attempt-attempts a now w = elim (Bool-cases (accepts w.stored a.object)) [
  | inl accepted ↦ rw accepted refl
  | inr refused ↦ rw refused refl
]

happens-AllRead :
    (es : List Event) (e : Event)
    → AllRead es (run es empty)
    → AllRead (es ++ (e ∷ [])) (happens e (run es empty))
unfolding happens
happens-AllRead es (reads kind config now) all =
    let w = run es empty in
    let e = reads kind config now in
    let kept = All-map (WasRead-more es e) w.attempts all in
    elim (Bool-cases (goes_on kind config now w.stored)) [
      | inr stops ↦ rw stops kept
      | inl goes ↦ rw goes (record { before = es; after = []; history = refl; saw = refl }, kept)
    ]
happens-AllRead es (writes i now) all =
    let w = run es empty in
    let kept = All-map (WasRead-more es (writes i now)) w.attempts all in
    elim (Option-cases (nth i w.attempts)) [
      | inl absent ↦ rw (absent, happens) kept
      | inr (a, found) ↦ rw (found, happens) (rw (write_attempt-attempts a now w) kept)
    ]
happens-AllRead es deletes all = All-map (WasRead-more es deletes) (run es empty).attempts all

pub nothing_read : AllRead [] (run [] empty)
unfolding run empty
nothing_read = tt

pub run-AllRead :
    (past es : List Event)
    → AllRead past (run past empty)
    → AllRead (past ++ es) (run (past ++ es) empty)
run-AllRead past [] all = rw (append_nil past) all
run-AllRead past (e ∷ es) all =
    subst (λ l. AllRead l (run l empty)) (append_assoc past (e ∷ []) es)
      (run-AllRead (past ++ (e ∷ [])) es (
        subst (AllRead (past ++ (e ∷ []))) (sym (run-snoc past e empty))
          (happens-AllRead past e all)))
