-- ===== src/Controller/Inception/Log.antt =====
-- Stages of the preparation: what a sequence of calls adds to the log.
use fluidbgoperator.Base.{ℕ, ◌≡◌, refl, ◌⊎◌, inl, inr, ◌≤◌, [], ◌∷◌, arith}
use fluidbgoperator.Base.Lists.{All}
use fluidbgoperator.Controller.{Result, ok, err, ReconcileError}
use fluidbgoperator.Controller.Steps.{Step, done, fail, ◌>>=◌, After, bind-After, weaken-After}
use fluidbgoperator.Controller.Inception.{
  Event, manager_prepares, inceptor_prepares, activates, gets_plugin, signs_token,
  applies_config_map, applies_secret, applies_service, applies_deployment, waits_for_plugins,
  writes_tokens, declares_deployments, makes_tests, waits_for_tests, waits_for_services,
  applies_assignments, waits_for_touched, Log, of_result, ask, call, Answers,
}

-- The place of a call in the order of a preparation.
abbrev pub stage : Event → ℕ
stage (manager_prepares n) = 0
stage (gets_plugin n) = 0
stage (signs_token n) = 0
stage (applies_config_map n) = 0
stage (applies_secret n) = 0
stage (applies_service n) = 0
stage (applies_deployment d) = 0
stage (waits_for_plugins ds) = 1
stage (inceptor_prepares n) = 1
stage (writes_tokens t) = 2
stage (declares_deployments a) = 3
stage (makes_tests a e) = 4
stage (waits_for_tests d) = 5
stage waits_for_services = 6
stage (applies_assignments a) = 7
stage (waits_for_touched d) = 7
stage (activates n) = 8

abbrev pub Occurs : Event → Log → Type 0
Occurs e [] = ⊥
Occurs e (x ∷ xs) = (x ≡ e) ⊎ Occurs e xs

-- No call comes before one of an earlier stage.
abbrev pub InOrder : Log → Type 0
InOrder [] = Unit
InOrder (e ∷ log) = All (λ x. stage x ≤ stage e) log × InOrder log

-- In order, and no call is of a later stage.
pub record Upto (k : ℕ) (log : Log) : Type 0 where
  pub ordered : InOrder log
  pub bounded : All (λ x. stage x ≤ k) log

-- What stays true when calls are added.
abbrev pub Stays : (Log → Type 0) → Type 0
Stays G = (e : Event) (log : Log) → G log → G (e ∷ log)

pub Stays-Occurs : (e : Event) → Stays (Occurs e)
Stays-Occurs e x log h = inr h

pub Stays-pair : (G H : Log → Type 0) → Stays G → Stays H → Stays (λ l. G l × H l)
Stays-pair G H g h e log (a, b) = (g e log a, h e log b)

pub All-le : (j k : ℕ) (log : Log) → j ≤ k → All (λ x. stage x ≤ j) log → All (λ x. stage x ≤ k) log
All-le j k [] h a = tt
All-le j k (x ∷ xs) h a = (omega (arith, h, a.0), All-le j k xs h a.1)

pub later-Upto : (j k : ℕ) (log : Log) → j ≤ k → Upto j log → Upto k log
later-Upto j k log h u = record { ordered = u.ordered; bounded = All-le j k log h u.bounded }

pub Upto-cons : (e : Event) (log : Log) → Upto (stage e) log → Upto (stage e) (e ∷ log)
Upto-cons e log u = record { ordered = (u.bounded, u.ordered); bounded = (omega arith, u.bounded) }

-- From a log up to one stage the step makes calls up to another; a result comes with `Q`.
pub record Ensures {A : Type 0} (j k : ℕ) (Q : A → Log → Type 0) (m : Step Log A) : Type 1 where
  pub runs :
      (G : Log → Type 0)
      → Stays G
      → (log : Log) → Upto j log
      → G log
      → After (λ l. Upto k l × G l) (λ a l. Upto k l × G l × Q a l) (m log)

pub bind-Ensures :
    {A B : Type 0} (i j k : ℕ) (Q : A → Log → Type 0) (S : A → B → Log → Type 0) (m : Step Log A)
    (f : A → Step Log B)
    → j ≤ k
    → Ensures i j Q m
    → ((a : A) → Stays (Q a))
    → ((a : A) → Ensures j k (S a) (f a))
    → Ensures i k (λ b l. (a : A) × Q a l × S a b l) (m >>= f)
bind-Ensures i j k Q S m f jk first stays rest = record {
  runs = λ G g log u h.
      bind-After (λ l. Upto k l × G l) (λ a l. Upto j l × G l × Q a l)
        (λ b l. Upto k l × G l × ((a : _) × Q a l × S a b l)) (m log) f
        (weaken-After (m log) (λ w (x, y). (later-Upto j k w jk x, y)) (λ a w z. z)
          (first.runs G g log u h))
        (λ a l (u', h', q).
          weaken-After (f a l) (λ w (x, y). (x, y.0)) (λ b w (x, y, z). (x, y.0, (a, y.1, z)))
            ((rest a).runs (λ w. G w × Q a w) (Stays-pair G (Q a) g (stays a)) l u' (h', q)));
}

pub weaken-Ensures :
    {A : Type 0} (j k : ℕ) (Q S : A → Log → Type 0) (m : Step Log A)
    → ((a : A) (l : Log) → Q a l → S a l)
    → Ensures j k Q m
    → Ensures j k S m
weaken-Ensures j k Q S m f h = record {
  runs = λ G g log u x.
      weaken-After (m log) (λ w y. y) (λ a w (p, q, r). (p, q, f a w r)) (h.runs G g log u x);
}

-- Two steps whose first result matters to nothing.
pub then-Ensures :
    {A B : Type 0} (i j k : ℕ) (Q : A → Log → Type 0) (S : B → Log → Type 0) (m : Step Log A)
    (f : A → Step Log B)
    → j ≤ k
    → Ensures i j Q m
    → ((a : A) → Ensures j k S (f a))
    → Ensures i k S (m >>= f)
then-Ensures i j k Q S m f jk first rest =
    weaken-Ensures i k (λ b l. (a : _) × Unit {0} × S b l) S (m >>= f) (λ b l (a, t, s). s)
      (bind-Ensures i j k (λ _ _. Unit {0}) (λ _. S) m f jk
        (weaken-Ensures i j Q (λ _ _. Unit {0}) m (λ _ _ _. tt) first) (λ _ _ _ _. tt) rest)

pub from-Ensures :
    {A : Type 0} (i j k : ℕ) (Q : A → Log → Type 0) (m : Step Log A)
    → i ≤ j
    → Ensures j k Q m
    → Ensures i k Q m
from-Ensures i j k Q m ij h = record {
  runs = λ G g log u x. h.runs G g log (later-Upto i j log ij u) x;
}

pub done-Ensures :
    {A : Type 0} (k : ℕ) (Q : A → Log → Type 0) (a : A)
    → ((l : Log) → Q a l)
    → Ensures k k Q (done a)
done-Ensures k Q a q = record { runs = λ G g log u h. (u, h, q log) }

pub of_result-Ensures :
    {A : Type 0} (k : ℕ) (r : Result A) → Ensures k k (λ _ _. Unit {0}) (of_result r)
of_result-Ensures k (ok a) = record { runs = λ G g log u h. (u, h, tt) }
of_result-Ensures k (err e) = record { runs = λ G g log u h. (u, h) }

pub fail-Ensures :
    {A : Type 0} (k : ℕ) (Q : A → Log → Type 0) (e : ReconcileError) → Ensures k k Q (fail e)
fail-Ensures k Q e = record { runs = λ G g log u h. (u, h) }

pub ask-Ensures :
    {A : Type 0} (e : Event) (r : Result A)
    → Ensures (stage e) (stage e) (λ _ l. Occurs e l) (ask e r)
unfolding ask
ask-Ensures e (ok a) = record { runs = λ G g log u h. (Upto-cons e log u, g e log h, inl refl) }
ask-Ensures e (err x) = record { runs = λ G g log u h. (Upto-cons e log u, g e log h) }

pub call-Ensures :
    (answers : Answers) (e : Event)
    → Ensures (stage e) (stage e) (λ _ l. Occurs e l) (call answers e)
unfolding call
call-Ensures answers e = ask-Ensures e (answers.reached e)
