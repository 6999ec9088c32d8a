-- ===== src/Controller/Steps.antt =====
-- The body of an asynchronous handler: a step from a world to a result and the world that it leaves.
-- `?` ends the handler and keeps what was done.
use fluidbgoperator.Base.{◌≡◌, refl}
use fluidbgoperator.Controller.{Result, ok, err, ReconcileError}

abbrev pub Step : Type 0 → Type 0 → Type 0
Step W A = W → Result A × W

unfoldable pub continue : {W A B : Type 0} → Result A × W → (A → Step W B) → Result B × W
continue (ok a, w) k = k a w
continue (err e, w) k = (err e, w)

infixl 5 ◌>>=◌ ◌>>◌
abbrev pub ◌>>=◌ : {W A B : Type 0} → Step W A → (A → Step W B) → Step W B
m >>= k = λ w. continue (m w) k

abbrev pub ◌>>◌ : {W A B : Type 0} → Step W A → Step W B → Step W B
m >> k = m >>= λ _. k

abbrev pub done : {W A : Type 0} → A → Step W A
done a = λ w. (ok a, w)

abbrev pub fail : {W A : Type 0} → ReconcileError → Step W A
fail e = λ w. (err e, w)

-- A step leads from a world to one that stands in the relation to it.
abbrev pub Within : {W A : Type 0} → (W → W → Type 0) → Step W A → Type 0
Within {W} R m = (w : W) → R w (m w).1

continue-Within :
    {W A B : Type 0} (R : W → W → Type 0) (u : W) (r : Result A × W) (k : A → Step W B)
    → ((v w : W) → R u v → R v w → R u w)
    → R u r.1
    → ((a : A) → Within R (k a))
    → R u (continue r k).1
unfolding continue
continue-Within R u (ok a, v) k trans first rest = trans v _ first (rest a v)
continue-Within R u (err e, v) k trans first rest = first

pub bind-Within :
    {W A B : Type 0} (R : W → W → Type 0) (m : Step W A) (k : A → Step W B)
    → ((u v w : W) → R u v → R v w → R u w)
    → Within R m
    → ((a : A) → Within R (k a))
    → Within R (m >>= k)
bind-Within R m k trans first rest w = continue-Within R w (m w) k (trans w) (first w) rest

-- What a successful sequence did: both parts succeeded.
pub bind-ok :
    {W A B : Type 0} (m : Step W A) (k : A → Step W B) (w v : W) (b : B)
    → (m >>= k) w ≡ (ok b, v)
    → (a : A) × (u : W) × (m w ≡ (ok a, u)) × (k a u ≡ (ok b, v))
unfolding continue
bind-ok {W} {A} m k w v b = continued-ok (m w)
  where
    continued-ok :
        (r : Result A × W)
        → continue r k ≡ (ok b, v)
        → (a : A) × (u : W) × (r ≡ (ok a, u)) × (k a u ≡ (ok b, v))
    continued-ok (ok a, u) e = (a, u, refl, e)
    continued-ok (err x, u) e = absurd (cc)

-- What holds of the world after a step: `P` where it failed, and `Q` of the result where not.
abbrev pub After : {W A : Type 0} → (W → Type 0) → (A → W → Type 0) → Result A × W → Type 0
After P Q (ok a, v) = Q a v
After P Q (err e, v) = P v

pub bind-After :
    {W A B : Type 0} (P : W → Type 0) (Q : A → W → Type 0) (R : B → W → Type 0) (r : Result A × W)
    (k : A → Step W B)
    → After P Q r
    → ((a : A) (v : W) → Q a v → After P R (k a v))
    → After P R (continue r k)
unfolding continue
bind-After P Q R (ok a, v) k first rest = rest a v first
bind-After P Q R (err e, v) k first rest = first

pub weaken-After :
    {W A : Type 0} {P P' : W → Type 0} {Q Q' : A → W → Type 0} (r : Result A × W)
    → ((w : W) → P w → P' w)
    → ((a : A) (w : W) → Q a w → Q' a w)
    → After P Q r
    → After P' Q' r
weaken-After (ok a, v) f g h = g a v h
weaken-After (err e, v) f g h = f v h
