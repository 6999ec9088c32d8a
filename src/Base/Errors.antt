-- ===== src/Base/Errors.antt =====
-- Results whose error is its text: `Result<_, String>` and `anyhow::Result` as the callers print it.
use mathlib.Core.Option.{Option, none, some}
use fluidbgoperator.Base.Text.{Text}

pub data Checked (A : Type 0) : Type 0 where
  ok : A → Checked A
  err : Text → Checked A

infixl 5 ◌>>◌ ◌>>=◌
abbrev pub ◌>>◌ : {B : Type 0} → Checked (Unit {0}) → Checked B → Checked B
ok _ >> k = k
err e >> k = err e

abbrev pub ◌>>=◌ : {A B : Type 0} → Checked A → (A → Checked B) → Checked B
ok a >>= f = f a
err e >>= f = err e

-- `ok_or_else` and `context` on an `Option`.
abbrev pub or_err : {A : Type 0} → Option A → Text → Checked A
or_err none e = err e
or_err (some a) e = ok a
