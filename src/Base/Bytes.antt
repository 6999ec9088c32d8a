-- ===== src/Base/Bytes.antt =====
-- `usize::to_le_bytes`, and texts with their length before them.
use Prim.Native.Nat.{ℕ, zero, suc, ◌*◌, ◌/◌, ◌%◌, ◌<◌}
use mathlib.Core.Path.{◌≡◌, refl, ap₂}
use mathlib.Core.List.{List, [], ◌∷◌, ◌++◌}
use native.Mathlib.Omega.{arith}
use fluidbgoperator.Base.Lists.{length, All}
use fluidbgoperator.Base.Text.{Text}

unfoldable pub le_bytes : ℕ → ℕ → Text
le_bytes zero n = []
le_bytes (suc k) n = (n % 256) ∷ le_bytes k (n / 256)

-- The numbers below it fit in so many bytes.
unfoldable pub byte_limit : ℕ → ℕ
byte_limit zero = 1
byte_limit (suc k) = 256 * byte_limit k

-- What the digest of several texts is fed with: of each text its length in eight bytes, and itself.
unfoldable pub framed : List Text → Text
unfolding le_bytes
framed [] = []
framed (t ∷ ts) = le_bytes 8 (length t) ++ (t ++ framed ts)

-- The same number of bytes and equal continuations.
pub le_bytes-append_injective :
    (k m n : ℕ) (s t : Text)
    → m < byte_limit k
    → n < byte_limit k
    → le_bytes k m ++ s ≡ le_bytes k n ++ t
    → (m ≡ n) × (s ≡ t)
unfolding le_bytes byte_limit
le_bytes-append_injective zero m n s t hm hn e = (omega arith, e)
le_bytes-append_injective (suc k) m n s t hm hn e =
    let (high, rest) =
      le_bytes-append_injective k (m / 256) (n / 256) s t (omega arith) (omega arith) (cc) in
    let low : m % 256 ≡ n % 256 = cc in (omega arith, rest)

pub append_injective_of_length :
    (s s' t t' : Text) → length s ≡ length s' → s ++ t ≡ s' ++ t' → (s ≡ s') × (t ≡ t')
append_injective_of_length [] [] t t' h e = (refl, e)
append_injective_of_length [] (y ∷ ys) t t' h e = absurd (omega arith)
append_injective_of_length (x ∷ xs) [] t t' h e = absurd (omega arith)
append_injective_of_length (x ∷ xs) (y ∷ ys) t t' h e =
    ground (arith, append_injective_of_length xs ys t t')

-- Different lists of texts feed a digest with different bytes.
pub framed_injective :
    (ss ts : List Text)
    → length ss ≡ length ts
    → All (λ s. length s < byte_limit 8) ss
    → All (λ s. length s < byte_limit 8) ts
    → framed ss ≡ framed ts
    → ss ≡ ts
unfolding framed
framed_injective [] [] n hs ht e = refl
framed_injective [] (t ∷ ts) n hs ht e = absurd (omega arith)
framed_injective (s ∷ ss) [] n hs ht e = absurd (omega arith)
framed_injective (s ∷ ss) (t ∷ ts) n hs ht e =
    let (sizes, rest) =
      le_bytes-append_injective 8 (length s) (length t) (s ++ framed ss) (t ++ framed ts) hs.0 ht.0
        e in
    let (first, more) = append_injective_of_length s t (framed ss) (framed ts) sizes rest in
    ap₂ (λ x xs. x ∷ xs) first (framed_injective ss ts (omega arith) hs.1 ht.1 more)
