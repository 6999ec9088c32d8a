-- ===== src/Sdk/Auth/Bytes.antt =====
-- The comparison in constant time compares bytes.
use fluidbgoperator.Base.{
  ℕ, zero, suc, ◌+◌, ◌*◌, ◌/◌, ◌%◌, ◌<◌, ◌≡◌, ◌↔◌, refl, ap₂, subst, true, List, [], ◌∷◌, arith,
  if◌then◌else◌, ◌==◌,
}
use fluidbgoperator.Base.Lists.{length, All}
use fluidbgoperator.Sdk.Auth.{xor_bits, or_bits, difference, constant_time_eq}

abbrev pub IsByte : ℕ → Type 0
IsByte n = n < 256

-- `n` has at most `w` bits.
Fits : ℕ → ℕ → Type 0
Fits zero n = n ≡ 0
Fits (suc w) n = Fits w (n / 2)

byte-Fits : (n : ℕ) → IsByte n → Fits 8 n
unfolding Fits
byte-Fits n h = omega arith

bit_on-Fits : (w bit n : ℕ) → bit < 2 → Fits w n → Fits (suc w) (bit + 2 * n)
unfolding Fits
bit_on-Fits w bit n h f = subst (Fits w) (omega arith) f

xor_bits-Fits : (w a b : ℕ) → Fits w (xor_bits w a b)
unfolding Fits xor_bits
xor_bits-Fits zero a b = refl
xor_bits-Fits (suc w) a b =
    bit_on-Fits w ((a % 2 + b % 2) % 2) (xor_bits w (a / 2) (b / 2)) (omega arith)
      (xor_bits-Fits w (a / 2) (b / 2))

or_bits-Fits : (w a b : ℕ) → Fits w (or_bits w a b)
unfolding Fits or_bits
or_bits-Fits zero a b = refl
or_bits-Fits (suc w) a b =
    bit_on-Fits w (if a % 2 + b % 2 == 0 then 0 else 1) (or_bits w (a / 2) (b / 2)) (ground arith)
      (or_bits-Fits w (a / 2) (b / 2))

xor_bits-zero : (w a b : ℕ) → Fits w a → Fits w b → xor_bits w a b ≡ 0 → a ≡ b
unfolding Fits xor_bits
xor_bits-zero zero a b f g h = omega arith
xor_bits-zero (suc w) a b f g h =
    let halves = xor_bits-zero w (a / 2) (b / 2) f g (omega arith) in omega (arith, halves)

xor_bits_self : (w a : ℕ) → xor_bits w a a ≡ 0
unfolding xor_bits
xor_bits_self zero a = refl
xor_bits_self (suc w) a = omega (arith, xor_bits_self w (a / 2))

or_bits-zero : (w a b : ℕ) → Fits w a → Fits w b → or_bits w a b ≡ 0 → (a ≡ 0) × (b ≡ 0)
unfolding Fits or_bits
or_bits-zero zero a b f g h = (f, g)
or_bits-zero (suc w) a b f g h =
    let halves = or_bits-zero w (a / 2) (b / 2) f g (ground arith) in
    (ground (arith, halves), ground (arith, halves))

difference-zero :
    (acc : ℕ) (xs ys : List ℕ)
    → Fits 8 acc
    → All IsByte xs
    → All IsByte ys
    → length xs ≡ length ys
    → difference acc xs ys ≡ 0
    → (acc ≡ 0) × (xs ≡ ys)
unfolding difference
difference-zero acc [] [] f hx hy e h = (h, refl)
difference-zero acc [] (y ∷ ys) f hx hy e h = absurd (omega arith)
difference-zero acc (x ∷ xs) [] f hx hy e h = absurd (omega arith)
difference-zero acc (x ∷ xs) (y ∷ ys) f hx hy e h =
    let (none_set, tails) =
      difference-zero (or_bits 8 acc (xor_bits 8 x y)) xs ys (or_bits-Fits 8 acc (xor_bits 8 x y))
        hx.1 hy.1 (omega arith) h in
    let (before, here) = or_bits-zero 8 acc (xor_bits 8 x y) f (xor_bits-Fits 8 x y) none_set in
    let heads = xor_bits-zero 8 x y (byte-Fits x hx.0) (byte-Fits y hy.0) here in
    (before, ap₂ (λ a rest. a ∷ rest) heads tails)

difference_self : (xs : List ℕ) → difference 0 xs xs ≡ 0
unfolding difference or_bits
difference_self [] = refl
difference_self (x ∷ xs) = rw (xor_bits_self 8 x) (difference_self xs)

pub constant_time_eq_refl : (xs : List ℕ) → constant_time_eq xs xs ≡ true
unfolding constant_time_eq
constant_time_eq_refl xs = ground (arith, difference_self xs)

-- The comparison in constant time, which folds the exclusive ors of the bytes, finds exactly
-- whether two byte strings are equal, lengths included.
pub constant_time_eq_iff :
    (xs ys : List ℕ) → All IsByte xs → All IsByte ys → (constant_time_eq xs ys ≡ true) ↔ (xs ≡ ys)
unfolding constant_time_eq Fits
constant_time_eq_iff xs ys hx hy = (
  λ h. (difference-zero 0 xs ys refl hx hy (ground arith) (ground arith)).1,
  λ e. subst (λ zs. constant_time_eq xs zs ≡ true) e (constant_time_eq_refl xs),
)
