-- ===== src/Base/Text.antt =====
-- Text as the list of its UTF-8 bytes, which a Rust `String` holds, for the code that builds, splits
-- and compares it. The literals and the separators of the code are ASCII.
use Prim.Native.Char.{code}
use Prim.Native.String.{String}
use Prim.Native.Nat.{ℕ, zero, suc, ◌+◌, ◌≤◌, ◌/◌, ◌%◌}
use mathlib.Core.Path.{◌≡◌, refl}
use mathlib.Core.Logic.{◌↔◌}
use mathlib.Core.Bool.{Bool, true, false, ◌&&◌, ◌||◌}
use mathlib.Core.List.{List, [], ◌∷◌, ◌++◌}
use mathlib.Core.Option.{Option, none, some}
use native.Mathlib.Omega.{arith}
use fluidbgoperator.Base.Lists.{length}
use fluidbgoperator.Base.Tests.{◌==◌, ltb, leb, if◌then◌else◌}

abbrev pub Text : Type 0
Text = List ℕ

abbrev pub codes : String → Text
codes String.[] = []
codes (String.◌∷◌ c s) = code c ∷ codes s

unfoldable pub text_eq : Text → Text → Bool
text_eq [] [] = true
text_eq [] (y ∷ ys) = false
text_eq (x ∷ xs) [] = false
text_eq (x ∷ xs) (y ∷ ys) = x == y && text_eq xs ys

pub text_eq→eq : (s t : Text) → text_eq s t ≡ true → s ≡ t
unfolding text_eq
text_eq→eq [] [] h = refl
text_eq→eq [] (y ∷ ys) h = cc
text_eq→eq (x ∷ xs) [] h = cc
text_eq→eq (x ∷ xs) (y ∷ ys) h = ground (arith, text_eq→eq xs ys)

pub text_eq_refl : (s : Text) → text_eq s s ≡ true
unfolding text_eq
text_eq_refl [] = refl
text_eq_refl (x ∷ xs) = ground (arith, text_eq_refl xs)

pub text_eq_iff : (s t : Text) → (text_eq s t ≡ true) ↔ (s ≡ t)
text_eq_iff s t = (text_eq→eq s t, λ e. rw e (text_eq_refl t))

-- `str::is_empty`.
abbrev pub is_empty : Text → Bool
is_empty [] = true
is_empty (_ ∷ _) = false

abbrev pub option_text_eq : Option Text → Option Text → Bool
option_text_eq none none = true
option_text_eq none (some _) = false
option_text_eq (some _) none = false
option_text_eq (some s) (some t) = text_eq s t

-- `str::split` at a character: the parts between its occurrences, at least one.
abbrev pub onto : ℕ → List Text → List Text
onto x [] = (x ∷ []) ∷ []
onto x (t ∷ ts) = (x ∷ t) ∷ ts

unfoldable pub split_char : ℕ → Text → List Text
split_char c [] = [] ∷ []
split_char c (x ∷ xs) = let rest = split_char c xs in if x == c then [] ∷ rest else onto x rest

-- `str::contains` of a character.
abbrev pub contains_char : ℕ → Text → Bool
contains_char c [] = false
contains_char c (x ∷ xs) = x == c || contains_char c xs

-- Two texts joined by a separator that neither first part holds are equal only part by part.
pub join_injective :
    (c : ℕ) (s s' t t' : Text)
    → contains_char c s ≡ false
    → contains_char c s' ≡ false
    → s ++ (c ∷ t) ≡ s' ++ (c ∷ t')
    → (s ≡ s') × (t ≡ t')
join_injective c [] [] t t' h h' e = (refl, cc)
join_injective c [] (y ∷ ys) t t' h h' e = ground arith
join_injective c (x ∷ xs) [] t t' h h' e = ground arith
join_injective c (x ∷ xs) (y ∷ ys) t t' h h' e = ground (arith, join_injective c xs ys t t')

pub split_char-whole : (c : ℕ) (s : Text) → contains_char c s ≡ false → split_char c s ≡ s ∷ []
unfolding split_char
split_char-whole c [] h = refl
split_char-whole c (x ∷ xs) h = ground (arith, split_char-whole c xs)

-- Joining with the separator and splitting gives the first part back.
pub split_char-join :
    (c : ℕ) (s t : Text)
    → contains_char c s ≡ false
    → split_char c (s ++ (c ∷ t)) ≡ s ∷ split_char c t
unfolding split_char
split_char-join c [] t h = ground arith
split_char-join c (x ∷ xs) t h = ground (arith, split_char-join c xs t)

-- The decimal digits of a number; `fuel` is one more than the number.
unfoldable pub digits : ℕ → ℕ → Text
digits zero n = []
digits (suc fuel) n =
    let rest = digits fuel (n / 10) in
    if ltb n 10 then (48 + n) ∷ [] else rest ++ ((48 + n % 10) ∷ [])

-- The `Display` of an unsigned number.
unfoldable pub decimal : ℕ → Text
unfolding digits
decimal n = digits (suc n) n

-- `char::to_ascii_lowercase` and `char::is_ascii_alphanumeric`, of a byte.
abbrev pub to_ascii_lowercase : ℕ → ℕ
to_ascii_lowercase b = if leb 65 b && leb b 90 then b + 32 else b

abbrev pub is_ascii_alphanumeric : ℕ → Bool
is_ascii_alphanumeric b =
    (leb 48 b && leb b 57) || ((leb 65 b && leb b 90) || (leb 97 b && leb b 122))

-- `str::trim_end_matches`, `str::trim_start_matches` and `str::rsplit_once` for ASCII characters.
unfoldable pub trim_end : (ℕ → Bool) → Text → Text
trim_end p [] = []
trim_end p (x ∷ xs) = let rest = trim_end p xs in if is_empty rest && p x then [] else x ∷ rest

unfoldable pub trim_start : (ℕ → Bool) → Text → Text
trim_start p [] = []
trim_start p (x ∷ xs) = let rest = trim_start p xs in if p x then rest else x ∷ xs

unfoldable pub rsplit_once : ℕ → Text → Option (Text × Text)
rsplit_once c [] = none
rsplit_once c (x ∷ xs) = elim (rsplit_once c xs) [
  | some (prefix, suffix) ↦ some (x ∷ prefix, suffix)
  | none ↦ if x == c then some ([], xs) else none
]

-- Characters of a text in UTF-8: `chars().count()` and `chars().take`.
abbrev pub is_continuation : ℕ → Bool
is_continuation b = leb 128 b && ltb b 192

unfoldable pub char_count : Text → ℕ
char_count [] = 0
char_count (x ∷ xs) = let rest = char_count xs in if is_continuation x then rest else rest + 1

unfoldable pub take_chars : ℕ → Text → Text
take_chars n [] = []
take_chars zero (x ∷ xs) =
    let rest = take_chars zero xs in if is_continuation x then x ∷ rest else []
take_chars (suc n) (x ∷ xs) =
    if is_continuation x then x ∷ take_chars (suc n) xs else x ∷ take_chars n xs

pub char_count-append : (s t : Text) → char_count (s ++ t) ≡ char_count s + char_count t
unfolding char_count
char_count-append [] t = omega arith
char_count-append (x ∷ xs) t = ground (arith, char_count-append xs t)

pub char_count-take_chars_le : (n : ℕ) (s : Text) → char_count (take_chars n s) ≤ n
unfolding char_count take_chars
char_count-take_chars_le zero [] = omega arith
char_count-take_chars_le (suc n) [] = omega arith
char_count-take_chars_le zero (x ∷ xs) = ground (arith, char_count-take_chars_le zero xs)
char_count-take_chars_le (suc n) (x ∷ xs) =
    ground (arith, char_count-take_chars_le (suc n) xs, char_count-take_chars_le n xs)

pub char_count_le : (s : Text) → char_count s ≤ length s
unfolding char_count
char_count_le [] = omega arith
char_count_le (x ∷ xs) = ground (arith, char_count_le xs)
