-- ===== src/Sdk/Names/Scoping.antt =====
-- Names that are derived for different owners differ.
use fluidbgoperator.Base.{
  ℕ, zero, suc, ◌+◌, ◌-◌, ◌*◌, ◌/◌, ◌%◌, ◌≤◌, ◌<◌, ◌≡◌, refl, sym, ◌∙◌, ap, ap₂, subst, false,
  Option, none, some, List, [], ◌∷◌, ◌++◌, arith, unwrap_or,
}
use mathlib.Core.List.{append_assoc}
use fluidbgoperator.Base.Lists.{
  length, All, take, length-take_le, length-take_le_length, length-take_of_le, take_all,
  length-append,
}
use fluidbgoperator.Base.Text.{Text, codes, trim_end, trim_start}
use fluidbgoperator.Base.Bytes.{framed, framed_injective, byte_limit, append_injective_of_length}
use fluidbgoperator.Sdk.Names.{
  hex_digit, hex, stable_suffix, temp_queue_kind, named, token_of, sanitize, sanitize_loop, is_dash,
  derived_temp_queue_name_with_uid_and_identifier, derived_scoped_identity_name, at_least_one,
}

hex_digit_injective : (m n : ℕ) → m < 16 → n < 16 → hex_digit m ≡ hex_digit n → m ≡ n
hex_digit_injective m n hm hn e = ground arith

pub length-hex : (bs : List ℕ) → length (hex bs) ≡ 2 * length bs
unfolding hex
length-hex [] = refl
length-hex (b ∷ bs) = omega (arith, length-hex bs)

abbrev double : ℕ → ℕ
double zero = 0
double (suc k) = suc (suc (double k))

hex_of_byte_injective :
    (b c : ℕ) (x y : Text)
    → b < 256
    → c < 256
    → hex_digit (b / 16) ∷ (hex_digit (b % 16) ∷ x) ≡ hex_digit (c / 16) ∷ (hex_digit (c % 16) ∷ y)
    → (b ≡ c) × (x ≡ y)
hex_of_byte_injective b c x y hb hc e =
    let high : hex_digit (b / 16) ≡ hex_digit (c / 16) = cc in
    let low : hex_digit (b % 16) ≡ hex_digit (c % 16) = cc in
    let high_same = hex_digit_injective (b / 16) (c / 16) (omega arith) (omega arith) high in
    let low_same = hex_digit_injective (b % 16) (c % 16) (omega arith) (omega arith) low in
    (omega (arith, high_same, low_same), cc)

take-hex_injective :
    (k : ℕ) (bs cs : List ℕ)
    → All (λ b. b < 256) bs
    → All (λ b. b < 256) cs
    → length bs ≡ length cs
    → take (double k) (hex bs) ≡ take (double k) (hex cs)
    → take k bs ≡ take k cs
unfolding hex take
take-hex_injective zero bs cs hb hc l e = refl
take-hex_injective (suc k) [] [] hb hc l e = refl
take-hex_injective (suc k) [] (c ∷ cs) hb hc l e = absurd (omega arith)
take-hex_injective (suc k) (b ∷ bs) [] hb hc l e = absurd (omega arith)
take-hex_injective (suc k) (b ∷ bs) (c ∷ cs) hb hc l e =
    let (same, rest) =
      hex_of_byte_injective b c (take (double k) (hex bs)) (take (double k) (hex cs)) hb.0 hc.0 e in
    ap₂ (λ x xs. x ∷ xs) same (take-hex_injective k bs cs hb.1 hc.1 (omega arith) rest)

-- The digest has 32 bytes.
pub record IsDigest (digest : Text → List ℕ) : Type 0 where
  pub size : (t : Text) → length (digest t) ≡ 32
  pub bytes : (t : Text) → All (λ b. b < 256) (digest t)

-- The first eight bytes of the digest tell two inputs apart.
abbrev pub NoCollision : (Text → List ℕ) → List Text → List Text → Type 0
NoCollision digest ss ts =
    take 8 (digest (framed ss)) ≡ take 8 (digest (framed ts)) → framed ss ≡ framed ts

abbrev pub Short : List Text → Type 0
Short = All (λ t. length t < byte_limit 8)

-- A text ends with another.
abbrev Ends : Text → Text → Type 0
Ends t s = (p : Text) × (t ≡ p ++ s)

Ends-append : (u t s : Text) → Ends t s → Ends (u ++ t) s
Ends-append u t s (p, e) = (u ++ p, ap (λ x. u ++ x) e ∙ sym (append_assoc u p s))

Ends-same : (t s s' : Text) → Ends t s → Ends t s' → length s ≡ length s' → s ≡ s'
Ends-same t s s' (p, e) (q, e') h =
    let whole : p ++ s ≡ q ++ s' = sym e ∙ e' in
    let sizes = ap (length {A = ℕ}) whole in
    (append_injective_of_length p q s s'
      (omega (arith, sizes, length-append p s, length-append q s', h)) whole).1

length-sanitize_le : (t : Text) → length (sanitize t) ≤ 38
unfolding sanitize
length-sanitize_le t =
    let trimmed = trim_end is_dash (trim_start is_dash (sanitize_loop false t)) in
    ground (arith, length-take_le 38 trimmed)

-- What is cut off at the limit leaves the suffix whole.
identity-Ends :
    (safe raw suffix : Text) (budget max_len : ℕ)
    → length suffix ≡ 16
    → length safe + 56 ≤ max_len
    → Ends (take max_len (safe ++ (b'-' ∷ (take budget (sanitize raw) ++ (b'-' ∷ suffix))))) suffix
identity-Ends safe raw suffix budget max_len size fits =
    let readable = take budget (sanitize raw) in
    let whole = safe ++ (b'-' ∷ (readable ++ (b'-' ∷ suffix))) in
    let short : length whole ≤ max_len = omega (
      arith,
      length-append safe (b'-' ∷ (readable ++ (b'-' ∷ suffix))),
      length-append readable (b'-' ∷ suffix),
      length-take_le_length budget (sanitize raw),
      length-sanitize_le raw,
      size,
      fits,
    ) in
    subst (λ t. Ends t suffix) (sym (take_all max_len whole short))
      (Ends-append safe (b'-' ∷ (readable ++ (b'-' ∷ suffix))) suffix
        (Ends-append (b'-' ∷ readable) (b'-' ∷ suffix) suffix (b'-' ∷ [], refl)))

module _ (digest : Text → List ℕ) (sound : IsDigest digest) where
  length-stable_suffix : (parts : List Text) → length (stable_suffix digest parts) ≡ 16
  unfolding stable_suffix
  length-stable_suffix parts =
      length-take_of_le 16 (hex (digest (framed parts)))
        (omega (arith, length-hex (digest (framed parts)), sound.size (framed parts)))

  stable_suffix_injective :
      (ss ts : List Text)
      → length ss ≡ length ts
      → Short ss
      → Short ts
      → NoCollision digest ss ts
      → stable_suffix digest ss ≡ stable_suffix digest ts
      → ss ≡ ts
  unfolding stable_suffix
  stable_suffix_injective ss ts l hs ht apart e = framed_injective ss ts l hs ht (
      apart (
        take-hex_injective 8 (digest (framed ss)) (digest (framed ts)) (sound.bytes (framed ss))
          (sound.bytes (framed ts)) (sound.size (framed ss) ∙ sym (sound.size (framed ts))) e))

  named-Ends : (logical : Text) (o : Option Text) (s : Text) → Ends (named digest logical o s) s
  unfolding named
  named-Ends logical none s =
      Ends-append (codes "fluidbg-") (temp_queue_kind logical ++ (b'-' ∷ s)) s
        (Ends-append (temp_queue_kind logical) (b'-' ∷ s) s (b'-' ∷ [], refl))
  named-Ends logical (some i) s =
      Ends-append (codes "fluidbg-") (temp_queue_kind logical ++ (b'-' ∷ (i ++ (b'-' ∷ s)))) s (
        Ends-append (temp_queue_kind logical) (b'-' ∷ (i ++ (b'-' ∷ s))) s
          (Ends-append (b'-' ∷ i) (b'-' ∷ s) s (b'-' ∷ [], refl)))

  same_suffix :
      (logical logical' : Text) (o o' : Option Text) (ss ts : List Text)
      → named digest logical o (stable_suffix digest ss)
        ≡ named digest logical' o' (stable_suffix digest ts)
      → stable_suffix digest ss ≡ stable_suffix digest ts
  same_suffix logical logical' o o' ss ts e =
      Ends-same (named digest logical o (stable_suffix digest ss)) (stable_suffix digest ss)
        (stable_suffix digest ts) (named-Ends logical o (stable_suffix digest ss))
        (subst (λ t. Ends t (stable_suffix digest ts)) (sym e)
          (named-Ends logical' o' (stable_suffix digest ts)))
        (length-stable_suffix ss ∙ sym (length-stable_suffix ts))

  -- Where the first eight bytes of the digest tell the two inputs apart and no text has 2 ^ 64 bytes or
  -- more: two derived queue names are equal only if the namespace, the deployment with its uid,
  -- the inception point, the role, the logical name and the token are.
  pub queue_names_apart :
      (ns bg uid ip role logical ns' bg' uid' ip' role' logical' : Text) (i i' : Option Text)
      → Short (ns ∷ bg ∷ uid ∷ ip ∷ role ∷ logical ∷ unwrap_or (token_of digest i) [] ∷ [])
      → Short (ns' ∷ bg' ∷ uid' ∷ ip' ∷ role' ∷ logical' ∷ unwrap_or (token_of digest i') [] ∷ [])
      → NoCollision digest
          (ns ∷ bg ∷ uid ∷ ip ∷ role ∷ logical ∷ unwrap_or (token_of digest i) [] ∷ [])
          (ns' ∷ bg' ∷ uid' ∷ ip' ∷ role' ∷ logical' ∷ unwrap_or (token_of digest i') [] ∷ [])
      → derived_temp_queue_name_with_uid_and_identifier digest ns bg uid ip role logical i
        ≡ derived_temp_queue_name_with_uid_and_identifier digest ns' bg' uid' ip' role' logical' i'
      → ◌≡◌ {A = List Text}
          (ns ∷ bg ∷ uid ∷ ip ∷ role ∷ logical ∷ unwrap_or (token_of digest i) [] ∷ [])
          (ns' ∷ bg' ∷ uid' ∷ ip' ∷ role' ∷ logical' ∷ unwrap_or (token_of digest i') [] ∷ [])
  unfolding derived_temp_queue_name_with_uid_and_identifier
  queue_names_apart ns bg uid ip role logical ns' bg' uid' ip' role' logical' i i' hs ht apart e =
      stable_suffix_injective
        (ns ∷ bg ∷ uid ∷ ip ∷ role ∷ logical ∷ unwrap_or (token_of digest i) [] ∷ [])
        (ns' ∷ bg' ∷ uid' ∷ ip' ∷ role' ∷ logical' ∷ unwrap_or (token_of digest i') [] ∷ []) refl hs
        ht apart
        (same_suffix logical logical' (token_of digest i) (token_of digest i')
          (ns ∷ bg ∷ uid ∷ ip ∷ role ∷ logical ∷ unwrap_or (token_of digest i) [] ∷ [])
          (ns' ∷ bg' ∷ uid' ∷ ip' ∷ role' ∷ logical' ∷ unwrap_or (token_of digest i') [] ∷ []) e)

  identity_name-Ends :
      (prefix ns bg uid ip : Text) (max_len : ℕ)
      → length (sanitize prefix) + 56 ≤ max_len
      → Ends
          (derived_scoped_identity_name digest prefix ns bg uid ip max_len)
          (stable_suffix digest (ns ∷ bg ∷ uid ∷ ip ∷ []))
  unfolding derived_scoped_identity_name
  identity_name-Ends prefix ns bg uid ip max_len fits =
      let suffix = stable_suffix digest (ns ∷ bg ∷ uid ∷ ip ∷ []) in
      identity-Ends (sanitize prefix) (ns ++ (b'-' ∷ (bg ++ (b'-' ∷ ip)))) suffix
        (at_least_one (max_len - (length suffix + 2))) max_len
        (length-stable_suffix (ns ∷ bg ∷ uid ∷ ip ∷ [])) fits

  length-identity_name_le :
      (prefix ns bg uid ip : Text) (max_len : ℕ)
      → length (derived_scoped_identity_name digest prefix ns bg uid ip max_len) ≤ max_len
  unfolding derived_scoped_identity_name
  length-identity_name_le prefix ns bg uid ip max_len = length-take_le max_len _

  -- Where the given length is at least 56 more than that of the sanitized prefix, the first eight
  -- bytes of the digest tell the two inputs apart, and no text has 2 ^ 64 bytes or more: an identity
  -- name has at most the given length, and two identity names of one prefix are equal only if the
  -- namespace, the deployment with its uid and the inception point are.
  pub identity_names_apart :
      (prefix ns bg uid ip ns' bg' uid' ip' : Text) (max_len : ℕ)
      → length (sanitize prefix) + 56 ≤ max_len
      → Short (ns ∷ bg ∷ uid ∷ ip ∷ [])
      → Short (ns' ∷ bg' ∷ uid' ∷ ip' ∷ [])
      → NoCollision digest (ns ∷ bg ∷ uid ∷ ip ∷ []) (ns' ∷ bg' ∷ uid' ∷ ip' ∷ [])
      → (length (derived_scoped_identity_name digest prefix ns bg uid ip max_len) ≤ max_len)
        × (derived_scoped_identity_name digest prefix ns bg uid ip max_len
              ≡ derived_scoped_identity_name digest prefix ns' bg' uid' ip' max_len
            → ◌≡◌ {A = List Text} (ns ∷ bg ∷ uid ∷ ip ∷ []) (ns' ∷ bg' ∷ uid' ∷ ip' ∷ []))
  identity_names_apart prefix ns bg uid ip ns' bg' uid' ip' max_len h hs ht apart = (
    length-identity_name_le prefix ns bg uid ip max_len,
    λ e.
        stable_suffix_injective (ns ∷ bg ∷ uid ∷ ip ∷ []) (ns' ∷ bg' ∷ uid' ∷ ip' ∷ []) refl hs ht
          apart
          (Ends-same (derived_scoped_identity_name digest prefix ns bg uid ip max_len)
            (stable_suffix digest (ns ∷ bg ∷ uid ∷ ip ∷ []))
            (stable_suffix digest (ns' ∷ bg' ∷ uid' ∷ ip' ∷ []))
            (identity_name-Ends prefix ns bg uid ip max_len h)
            (subst (λ t. Ends t (stable_suffix digest (ns' ∷ bg' ∷ uid' ∷ ip' ∷ []))) (sym e)
              (identity_name-Ends prefix ns' bg' uid' ip' max_len h))
            (length-stable_suffix (ns ∷ bg ∷ uid ∷ ip ∷ [])
              ∙ sym (length-stable_suffix (ns' ∷ bg' ∷ uid' ∷ ip' ∷ [])))),
  )
