-- ===== src/Sdk/Names/Bounds.antt =====
-- Derived names keep to the limit of 63.
use fluidbgoperator.Base.{
  ℕ, ◌+◌, ◌-◌, ◌≤◌, ◌≡◌, ◌⊎◌, refl, subst, inl, inr, ◌&&◌, ◌||◌, ◌==◌, Option, none, some, List, [],
  ◌∷◌, ◌++◌, arith, Bool-cases, unwrap_or, leb,
}
use fluidbgoperator.Base.Lists.{length, keep, all, take, length-take_le, length-append}
use fluidbgoperator.Base.Text.{
  Text, rsplit_once, char_count, take_chars, trim_end, char_count-append, char_count-take_chars_le,
  char_count_le, is_ascii_alphanumeric,
}
use fluidbgoperator.Base.Bytes.{framed}
use fluidbgoperator.Sdk.Names.{
  hex, temp_queue_kind, stable_suffix, stable_suffix_from_name, checked_suffix, at_least_one,
  shadow_with, is_ascii_hexdigit, is_separator, sanitize_shadow_suffix, sanitize_identifier,
  shadow_of_parts, derived_shadow_queue_name, temporary_queue_identifier_token, token_of, named,
  derived_temp_queue_name_with_uid_and_identifier,
}

length-temp_queue_kind_le : (logical : Text) → length (temp_queue_kind logical) ≤ 9
unfolding temp_queue_kind
length-temp_queue_kind_le logical = ground arith

length-sanitize_shadow_suffix_le : (s : Text) → char_count (sanitize_shadow_suffix s) ≤ 24
unfolding sanitize_shadow_suffix
length-sanitize_shadow_suffix_le s =
    let kept = keep (λ ch. is_ascii_alphanumeric ch || is_separator ch) s in
    omega (arith, char_count_le (take 24 kept), length-take_le 24 kept)

length-checked_suffix :
    (o : Option (Text × Text)) (prefix suffix : Text)
    → checked_suffix o ≡ some (prefix, suffix)
    → length suffix ≡ 16
unfolding checked_suffix
length-checked_suffix none prefix suffix e = absurd (cc)
length-checked_suffix (some (p, s)) prefix suffix e =
    elim (Bool-cases (length s == 16 && all is_ascii_hexdigit s)) [
      | inr bad ↦ absurd (ground (arith, e, bad))
      | inl good ↦
          let same : ◌≡◌ {A = Option (Text × Text)} (some (p, s)) (some (prefix, suffix)) =
            rw good at e in
          let parts : s ≡ suffix = cc in subst (λ x. length x ≡ 16) parts (ground (arith, good))
    ]

char_count-shadow_of_parts_le :
    (q s : Text) (o : Option (Text × Text))
    → char_count s ≤ 24
    → checked_suffix (rsplit_once b'-' q) ≡ o
    → char_count (shadow_of_parts q s o) ≤ 63
unfolding shadow_of_parts
char_count-shadow_of_parts_le q s none h e = omega (
  arith,
  char_count-append (take_chars (63 - char_count s) q) s,
  char_count-take_chars_le (63 - char_count s) q,
)
char_count-shadow_of_parts_le q s (some (p, x)) h e =
    let budget = at_least_one (63 - (char_count s + 1 + length x)) in
    let stem = take_chars budget (trim_end is_separator p) in
    let size = length-checked_suffix (rsplit_once b'-' q) p x e in
    ground (
      arith,
      size,
      h,
      char_count-append stem (s ++ (b'-' ∷ x)),
      char_count-append s (b'-' ∷ x),
      char_count_le (b'-' ∷ x),
      char_count-take_chars_le budget (trim_end is_separator p),
    )

shadow_with_bound :
    (q s : Text) → char_count s ≤ 24 → (char_count (shadow_with q s) ≤ 63) ⊎ (shadow_with q s ≡ q)
unfolding shadow_with stable_suffix_from_name
shadow_with_bound q s h = elim (Bool-cases (all is_separator s)) [
  | inl blank ↦ inr (rw blank refl)
  | inr real ↦ elim (Bool-cases (leb (char_count q + char_count s) 63)) [
    | inl fits ↦ inl (rw (real, fits) (ground (arith, fits, char_count-append q s)))
    | inr long ↦ inl (
        rw (real, long)
          (char_count-shadow_of_parts_le q s (checked_suffix (rsplit_once b'-' q)) h refl))
  ]
]

pub derived_shadow_queue_name_bound :
    (q s : Text)
    → (char_count (derived_shadow_queue_name q s) ≤ 63) ⊎ (derived_shadow_queue_name q s ≡ q)
unfolding derived_shadow_queue_name
derived_shadow_queue_name_bound q s =
    shadow_with_bound q (sanitize_shadow_suffix s) (length-sanitize_shadow_suffix_le s)

shadow_of_short_bound :
    (q s : Text) → length q ≤ 45 → char_count (derived_shadow_queue_name q s) ≤ 63
shadow_of_short_bound q s h = elim (derived_shadow_queue_name_bound q s) [
  | inl bound ↦ bound
  | inr same ↦ rw same (omega (arith, char_count_le q))
]

module _ (digest : Text → List ℕ) where
  pub length-token_of_le : (o : Option Text) → length (unwrap_or (token_of digest o) []) ≤ 10
  unfolding temporary_queue_identifier_token
  length-token_of_le none = omega arith
  length-token_of_le (some value) =
      let suffix = take 4 (stable_suffix digest (value ∷ [])) in
      let normalized = sanitize_identifier value in
      ground (
        arith,
        length-append (take (10 - length suffix) normalized) suffix,
        length-take_le (10 - length suffix) normalized,
        length-take_le 4 (stable_suffix digest (value ∷ [])),
      )

  length-stable_suffix_le : (parts : List Text) → length (stable_suffix digest parts) ≤ 16
  unfolding stable_suffix
  length-stable_suffix_le parts = length-take_le 16 (hex (digest (framed parts)))

  length-named_le :
      (logical : Text) (o : Option Text) (suffix : Text)
      → length (unwrap_or o []) ≤ 10
      → length suffix ≤ 16
      → length (named digest logical o suffix) ≤ 45
  unfolding named
  length-named_le logical none suffix h k = omega (
    arith,
    length-temp_queue_kind_le logical,
    length-append (temp_queue_kind logical) (b'-' ∷ suffix),
  )
  length-named_le logical (some i) suffix h k = omega (
    arith,
    length-temp_queue_kind_le logical,
    length-append (temp_queue_kind logical) (b'-' ∷ (i ++ (b'-' ∷ suffix))),
    length-append i (b'-' ∷ suffix),
  )

  -- A derived queue name has at most 45 bytes, and the name of its shadow queue at most 63
  -- characters, whatever the names and the suffix that they are derived from.
  pub queue_names_bounded :
      (ns bg uid ip role logical : Text) (identifier : Option Text) (suffix : Text)
      → let q =
          derived_temp_queue_name_with_uid_and_identifier digest ns bg uid ip role logical
            identifier in
        (length q ≤ 45) × (char_count (derived_shadow_queue_name q suffix) ≤ 63)
  unfolding derived_temp_queue_name_with_uid_and_identifier stable_suffix
  queue_names_bounded ns bg uid ip role logical identifier suffix =
      let short =
        length-named_le logical (token_of digest identifier)
          (stable_suffix digest
            (ns ∷ bg ∷ uid ∷ ip ∷ role ∷ logical ∷ unwrap_or (token_of digest identifier) [] ∷ []))
          (length-token_of_le identifier)
          (length-stable_suffix_le (
            ns
            ∷ bg
            ∷ uid
            ∷ ip
            ∷ role
            ∷ logical
            ∷ unwrap_or (token_of digest identifier) []
            ∷ [])) in
      (short, shadow_of_short_bound _ suffix short)
