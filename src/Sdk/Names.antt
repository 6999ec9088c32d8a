-- ===== src/Sdk/Names.antt =====
-- The names of derived queues and identities: sdk/rust/src/resources.rs. `digest` is SHA-256, as a
-- function of bytes.
pub mod Bounds
pub mod Scoping
mod Examples
use fluidbgoperator.Base.{
  ℕ, zero, suc, ◌+◌, ◌-◌, ◌/◌, ◌%◌, Bool, true, false, not, ◌&&◌, ◌||◌, ◌==◌, leb, ltb, Option,
  none, some, List, [], ◌∷◌, ◌++◌, map, if◌then◌else◌, unwrap_or,
}
use fluidbgoperator.Base.Lists.{length, keep, all, take}
use fluidbgoperator.Base.Text.{
  Text, codes, text_eq, is_empty, to_ascii_lowercase, is_ascii_alphanumeric, trim_end, trim_start,
  rsplit_once, char_count, take_chars,
}
use fluidbgoperator.Base.Bytes.{framed}

abbrev pub max_derived_queue_name_len : ℕ
max_derived_queue_name_len = 63

abbrev pub stable_suffix_len : ℕ
stable_suffix_len = 16

-- `char::from_digit` of a number below 16.
abbrev pub hex_digit : ℕ → ℕ
hex_digit n = if ltb n 10 then 48 + n else 87 + n

unfoldable pub hex : List ℕ → Text
hex [] = []
hex (b ∷ bs) = hex_digit (b / 16) ∷ hex_digit (b % 16) ∷ hex bs

pub temp_queue_kind : Text → Text
temp_queue_kind logical =
    if text_eq logical (codes "green-input")
    then codes "green-in"
    else (if text_eq logical (codes "blue-input")
        then codes "blue-in"
        else (if text_eq logical (codes "green-output")
            then codes "green-out"
            else (if text_eq logical (codes "blue-output") then codes "blue-out" else codes "tmp")))

pub sanitize_identifier : Text → Text
sanitize_identifier value = keep is_ascii_alphanumeric (map to_ascii_lowercase value)

-- The loop of `sanitize`.
pub sanitize_loop : Bool → Text → Text
sanitize_loop last_dash [] = []
sanitize_loop last_dash (x ∷ xs) =
    let ch = to_ascii_lowercase x in
    let rest = sanitize_loop (not (is_ascii_alphanumeric ch)) xs in
    if is_ascii_alphanumeric ch then ch ∷ rest else (if last_dash then rest else b'-' ∷ rest)

abbrev pub is_dash : ℕ → Bool
is_dash ch = ch == b'-'

pub sanitize : Text → Text
unfolding sanitize_loop
sanitize value =
    let trimmed = trim_end is_dash (trim_start is_dash (sanitize_loop false value)) in
    if is_empty trimmed then codes "queue" else take 38 trimmed

abbrev pub is_separator : ℕ → Bool
is_separator ch = ch == b'-' || (ch == b'_' || ch == b'.')

pub sanitize_shadow_suffix : Text → Text
sanitize_shadow_suffix value =
    take 24 (keep (λ ch. is_ascii_alphanumeric ch || is_separator ch) value)

abbrev pub is_ascii_hexdigit : ℕ → Bool
is_ascii_hexdigit b = (leb 48 b && leb b 57) || ((leb 65 b && leb b 70) || (leb 97 b && leb b 102))

pub checked_suffix : Option (Text × Text) → Option (Text × Text)
checked_suffix none = none
checked_suffix (some (prefix, suffix)) =
    if length suffix == stable_suffix_len && all is_ascii_hexdigit suffix
    then some (prefix, suffix)
    else none

pub stable_suffix_from_name : Text → Option (Text × Text)
unfolding checked_suffix
stable_suffix_from_name name = checked_suffix (rsplit_once b'-' name)

-- `saturating_sub` and `max(1)`.
abbrev pub at_least_one : ℕ → ℕ
at_least_one n = if n == 0 then 1 else n

pub shadow_of_parts : Text → Text → Option (Text × Text) → Text
shadow_of_parts temp_queue_name shadow_suffix (some (prefix, suffix)) =
    let budget =
      at_least_one (max_derived_queue_name_len - (char_count shadow_suffix + 1 + length suffix)) in
    take_chars budget (trim_end is_separator prefix) ++ (shadow_suffix ++ (b'-' ∷ suffix))
shadow_of_parts temp_queue_name shadow_suffix none =
    take_chars (max_derived_queue_name_len - char_count shadow_suffix) temp_queue_name
    ++ shadow_suffix

-- The name with a suffix that is sanitized.
pub shadow_with : Text → Text → Text
unfolding stable_suffix_from_name shadow_of_parts
shadow_with temp_queue_name shadow_suffix =
    if all is_separator shadow_suffix
    then temp_queue_name
    else (if leb (char_count temp_queue_name + char_count shadow_suffix) max_derived_queue_name_len
        then temp_queue_name ++ shadow_suffix
        else shadow_of_parts temp_queue_name shadow_suffix
            (stable_suffix_from_name temp_queue_name))

pub derived_shadow_queue_name : Text → Text → Text
unfolding sanitize_shadow_suffix shadow_with
derived_shadow_queue_name temp_queue_name shadow_suffix =
    shadow_with temp_queue_name (sanitize_shadow_suffix shadow_suffix)

module _ (digest : Text → List ℕ) where
  pub stable_suffix : List Text → Text
  unfolding hex
  stable_suffix parts = take stable_suffix_len (hex (digest (framed parts)))

  pub temporary_queue_identifier_token : Text → Option Text
  unfolding sanitize_identifier stable_suffix
  temporary_queue_identifier_token value =
      let normalized = sanitize_identifier value in
      let suffix = take 4 (stable_suffix (value ∷ [])) in
      if is_empty normalized then none else some (take (10 - length suffix) normalized ++ suffix)

  -- `and_then(temporary_queue_identifier_token)`.
  abbrev pub token_of : Option Text → Option Text
  token_of none = none
  token_of (some value) = temporary_queue_identifier_token value

  pub named : Text → Option Text → Text → Text
  unfolding temp_queue_kind
  named logical (some identifier) suffix =
      codes "fluidbg-" ++ (temp_queue_kind logical ++ (b'-' ∷ (identifier ++ (b'-' ∷ suffix))))
  named logical none suffix = codes "fluidbg-" ++ (temp_queue_kind logical ++ (b'-' ∷ suffix))

  pub derived_temp_queue_name_with_uid_and_identifier :
      Text → Text → Text → Text → Text → Text → Option Text → Text
  unfolding stable_suffix temporary_queue_identifier_token named
  derived_temp_queue_name_with_uid_and_identifier namespace blue_green_ref blue_green_uid
        inception_point role logical temporary_queue_identifier =
      let identifier = token_of temporary_queue_identifier in
      named logical identifier (
        stable_suffix (
          namespace
          ∷ blue_green_ref
          ∷ blue_green_uid
          ∷ inception_point
          ∷ role
          ∷ logical
          ∷ unwrap_or identifier []
          ∷ []))

  pub derived_temp_queue_name_with_uid : Text → Text → Text → Text → Text → Text → Text
  unfolding derived_temp_queue_name_with_uid_and_identifier
  derived_temp_queue_name_with_uid namespace blue_green_ref blue_green_uid inception_point role
        logical =
      derived_temp_queue_name_with_uid_and_identifier namespace blue_green_ref blue_green_uid
        inception_point role logical none

  pub derived_temp_queue_name : Text → Text → Text → Text → Text → Text
  unfolding derived_temp_queue_name_with_uid
  derived_temp_queue_name namespace blue_green_ref inception_point role logical =
      derived_temp_queue_name_with_uid namespace blue_green_ref [] inception_point role logical

  pub derived_scoped_identity_name : Text → Text → Text → Text → Text → ℕ → Text
  unfolding stable_suffix sanitize
  derived_scoped_identity_name prefix namespace blue_green_ref blue_green_uid inception_point
        max_len =
      let suffix =
        stable_suffix (namespace ∷ blue_green_ref ∷ blue_green_uid ∷ inception_point ∷ []) in
      let safe_prefix = sanitize prefix in
      let budget = at_least_one (max_len - (length suffix + 2)) in
      let readable =
        take budget
          (sanitize (namespace ++ (b'-' ∷ (blue_green_ref ++ (b'-' ∷ inception_point))))) in
      take max_len (safe_prefix ++ (b'-' ∷ (readable ++ (b'-' ∷ suffix))))
