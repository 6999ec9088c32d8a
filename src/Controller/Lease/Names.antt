-- ===== src/Controller/Lease/Names.antt =====
-- The names of the leases: lease_name of operator/src/controller/lease.rs. `digest` is SHA-256.
pub mod Labels
use fluidbgoperator.Base.{
  ℕ, zero, suc, ◌+◌, ◌-◌, ◌≤◌, ◌<◌, ◌≡◌, refl, ap, ◌∙◌, Bool, true, false, not, ◌&&◌, ◌||◌, ◌==◌,
  leb, ltb, Option, none, some, List, [], ◌∷◌, ◌++◌, if◌then◌else◌, arith, Bool-cases, inl, inr,
  ◌/◌, ◌%◌,
}
use fluidbgoperator.Base.Lists.{length, All, take, length-append, length-take_le, length-take_of_le}
use fluidbgoperator.Base.Text.{
  Text, codes, is_empty, to_ascii_lowercase, is_ascii_alphanumeric, trim_end, trim_start,
}
use fluidbgoperator.Sdk.Names.Scoping.{IsDigest, length-hex}
use fluidbgoperator.Sdk.Names.{hex, is_dash, hex_digit}

abbrev pub mapped_char : ℕ → ℕ
mapped_char ch = if is_ascii_alphanumeric ch then to_ascii_lowercase ch else b'-'

-- One round: the limit ends the loop, and a dash after a dash is passed over.
pub label_step : Bool → Bool → ℕ → Text → Text
label_step true skipped mapped rest = []
label_step false true mapped rest = rest
label_step false false mapped rest = mapped ∷ rest

-- The loop of `dns_label_prefix`, with the length of the output and whether it ends with a dash.
pub label_loop : ℕ → ℕ → Bool → Text → Text
unfolding label_step
label_loop max_len written ends_dash [] = []
label_loop max_len written ends_dash (x ∷ xs) =
    let mapped = mapped_char x in
    let skipped = is_dash mapped && ends_dash in
    label_step (leb max_len written) skipped mapped
      (label_loop max_len (if skipped then written else written + 1) (is_dash mapped) xs)

pub dns_label_prefix : Text → ℕ → Text
unfolding label_loop
dns_label_prefix value max_len =
    let trimmed = trim_end is_dash (trim_start is_dash (label_loop max_len 0 false value)) in
    if is_empty trimmed then codes "bgd" else trimmed

module _ (digest : Text → List ℕ) where
  pub short_hash : Text → Text
  short_hash value = hex (take 5 (digest value))

  pub lease_name : Text → Text → Text → Text
  unfolding short_hash dns_label_prefix
  lease_name prefix name discriminator =
      let suffix = short_hash discriminator in
      let max_name_len = 63 - (length prefix + length suffix + 2) in
      prefix ++ (b'-' ∷ (dns_label_prefix name max_name_len ++ (b'-' ∷ suffix)))
