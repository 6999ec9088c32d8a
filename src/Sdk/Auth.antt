-- ===== src/Sdk/Auth.antt =====
-- Bearer tokens: sdk/rust/src/auth.rs. SHA-256, base64 and JSON are those of the crates that the code
-- calls: an argument, the record `Codec`.
pub mod Bytes
pub mod Tokens
pub mod RoundTrip
mod Examples
use fluidbgoperator.Base.{
  ℕ, zero, suc, ◌+◌, ◌*◌, ◌/◌, ◌%◌, Bool, true, false, not, ◌&&◌, ◌||◌, Option, none, some, List,
  [], ◌∷◌, ◌++◌, if◌then◌else◌, ltb, ◌==◌,
}
use fluidbgoperator.Base.Lists.{length}
use fluidbgoperator.Base.Text.{Text, codes, text_eq, is_empty, option_text_eq, split_char}
use fluidbgoperator.Base.Errors.{Checked, ok, err, ◌>>=◌, or_err}

pub record PluginAuthClaims : Type 0 where
  pub iss : Text
  pub aud : Text
  pub namespace : Text
  pub blue_green_ref : Text
  pub blue_green_uid : Option Text
  pub inception_point : Text
  pub plugin : Text

pub record JwtHeader : Type 0 where
  pub alg : Text
  pub typ : Text

-- `PluginManagerLifecycleRequest`, as far as it is compared with the claims.
pub record PluginManagerLifecycleRequest : Type 0 where
  pub namespace : Text
  pub blue_green_ref : Text
  pub blue_green_uid : Option Text
  pub inception_point : Text
  pub plugin : Text

abbrev pub plugin_auth_issuer : Text
plugin_auth_issuer = codes "fluidbg-operator"

abbrev pub plugin_auth_audience : Text
plugin_auth_audience = codes "fluidbg-inception-plugin"

pub new : Text → Text → Text → Text → PluginAuthClaims
new namespace blue_green_ref inception_point plugin = record {
  iss = plugin_auth_issuer;
  aud = plugin_auth_audience;
  namespace = namespace;
  blue_green_ref = blue_green_ref;
  blue_green_uid = none;
  inception_point = inception_point;
  plugin = plugin;
}

pub new_with_uid : Text → Text → Text → Text → Text → PluginAuthClaims
unfolding new
new_with_uid namespace blue_green_ref blue_green_uid inception_point plugin =
    record (new namespace blue_green_ref inception_point plugin) {
      blue_green_uid = some blue_green_uid;
    }

-- `a ^ b` and `a | b` of unsigned integers of `w` bits.
unfoldable pub xor_bits : ℕ → ℕ → ℕ → ℕ
xor_bits zero a b = 0
xor_bits (suc w) a b = (a % 2 + b % 2) % 2 + 2 * xor_bits w (a / 2) (b / 2)

unfoldable pub or_bits : ℕ → ℕ → ℕ → ℕ
or_bits zero a b = 0
or_bits (suc w) a b = (if a % 2 + b % 2 == 0 then 0 else 1) + 2 * or_bits w (a / 2) (b / 2)

-- The fold over the zipped slices.
pub difference : ℕ → List ℕ → List ℕ → ℕ
difference acc (x ∷ xs) (y ∷ ys) = difference (or_bits 8 acc (xor_bits 8 x y)) xs ys
difference acc _ _ = acc

unfoldable pub constant_time_eq : List ℕ → List ℕ → Bool
unfolding difference
constant_time_eq left right =
    if not (length left == length right) then false else difference 0 left right == 0

unfoldable pub strip_prefix : Text → Text → Option Text
strip_prefix [] s = some s
strip_prefix (p ∷ ps) [] = none
strip_prefix (p ∷ ps) (x ∷ xs) = let rest = strip_prefix ps xs in if p == x then rest else none

unfoldable pub bearer_value : Text → Text
bearer_value token = codes "Bearer " ++ token

unfoldable pub bearer_token : Text → Option Text
unfolding strip_prefix
bearer_token header_value = strip_prefix (codes "Bearer ") header_value

unfoldable pub bearer_matches : Option Text → Option Text → Bool
unfolding bearer_token constant_time_eq
bearer_matches header_value none = false
bearer_matches header_value (some expected_token) =
    if is_empty expected_token then false else elim header_value [
      | none ↦ false
      | some value ↦ elim (bearer_token value) [
        | none ↦ false
        | some actual ↦ constant_time_eq actual expected_token
      ]
    ]

pub manager_request_matches_claims : PluginManagerLifecycleRequest → PluginAuthClaims → Bool
manager_request_matches_claims req claims =
    text_eq req.namespace claims.namespace
    && (text_eq req.blue_green_ref claims.blue_green_ref
        && (text_eq req.inception_point claims.inception_point
            && (text_eq req.plugin claims.plugin
                && option_text_eq req.blue_green_uid claims.blue_green_uid)))

-- The crates: `URL_SAFE_NO_PAD`, `serde_json` for the two types, and `Sha256`, whose `update` calls
-- digest the concatenation. `json_error` is the text of a failed serialization.
pub record Codec : Type 0 where
  pub encode64 : List ℕ → Text
  pub decode64 : Text → Option (List ℕ)
  pub header_to_vec : JwtHeader → Option (List ℕ)
  pub header_from_slice : List ℕ → Option JwtHeader
  pub claims_to_vec : PluginAuthClaims → Option (List ℕ)
  pub claims_from_slice : List ℕ → Option PluginAuthClaims
  pub sha256 : List ℕ → List ℕ
  pub json_error : Text

-- `bytes` in an array of `n` bytes, zeros behind them.
pub in_block : ℕ → List ℕ → List ℕ
in_block zero bytes = []
in_block (suc n) [] = 0 ∷ in_block n []
in_block (suc n) (x ∷ xs) = x ∷ in_block n xs

pub xor_all : ℕ → List ℕ → List ℕ
xor_all pad [] = []
xor_all pad (x ∷ xs) = xor_bits 8 pad x ∷ xor_all pad xs

module _ (C : Codec) where
  open C use {encode64, decode64, sha256}

  pub hmac_sha256 : List ℕ → List ℕ → List ℕ
  unfolding in_block xor_all
  hmac_sha256 key message =
      let key_block = in_block 64 (if ltb 64 (length key) then sha256 key else key) in
      sha256 (xor_all 0x5c key_block ++ sha256 (xor_all 0x36 key_block ++ message))

  pub encode_header : JwtHeader → Checked Text
  encode_header header = or_err (C.header_to_vec header) C.json_error >>= λ v. ok (encode64 v)

  pub encode_claims : PluginAuthClaims → Checked Text
  encode_claims claims = or_err (C.claims_to_vec claims) C.json_error >>= λ v. ok (encode64 v)

  pub decode_header : Text → Option JwtHeader
  decode_header value = elim (decode64 value) [ none ↦ none | some v ↦ C.header_from_slice v ]

  pub decode_claims : Text → Option PluginAuthClaims
  decode_claims value = elim (decode64 value) [ none ↦ none | some v ↦ C.claims_from_slice v ]

  abbrev pub jwt_header : JwtHeader
  jwt_header = record { alg = codes "HS256"; typ = codes "JWT" }

  pub sign_plugin_auth_token : PluginAuthClaims → List ℕ → Checked Text
  unfolding encode_header encode_claims hmac_sha256
  sign_plugin_auth_token claims signing_key =
      if is_empty signing_key
      then err (codes "plugin auth signing key must not be empty")
      else encode_header jwt_header >>= λ encoded_header. encode_claims claims >>= λ encoded_claims.
          let signing_input = encoded_header ++ (b'.' ∷ encoded_claims) in
          ok (signing_input ++ (b'.' ∷ encode64 (hmac_sha256 signing_key signing_input)))

  -- What `verify_plugin_auth_token` does with the three segments.
  pub verify_parts : List ℕ → Text → Text → Text → Checked PluginAuthClaims
  unfolding decode_header decode_claims hmac_sha256
  verify_parts signing_key encoded_header encoded_claims encoded_signature =
      or_err (decode_header encoded_header) (codes "invalid JWT header") >>= λ header.
      if not (text_eq header.alg (codes "HS256")) || not (text_eq header.typ (codes "JWT"))
      then err (codes "unsupported JWT header")
      else let expected = hmac_sha256 signing_key (encoded_header ++ (b'.' ∷ encoded_claims)) in
        or_err (decode64 encoded_signature) (codes "invalid JWT signature encoding") >>= λ actual.
        if not (constant_time_eq actual expected)
        then err (codes "JWT signature mismatch")
        else or_err (decode_claims encoded_claims) (codes "invalid JWT claims") >>= λ claims.
            if not (text_eq claims.iss plugin_auth_issuer)
              || not (text_eq claims.aud plugin_auth_audience)
            then err (codes "JWT issuer or audience mismatch")
            else ok claims

  pub verify_segments : List ℕ → List Text → Checked PluginAuthClaims
  unfolding verify_parts
  verify_segments signing_key [] = err (codes "JWT header missing")
  verify_segments signing_key (h ∷ []) = err (codes "JWT claims missing")
  verify_segments signing_key (h ∷ c ∷ []) = err (codes "JWT signature missing")
  verify_segments signing_key (h ∷ c ∷ s ∷ []) = verify_parts signing_key h c s
  verify_segments signing_key (h ∷ c ∷ s ∷ more ∷ rest) =
      err (codes "JWT contains too many segments")

  pub verify_plugin_auth_token : Text → List ℕ → Checked PluginAuthClaims
  unfolding verify_segments
  verify_plugin_auth_token token signing_key =
      if is_empty signing_key
      then err (codes "plugin auth signing key must not be empty")
      else verify_segments signing_key (split_char b'.' token)
