-- ===== src/Sdk/Auth/Examples.antt =====
-- The properties of tokens at a small codec, which has all that is asked of the crates.
use native.Mathlib.Nat.{mod-lt}
use fluidbgoperator.Base.{
  ℕ, ◌+◌, ◌-◌, ◌%◌, ◌≡◌, refl, ap, Bool, true, false, ◌&&◌, Option, none, some, List, [], ◌∷◌, ◌++◌,
  arith, if◌then◌else◌, leb, ltb, Bool-cases, inl, inr, subst, sym,
}
use fluidbgoperator.Base.Lists.{All}
use fluidbgoperator.Base.Text.{
  Text, codes, text_eq, text_eq_iff, contains_char, is_empty, split_char, option_text_eq,
}
use fluidbgoperator.Base.Errors.{ok}
use fluidbgoperator.Sdk.Auth.{
  PluginAuthClaims, JwtHeader, Codec, sign_plugin_auth_token, verify_plugin_auth_token,
  encode_header, encode_claims, decode_claims, hmac_sha256, plugin_auth_issuer,
  plugin_auth_audience,
}
use fluidbgoperator.Sdk.Auth.Bytes.{IsByte}
use fluidbgoperator.Sdk.Auth.RoundTrip.{IsCodec, sign-verify, verified_is_signed}

-- A code that shifts each byte above the dot.
abbrev shift_up : List ℕ → Text
shift_up [] = []
shift_up (x ∷ xs) = (x + 47) ∷ shift_up xs

abbrev onto_bytes : ℕ → Option (List ℕ) → Option (List ℕ)
onto_bytes x none = none
onto_bytes x (some xs) = if leb 47 x && ltb x 303 then some ((x - 47) ∷ xs) else none

abbrev shift_down : Text → Option (List ℕ)
shift_down [] = some []
shift_down (x ∷ xs) = onto_bytes x (shift_down xs)

abbrev sum : List ℕ → ℕ
sum [] = 0
sum (x ∷ xs) = x + sum xs

abbrev orders : PluginAuthClaims
orders = record {
  iss = plugin_auth_issuer;
  aud = plugin_auth_audience;
  namespace = codes "app";
  blue_green_ref = codes "orders";
  blue_green_uid = none;
  inception_point = codes "incoming";
  plugin = codes "http";
}

abbrev hs256 : JwtHeader
hs256 = record { alg = codes "HS256"; typ = codes "JWT" }

abbrev is_hs256 : JwtHeader → Bool
is_hs256 h = text_eq h.alg (codes "HS256") && text_eq h.typ (codes "JWT")

abbrev is_orders : PluginAuthClaims → Bool
is_orders c =
    text_eq c.iss plugin_auth_issuer
    && (text_eq c.aud plugin_auth_audience
        && (text_eq c.namespace (codes "app")
            && (text_eq c.blue_green_ref (codes "orders")
                && (option_text_eq c.blue_green_uid none
                    && (text_eq c.inception_point (codes "incoming")
                        && text_eq c.plugin (codes "http"))))))

abbrev small_codec : Codec
small_codec = record {
  encode64 = shift_up;
  decode64 = shift_down;
  header_to_vec = λ h. if is_hs256 h then some (1 ∷ []) else none;
  header_from_slice = λ b. some hs256;
  claims_to_vec = λ c. if is_orders c then some (2 ∷ []) else none;
  claims_from_slice = λ b. some orders;
  sha256 = λ m. (sum m % 256) ∷ [];
  json_error = codes "unsupported";
}

shift_down-shift_up : (b : List ℕ) → All IsByte b → shift_down (shift_up b) ≡ some b
shift_down-shift_up [] a = refl
shift_down-shift_up (x ∷ xs) a = ground (arith, shift_down-shift_up xs a.1)

no_dot_in : (b : List ℕ) → contains_char b'.' (shift_up b) ≡ false
no_dot_in [] = refl
no_dot_in (x ∷ xs) = ground (arith, no_dot_in xs)

after_first :
    (x : ℕ) (o : Option (List ℕ)) (b : List ℕ)
    → ((ys : List ℕ) → o ≡ some ys → All IsByte ys)
    → onto_bytes x o ≡ some b
    → All IsByte b
after_first x none b rest e = absurd (cc)
after_first x (some ys) b rest e = elim (Bool-cases (leb 47 x && ltb x 303)) [
  | inr out ↦ absurd (ground (arith, out))
  | inl within ↦
      let shape : b ≡ (x - 47) ∷ ys = ground (arith, within) in
      let whole : All IsByte ((x - 47) ∷ ys) = (ground (arith, within), rest ys refl) in
      subst (All IsByte) (sym shape) whole
]

bytes_down : (t : Text) (b : List ℕ) → shift_down t ≡ some b → All IsByte b
bytes_down [] [] e = tt
bytes_down [] (y ∷ ys) e = absurd (cc)
bytes_down (x ∷ xs) b e = after_first x (shift_down xs) b (λ ys f. bytes_down xs ys f) e

read_header : (h : JwtHeader) → is_hs256 h ≡ true → hs256 ≡ h
read_header h e = ground (arith, text_eq_iff h.alg (codes "HS256"), text_eq_iff h.typ (codes "JWT"))

no_uid : (o : Option Text) → option_text_eq o none ≡ true → o ≡ none
no_uid none e = refl
no_uid (some t) e = absurd (cc)

read_claims : (c : PluginAuthClaims) → is_orders c ≡ true → orders ≡ c
read_claims c e = ground (
  arith,
  text_eq_iff c.iss plugin_auth_issuer,
  text_eq_iff c.aud plugin_auth_audience,
  text_eq_iff c.namespace (codes "app"),
  text_eq_iff c.blue_green_ref (codes "orders"),
  no_uid c.blue_green_uid,
  text_eq_iff c.inception_point (codes "incoming"),
  text_eq_iff c.plugin (codes "http"),
)

-- What a guarded `Option` gives, and when.
guarded :
    {A : Type 0} (t : Bool) (a b : A) → (if t then some a else none) ≡ some b → (t ≡ true) × (a ≡ b)
guarded true a b e = (refl, cc)
guarded false a b e = absurd (cc)

small_codec-IsCodec : IsCodec small_codec
small_codec-IsCodec = record {
  decode_encode = shift_down-shift_up;
  no_dot = no_dot_in;
  decoded_bytes = bytes_down;
  digest_bytes = λ m. (mod-lt (sum m) (omega arith), tt);
  header_bytes = λ h b e. subst (All IsByte) (guarded (is_hs256 h) _ b e).1 (omega arith, tt);
  header_reads = λ h b e. ap some (read_header h (guarded (is_hs256 h) _ b e).0);
  claims_bytes = λ c b e. subst (All IsByte) (guarded (is_orders c) _ b e).1 (omega arith, tt);
  claims_reads = λ c b e. ap some (read_claims c (guarded (is_orders c) _ b e).0);
}

abbrev key : List ℕ
key = codes "signing-key"

abbrev signed_part : Text
signed_part = shift_up (1 ∷ []) ++ (b'.' ∷ shift_up (2 ∷ []))

abbrev orders_token : Text
orders_token = signed_part ++ (b'.' ∷ shift_up (hmac_sha256 small_codec key signed_part))

signed : sign_plugin_auth_token small_codec orders key ≡ ok orders_token
unfolding sign_plugin_auth_token encode_header encode_claims text_eq
signed = refl

verified : verify_plugin_auth_token small_codec orders_token key ≡ ok orders
verified = sign-verify small_codec orders key orders_token small_codec-IsCodec refl refl signed

sign-verify_example : verify_plugin_auth_token small_codec orders_token key ≡ ok orders
sign-verify_example =
    sign-verify small_codec orders key orders_token small_codec-IsCodec refl refl signed

verified_is_signed_example :
    (h : Text) × (c : Text) × (s : Text) × (is_empty key ≡ false)
    × (split_char b'.' orders_token ≡ h ∷ c ∷ s ∷ [])
    × (shift_down s ≡ some (hmac_sha256 small_codec key (h ++ (b'.' ∷ c))))
    × (decode_claims small_codec c ≡ some orders)
    × (plugin_auth_issuer ≡ plugin_auth_issuer)
    × (plugin_auth_audience ≡ plugin_auth_audience)
verified_is_signed_example =
    verified_is_signed small_codec orders_token key orders small_codec-IsCodec verified
