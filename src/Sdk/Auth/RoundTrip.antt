-- ===== src/Sdk/Auth/RoundTrip.antt =====
-- A token that the operator signs is verified, and what a verified token is.
use mathlib.Core.List.{append_assoc}
use fluidbgoperator.Base.{
  ℕ, ◌≡◌, refl, sym, ap, ◌∙◌, Bool, true, false, not, ◌||◌, Option, none, some, List, [], ◌∷◌, ◌++◌,
  arith, if◌then◌else◌,
}
use fluidbgoperator.Base.Lists.{All}
use fluidbgoperator.Base.Text.{
  Text, codes, text_eq, text_eq_iff, is_empty, contains_char, split_char, split_char-whole,
  split_char-join,
}
use fluidbgoperator.Base.Errors.{Checked, ok, err, ◌>>=◌, or_err}
use fluidbgoperator.Sdk.Auth.{
  PluginAuthClaims, JwtHeader, Codec, plugin_auth_issuer, plugin_auth_audience, constant_time_eq,
  hmac_sha256, encode_header, encode_claims, decode_header, decode_claims, jwt_header,
  sign_plugin_auth_token, verify_parts, verify_segments, verify_plugin_auth_token,
}
use fluidbgoperator.Sdk.Auth.Bytes.{IsByte, constant_time_eq_refl, constant_time_eq_iff}

-- What the crates promise: base64 without padding decodes what it encodes and has no dot in its
-- alphabet, JSON reads back what it wrote, and digests and decoded texts are bytes.
pub record IsCodec (C : Codec) : Type 0 where
  pub decode_encode : (b : List ℕ) → All IsByte b → C.decode64 (C.encode64 b) ≡ some b
  pub no_dot : (b : List ℕ) → contains_char b'.' (C.encode64 b) ≡ false
  pub decoded_bytes : (t : Text) (b : List ℕ) → C.decode64 t ≡ some b → All IsByte b
  pub digest_bytes : (m : List ℕ) → All IsByte (C.sha256 m)
  pub header_bytes : (h : JwtHeader) (b : List ℕ) → C.header_to_vec h ≡ some b → All IsByte b
  pub header_reads :
      (h : JwtHeader) (b : List ℕ) → C.header_to_vec h ≡ some b → C.header_from_slice b ≡ some h
  pub claims_bytes : (c : PluginAuthClaims) (b : List ℕ) → C.claims_to_vec c ≡ some b → All IsByte b
  pub claims_reads :
      (c : PluginAuthClaims) (b : List ℕ)
      → C.claims_to_vec c ≡ some b
      → C.claims_from_slice b ≡ some c

or_err-ok : {A : Type 0} (o : Option A) (e : Text) (a : A) → or_err o e ≡ ok a → o ≡ some a
or_err-ok none e a h = absurd (cc)
or_err-ok (some b) e a h = cc

bind-ok :
    {A B : Type 0} (r : Checked A) (f : A → Checked B) (b : B)
    → (r >>= f) ≡ ok b
    → (a : A) × (r ≡ ok a) × (f a ≡ ok b)
bind-ok (ok a) f b h = (a, refl, h)
bind-ok (err e) f b h = absurd (cc)

else-ok :
    {B : Type 0} (c : Bool) (e : Text) (r : Checked B) (b : B)
    → (if c then err e else r) ≡ ok b
    → (c ≡ false) × (r ≡ ok b)
else-ok true e r b h = absurd (cc)
else-ok false e r b h = (refl, h)

module _ (C : Codec) where
  -- Where the encoded parts stand in a signed token.
  abbrev token_of : List ℕ → List ℕ → List ℕ → Text
  token_of key hb cb =
      let input = C.encode64 hb ++ (b'.' ∷ C.encode64 cb) in
      input ++ (b'.' ∷ C.encode64 (hmac_sha256 C key input))

  signed_shape :
      (claims : PluginAuthClaims) (key : List ℕ) (token : Text)
      → sign_plugin_auth_token C claims key ≡ ok token
      → (hb cb : List ℕ) × (is_empty key ≡ false)
        × (C.header_to_vec (jwt_header C) ≡ some hb)
        × (C.claims_to_vec claims ≡ some cb)
        × (token ≡ token_of key hb cb)
  unfolding sign_plugin_auth_token encode_header encode_claims
  signed_shape claims key token h =
      let (keyed, rest) = else-ok (is_empty key) _ _ token h in
      let (eh, header_ok, rest1) = bind-ok (encode_header C (jwt_header C)) _ token rest in
      let (hb, made_h, eh_is) = bind-ok _ _ eh header_ok in
      let (ec, claims_ok, rest2) = bind-ok (encode_claims C claims) _ token rest1 in
      let (cb, made_c, ec_is) = bind-ok _ _ ec claims_ok in
      (hb, cb, keyed, or_err-ok _ _ hb made_h, or_err-ok _ _ cb made_c, cc)

  verified_parts :
      (key : List ℕ) (h c s : Text) (claims : PluginAuthClaims)
      → verify_parts C key h c s ≡ ok claims
      → (header : JwtHeader) × (actual : List ℕ) × (decode_header C h ≡ some header)
        × (text_eq header.alg (codes "HS256") ≡ true)
        × (C.decode64 s ≡ some actual)
        × (constant_time_eq actual (hmac_sha256 C key (h ++ (b'.' ∷ c))) ≡ true)
        × (decode_claims C c ≡ some claims)
        × (claims.iss ≡ plugin_auth_issuer)
        × (claims.aud ≡ plugin_auth_audience)
  unfolding verify_parts
  verified_parts key h c s claims e =
      let (header, made, rest) = bind-ok _ _ claims e in
      let (right_kind, rest1) =
        else-ok (not (text_eq header.alg (codes "HS256")) || not (text_eq header.typ (codes "JWT")))
          _ _ claims rest in
      let (actual, decoded, rest2) = bind-ok _ _ claims rest1 in
      let (signed, rest3) =
        else-ok (not (constant_time_eq actual (hmac_sha256 C key (h ++ (b'.' ∷ c))))) _ _ claims
          rest2 in
      let (read, made_c, rest4) = bind-ok _ _ claims rest3 in
      let (addressed, rest5) =
        else-ok
          (not (text_eq read.iss plugin_auth_issuer) || not (text_eq read.aud plugin_auth_audience))
          _ _ claims rest4 in
      let same : read ≡ claims = cc in
      (
        header,
        actual,
        or_err-ok _ _ header made,
        ground arith,
        or_err-ok _ _ actual decoded,
        ground arith,
        or_err-ok _ _ read made_c ∙ ap some same,
        sym (ap (λ x. x.iss) same) ∙ (text_eq_iff _ _).0 (ground arith),
        sym (ap (λ x. x.aud) same) ∙ (text_eq_iff _ _).0 (ground arith),
      )

  parts_verify :
      (key : List ℕ) (h c s : Text) (claims : PluginAuthClaims)
      → decode_header C h ≡ some (jwt_header C)
      → C.decode64 s ≡ some (hmac_sha256 C key (h ++ (b'.' ∷ c)))
      → decode_claims C c ≡ some claims
      → claims.iss ≡ plugin_auth_issuer
      → claims.aud ≡ plugin_auth_audience
      → verify_parts C key h c s ≡ ok claims
  unfolding verify_parts text_eq
  parts_verify key h c s claims eh es ec iss aud =
      rw (eh, verify_parts)
        (rw (es, constant_time_eq_refl (hmac_sha256 C key (h ++ (b'.' ∷ c))))
          (rw (ec, iss, aud) refl))

  split_token :
      (h c s : Text)
      → contains_char b'.' h ≡ false
      → contains_char b'.' c ≡ false
      → contains_char b'.' s ≡ false
      → split_char b'.' ((h ++ (b'.' ∷ c)) ++ (b'.' ∷ s)) ≡ h ∷ c ∷ s ∷ []
  split_token h c s nh nc ns =
      ap (split_char b'.') (append_assoc h (b'.' ∷ c) (b'.' ∷ s))
      ∙ split_char-join b'.' h (c ++ (b'.' ∷ s)) nh
      ∙ ap (λ t. h ∷ t) (split_char-join b'.' c s nc ∙ ap (λ t. c ∷ t) (split_char-whole b'.' s ns))

  hmac_bytes : IsCodec C → (key message : List ℕ) → All IsByte (hmac_sha256 C key message)
  unfolding hmac_sha256
  hmac_bytes L key message = L.digest_bytes _

  -- A token that is signed for the operator's issuer and audience is verified with the same key, and
  -- gives the claims that were signed.
  pub sign-verify :
      (claims : PluginAuthClaims) (key : List ℕ) (token : Text)
      → IsCodec C
      → claims.iss ≡ plugin_auth_issuer
      → claims.aud ≡ plugin_auth_audience
      → sign_plugin_auth_token C claims key ≡ ok token
      → verify_plugin_auth_token C token key ≡ ok claims
  unfolding verify_plugin_auth_token verify_segments decode_header decode_claims
  sign-verify claims key token L iss aud signed =
      let (hb, cb, keyed, made_h, made_c, shape) = signed_shape claims key token signed in
      let input = C.encode64 hb ++ (b'.' ∷ C.encode64 cb) in
      let mac = hmac_sha256 C key input in
      let h_read : decode_header C (C.encode64 hb) ≡ some (jwt_header C) =
        rw (L.decode_encode hb (L.header_bytes _ hb made_h), decode_header)
          (L.header_reads _ hb made_h) in
      let c_read : decode_claims C (C.encode64 cb) ≡ some claims =
        rw (L.decode_encode cb (L.claims_bytes _ cb made_c), decode_claims)
          (L.claims_reads _ cb made_c) in
      rw keyed (
        rw shape (
          rw
            (split_token (C.encode64 hb) (C.encode64 cb) (C.encode64 mac) (L.no_dot hb)
              (L.no_dot cb) (L.no_dot mac))
            (parts_verify key (C.encode64 hb) (C.encode64 cb) (C.encode64 mac) claims h_read
              (L.decode_encode mac (hmac_bytes L key input)) c_read iss aud)))

  segments_of :
      (key : List ℕ) (parts : List Text) (claims : PluginAuthClaims)
      → verify_segments C key parts ≡ ok claims
      → (h : Text) × (c : Text) × (s : Text) × (parts ≡ h ∷ c ∷ s ∷ [])
        × (verify_parts C key h c s ≡ ok claims)
  unfolding verify_segments
  segments_of key [] claims e = absurd (cc)
  segments_of key (h ∷ []) claims e = absurd (cc)
  segments_of key (h ∷ c ∷ []) claims e = absurd (cc)
  segments_of key (h ∷ c ∷ s ∷ []) claims e = (h, c, s, refl, e)
  segments_of key (h ∷ c ∷ s ∷ m ∷ r) claims e = absurd (cc)

  -- What a verified token is: it has exactly three segments, the third is the code of the first two
  -- under the signing key, and the claims that it gives are those of the second, addressed by the
  -- operator to the plugins. No token is verified with an empty key.
  pub verified_is_signed :
      (token : Text) (key : List ℕ) (claims : PluginAuthClaims)
      → IsCodec C
      → verify_plugin_auth_token C token key ≡ ok claims
      → (h : Text) × (c : Text) × (s : Text) × (is_empty key ≡ false)
        × (split_char b'.' token ≡ h ∷ c ∷ s ∷ [])
        × (C.decode64 s ≡ some (hmac_sha256 C key (h ++ (b'.' ∷ c))))
        × (decode_claims C c ≡ some claims)
        × (claims.iss ≡ plugin_auth_issuer)
        × (claims.aud ≡ plugin_auth_audience)
  unfolding verify_plugin_auth_token
  verified_is_signed token key claims L e =
      let (keyed, rest) = else-ok (is_empty key) _ _ claims e in
      let (h, c, s, split, verified) = segments_of key (split_char b'.' token) claims rest in
      let (header, actual, _, _, decoded, same, read, iss, aud) =
        verified_parts key h c s claims verified in
      let mac = hmac_sha256 C key (h ++ (b'.' ∷ c)) in
      let equal =
        (constant_time_eq_iff actual mac (L.decoded_bytes s actual decoded)
            (hmac_bytes L key (h ++ (b'.' ∷ c)))).0
          same in
      (h, c, s, keyed, split, decoded ∙ ap some equal, read, iss, aud)
