-- ===== src/OAuth2/IdToken.antt =====
-- The verification of an ID token in src/oauth2.rs. The functions of `jsonwebtoken`, which read the
-- clock themselves, are an interface.
use armature_auth.Prelude.{
  String, Text, codes, ℕ, zero, suc, ◌-◌, Bool, true, false, not, ◌&&◌, ◌||◌, ltb, List, [], ◌∷◌,
  ◌++◌, Option, none, some, Result, ok, err, ◌>>=◌, ◌>>◌, map_err, if◌then◌else◌, length, text_beq,
  str_eq, strip_prefix,
}
use armature_auth.Error.{AuthError, AuthResult, concat, configuration, invalid_token}
use armature_auth.Crypto.{Crypto}
use armature_auth.Json.{Json, get_str}
use armature_auth.OAuth2.{OAuth2Config, OidcSettings, id_token_leeway_secs, is_configured}
use armature_auth.OAuth2.Jwks.{Fetch, JwksCache, jwks}

-- The algorithms that the code names; another goes by its `Debug` name.
pub data Algorithm : Type 0 where
  rs256 rs384 rs512 ps256 ps384 ps512 es256 es384 eddsa : Algorithm
  other_algorithm : String → Algorithm

pub record Header : Type 0 where
  pub alg : Algorithm
  pub kid : Option String

-- The settings of `Validation` that the code makes.
pub record Validation : Type 0 where
  pub algorithm : Algorithm
  pub leeway : ℕ
  pub audience : List String
  pub required : List String
  pub issuer : Option (List String)

pub record JwtLibrary (j : Json) : Type 1 where
  pub Jwk : Type 0
  pub Key : Type 0
  pub find : String → List Jwk → Option Jwk
  pub decode_header : String → Result String Header
  pub from_jwk : Jwk → Result String Key
  pub decode : String → Key → Validation → Result String j.Value

-- `str::contains` and `str::replace` of a pattern that is not empty; the number counts the
-- characters of a match that are still to be dropped.
abbrev pub is_prefix : Text → Text → Bool
is_prefix pattern s = is_configured (strip_prefix pattern s)

abbrev pub contains : Text → Text → Bool
contains pattern [] = is_prefix pattern []
contains pattern (ch ∷ s) = is_prefix pattern (ch ∷ s) || contains pattern s

abbrev pub replace_from : Text → Text → ℕ → Text → Text
replace_from pattern to drop [] = []
replace_from pattern to (suc drop) (ch ∷ s) = replace_from pattern to drop s
replace_from pattern to zero (ch ∷ s) =
    let after = replace_from pattern to (length pattern - 1) s in
    let rest = replace_from pattern to zero s in
    if is_prefix pattern (ch ∷ s) then to ++ after else ch ∷ rest

abbrev pub tenant : Text
tenant = codes "{tenantid}"

unfoldable pub is_templated : OidcSettings → Bool
is_templated oidc = contains tenant (codes oidc.issuer)

unfoldable pub issuer_of : OidcSettings → String → Text
issuer_of oidc tid = replace_from tenant (codes tid) 0 (codes oidc.issuer)

module _ (J : Type 0) where
  abbrev pub invalid : String → AuthError J
  invalid msg = invalid_token (concat "id_token: " msg)

  unfoldable pub check_algorithm : Algorithm → AuthResult J (Unit {0})
  check_algorithm (other_algorithm name) =
      err (invalid (concat "algorithm " (concat name " not allowed")))
  check_algorithm alg = ok tt

-- The requirements of the code on a token: its own algorithm, the client as audience, and a fixed
-- issuer unless the issuer is a template.
unfoldable pub validation_of : OAuth2Config → OidcSettings → Header → Validation
validation_of config oidc header = record {
  algorithm = header.alg;
  leeway = id_token_leeway_secs;
  audience = config.client_id ∷ [];
  required = "exp" ∷ "iss" ∷ "aud" ∷ "sub" ∷ [];
  issuer = if is_templated oidc then none else some (oidc.issuer ∷ []);
}

module _ {j : Json} (x : JwtLibrary j) where
  -- The closure `find`.
  abbrev pub only : List x.Jwk → Option x.Jwk
  only (jwk ∷ []) = some jwk
  only jwks = none

  unfoldable pub find_key : Header → List x.Jwk → Option x.Jwk
  find_key header set = elim (header.kid) [ some kid ↦ x.find kid set | none ↦ only set ]

module _ (j : Json) (J : Type 0) where
  abbrev pub is_text : Text → Option String → Bool
  is_text expected none = false
  is_text expected (some s) = text_beq (codes s) expected

  abbrev pub is_string : String → Option String → Bool
  is_string expected none = false
  is_string expected (some s) = str_eq s expected

  abbrev pub check_tenant : OidcSettings → Option String → j.Value → AuthResult J (Unit {0})
  check_tenant oidc none claims = err (invalid J "missing tid")
  check_tenant oidc (some tid) claims =
      if not (is_text (issuer_of oidc tid) (get_str j "iss" claims))
      then err (invalid J "issuer mismatch")
      else ok tt

  unfoldable pub check_issuer : OidcSettings → j.Value → AuthResult J (Unit {0})
  check_issuer oidc claims =
      if is_templated oidc then check_tenant oidc (get_str j "tid" claims) claims else ok tt

  -- The number of audiences, which is one for a claim that is not an array.
  abbrev pub audiences : Option j.Value → ℕ
  audiences none = 0
  audiences (some v) = elim (j.as_array v) [ some auds ↦ length auds | none ↦ 1 ]

  unfoldable pub check_azp : OAuth2Config → j.Value → AuthResult J (Unit {0})
  check_azp config claims =
      if ltb 1 (audiences (j.get "aud" claims))
        && not (is_string (config.client_id) (get_str j "azp" claims))
      then err (invalid J "azp mismatch")
      else ok tt

  abbrev pub nonce_or_default : Option String → String
  nonce_or_default none = ""
  nonce_or_default (some nonce) = nonce

  unfoldable pub check_nonce : Crypto → String → j.Value → AuthResult J (Unit {0})
  check_nonce c expected_nonce claims =
      if not (c.ct_eq (nonce_or_default (get_str j "nonce" claims)) expected_nonce)
      then err (invalid J "nonce mismatch")
      else ok tt

  unfoldable pub check_claims :
      Crypto → OAuth2Config → OidcSettings → String → j.Value → AuthResult J j.Value
  check_claims c config oidc expected_nonce claims = do
    check_issuer oidc claims
    check_azp config claims
    check_nonce c expected_nonce claims
    ok claims

module _ {j : Json} (J : Type 0) (c : Crypto) (x : JwtLibrary j) (config : OAuth2Config) where
  -- The key of the header in the cached set, or else in a set that is fetched again.
  unfoldable pub signing_key :
      Fetch x.Jwk → Fetch x.Jwk → Header → JwksCache x.Jwk → AuthResult J x.Jwk × JwksCache x.Jwk
  signing_key first second header cache =
      let looked = jwks J config false first cache in
      elim (looked.0) [
        | err e ↦ (err e, looked.1)
        | ok set ↦ elim (find_key x header set) [
          | some jwk ↦ (ok jwk, looked.1)
          | none ↦
              let again = jwks J config true second (looked.1) in
              elim (again.0) [
                | err e ↦ (err e, again.1)
                | ok rotated ↦ elim (find_key x header rotated) [
                  | some jwk ↦ (ok jwk, again.1)
                  | none ↦ (err (invalid J "no matching signing key"), again.1)
                ]
              ]
        ]
      ]

  unfoldable pub decode_with :
      OidcSettings → Header → String → String → x.Jwk → AuthResult J j.Value
  decode_with oidc header raw expected_nonce jwk = do
    key ← map_err (invalid J) (x.from_jwk jwk)
    claims ← map_err (invalid J) (x.decode raw key (validation_of config oidc header))
    check_claims j J c config oidc expected_nonce claims

  unfoldable pub check_header : String → AuthResult J Header
  check_header raw = do
    header ← map_err (invalid J) (x.decode_header raw)
    check_algorithm J header.alg
    ok header

  unfoldable pub verify_id_token :
      Fetch x.Jwk
      → Fetch x.Jwk
      → String
      → String
      → JwksCache x.Jwk
      → AuthResult J j.Value × JwksCache x.Jwk
  verify_id_token first second raw expected_nonce cache = elim (config.oidc) [
    | none ↦ (err (configuration "OIDC not configured"), cache)
    | some oidc ↦ elim (check_header raw) [
      | err e ↦ (err e, cache)
      | ok header ↦
          let keyed = signing_key first second header cache in
          (keyed.0 >>= λ jwk. decode_with oidc header raw expected_nonce jwk, keyed.1)
    ]
  ]
