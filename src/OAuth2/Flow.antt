-- ===== src/OAuth2/Flow.antt =====
-- The authorization code flow of `GenericOAuth2Provider` in src/oauth2.rs. The `oauth2` crate's
-- requests, the network and the random secrets are arguments.
use armature_auth.Prelude.{
  String, ℤ, not, List, Option, none, some, Result, ok, err, ◌>>=◌, ◌>>◌, ok_or, map_err,
  if◌then◌else◌,
}
use armature_auth.Error.{
  AuthResult, concat, authentication_failed, configuration, invalid_response, invalid_token,
  token_expired,
}
use armature_auth.Crypto.{Crypto}
use armature_auth.Json.{Json, get_str}
use armature_auth.OAuth2.{
  OAuth2Config, OAuth2Token, OAuth2UserInfo, OidcSettings, PendingAuth, StandardToken, check_state,
  from_standard, is_expired, pending_auth_max_age, wants_oidc,
}
use armature_auth.OAuth2.IdToken.{JwtLibrary, is_string, verify_id_token}
use armature_auth.OAuth2.Jwks.{Fetch, JwksCache, Response}

-- The settings of a provider that `new` accepts; the client of `oauth2` has no other data.
pub record GenericOAuth2Provider : Type 0 where
  pub name : String
  pub config : OAuth2Config

module _ (J : Type 0) where
  abbrev pub check_jwks_uri :
      (String → Result String (Unit {0})) → Option OidcSettings → AuthResult J (Unit {0})
  check_jwks_uri parse none = ok tt
  check_jwks_uri parse (some oidc) =
      map_err (λ e. configuration (concat "invalid jwks_uri: " e)) (parse oidc.jwks_uri)

  -- `parse` is the URL parser, with an error's message. The cache of the new provider is empty.
  unfoldable pub new :
      (String → Result String (Unit {0}))
      → String
      → OAuth2Config
      → AuthResult J GenericOAuth2Provider
  new parse name config = do
    map_err authentication_failed (parse config.auth_url)
    map_err authentication_failed (parse config.token_url)
    map_err authentication_failed (parse config.redirect_url)
    check_jwks_uri parse config.oidc
    ok (record { name = name; config = config })

-- What `authorization_url` draws: the CSRF token, the PKCE verifier and the nonce.
pub record Secrets : Type 0 where
  pub csrf : String
  pub pkce_verifier : String
  pub nonce : String

-- What is sent with the user: the URL is made of it by the `oauth2` crate.
pub record AuthRequest : Type 0 where
  pub csrf : String
  pub pkce_challenge_of : String
  pub scopes : List String
  pub nonce : Option String

unfoldable pub authorization_url : OAuth2Config → Secrets → ℤ → AuthRequest × PendingAuth
authorization_url config secrets now =
    let nonce = if wants_oidc config then some (secrets.nonce) else none in
    (
      record {
        csrf = secrets.csrf;
        pkce_challenge_of = secrets.pkce_verifier;
        scopes = config.scopes;
        nonce = nonce;
      },
      record {
        state = secrets.csrf;
        pkce_verifier = secrets.pkce_verifier;
        nonce = nonce;
        created_at = now;
      },
    )

-- `exchange_code(..).request_async(..)` at a code and a PKCE verifier.
abbrev pub TokenEndpoint : Type 0
TokenEndpoint = String → String → Result String StandardToken

module _ {j : Json} (J : Type 0) (c : Crypto) (x : JwtLibrary j) (config : OAuth2Config) where
  -- The checks before the request.
  unfoldable pub check_pending : ℤ → String → PendingAuth → AuthResult J (Unit {0})
  check_pending now returned_state pending = do
    check_state J c pending returned_state
    if is_expired now pending pending_auth_max_age then err token_expired else ok tt

  abbrev pub require_id_token : Option String → AuthResult J String
  require_id_token raw = ok_or raw (invalid_token "id_token missing from OIDC token response")

  -- The ID token of a response, for a request that carried a nonce.
  unfoldable pub verify_response :
      Fetch x.Jwk
      → Fetch x.Jwk
      → String
      → StandardToken
      → JwksCache x.Jwk
      → AuthResult J (OAuth2Token j) × JwksCache x.Jwk
  verify_response first second nonce token cache = elim (require_id_token (token.extra_id_token)) [
    | err e ↦ (err e, cache)
    | ok raw ↦
        let verified = verify_id_token J c x config first second raw nonce cache in
        (
          verified.0 >>= λ claims. ok (record (from_standard j token) {
            id_token = some raw;
            id_token_claims = some claims;
          }),
          verified.1,
        )
  ]

  -- The nonce, for a provider with OIDC.
  abbrev pub nonce_to_check : Option OidcSettings → Option String → Option String
  nonce_to_check none expected = none
  nonce_to_check (some _) expected = expected

  unfoldable pub exchange_code :
      TokenEndpoint
      → Fetch x.Jwk
      → Fetch x.Jwk
      → ℤ
      → String
      → String
      → PendingAuth
      → JwksCache x.Jwk
      → AuthResult J (OAuth2Token j) × JwksCache x.Jwk
  exchange_code endpoint first second now code returned_state pending cache =
      elim (check_pending now returned_state pending) [
        | err e ↦ (err e, cache)
        | ok _ ↦ elim (endpoint code (pending.pkce_verifier)) [
          | err e ↦ (err (authentication_failed (concat "Token exchange failed: " e)), cache)
          | ok token ↦ elim (nonce_to_check (config.oidc) (pending.nonce)) [
            | none ↦ (ok (from_standard j token), cache)
            | some nonce ↦ verify_response first second nonce token cache
          ]
        ]
      ]

module _ (j : Json) (J : Type 0) where
  abbrev pub check_subject : Option j.Value → OAuth2UserInfo j → AuthResult J (OAuth2UserInfo j)
  check_subject none user_info = ok user_info
  check_subject (some claims) user_info =
      if not (is_string j J user_info.sub (get_str j "sub" claims))
      then err (invalid_response "userinfo sub does not match id_token sub")
      else ok user_info

  abbrev pub read_user_info :
      OAuth2Token j → Response (OAuth2UserInfo j) → AuthResult J (OAuth2UserInfo j)
  read_user_info token response =
      if not response.is_success
      then err
          (authentication_failed (concat "User info request failed with status: " response.status))
      else elim (response.json) [
        | err e ↦ err (authentication_failed (concat "Failed to parse user info: " e))
        | ok user_info ↦ check_subject (token.id_token_claims) user_info
      ]

  -- `get` is the request at a URL with a bearer token.
  unfoldable pub get_user_info :
      OAuth2Config
      → (String → String → Result String (Response (OAuth2UserInfo j)))
      → OAuth2Token j
      → AuthResult J (OAuth2UserInfo j)
  get_user_info config get token = elim (config.user_info_url) [
    | none ↦ err (authentication_failed "No user info URL configured")
    | some url ↦ elim (get url (token.access_token)) [
      | err e ↦ err (authentication_failed (concat "User info request failed: " e))
      | ok response ↦ read_user_info token response
    ]
  ]

  unfoldable pub refresh_token :
      (String → Result String StandardToken) → String → AuthResult J (OAuth2Token j)
  refresh_token endpoint token = elim (endpoint token) [
    | err e ↦ err (authentication_failed (concat "Token refresh failed: " e))
    | ok response ↦ ok (from_standard j response)
  ]
