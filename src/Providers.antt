-- ===== src/Providers.antt =====
-- src/providers/mod.rs and the trait `OAuth2Provider` of src/oauth2.rs: what the providers share. The
-- network, the random secrets and the cache of keys are arguments of the operations.
pub mod Hostname
pub mod Google
pub mod Auth0
pub mod Okta
pub mod Cognito
pub mod Entra
pub mod Social
pub mod Authority
pub mod Endpoints
pub mod Pool
pub mod Tenant
pub mod Identity
pub mod Emails
use armature_auth.Prelude.{String, ℤ, List, [], ◌∷◌, Result}
use armature_auth.Error.{AuthResult}
use armature_auth.Crypto.{Crypto}
use armature_auth.Json.{Json}
use armature_auth.OAuth2.{OAuth2Token, OAuth2UserInfo, PendingAuth, StandardToken}
use armature_auth.OAuth2.IdToken.{JwtLibrary}
use armature_auth.OAuth2.Jwks.{Fetch, JwksCache, Response}
use armature_auth.OAuth2.Flow.{
  AuthRequest, GenericOAuth2Provider, Secrets, TokenEndpoint, authorization_url, exchange_code,
  get_user_info, refresh_token,
}

-- A request's URL: what the `oauth2` crate makes it of, and the query pairs appended to it.
abbrev pub AuthorizationUrl : Type 0
AuthorizationUrl = AuthRequest × List (String × String)

-- `Body` is what the userinfo answer is read as.
pub record OAuth2Provider {j : Json} (J : Type 0) (x : JwtLibrary j) (Body : Type 0) : Type 0 where
  pub name : String
  pub authorization_url : Secrets → ℤ → AuthorizationUrl × PendingAuth
  pub exchange_code :
      TokenEndpoint
      → Fetch x.Jwk
      → Fetch x.Jwk
      → ℤ
      → String
      → String
      → PendingAuth
      → JwksCache x.Jwk
      → AuthResult J (OAuth2Token j) × JwksCache x.Jwk
  pub get_user_info :
      (String → String → Result String (Response Body))
      → OAuth2Token j
      → AuthResult J (OAuth2UserInfo j)
  pub refresh_token : (String → Result String StandardToken) → String → AuthResult J (OAuth2Token j)

module _ {j : Json} (J : Type 0) (c : Crypto) (x : JwtLibrary j) where
  -- Every operation is that of the inner provider.
  abbrev pub delegate : GenericOAuth2Provider → OAuth2Provider J x (OAuth2UserInfo j)
  delegate inner = record {
    name = inner.name;
    authorization_url =
        λ secrets now. let out = authorization_url inner.config secrets now in ((out.0, []), out.1);
    exchange_code = exchange_code J c x inner.config;
    get_user_info = get_user_info j J inner.config;
    refresh_token = refresh_token j J;
  }

-- The scopes that the configurations of OIDC providers start with.
abbrev pub default_scopes : List String
default_scopes = "openid" ∷ "email" ∷ "profile" ∷ []
