-- ===== src/Providers/Auth0.antt =====
-- src/providers/auth0.rs.
use armature_auth.Prelude.{String, List, Result, [], ◌∷◌, Option, none, some, ok, ◌>>=◌, ◌>>◌}
use armature_auth.Error.{AuthResult}
use armature_auth.Crypto.{Crypto}
use armature_auth.Json.{Json}
use armature_auth.OAuth2
use armature_auth.OAuth2.{OAuth2Config, OAuth2UserInfo, with_oidc, with_user_info_url}
use armature_auth.OAuth2.Flow
use armature_auth.OAuth2.Flow.{GenericOAuth2Provider}
use armature_auth.OAuth2.IdToken.{JwtLibrary}
use armature_auth.Providers.{OAuth2Provider, default_scopes, delegate}
use armature_auth.Providers.Hostname.{on_domain, validate_hostname}

pub record Auth0Config : Type 0 where
  pub client_id : String
  pub client_secret : String
  pub redirect_url : String
  pub domain : String
  pub scopes : List String
  pub audience : Option String

abbrev pub new_config : String → String → String → String → Auth0Config
new_config client_id client_secret redirect_url domain = record {
  client_id = client_id;
  client_secret = client_secret;
  redirect_url = redirect_url;
  domain = domain;
  scopes = default_scopes;
  audience = none;
}

abbrev pub with_scopes : Auth0Config → List String → Auth0Config
with_scopes config scopes = record config { scopes = scopes }

abbrev pub with_audience : Auth0Config → String → Auth0Config
with_audience config audience = record config { audience = some audience }

pub record Auth0Provider : Type 0 where
  pub inner : GenericOAuth2Provider
  pub audience : Option String

unfoldable pub oauth2_config : Auth0Config → OAuth2Config
oauth2_config config =
    with_oidc
      (with_user_info_url
        (OAuth2.with_scopes
          (OAuth2.new_config config.client_id config.client_secret
            (on_domain config.domain "/authorize") (on_domain config.domain "/oauth/token")
            config.redirect_url)
          config.scopes)
        (on_domain config.domain "/userinfo"))
      (on_domain config.domain "/") (on_domain config.domain "/.well-known/jwks.json")

abbrev pub audience_pair : Option String → List (String × String)
audience_pair none = []
audience_pair (some audience) = ("audience", audience) ∷ []

module _ (J : Type 0) where
  unfoldable pub new :
      (String → Result String (Unit {0}))
      → (String → String)
      → Auth0Config
      → AuthResult J Auth0Provider
  unfolding oauth2_config
  new parse debug config = do
    validate_hostname J debug "Auth0 domain" config.domain
    inner ← Flow.new J parse "auth0" (oauth2_config config)
    ok (record { inner = inner; audience = config.audience })

  -- The audience is appended to the URL, if there is one.
  abbrev pub provider :
      {j : Json}
      → Crypto
      → (x : JwtLibrary j) → Auth0Provider
      → OAuth2Provider J x (OAuth2UserInfo j)
  provider c x p = record (delegate J c x p.inner) {
    authorization_url = λ secrets now.
        let out = Flow.authorization_url p.inner.config secrets now in
        ((out.0, audience_pair p.audience), out.1);
  }
