-- ===== src/Providers/Okta.antt =====
-- src/providers/okta.rs.
use armature_auth.Prelude.{String, List, Result, ok, ◌>>=◌, ◌>>◌}
use armature_auth.Error.{AuthResult, concat}
use armature_auth.Crypto.{Crypto}
use armature_auth.Json.{Json}
use armature_auth.OAuth2
use armature_auth.OAuth2.{OAuth2Config, OAuth2UserInfo, with_oidc, with_user_info_url}
use armature_auth.OAuth2.Flow
use armature_auth.OAuth2.Flow.{GenericOAuth2Provider}
use armature_auth.OAuth2.IdToken.{JwtLibrary}
use armature_auth.Providers.{OAuth2Provider, default_scopes, delegate}
use armature_auth.Providers.Hostname.{on_domain, validate_hostname}

pub record OktaConfig : Type 0 where
  pub client_id : String
  pub client_secret : String
  pub redirect_url : String
  pub domain : String
  pub scopes : List String

abbrev pub new_config : String → String → String → String → OktaConfig
new_config client_id client_secret redirect_url domain = record {
  client_id = client_id;
  client_secret = client_secret;
  redirect_url = redirect_url;
  domain = domain;
  scopes = default_scopes;
}

abbrev pub with_scopes : OktaConfig → List String → OktaConfig
with_scopes config scopes = record config { scopes = scopes }

pub record OktaProvider : Type 0 where
  pub inner : GenericOAuth2Provider

unfoldable pub oauth2_config : OktaConfig → OAuth2Config
oauth2_config config =
    with_oidc
      (with_user_info_url
        (OAuth2.with_scopes
          (OAuth2.new_config config.client_id config.client_secret
            (on_domain config.domain "/oauth2/v1/authorize")
            (on_domain config.domain "/oauth2/v1/token") config.redirect_url)
          config.scopes)
        (on_domain config.domain "/oauth2/v1/userinfo"))
      (concat "https://" config.domain) (on_domain config.domain "/oauth2/v1/keys")

module _ (J : Type 0) where
  unfoldable pub new :
      (String → Result String (Unit {0}))
      → (String → String)
      → OktaConfig
      → AuthResult J OktaProvider
  unfolding oauth2_config
  new parse debug config = do
    validate_hostname J debug "Okta domain" config.domain
    inner ← Flow.new J parse "okta" (oauth2_config config)
    ok (record { inner = inner })

  abbrev pub provider :
      {j : Json}
      → Crypto
      → (x : JwtLibrary j) → OktaProvider
      → OAuth2Provider J x (OAuth2UserInfo j)
  provider c x p = delegate J c x p.inner
