-- ===== src/Providers/Google.antt =====
-- src/providers/google.rs.
use armature_auth.Prelude.{String, List, Result, ok, ◌>>=◌}
use armature_auth.Error.{AuthResult}
use armature_auth.Crypto.{Crypto}
use armature_auth.Json.{Json}
use armature_auth.OAuth2
use armature_auth.OAuth2.{OAuth2Config, OAuth2UserInfo, with_oidc, with_user_info_url}
use armature_auth.OAuth2.Flow
use armature_auth.OAuth2.Flow.{GenericOAuth2Provider}
use armature_auth.OAuth2.IdToken.{JwtLibrary}
use armature_auth.Providers.{OAuth2Provider, default_scopes, delegate}

pub record GoogleConfig : Type 0 where
  pub client_id : String
  pub client_secret : String
  pub redirect_url : String
  pub scopes : List String

abbrev pub new_config : String → String → String → GoogleConfig
new_config client_id client_secret redirect_url = record {
  client_id = client_id;
  client_secret = client_secret;
  redirect_url = redirect_url;
  scopes = default_scopes;
}

abbrev pub with_scopes : GoogleConfig → List String → GoogleConfig
with_scopes config scopes = record config { scopes = scopes }

pub record GoogleProvider : Type 0 where
  pub inner : GenericOAuth2Provider

unfoldable pub oauth2_config : GoogleConfig → OAuth2Config
oauth2_config config =
    with_oidc
      (with_user_info_url
        (OAuth2.with_scopes
          (OAuth2.new_config config.client_id config.client_secret
            "https://accounts.google.com/o/oauth2/v2/auth" "https://oauth2.googleapis.com/token"
            config.redirect_url)
          config.scopes)
        "https://openidconnect.googleapis.com/v1/userinfo")
      "https://accounts.google.com" "https://www.googleapis.com/oauth2/v3/certs"

unfoldable pub new :
    (J : Type 0) → (String → Result String (Unit {0})) → GoogleConfig → AuthResult J GoogleProvider
unfolding oauth2_config
new J parse config =
    Flow.new J parse "google" (oauth2_config config) >>= λ inner. ok (record { inner = inner })

abbrev pub provider :
    {j : Json}
    → (J : Type 0) → Crypto
    → (x : JwtLibrary j) → GoogleProvider
    → OAuth2Provider J x (OAuth2UserInfo j)
provider J c x p = delegate J c x p.inner
