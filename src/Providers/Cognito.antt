-- ===== src/Providers/Cognito.antt =====
-- src/providers/aws_cognito.rs.
use armature_auth.Prelude.{
  String, List, Result, Bool, not, ◌||◌, ◌==◌, codes, Text, all, is_empty, Option, none, some, ok,
  err, ◌>>=◌, ◌>>◌, if◌then◌else◌,
}
use armature_auth.Error.{AuthResult, concat, configuration}
use armature_auth.Crypto.{Crypto}
use armature_auth.Json.{Json}
use armature_auth.OAuth2
use armature_auth.OAuth2.{OAuth2Config, OAuth2UserInfo, with_oidc, with_user_info_url}
use armature_auth.OAuth2.Flow
use armature_auth.OAuth2.Flow.{GenericOAuth2Provider}
use armature_auth.OAuth2.IdToken.{JwtLibrary}
use armature_auth.Providers.{OAuth2Provider, default_scopes, delegate}
use armature_auth.Providers.Hostname.{
  on_domain, validate_hostname, is_ascii_alphanumeric, is_ascii_digit, is_ascii_lowercase,
}

pub record AwsCognitoConfig : Type 0 where
  pub client_id : String
  pub client_secret : String
  pub redirect_url : String
  pub user_pool_domain : String
  pub region : String
  pub scopes : List String
  pub user_pool_id : Option String

abbrev pub new_config : String → String → String → String → String → AwsCognitoConfig
new_config client_id client_secret redirect_url user_pool_domain region = record {
  client_id = client_id;
  client_secret = client_secret;
  redirect_url = redirect_url;
  user_pool_domain = user_pool_domain;
  region = region;
  scopes = default_scopes;
  user_pool_id = none;
}

abbrev pub with_user_pool_id : AwsCognitoConfig → String → AwsCognitoConfig
with_user_pool_id config user_pool_id = record config { user_pool_id = some user_pool_id }

abbrev pub with_scopes : AwsCognitoConfig → List String → AwsCognitoConfig
with_scopes config scopes = record config { scopes = scopes }

pub record AwsCognitoProvider : Type 0 where
  pub inner : GenericOAuth2Provider

abbrev pub is_region_name : Text → Bool
is_region_name s = all (λ ch. is_ascii_lowercase ch || is_ascii_digit ch || ch == b'-') s

abbrev pub is_pool_id : Text → Bool
is_pool_id s = all (λ ch. is_ascii_alphanumeric ch || ch == b'_' || ch == b'-') s

abbrev pub pool_issuer : String → String → String
pool_issuer region pool =
    concat "https://cognito-idp." (concat region (concat ".amazonaws.com/" pool))

-- ID tokens are verified only for a known user pool.
abbrev pub with_pool : String → Option String → OAuth2Config → OAuth2Config
with_pool region none config = config
with_pool region (some pool) config =
    with_oidc config (pool_issuer region pool)
      (concat (pool_issuer region pool) "/.well-known/jwks.json")

unfoldable pub oauth2_config : AwsCognitoConfig → OAuth2Config
oauth2_config config = with_pool config.region config.user_pool_id (
    with_user_info_url
      (OAuth2.with_scopes
        (OAuth2.new_config config.client_id config.client_secret
          (on_domain config.user_pool_domain "/oauth2/authorize")
          (on_domain config.user_pool_domain "/oauth2/token") config.redirect_url)
        config.scopes)
      (on_domain config.user_pool_domain "/oauth2/userInfo"))

module _ (J : Type 0) (debug : String → String) where
  abbrev pub check_region : String → AuthResult J (Unit {0})
  check_region region =
      if is_empty (codes region) || not (is_region_name (codes region))
      then err (configuration (concat "invalid AWS region " (debug region)))
      else ok tt

  abbrev pub check_pool : Option String → AuthResult J (Unit {0})
  check_pool none = ok tt
  check_pool (some pool) =
      if is_empty (codes pool) || not (is_pool_id (codes pool))
      then err (configuration (concat "invalid Cognito user pool id " (debug pool)))
      else ok tt

  unfoldable pub new :
      (String → Result String (Unit {0})) → AwsCognitoConfig → AuthResult J AwsCognitoProvider
  unfolding oauth2_config
  new parse config = do
    validate_hostname J debug "Cognito user pool domain" config.user_pool_domain
    check_region config.region
    check_pool config.user_pool_id
    inner ← Flow.new J parse "aws-cognito" (oauth2_config config)
    ok (record { inner = inner })

module _ {j : Json} (J : Type 0) (c : Crypto) (x : JwtLibrary j) where
  abbrev pub provider : AwsCognitoProvider → OAuth2Provider J x (OAuth2UserInfo j)
  provider p = delegate J c x p.inner
