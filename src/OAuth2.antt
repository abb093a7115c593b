-- ===== src/OAuth2.antt =====
-- src/oauth2.rs: the data of the authorization code flow and its settings. Token secrets are texts,
-- timestamps are seconds, and instants of the monotonic clock are nanoseconds.
pub mod Jwks
pub mod IdToken
pub mod Flow
pub mod Cache
pub mod Template
pub mod Verified
pub mod Claims
pub mod Exchange
use mathlib.Core.Option
use armature_auth.Prelude.{
  String, ℕ, ◌*◌, ℤ, pos, negsuc, ◌-ℤ◌, Bool, true, false, ◌&&◌, ltb, List, [], ◌∷◌, Option, none,
  some, Result, ok, err, if◌then◌else◌, any, str_eq,
}
use armature_auth.Error.{AuthResult, concat, invalid_token}
use armature_auth.Crypto.{Crypto}
use armature_auth.Json.{Json}

-- Seconds; the two intervals of the key cache are in nanoseconds.
abbrev pub pending_auth_max_age : ℕ
pending_auth_max_age = 10 * 60

abbrev pub id_token_leeway_secs : ℕ
id_token_leeway_secs = 60

abbrev pub jwks_ttl : ℕ
jwks_ttl = 60 * 60 * 1000000000

abbrev pub jwks_min_refetch : ℕ
jwks_min_refetch = 60 * 1000000000

pub record PendingAuth : Type 0 where
  pub state : String
  pub pkce_verifier : String
  pub nonce : Option String
  pub created_at : ℤ

-- `age < 0 || age as u64 > max_age.as_secs()`, of the age in seconds.
abbrev pub is_too_old : ℕ → ℤ → Bool
is_too_old max_age (pos age) = ltb max_age age
is_too_old max_age (negsuc _) = true

unfoldable pub is_expired : ℤ → PendingAuth → ℕ → Bool
is_expired now pending max_age = is_too_old max_age (now -ℤ pending.created_at)

module _ (J : Type 0) (c : Crypto) where
  unfoldable pub check_state : PendingAuth → String → AuthResult J (Unit {0})
  check_state pending returned_state =
      if c.ct_eq (pending.state) returned_state
      then ok tt
      else err (invalid_token "OAuth2 state mismatch (possible CSRF)")

pub record OAuth2Token (j : Json) : Type 0 where
  pub access_token : String
  pub token_type : String
  pub expires_in : Option ℕ
  pub refresh_token : Option String
  pub scope : Option String
  pub id_token : Option String
  pub id_token_claims : Option j.Value

-- What the code reads of the `oauth2` crate's token response.
pub record StandardToken : Type 0 where
  pub access_token : String
  pub token_type : String
  pub expires_in : Option ℕ
  pub refresh_token : Option String
  pub scopes : Option (List String)
  pub extra_id_token : Option String

-- `join(" ")`.
abbrev pub join : List String → String
join [] = ""
join (s ∷ []) = s
join (s ∷ t ∷ scopes) = concat s (concat " " (join (t ∷ scopes)))

-- `From`: the ID token is not copied.
unfoldable pub from_standard : (j : Json) → StandardToken → OAuth2Token j
from_standard j token = record {
  access_token = token.access_token;
  token_type = token.token_type;
  expires_in = token.expires_in;
  refresh_token = token.refresh_token;
  scope = Option.map join token.scopes;
  id_token = none;
  id_token_claims = none;
}

pub record OAuth2UserInfo (j : Json) : Type 0 where
  pub sub : String
  pub email : Option String
  pub name : Option String
  pub given_name : Option String
  pub family_name : Option String
  pub picture : Option String
  pub email_verified : Option Bool
  pub additional : List (String × j.Value)

pub record OidcSettings : Type 0 where
  pub issuer : String
  pub jwks_uri : String

pub record OAuth2Config : Type 0 where
  pub client_id : String
  pub client_secret : String
  pub auth_url : String
  pub token_url : String
  pub redirect_url : String
  pub scopes : List String
  pub user_info_url : Option String
  pub oidc : Option OidcSettings

abbrev pub new_config : String → String → String → String → String → OAuth2Config
new_config client_id client_secret auth_url token_url redirect_url = record {
  client_id = client_id;
  client_secret = client_secret;
  auth_url = auth_url;
  token_url = token_url;
  redirect_url = redirect_url;
  scopes = [];
  user_info_url = none;
  oidc = none;
}

abbrev pub with_scopes : OAuth2Config → List String → OAuth2Config
with_scopes config scopes = record config { scopes = scopes }

abbrev pub with_user_info_url : OAuth2Config → String → OAuth2Config
with_user_info_url config url = record config { user_info_url = some url }

abbrev pub with_oidc : OAuth2Config → String → String → OAuth2Config
with_oidc config issuer jwks_uri = record config {
  oidc = some (record { issuer = issuer; jwks_uri = jwks_uri });
}

abbrev pub is_configured : {A : Type 0} → Option A → Bool
is_configured none = false
is_configured (some _) = true

unfoldable pub wants_oidc : OAuth2Config → Bool
wants_oidc config = is_configured config.oidc && any (λ s. str_eq s "openid") config.scopes
