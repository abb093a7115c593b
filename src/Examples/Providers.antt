-- ===== src/Examples/Providers.antt =====
-- src/providers: one configuration of each kind, and two logins.
use mathlib.Core.Path.{Path}
use armature_auth.Prelude.{
  String, pos, ◌-ℤ◌, strip_prefix, true, false, List, [], ◌∷◌, none, some, Result, ok, ◌≡◌, ◌⊎◌,
  refl, all, any, map, Bool, err, All, codes,
}
use armature_auth.Password.{split}
use armature_auth.Json.{get_str}
use armature_auth.OAuth2.{
  OAuth2Token, OAuth2UserInfo, PendingAuth, OidcSettings, StandardToken, check_state, from_standard,
  is_expired,
}
use armature_auth.OAuth2.Flow
use armature_auth.OAuth2.Flow.{GenericOAuth2Provider, check_pending, verify_response, exchange_code}
use armature_auth.OAuth2.IdToken.{
  JwtLibrary, rs256, check_algorithm, check_azp, check_claims, check_header, check_issuer,
  check_nonce, decode_with, find_key, is_templated, signing_key, verify_id_token,
}
use armature_auth.OAuth2.Jwks.{Fetch, Response, jwks}
use armature_auth.Providers.Hostname.{is_label, validate_hostname}
use armature_auth.Providers.Cognito
use armature_auth.Providers.Entra
use armature_auth.Providers.Authority.{is_host_char}
use armature_auth.Providers.Endpoints.{IsOn}
use armature_auth.Providers.Pool.{KeysAreOn, cognito_endpoints, pool_host, user_endpoints}
use armature_auth.Providers.Tenant.{HasIssuer, IsFor, entra_endpoints, tenant_endpoints}
use armature_auth.Providers.Identity.{IsIdentityOf, exchange_code-get_user_info}
use armature_auth.Providers.Social.{GitHubEmail, GitHubUser, choose_email, get_github_user}
use armature_auth.Providers.Emails.{IsChosen, get_github_user-eq-ok}
use armature_auth.Samples.{Value, claims, crypto, json}

abbrev parse : String → Result String (Unit {0})
parse s = ok tt

abbrev debug : String → String
debug s = s

abbrev is_accepted : String → Bool
is_accepted host = elim (validate_hostname String debug "domain" host) [
  | ok _ ↦ true
  | err _ ↦ false
]

-- The names of the unit test in src/providers/mod.rs.
hostname_test :
    map is_accepted ("dev-123.okta.com" ∷ "myapp.us.auth0.com" ∷ "localhost" ∷ "a.b-c.d" ∷ [])
    ≡ true ∷ true ∷ true ∷ true ∷ []
unfolding validate_hostname is_label split
hostname_test = refl

bad_hostname_test :
    any is_accepted (
      "" ∷ "evil.com/x" ∷ "a@b" ∷ "user@evil.com" ∷ "https://x" ∷ "x.com:8443" ∷ "x.com?y"
      ∷ "x.com#y" ∷ " x.com" ∷ "x .com" ∷ "x..com" ∷ "-x.com" ∷ "x.com." ∷ "x.com\\@evil" ∷ [])
    ≡ false
unfolding validate_hostname is_label split
bad_hostname_test = refl

abbrev cognito : Cognito.AwsCognitoConfig
cognito =
    Cognito.with_user_pool_id
      (Cognito.new_config "client" "s" "https://r" "my.amazoncognito.com" "us-east-1")
      "us-east-1_Ab"

abbrev cognito_provider : Cognito.AwsCognitoProvider
cognito_provider = record {
  inner = record { name = "aws-cognito"; config = Cognito.oauth2_config cognito };
}

cognito_endpoints_example :
    (all is_host_char (codes "my.amazoncognito.com") ≡ true)
    × All (IsOn "my.amazoncognito.com") (user_endpoints cognito_provider.inner.config)
    × KeysAreOn (pool_host "us-east-1") cognito_provider.inner.config.oidc
unfolding Cognito.new validate_hostname is_label split Flow.new Cognito.oauth2_config
cognito_endpoints_example = cognito_endpoints String parse debug cognito cognito_provider refl

abbrev entra : Entra.MicrosoftEntraConfig
entra = Entra.common "client" "s" "https://r"

abbrev entra_provider : Entra.MicrosoftEntraProvider
entra_provider = record {
  inner = record { name = "microsoft-entra"; config = Entra.oauth2_config entra };
}

entra_endpoints_example :
    All (IsFor "common") (tenant_endpoints entra_provider.inner.config)
    × HasIssuer "common" entra_provider.inner.config.oidc
unfolding Entra.new validate_hostname is_label split Flow.new Entra.oauth2_config
entra_endpoints_example = entra_endpoints String parse debug entra entra_provider refl

-- A tenant that is pinned by its GUID.
abbrev pinned : Entra.MicrosoftEntraProvider
pinned = record {
  inner = record {
    name = "microsoft-entra";
    config =
        Entra.oauth2_config
          (Entra.new_config "client" "s" "https://r" "72f988bf-86f1-41af-91ab-2d7cd011db47");
  };
}

-- A library for which each token has one header, and the claims of Ana with a nonce.
abbrev library : JwtLibrary json
library = record {
  Jwk = String;
  Key = String;
  find = λ kid set. some kid;
  decode_header = λ raw. ok (record { alg = rs256; kid = some "k1" });
  from_jwk = λ jwk. ok jwk;
  decode = λ raw key v. ok (claims "ana" "n" []);
}

abbrev fetch : Fetch String
fetch = record {
  at_read = 70;
  at_write = 71;
  answer = λ url. ok (record { is_success = true; status = "200"; json = ok ("k1" ∷ []) });
}

abbrev answer : StandardToken
answer = record {
  access_token = "at";
  token_type = "bearer";
  expires_in = none;
  refresh_token = none;
  scopes = none;
  extra_id_token = some "h.p.s";
}

abbrev token : OAuth2Token json
token = record {
  access_token = "at";
  token_type = "bearer";
  expires_in = none;
  refresh_token = none;
  scope = none;
  id_token = some "h.p.s";
  id_token_claims = some (claims "ana" "n" []);
}

abbrev pending : PendingAuth
pending = record { state = "st"; pkce_verifier = "v"; nonce = some "n"; created_at = pos 100 }

-- Graph reports another user under the same token.
abbrev graph : Entra.GraphUser json
graph = record {
  id = "g";
  mail = some "admin@x";
  user_principal_name = none;
  display_name = some "Admin";
  additional = [];
}

abbrev graph_answer : String → String → Result String (Response (Entra.GraphUser json))
graph_answer url bearer = ok (record { is_success = true; status = "200"; json = ok graph })

abbrev microsoft_user : OAuth2UserInfo json
microsoft_user = record {
  sub = "tenant:ana";
  email = some "admin@x";
  name = some "Admin";
  given_name = none;
  family_name = none;
  picture = none;
  email_verified = some false;
  additional = Entra.with_identity json String "tenant" "ana" "g" [];
}

abbrev oidc : OidcSettings
oidc = record {
  issuer = "https://login.microsoftonline.com/72f988bf-86f1-41af-91ab-2d7cd011db47/v2.0";
  jwks_uri =
      "https://login.microsoftonline.com/72f988bf-86f1-41af-91ab-2d7cd011db47/discovery/v2.0/keys";
}

pinned_settings : pinned.inner.config.oidc ≡ some oidc
unfolding Entra.oauth2_config Entra.issuer_of Entra.is_guid
pinned_settings = refl

exchanged :
    (exchange_code String crypto library pinned.inner.config
      (λ code verifier. ok answer)
      fetch
      fetch
      (pos 160)
      "c"
      "st"
      pending
      none).0
    ≡ ok token
unfolding exchange_code check_pending check_state is_expired ◌-ℤ◌ verify_response from_standard
    verify_id_token check_header check_algorithm signing_key jwks find_key decode_with check_claims
    check_issuer is_templated strip_prefix check_azp get_str check_nonce Entra.oauth2_config
    Entra.issuer_of Entra.is_guid
exchanged = refl

fetched : Entra.get_user_info json String pinned graph_answer token ≡ ok microsoft_user
unfolding Entra.get_user_info Entra.user_info_from Entra.claim get_str Entra.oauth2_config
fetched = refl

exchange_code-get_user_info_example :
    (raw : String) × (found : Value) × ((verify_id_token String crypto library pinned.inner.config
        fetch fetch raw "n" none).0
      ≡ ok found)
    × IsIdentityOf json String found microsoft_user
exchange_code-get_user_info_example =
    exchange_code-get_user_info String crypto library pinned (λ code verifier. ok answer) fetch
      fetch (pos 160) "c" "st" pending none token graph_answer microsoft_user oidc "n" exchanged
      fetched pinned_settings refl

-- A profile without an address, and no address that is both primary and verified.
abbrev github_profile : GitHubUser
github_profile = record {
  id = 1;
  login = "ana";
  name = none;
  email = none;
  avatar_url = none;
  bio = none;
  company = none;
  location = none;
}

abbrev unverified : GitHubEmail
unverified = record { email = "x@y"; primary = false; verified = false }

get_github_user-eq-ok_example :
    (profile : GitHubUser) × (Path
      (Result String (Result String GitHubUser))
      (ok (ok github_profile))
      (ok (ok profile)))
    × (((email : String) × (profile.email ≡ some email)
          × (record github_profile { email = some "x@y" } ≡ profile))
        ⊎ ((emails : List GitHubEmail) × (profile.email ≡ none)
            × Path
                (Result String (Result String (List GitHubEmail)))
                (ok (ok (unverified ∷ [])))
                (ok (ok emails))
            × IsChosen emails (some "x@y")))
unfolding get_github_user choose_email
get_github_user-eq-ok_example =
    get_github_user-eq-ok String (λ url headers. ok (ok github_profile))
      (λ url headers. ok (ok (unverified ∷ []))) "t" (record github_profile { email = some "x@y" })
      refl
