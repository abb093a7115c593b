-- ===== src/Providers/Pool.antt =====
-- src/providers/aws_cognito.rs: where a provider that `new` accepts sends requests.
use mathlib.Core.List.{append_assoc}
use armature_auth.Prelude.{
  String, Text, codes, Bool, true, ◌≡◌, refl, sym, ap, ◌∙◌, inl, inr, List, [], ◌∷◌, ◌++◌, Option,
  none, some, Result, ok, >>=-eq-ok, ok-injective, All, all, is_empty, arith, Bool-cases,
}
use armature_auth.Error.{concat}
use armature_auth.OAuth2.{OAuth2Config, OidcSettings}
use armature_auth.OAuth2.Flow
use armature_auth.OAuth2.Flow.{GenericOAuth2Provider, check_jwks_uri}
use armature_auth.Providers.Hostname.{validate_hostname}
use armature_auth.Providers.Authority.{
  authority_of-text, authority_of-https, codes-concat, is_host_char, validate_hostname-eq-ok,
}
use armature_auth.Providers.Cognito
use armature_auth.Providers.Endpoints.{IsOn, as_urls, new-eq-ok}

-- The host of the keys of a user pool.
abbrev pub pool_host : String → String
pool_host region = concat "cognito-idp." (concat region ".amazonaws.com")

all-++ :
    {A : Type 0} (q : A → Bool) (xs ys : List A)
    → all q xs ≡ true
    → all q ys ≡ true
    → all q (xs ++ ys) ≡ true
all-++ q [] ys h k = k
all-++ q (x ∷ xs) ys h k = ground (arith, all-++ q xs ys)

region-IsHost :
    (region : Text) → Cognito.is_region_name region ≡ true → all is_host_char region ≡ true
region-IsHost [] h = refl
region-IsHost (ch ∷ region) h = ground (arith, region-IsHost region)

pool_host-IsHost :
    (region : String)
    → Cognito.is_region_name (codes region) ≡ true
    → all is_host_char (codes (pool_host region)) ≡ true
pool_host-IsHost region h =
    rw
      (
        codes-concat "cognito-idp." (concat region ".amazonaws.com"),
        codes-concat region ".amazonaws.com",
      )
      (all-++ is_host_char (codes "cognito-idp.") (codes region ++ codes ".amazonaws.com") refl (
        all-++ is_host_char (codes region) (codes ".amazonaws.com") (region-IsHost (codes region) h)
          refl))

pool_keys_IsOn :
    (region pool : String)
    → Cognito.is_region_name (codes region) ≡ true
    → IsOn (pool_host region) (concat (Cognito.pool_issuer region pool) "/.well-known/jwks.json")
pool_keys_IsOn region pool h =
    authority_of-text _ (codes (pool_host region)) (codes pool ++ codes "/.well-known/jwks.json")
      (rw
        (
          codes-concat (Cognito.pool_issuer region pool) "/.well-known/jwks.json",
          codes-concat "https://cognito-idp." (concat region (concat ".amazonaws.com/" pool)),
          codes-concat region (concat ".amazonaws.com/" pool),
          codes-concat ".amazonaws.com/" pool,
          codes-concat "cognito-idp." (concat region ".amazonaws.com"),
          codes-concat region ".amazonaws.com",
        )
        (ap (λ s. codes "https://cognito-idp." ++ s)
          (append_assoc (codes region) (codes ".amazonaws.com/" ++ codes pool)
              (codes "/.well-known/jwks.json")
            ∙ sym (
                append_assoc (codes region) (codes ".amazonaws.com")
                  (b'/' ∷ (codes pool ++ codes "/.well-known/jwks.json"))))))
      (pool_host-IsHost region h)

-- Where keys are fetched, if there is OpenID Connect.
abbrev pub KeysAreOn : String → Option OidcSettings → Type 0
KeysAreOn host none = Unit
KeysAreOn host (some oidc) = IsOn host oidc.jwks_uri

-- The endpoints but for the keys.
abbrev pub user_endpoints : OAuth2Config → List String
user_endpoints config = config.auth_url ∷ config.token_url ∷ as_urls config.user_info_url

with_pool_endpoints :
    (host region : String) (o : Option String) (base : OAuth2Config)
    → base.oidc ≡ none
    → All (IsOn host) (user_endpoints base)
    → Cognito.is_region_name (codes region) ≡ true
    → All (IsOn host) (user_endpoints (Cognito.with_pool region o base))
      × KeysAreOn (pool_host region) (Cognito.with_pool region o base).oidc
with_pool_endpoints host region none base e on h = (on, rw e tt)
with_pool_endpoints host region (some pool) base e on h = (on, pool_keys_IsOn region pool h)

cognito_config_endpoints :
    (config : Cognito.AwsCognitoConfig)
    → all is_host_char (codes config.user_pool_domain) ≡ true
    → Cognito.is_region_name (codes config.region) ≡ true
    → All (IsOn config.user_pool_domain) (user_endpoints (Cognito.oauth2_config config))
      × KeysAreOn (pool_host config.region) (Cognito.oauth2_config config).oidc
unfolding Cognito.oauth2_config
cognito_config_endpoints config host region =
    with_pool_endpoints config.user_pool_domain config.region config.user_pool_id _ refl
      (
        authority_of-https config.user_pool_domain "/oauth2/authorize" _ refl host,
        (
          authority_of-https config.user_pool_domain "/oauth2/token" _ refl host,
          (authority_of-https config.user_pool_domain "/oauth2/userInfo" _ refl host, tt),
        ),
      )
      region

module _ (J : Type 0) (parse : String → Result String (Unit {0})) (debug : String → String) where
  check_region-eq-ok :
      (region : String)
      → Cognito.check_region J debug region ≡ ok tt
      → Cognito.is_region_name (codes region) ≡ true
  check_region-eq-ok region h = elim (Bool-cases (Cognito.is_region_name (codes region))) [
    | inl e ↦ e
    | inr e ↦ elim (Bool-cases (is_empty (codes region))) [
      | inl f ↦ (let stop = rw (Cognito.check_region, f) at h in cc)
      | inr f ↦ (let stop = rw (Cognito.check_region, f, e) at h in cc)
    ]
  ]

  -- An AWS Cognito provider that is accepted sends users, codes and tokens to the configured domain,
  -- which has neither user information nor a port, and fetches keys, if it has a user pool, only from
  -- the host of the configured region.
  pub cognito_endpoints :
      (config : Cognito.AwsCognitoConfig) (p : Cognito.AwsCognitoProvider)
      → Cognito.new J debug parse config ≡ ok p
      → (all is_host_char (codes config.user_pool_domain) ≡ true)
        × All (IsOn config.user_pool_domain) (user_endpoints p.inner.config)
        × KeysAreOn (pool_host config.region) p.inner.config.oidc
  unfolding Cognito.new
  cognito_endpoints config p h =
      let (u, valid, h1) =
        >>=-eq-ok (validate_hostname J debug "Cognito user pool domain" config.user_pool_domain) _
          h in
      let (v, region, h2) = >>=-eq-ok (Cognito.check_region J debug config.region) _ h1 in
      let (w, pool, h3) = >>=-eq-ok (Cognito.check_pool J debug config.user_pool_id) _ h2 in
      let (inner, made, out) =
        >>=-eq-ok (Flow.new J parse "aws-cognito" (Cognito.oauth2_config config)) _ h3 in
      let host =
        validate_hostname-eq-ok J debug "Cognito user pool domain" config.user_pool_domain valid in
      let same =
        ap (λ q. q.inner.config) (sym (ok-injective out))
        ∙ new-eq-ok J parse "aws-cognito" (Cognito.oauth2_config config) inner made in
      let on = cognito_config_endpoints config host (check_region-eq-ok config.region region) in
      (host, rw same on.0, rw same on.1)
