-- ===== src/Providers/Endpoints.antt =====
-- Where the providers of src/providers send requests: the authority of each endpoint of a provider
-- that `new` accepts.
use armature_auth.Prelude.{
  String, codes, true, ◌≡◌, refl, sym, ap, ◌∙◌, inl, inr, List, [], ◌∷◌, ◌++◌, Option, none, some,
  Result, ok, Result-cases, ◌>>=◌, ◌>>◌, >>=-eq-ok, ok-injective, All, all,
}
use armature_auth.OAuth2.{OAuth2Config, OidcSettings}
use armature_auth.OAuth2.Flow
use armature_auth.OAuth2.Flow.{GenericOAuth2Provider, check_jwks_uri}
use armature_auth.Providers.Hostname.{validate_hostname}
use armature_auth.Providers.Authority.{
  authority_of, authority_of-https, is_host_char, validate_hostname-eq-ok,
}
use armature_auth.Providers.Okta
use armature_auth.Providers.Auth0

-- The URLs that a provider sends the user, codes, tokens and requests for keys to.
abbrev pub as_urls : Option String → List String
as_urls none = []
as_urls (some url) = url ∷ []

abbrev pub jwks_urls : Option OidcSettings → List String
jwks_urls none = []
jwks_urls (some oidc) = oidc.jwks_uri ∷ []

abbrev pub endpoints : OAuth2Config → List String
endpoints config =
    config.auth_url ∷ config.token_url ∷ (as_urls config.user_info_url ++ jwks_urls config.oidc)

-- The authority of the URL is the host, and nothing else.
abbrev pub IsOn : String → String → Type 0
IsOn host url = authority_of (codes url) ≡ some (codes host)

pub new-eq-ok :
    (J : Type 0) (parse : String → Result String (Unit {0})) (name : String) (config : OAuth2Config)
    (inner : GenericOAuth2Provider)
    → Flow.new J parse name config ≡ ok inner
    → inner.config ≡ config
unfolding Flow.new
new-eq-ok J parse name config inner h = elim (Result-cases (parse config.auth_url)) [
  | inr (e, f) ↦ (let stop = rw (Flow.new, f) at h in cc)
  | inl (u, f) ↦ elim (Result-cases (parse config.token_url)) [
    | inr (e, g) ↦ (let stop = rw (Flow.new, f, g) at h in cc)
    | inl (v, g) ↦ elim (Result-cases (parse config.redirect_url)) [
      | inr (e, k) ↦ (let stop = rw (Flow.new, f, g, k) at h in cc)
      | inl (w, k) ↦ elim (Result-cases (check_jwks_uri J parse config.oidc)) [
        | inr (e, l) ↦ (let stop = rw (Flow.new, f, g, k, l) at h in cc)
        | inl (z, l) ↦ ap (λ p. p.config) (sym (ok-injective (rw (Flow.new, f, g, k, l) at h)))
      ]
    ]
  ]
]

okta_config_endpoints :
    (config : Okta.OktaConfig)
    → all is_host_char (codes config.domain) ≡ true
    → All (IsOn config.domain) (endpoints (Okta.oauth2_config config))
unfolding Okta.oauth2_config
okta_config_endpoints config host = (
  authority_of-https config.domain "/oauth2/v1/authorize" _ refl host,
  (
    authority_of-https config.domain "/oauth2/v1/token" _ refl host,
    (
      authority_of-https config.domain "/oauth2/v1/userinfo" _ refl host,
      (authority_of-https config.domain "/oauth2/v1/keys" _ refl host, tt),
    ),
  ),
)

auth0_config_endpoints :
    (config : Auth0.Auth0Config)
    → all is_host_char (codes config.domain) ≡ true
    → All (IsOn config.domain) (endpoints (Auth0.oauth2_config config))
unfolding Auth0.oauth2_config
auth0_config_endpoints config host = (
  authority_of-https config.domain "/authorize" _ refl host,
  (
    authority_of-https config.domain "/oauth/token" _ refl host,
    (
      authority_of-https config.domain "/userinfo" _ refl host,
      (authority_of-https config.domain "/.well-known/jwks.json" _ refl host, tt),
    ),
  ),
)

module _ (J : Type 0) (parse : String → Result String (Unit {0})) (debug : String → String) where
  -- What the checks of a provider's `new` leave.
  pub accepted :
      {P : Type 0} (kind host name : String) (config : OAuth2Config)
      (wrap : GenericOAuth2Provider → P) (p : P)
      → (validate_hostname J debug kind host
          >> (Flow.new J parse name config >>= λ inner. ok (wrap inner)))
        ≡ ok p
      → (all is_host_char (codes host) ≡ true)
        × ((inner : GenericOAuth2Provider) × (wrap inner ≡ p) × (inner.config ≡ config))
  accepted kind host name config wrap p h =
      let (u, valid, made) = >>=-eq-ok (validate_hostname J debug kind host) _ h in
      let (inner, created, out) = >>=-eq-ok (Flow.new J parse name config) _ made in
      (
        validate_hostname-eq-ok J debug kind host valid,
        (inner, ok-injective out, new-eq-ok J parse name config inner created),
      )

  -- An Okta provider that is accepted sends everything to the configured domain, which has neither
  -- user information nor a port.
  pub okta_endpoints :
      (config : Okta.OktaConfig) (p : Okta.OktaProvider)
      → Okta.new J parse debug config ≡ ok p
      → (all is_host_char (codes config.domain) ≡ true)
        × All (IsOn config.domain) (endpoints p.inner.config)
  unfolding Okta.new
  okta_endpoints config p h =
      let (host, (inner, wrapped, same)) =
        accepted "Okta domain" config.domain "okta" (Okta.oauth2_config config)
          (λ inner. record { inner = inner }) p h in
      (host, rw (ap (λ q. q.inner.config) (sym wrapped) ∙ same) (okta_config_endpoints config host))

  -- An Auth0 provider that is accepted sends everything to the configured domain, which has neither
  -- user information nor a port.
  pub auth0_endpoints :
      (config : Auth0.Auth0Config) (p : Auth0.Auth0Provider)
      → Auth0.new J parse debug config ≡ ok p
      → (all is_host_char (codes config.domain) ≡ true)
        × All (IsOn config.domain) (endpoints p.inner.config)
  unfolding Auth0.new
  auth0_endpoints config p h =
      let (host, (inner, wrapped, same)) =
        accepted "Auth0 domain" config.domain "auth0" (Auth0.oauth2_config config)
          (λ inner. record { inner = inner; audience = config.audience }) p h in
      (
        host,
        rw (ap (λ q. q.inner.config) (sym wrapped) ∙ same) (auth0_config_endpoints config host),
      )
