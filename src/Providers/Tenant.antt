-- ===== src/Providers/Tenant.antt =====
-- src/providers/microsoft.rs: the tenant that a provider sends its requests for.
use armature_auth.Prelude.{
  String, Text, codes, true, ℕ, ◌≤◌, ◌==◌, ◌||◌, ◌⊎◌, ◌↔◌, inl, inr, arith, all_iff, Bool-cases,
  ◌≡◌, refl, sym, ap, ◌∙◌, List, ◌∷◌, Option, none, some, Result, ok, All, all, strip_prefix,
}
use armature_auth.Error.{concat}
use armature_auth.OAuth2.{OAuth2Config, OidcSettings}
use armature_auth.Providers.Authority.{up_to_end, up_to_end-host, codes-concat, is_host_char}
use armature_auth.Providers.Entra
use armature_auth.Providers.Hostname.{byte_len}
use armature_auth.Providers.Endpoints.{accepted, jwks_urls}

-- The first segment of the path, of a URL on the host of Microsoft's login.
abbrev pub tenant_of : Text → Option Text
tenant_of url = elim (strip_prefix (codes "https://login.microsoftonline.com/") url) [
  | none ↦ none
  | some rest ↦ some (up_to_end rest)
]

abbrev pub IsFor : String → String → Type 0
IsFor tenant_id url = tenant_of (codes url) ≡ some (codes tenant_id)

IsFor-at_tenant :
    (tenant_id path : String) (rest : Text)
    → codes path ≡ b'/' ∷ rest
    → all is_host_char (codes tenant_id) ≡ true
    → IsFor tenant_id (Entra.at_tenant tenant_id path)
unfolding strip_prefix
IsFor-at_tenant tenant_id path rest e h =
    rw
      (
        codes-concat "https://login.microsoftonline.com/" (concat tenant_id path),
        codes-concat tenant_id path,
        e,
      )
      (ap some (up_to_end-host (codes tenant_id) rest h))

-- The URLs of the tenant: of users, of tokens and of keys.
abbrev pub tenant_endpoints : OAuth2Config → List String
tenant_endpoints config = config.auth_url ∷ config.token_url ∷ jwks_urls config.oidc

-- A character of a GUID: a hexadecimal digit or a hyphen.
abbrev pub IsGuidChar : ℕ → Type 0
IsGuidChar ch =
    ((b'0' ≤ ch) × (ch ≤ b'9'))
    ⊎ ((b'a' ≤ ch) × (ch ≤ b'f'))
    ⊎ ((b'A' ≤ ch) × (ch ≤ b'F'))
    ⊎ (ch ≡ b'-')

abbrev pub IsGuid : Text → Type 0
IsGuid s = (byte_len s ≡ 36) × All IsGuidChar s

-- A tenant that is a GUID has its own issuer, and any other one the template for all tenants.
abbrev pub HasIssuer : String → Option OidcSettings → Type 0
HasIssuer tenant_id none = ⊥
HasIssuer tenant_id (some oidc) =
    (IsGuid (codes tenant_id)
      × (oidc.issuer ≡ concat "https://login.microsoftonline.com/" (concat tenant_id "/v2.0")))
    ⊎ ((¬ IsGuid (codes tenant_id))
        × (oidc.issuer ≡ "https://login.microsoftonline.com/{tenantid}/v2.0"))

IsGuidChar-iff : (ch : ℕ) → ((Entra.is_ascii_hexdigit ch || ch == b'-') ≡ true) ↔ IsGuidChar ch
IsGuidChar-iff ch = grind arith

is_guid_iff : (s : Text) → (Entra.is_guid s ≡ true) ↔ IsGuid s
unfolding Entra.is_guid
is_guid_iff s =
    let chars =
      all_iff (λ ch. Entra.is_ascii_hexdigit ch || ch == b'-') IsGuidChar IsGuidChar-iff s in
    grind arith

issuer_of-HasIssuer :
    (tenant_id jwks_uri : String)
    → HasIssuer tenant_id
        (some (record { issuer = Entra.issuer_of tenant_id; jwks_uri = jwks_uri }))
unfolding Entra.issuer_of
issuer_of-HasIssuer tenant_id jwks_uri = elim (Bool-cases (Entra.is_guid (codes tenant_id))) [
  | inl guid ↦ inl ((is_guid_iff (codes tenant_id)).0 guid, rw (Entra.issuer_of, guid) refl)
  | inr other ↦ inr (
    (λ is_guid. let stop = sym ((is_guid_iff (codes tenant_id)).1 is_guid) ∙ other in cc),
    rw (Entra.issuer_of, other) refl,
  )
]

entra_config_endpoints :
    (config : Entra.MicrosoftEntraConfig)
    → all is_host_char (codes config.tenant_id) ≡ true
    → All (IsFor config.tenant_id) (tenant_endpoints (Entra.oauth2_config config))
      × HasIssuer config.tenant_id (Entra.oauth2_config config).oidc
unfolding Entra.oauth2_config
entra_config_endpoints config host = (
  (
    IsFor-at_tenant config.tenant_id "/oauth2/v2.0/authorize" _ refl host,
    (
      IsFor-at_tenant config.tenant_id "/oauth2/v2.0/token" _ refl host,
      (IsFor-at_tenant config.tenant_id "/discovery/v2.0/keys" _ refl host, tt),
    ),
  ),
  issuer_of-HasIssuer config.tenant_id (Entra.at_tenant config.tenant_id "/discovery/v2.0/keys"),
)

module _ (J : Type 0) (parse : String → Result String (Unit {0})) (debug : String → String) where
  -- A Microsoft Entra provider that is accepted sends users, codes and tokens, and the requests for
  -- keys, to Microsoft's login host and for the configured tenant: the tenant is the first segment of
  -- each path. The issuer that it checks is the tenant's own, if the tenant is a GUID, else the
  -- template for all tenants.
  pub entra_endpoints :
      (config : Entra.MicrosoftEntraConfig) (p : Entra.MicrosoftEntraProvider)
      → Entra.new J parse debug config ≡ ok p
      → All (IsFor config.tenant_id) (tenant_endpoints p.inner.config)
        × HasIssuer config.tenant_id p.inner.config.oidc
  unfolding Entra.new
  entra_endpoints config p h =
      let (host, (inner, wrapped, same)) =
        accepted J parse debug "Microsoft tenant id" config.tenant_id "microsoft-entra"
          (Entra.oauth2_config config) (λ inner. record { inner = inner }) p h in
      let on = entra_config_endpoints config host in
      let config_is = ap (λ q. q.inner.config) (sym wrapped) ∙ same in
      (rw config_is on.0, rw config_is on.1)
