-- ===== src/OAuth2/Jwks.antt =====
-- The cache of signing keys in src/oauth2.rs. The HTTP answer to a request is an argument.
use armature_auth.Prelude.{
  String, ℕ, ◌-◌, Bool, not, ◌&&◌, ◌||◌, ltb, List, Option, none, some, Result, ok, err,
  if◌then◌else◌,
}
use armature_auth.Error.{AuthResult, concat, configuration, http_request, invalid_response}
use armature_auth.OAuth2.{OAuth2Config, OidcSettings, jwks_ttl, jwks_min_refetch}

-- A response of `reqwest`: its status, printed, and its body as JSON of the type that is asked for.
pub record Response (Body : Type 0) : Type 0 where
  pub is_success : Bool
  pub status : String
  pub json : Result String Body

-- The set of keys with the instant of its fetch.
abbrev pub JwksCache : Type 0 → Type 0
JwksCache Jwk = Option (ℕ × List Jwk)

-- The readings of the clock and the answer of the network that one call sees.
pub record Fetch (Jwk : Type 0) : Type 0 where
  pub at_read : ℕ
  pub at_write : ℕ
  pub answer : String → Result String (Response (List Jwk))

module _ (J : Type 0) {Jwk : Type 0} where
  -- `elapsed` stops at zero.
  abbrev pub cached : Bool → ℕ → JwksCache Jwk → Option (List Jwk)
  cached force now none = none
  cached force now (some (fetched, set)) =
      let age = now - fetched in
      if ltb age jwks_ttl && (not force || ltb age jwks_min_refetch) then some set else none

  abbrev pub received :
      Fetch Jwk
      → JwksCache Jwk
      → Result String (Response (List Jwk))
      → AuthResult J (List Jwk) × JwksCache Jwk
  received f cache (err e) = (err (http_request (concat "JWKS fetch failed: " e)), cache)
  received f cache (ok response) =
      if not response.is_success
      then (err (http_request (concat "JWKS fetch failed with status " response.status)), cache)
      else elim (response.json) [
        | err e ↦ (err (invalid_response (concat "invalid JWKS: " e)), cache)
        | ok set ↦ (ok set, some (f.at_write, set))
      ]

  abbrev pub fetch_set :
      Fetch Jwk → JwksCache Jwk → Option OidcSettings → AuthResult J (List Jwk) × JwksCache Jwk
  fetch_set f cache none = (err (configuration "OIDC not configured"), cache)
  fetch_set f cache (some oidc) = received f cache (f.answer oidc.jwks_uri)

  unfoldable pub jwks :
      OAuth2Config → Bool → Fetch Jwk → JwksCache Jwk → AuthResult J (List Jwk) × JwksCache Jwk
  jwks config force f cache = elim (cached force (f.at_read) cache) [
    | some set ↦ (ok set, cache)
    | none ↦ fetch_set f cache (config.oidc)
  ]
