-- ===== src/OAuth2/Claims.antt =====
-- src/oauth2.rs: what a verified ID token satisfies.
use armature_auth.Prelude.{
  String, List, [], ◌∷◌, Option-cases, map_err, sym, ◌∙◌, ◌≢◌, subst, refl, false, true, ◌≡◌, ap,
  ◌⊎◌, inl, inr, some, none, ok, >>=-eq-ok, map_err-eq-ok, Result-cases, ok-injective,
  some-injective,
}
use armature_auth.Crypto.{Crypto}
use armature_auth.Json.{Json}
use armature_auth.OAuth2.{OAuth2Config, OidcSettings}
use armature_auth.OAuth2.Cache.{IsServed, jwks-eq-ok}
use armature_auth.OAuth2.IdToken.{
  Header, JwtLibrary, Validation, check_algorithm, invalid, check_header, decode_with, find_key,
  only, signing_key, validation_of, verify_id_token, other_algorithm,
}
use armature_auth.OAuth2.Jwks.{Fetch, JwksCache, jwks}
use armature_auth.OAuth2.Verified.{HasNonce, IsForClient, IsIssued, IsStrict, check_claims-eq-ok}

module _ {j : Json} (J : Type 0) (c : Crypto) (x : JwtLibrary j) (config : OAuth2Config) where
  -- The library decoded the token with the key, under strict settings, which also ask for the issuer
  -- if it is fixed; and the claims are what is asked for beyond the settings.
  unfoldable pub IsVerified : OidcSettings → Header → x.Key → String → String → j.Value → Type 0
  IsVerified oidc header key raw nonce claims =
      (v : Validation) × (config.oidc ≡ some oidc)
      × (x.decode_header raw ≡ ok header)
      × ((name : String) → header.alg ≢ other_algorithm name)
      × (x.decode raw key v ≡ ok claims)
      × IsStrict config header v
      × IsIssued j oidc v claims
      × IsForClient j config claims
      × HasNonce j nonce claims

  -- The key of the header's identifier in a set, or its only key if the header has no identifier.
  abbrev pub IsKeyOf : Header → List x.Jwk → x.Jwk → Type 0
  IsKeyOf header set jwk =
      ((kid : String) × (header.kid ≡ some kid) × (x.find kid set ≡ some jwk))
      ⊎ ((header.kid ≡ none) × (set ≡ jwk ∷ []))

  -- A set that the first call for the provider's keys serves, or the second one after it.
  abbrev pub IsProvided :
      Fetch x.Jwk → Fetch x.Jwk → JwksCache x.Jwk → List x.Jwk → JwksCache x.Jwk → Type 0
  IsProvided first second cache set after =
      IsServed J config first cache set after
      ⊎ ((between : JwksCache x.Jwk) × (between ≡ (jwks J config false first cache).1)
          × IsServed J config second between set after)

  find_key-eq-some :
      (header : Header) (set : List x.Jwk) (jwk : x.Jwk)
      → find_key x header set ≡ some jwk
      → IsKeyOf header set jwk
  unfolding find_key
  find_key-eq-some header set jwk h = elim (Option-cases header.kid) [
    | inl missing ↦ inr (missing, only-eq-some set (rw (missing, find_key) at h))
    | inr (kid, e) ↦ inl (kid, e, rw (e, find_key) at h)
  ]
    where
      only-eq-some : (set : List x.Jwk) → only x set ≡ some jwk → set ≡ jwk ∷ []
      only-eq-some [] e = cc
      only-eq-some (found ∷ []) e = ap (λ k. k ∷ []) (some-injective e)
      only-eq-some (found ∷ other ∷ rest) e = cc

  signing_key-eq-ok :
      (first second : Fetch x.Jwk) (header : Header) (cache : JwksCache x.Jwk) (jwk : x.Jwk)
      → (signing_key J c x config first second header cache).0 ≡ ok jwk
      → (set : List x.Jwk) × IsProvided first second cache set
          (signing_key J c x config first second header cache).1
        × IsKeyOf header set jwk
  unfolding signing_key
  signing_key-eq-ok first second header cache jwk h =
      let looked = jwks J config false first cache in
      let again = jwks J config true second looked.1 in
      elim (Result-cases looked.0) [
        | inr (e, a) ↦ (let stop = rw (a, signing_key) at h in cc)
        | inl (set, a) ↦ elim (Option-cases (find_key x header set)) [
          | inr (found, b) ↦
              let same = ok-injective (rw (signing_key, a, b) at h) in
              rw (signing_key, a, b)
                (
                  set,
                  inl (jwks-eq-ok J config first false cache set a),
                  subst (IsKeyOf header set) same (find_key-eq-some header set found b),
                )
          | inl missing ↦ elim (Result-cases again.0) [
            | inr (e, d) ↦ (let stop = rw (signing_key, a, missing, d) at h in cc)
            | inl (rotated, d) ↦ elim (Option-cases (find_key x header rotated)) [
              | inl neither ↦ (let stop = rw (signing_key, a, missing, d, neither) at h in cc)
              | inr (found, b) ↦
                  let same = ok-injective (rw (signing_key, a, missing, d, b) at h) in
                  rw (signing_key, a, missing, d, b)
                    (
                      rotated,
                      inr (looked.1, refl, jwks-eq-ok J config second true looked.1 rotated d),
                      subst (IsKeyOf header rotated) same (find_key-eq-some header rotated found b),
                    )
            ]
          ]
        ]
      ]

  other-refused : (name : String) → check_algorithm J (other_algorithm name) ≢ ok tt
  unfolding check_algorithm
  other-refused name h = cc

  check_header-eq-ok :
      (raw : String) (header : Header)
      → check_header J c x config raw ≡ ok header
      → (x.decode_header raw ≡ ok header) × ((name : String) → header.alg ≢ other_algorithm name)
  unfolding check_header
  check_header-eq-ok raw header h =
      let (read, e, rest) = >>=-eq-ok (map_err (invalid J) (x.decode_header raw)) _ h in
      let (_, allowed, out) = >>=-eq-ok (check_algorithm J read.alg) _ rest in
      let same = ok-injective out in
      (
        map_err-eq-ok (invalid J) _ e ∙ ap ok same,
        λ name is_other.
            let other : check_algorithm J read.alg ≡ check_algorithm J (other_algorithm name) =
              ap (λ r. check_algorithm J r.alg) same ∙ ap (check_algorithm J) is_other in
            other-refused name (sym other ∙ allowed),
      )

  decode_with-eq-ok :
      (oidc : OidcSettings) (header : Header) (raw nonce : String) (jwk : x.Jwk) (claims : j.Value)
      → decode_with J c x config oidc header raw nonce jwk ≡ ok claims
      → (key : x.Key) × (x.from_jwk jwk ≡ ok key)
        × (x.decode raw key (validation_of config oidc header) ≡ ok claims)
        × IsIssued j oidc (validation_of config oidc header) claims
        × IsForClient j config claims
        × HasNonce j nonce claims
  unfolding decode_with
  decode_with-eq-ok oidc header raw nonce jwk claims h =
      let (key, made, rest) = >>=-eq-ok (map_err (invalid J) (x.from_jwk jwk)) _ h in
      let (decoded, e, checked) =
        >>=-eq-ok (map_err (invalid J) (x.decode raw key (validation_of config oidc header))) _
          rest in
      let (same, issuer, client, has_nonce) =
        check_claims-eq-ok j J c config oidc header nonce decoded claims checked in
      (
        key,
        map_err-eq-ok (invalid J) _ made,
        map_err-eq-ok (invalid J) _ e ∙ ap ok same,
        subst (IsIssued j oidc (validation_of config oidc header)) same issuer,
        subst (IsForClient j config) same client,
        subst (HasNonce j nonce) same has_nonce,
      )

  -- A verified ID token was decoded by the library with a key of the provider's set, which has the
  -- header's key identifier or is the only key, and which the cache held for under an hour or the
  -- provider has just sent. Its algorithm is one of the nine asymmetric ones that the code allows, and
  -- the library was asked for that algorithm, the client as the only audience, 60 seconds of leeway,
  -- the four claims `exp`, `iss`, `aud` and `sub`, and the configured issuer if it is no template. If
  -- it is a template, the token's issuer is that template filled with the token's tenant. The client
  -- is the authorized party if there are several audiences; and the nonce is the expected one, or is
  -- missing where that is empty.
  pub verify_id_token-eq-ok :
      (first second : Fetch x.Jwk) (raw nonce : String) (cache : JwksCache x.Jwk) (claims : j.Value)
      → (verify_id_token J c x config first second raw nonce cache).0 ≡ ok claims
      → (oidc : OidcSettings) × (header : Header) × (set : List x.Jwk) × (jwk : x.Jwk)
        × (key : x.Key) × IsProvided first second cache set
            (verify_id_token J c x config first second raw nonce cache).1
        × IsKeyOf header set jwk
        × (x.from_jwk jwk ≡ ok key)
        × IsVerified oidc header key raw nonce claims
  unfolding verify_id_token IsVerified validation_of
  verify_id_token-eq-ok first second raw nonce cache claims h = elim (Option-cases config.oidc) [
    | inl missing ↦ (let stop = rw (verify_id_token, missing) at h in cc)
    | inr (oidc, configured) ↦ elim (Result-cases (check_header J c x config raw)) [
      | inr (e, refused) ↦ (let stop = rw (verify_id_token, configured, refused) at h in cc)
      | inl (header, read) ↦
          let (jwk, found, rest) =
            >>=-eq-ok (signing_key J c x config first second header cache).0 _
              (rw (verify_id_token, configured, read) at h) in
          let (set, provided, chosen) = signing_key-eq-ok first second header cache jwk found in
          let (key, made, decoded, issuer, client, has_nonce) =
            decode_with-eq-ok oidc header raw nonce jwk claims rest in
          let (is_read, allowed) = check_header-eq-ok raw header read in
          let same_cache : (verify_id_token J c x config first second raw nonce cache).1
              ≡ (signing_key J c x config first second header cache).1 =
            simp (verify_id_token, configured, read) in
          (
            oidc,
            header,
            set,
            jwk,
            key,
            subst (IsProvided first second cache set) (sym same_cache) provided,
            chosen,
            made,
            (
              validation_of config oidc header,
              configured,
              is_read,
              allowed,
              decoded,
              (refl, refl, refl, refl),
              issuer,
              client,
              has_nonce,
            ),
          )
    ]
  ]
