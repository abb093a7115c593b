-- ===== src/OAuth2/Cache.antt =====
-- src/oauth2.rs: when the cache of signing keys answers, and what a fetch leaves in it.
use armature_auth.Prelude.{
  String, ℕ, ◌-◌, ◌<◌, Bool, Bool-cases, Option-cases, Result, true, false, ◌≡◌, refl, ap, ◌∙◌, ◌⊎◌,
  inl, inr, List, Option, none, some, ok, err, Result-cases, ok-injective, some-injective, ◌&&◌,
  ◌||◌, not, ltb, arith,
}
use armature_auth.Error.{AuthError}
use armature_auth.OAuth2.{OAuth2Config, OidcSettings, jwks_ttl, jwks_min_refetch}
use armature_auth.OAuth2.Jwks.{Fetch, JwksCache, Response, jwks, received, fetch_set, cached}

module _ (J : Type 0) {Jwk : Type 0} (config : OAuth2Config) (f : Fetch Jwk) where
  -- A set that is younger than an hour is served without a request, and a forced call asks again
  -- only once the set is a minute old: the answer of the network plays no part in either.
  pub jwks-cached :
      (force : Bool) (fetched : ℕ) (set : List Jwk)
      → f.at_read - fetched < jwks_ttl
      → (force ≡ false) ⊎ (f.at_read - fetched < jwks_min_refetch)
      → jwks J config force f (some (fetched, set)) ≡ (ok set, some (fetched, set))
  unfolding jwks
  jwks-cached force fetched set young (inl unforced) =
      let test : ltb (f.at_read - fetched) jwks_ttl ≡ true = ground arith in
      rw (jwks, cached, test, unforced) refl
  jwks-cached force fetched set young (inr recent) = elim (Bool-cases force) [
    | inl forced ↦
        let test : ltb (f.at_read - fetched) jwks_ttl ≡ true = ground arith in
        let near : ltb (f.at_read - fetched) jwks_min_refetch ≡ true = ground arith in
        rw (jwks, cached, forced, test, near) refl
    | inr unforced ↦
        let test : ltb (f.at_read - fetched) jwks_ttl ≡ true = ground arith in
        rw (jwks, cached, test, unforced) refl
  ]

  -- The sets that a call may return: a cached one that is younger than an hour, with the cache left
  -- as it was, or the body of a successful answer from the configured URI, which is then cached.
  unfoldable pub IsServed : JwksCache Jwk → List Jwk → JwksCache Jwk → Type 0
  IsServed cache set after =
      ((fetched : ℕ) × (cache ≡ some (fetched, set))
        × (f.at_read - fetched < jwks_ttl)
        × (after ≡ cache))
      ⊎ ((oidc : OidcSettings) × (response : Response (List Jwk)) × (config.oidc ≡ some oidc)
          × (f.answer oidc.jwks_uri ≡ ok response)
          × (response.is_success ≡ true)
          × (response.json ≡ ok set)
          × (after ≡ some (f.at_write, set)))

  received-eq-ok :
      (cache : JwksCache Jwk) (oidc : OidcSettings) (set : List Jwk)
      → config.oidc ≡ some oidc
      → (received J f cache (f.answer oidc.jwks_uri)).0 ≡ ok set
      → IsServed cache set (received J f cache (f.answer oidc.jwks_uri)).1
  unfolding IsServed
  received-eq-ok cache oidc set configured e = elim (Result-cases (f.answer oidc.jwks_uri)) [
    | inr (error, a) ↦ (let stop = rw a at e in cc)
    | inl (response, a) ↦ elim (Bool-cases response.is_success) [
      | inr failed ↦ (let stop = rw (received, a, failed) at e in cc)
      | inl success ↦ elim (Result-cases response.json) [
        | inr (error, b) ↦ (let stop = rw (received, a, success, b) at e in cc)
        | inl (body, b) ↦
            let same = ok-injective (rw (received, a, success, b) at e) in
            inr (
              oidc,
              response,
              configured,
              a,
              success,
              b ∙ ap ok same,
              rw (received, a, success, b) (ap (λ s. some (f.at_write, s)) same),
            )
      ]
    ]
  ]

  cached-eq-some :
      (force : Bool) (fetched : ℕ) (old kept : List Jwk)
      → cached J force f.at_read (some (fetched, old)) ≡ some kept
      → (f.at_read - fetched < jwks_ttl) × (old ≡ kept)
  cached-eq-some force fetched old kept hit =
      elim (Bool-cases (
        ltb (f.at_read - fetched) jwks_ttl
        && (not force || ltb (f.at_read - fetched) jwks_min_refetch))) [
          | inr stale ↦ (let stop = rw (cached, stale) at hit in cc)
          | inl young ↦ (ground (arith, young), some-injective (rw (cached, young) at hit))
        ]

  fetch_set-eq-ok :
      (cache : JwksCache Jwk) (configured : Option OidcSettings) (set : List Jwk)
      → config.oidc ≡ configured
      → (fetch_set J f cache configured).0 ≡ ok set
      → IsServed cache set (fetch_set J f cache configured).1
  fetch_set-eq-ok cache none set same e = cc
  fetch_set-eq-ok cache (some oidc) set same e = received-eq-ok cache oidc set same e

  -- Every set that a call returns is one of these, so a set older than an hour is never served.
  pub jwks-eq-ok :
      (force : Bool) (cache : JwksCache Jwk) (set : List Jwk)
      → (jwks J config force f cache).0 ≡ ok set
      → IsServed cache set (jwks J config force f cache).1
  unfolding jwks IsServed
  jwks-eq-ok force none set e = fetch_set-eq-ok none config.oidc set refl e
  jwks-eq-ok force (some (fetched, old)) set e =
      elim (Option-cases (cached J force f.at_read (some (fetched, old)))) [
        | inl stale ↦
            rw (jwks, stale)
              (fetch_set-eq-ok (some (fetched, old)) config.oidc set refl (rw (jwks, stale) at e))
        | inr (kept, hit) ↦
            let (young, same) = cached-eq-some force fetched old kept hit in
            let served = ok-injective (rw (jwks, hit) at e) in
            inl (fetched, ap (λ s. some (fetched, s)) (same ∙ served), young, rw (jwks, hit) refl)
      ]

  received-err :
      (cache : JwksCache Jwk) (answer : Result String (Response (List Jwk))) (error : AuthError J)
      → (received J f cache answer).0 ≡ err error
      → (received J f cache answer).1 ≡ cache
  received-err cache (err e) error h = refl
  received-err cache (ok response) error h = elim (Bool-cases response.is_success) [
    | inr failed ↦ rw (received, failed) refl
    | inl success ↦ elim (Result-cases response.json) [
      | inr (e, b) ↦ rw (received, success, b) refl
      | inl (body, b) ↦ (let stop = rw (received, success, b) at h in cc)
    ]
  ]

  -- A call that fails leaves the cache as it was.
  pub jwks-err :
      (force : Bool) (cache : JwksCache Jwk) (error : AuthError J)
      → (jwks J config force f cache).0 ≡ err error
      → (jwks J config force f cache).1 ≡ cache
  unfolding jwks
  jwks-err force cache error h = elim (Option-cases (cached J force f.at_read cache)) [
    | inr (set, hit) ↦ rw (jwks, hit) refl
    | inl stale ↦
        rw (jwks, stale)
          (elim (Option-cases config.oidc) [
            | inl missing ↦ rw (fetch_set, missing) refl
            | inr (oidc, configured) ↦
                rw (fetch_set, configured)
                  (received-err cache (f.answer oidc.jwks_uri) error
                    (rw (jwks, stale, fetch_set, configured) at h))
          ])
  ]
