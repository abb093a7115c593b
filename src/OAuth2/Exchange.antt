-- ===== src/OAuth2/Exchange.antt =====
-- src/oauth2.rs: what a completed exchange, and a userinfo answer that is accepted, guarantee.
use armature_auth.Prelude.{
  String, ℕ, ◌≤◌, ℤ, pos, negsuc, ◌-ℤ◌, Bool-cases, Option-cases, Result-cases, false, ◌≡◌, refl,
  sym, ap, ◌∙◌, inl, inr, some, Result, ok, err, >>=-eq-ok, ok-injective, arith,
}
use armature_auth.Error.{AuthError}
use armature_auth.Crypto.{Crypto}
use armature_auth.Json.{Json, get_str}
use armature_auth.OAuth2.{
  OAuth2Config, OAuth2Token, OAuth2UserInfo, PendingAuth, OidcSettings, StandardToken, check_state,
  is_expired, is_too_old, pending_auth_max_age,
}
use armature_auth.OAuth2.IdToken.{JwtLibrary, is_string, verify_id_token}
use armature_auth.OAuth2.Jwks.{Fetch, JwksCache, Response}
use armature_auth.OAuth2.Flow.{
  TokenEndpoint, check_pending, exchange_code, get_user_info, verify_response, check_subject,
  read_user_info,
}
use armature_auth.OAuth2.Verified.{is_string-eq-true}

module _ {j : Json} (J : Type 0) (c : Crypto) (x : JwtLibrary j) (config : OAuth2Config) where
  -- The state is the one of the request, which is at most ten minutes old.
  unfoldable pub IsPending : ℤ → String → PendingAuth → Type 0
  IsPending now returned_state pending =
      (pending.state ≡ returned_state)
      × ((age : ℕ) × (now -ℤ pending.created_at ≡ pos age) × (age ≤ pending_auth_max_age))

  too_old-eq-false : (age : ℤ) → is_too_old 600 age ≡ false → (n : ℕ) × (age ≡ pos n) × (n ≤ 600)
  too_old-eq-false (pos n) h = (n, refl, ground arith)
  too_old-eq-false (negsuc n) h = cc

  check_pending-eq-ok :
      (now : ℤ) (returned_state : String) (pending : PendingAuth)
      → check_pending J c x config now returned_state pending ≡ ok tt
      → IsPending now returned_state pending
  unfolding check_pending IsPending check_state is_expired
  check_pending-eq-ok now returned_state pending h =
      elim (Bool-cases (c.ct_eq pending.state returned_state)) [
        | inr differs ↦ (let stop = rw (check_pending, check_state, differs) at h in cc)
        | inl same ↦ elim (Bool-cases (is_too_old 600 (now -ℤ pending.created_at))) [
          | inl old ↦ (let stop = rw (check_pending, check_state, same, is_expired, old) at h in cc)
          | inr young ↦ ((c.ct_eq_iff _ _).0 same, too_old-eq-false _ young)
        ]
      ]

  -- A code is exchanged only for the state of a request that is at most ten minutes old: with another
  -- state, or later, the endpoint's answer plays no part, and the cache stays as it was.
  pub exchange_code-stops :
      (first second : Fetch x.Jwk) (now : ℤ) (code returned_state : String) (pending : PendingAuth)
      (cache : JwksCache x.Jwk)
      → ¬ IsPending now returned_state pending
      → (e : AuthError J) × ((endpoint : TokenEndpoint)
          → exchange_code J c x config endpoint first second now code returned_state pending cache
            ≡ (err e, cache))
  unfolding exchange_code
  exchange_code-stops first second now code returned_state pending cache not_pending =
      elim (Result-cases (check_pending J c x config now returned_state pending)) [
        | inr (e, stop) ↦ (e, λ endpoint. rw (exchange_code, stop) refl)
        | inl (u, pass) ↦
            elim (not_pending (check_pending-eq-ok now returned_state pending pass)) [ ]
      ]

  verify_response-eq-ok :
      (first second : Fetch x.Jwk) (nonce : String) (answer : StandardToken)
      (cache : JwksCache x.Jwk) (token : OAuth2Token j)
      → (verify_response J c x config first second nonce answer cache).0 ≡ ok token
      → (raw : String) × (claims : j.Value) × ((verify_id_token J c x config first second raw nonce
            cache).0
          ≡ ok claims)
        × (token.id_token ≡ some raw)
        × (token.id_token_claims ≡ some claims)
  unfolding verify_response
  verify_response-eq-ok first second nonce answer cache token h =
      elim (Option-cases answer.extra_id_token) [
        | inl missing ↦ (let stop = rw (verify_response, missing) at h in cc)
        | inr (raw, e) ↦
            let (claims, verified, out) =
              >>=-eq-ok (verify_id_token J c x config first second raw nonce cache).0 _
                (rw (verify_response, e) at h) in
            let same = ok-injective out in
            (
              raw,
              claims,
              verified,
              ap (λ t. t.id_token) (sym same),
              ap (λ t. t.id_token_claims) (sym same),
            )
      ]

  -- A token comes of an exchange for the state of a request that is at most ten minutes old. If the
  -- provider has OIDC and the request carried a nonce, the token holds an ID token that was verified
  -- against that nonce, and the claims that were verified.
  pub exchange_code-eq-ok :
      (endpoint : TokenEndpoint) (first second : Fetch x.Jwk) (now : ℤ)
      (code returned_state : String) (pending : PendingAuth) (cache : JwksCache x.Jwk)
      (token : OAuth2Token j)
      → (exchange_code J c x config endpoint first second now code returned_state pending cache).0
        ≡ ok token
      → IsPending now returned_state pending
        × ((oidc : OidcSettings) (nonce : String)
            → config.oidc ≡ some oidc
            → pending.nonce ≡ some nonce
            → (raw : String) × (claims : j.Value) × ((verify_id_token J c x config first second raw
                  nonce cache).0
                ≡ ok claims)
              × (token.id_token ≡ some raw)
              × (token.id_token_claims ≡ some claims))
  unfolding exchange_code verify_response
  exchange_code-eq-ok endpoint first second now code returned_state pending cache token h =
      elim (Result-cases (check_pending J c x config now returned_state pending)) [
        | inr (e, stop) ↦ (let refused = rw (exchange_code, stop) at h in cc)
        | inl (u, pass) ↦ elim (Result-cases (endpoint code pending.pkce_verifier)) [
          | inr (e, stop) ↦ (let refused = rw (exchange_code, pass, stop) at h in cc)
          | inl (answer, granted) ↦ (
            check_pending-eq-ok now returned_state pending pass,
            λ oidc nonce configured sent.
                verify_response-eq-ok first second nonce answer cache token
                  (rw (exchange_code, pass, granted, configured, sent) at h),
          )
        ]
      ]

module _ (j : Json) (J : Type 0) where
  check_subject-eq-ok :
      (claims : j.Value) (body info : OAuth2UserInfo j)
      → check_subject j J (some claims) body ≡ ok info
      → get_str j "sub" claims ≡ some info.sub
  check_subject-eq-ok claims body info h =
      elim (Bool-cases (is_string j J body.sub (get_str j "sub" claims))) [
        | inr differs ↦ (let stop = rw (check_subject, differs) at h in cc)
        | inl same ↦
            is_string-eq-true j J body.sub (get_str j "sub" claims) same
            ∙ ap (λ i. some i.sub) (ok-injective (rw (check_subject, same) at h))
      ]

  -- A userinfo answer is accepted only if its subject is that of the verified ID token, when there
  -- is one, whatever the endpoint sends.
  pub get_user_info-eq-ok :
      (config : OAuth2Config) (get : String → String → Result String (Response (OAuth2UserInfo j)))
      (token : OAuth2Token j) (claims : j.Value) (info : OAuth2UserInfo j)
      → token.id_token_claims ≡ some claims
      → get_user_info j J config get token ≡ ok info
      → get_str j "sub" claims ≡ some info.sub
  unfolding get_user_info
  get_user_info-eq-ok config get token claims info verified h =
      elim (Option-cases config.user_info_url) [
        | inl missing ↦ (let stop = rw (get_user_info, missing) at h in cc)
        | inr (url, e) ↦ elim (Result-cases (get url token.access_token)) [
          | inr (error, f) ↦ (let stop = rw (get_user_info, e, f) at h in cc)
          | inl (response, f) ↦ elim (Bool-cases response.is_success) [
            | inr failed ↦ (let stop = rw (get_user_info, e, f, read_user_info, failed) at h in cc)
            | inl success ↦ elim (Result-cases response.json) [
              | inr (error, b) ↦
                  (let stop = rw (get_user_info, e, f, read_user_info, success, b) at h in cc)
              | inl (body, b) ↦
                  let checked =
                    rw (get_user_info, e, f, read_user_info, success, b, verified) at h in
                  check_subject-eq-ok claims body info checked
            ]
          ]
        ]
      ]
