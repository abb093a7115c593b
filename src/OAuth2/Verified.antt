-- ===== src/OAuth2/Verified.antt =====
-- src/oauth2.rs: what `verify_id_token` asks of a token's claims, described without its checks.
use armature_auth.Prelude.{
  String, subst, Text, text_beq, codes, length, ◌≤◌, Bool-cases, Option-cases, sym, ◌∙◌, true, ◌≡◌,
  refl, ap, ◌⊎◌, inl, inr, List, [], ◌∷◌, none, some, ok, eq_iff, >>=-eq-ok, ok-injective, arith,
}
use armature_auth.Crypto.{Crypto}
use armature_auth.Json.{Json, get_str}
use armature_auth.OAuth2.{OAuth2Config, OidcSettings}
use armature_auth.OAuth2.IdToken.{
  Header, Validation, audiences, check_azp, check_claims, check_issuer, check_nonce, check_tenant,
  is_string, is_templated, is_text, issuer_of, nonce_or_default, validation_of,
}
use armature_auth.OAuth2.Template.{
  HasTenant, IsFilled, contains-HasTenant, contains-eq-false, replace_from-IsFilled,
}

-- The settings ask for the token's own algorithm, the client as the only audience, the four claims,
-- and no more than a minute of leeway.
abbrev pub IsStrict : OAuth2Config → Header → Validation → Type 0
IsStrict config header v =
    (v.algorithm ≡ header.alg)
    × (v.leeway ≡ 60)
    × (v.audience ≡ config.client_id ∷ [])
    × (v.required ≡ "exp" ∷ "iss" ∷ "aud" ∷ "sub" ∷ [])

module _ (j : Json) where
  -- The issuer is a fixed one, which the settings ask for, or it is a template, which filled with the
  -- claims' tenant is the claims' issuer.
  abbrev pub IsIssued : OidcSettings → Validation → j.Value → Type 0
  IsIssued oidc v claims =
      ((¬ HasTenant (codes oidc.issuer)) × (v.issuer ≡ some (oidc.issuer ∷ [])))
      ⊎ (HasTenant (codes oidc.issuer)
          × (v.issuer ≡ none)
          × ((tid : String) × (iss : String) × (get_str j "tid" claims ≡ some tid)
              × (get_str j "iss" claims ≡ some iss)
              × IsFilled (codes tid) (codes oidc.issuer) (codes iss)))

  -- The token has no audience, one that is not a list, or a list of at most one.
  abbrev pub HasOneAudience : j.Value → Type 0
  HasOneAudience claims =
      (j.get "aud" claims ≡ none)
      ⊎ ((aud : j.Value) × (j.get "aud" claims ≡ some aud)
          × ((j.as_array aud ≡ none)
              ⊎ ((auds : List j.Value) × (j.as_array aud ≡ some auds) × (length auds ≤ 1))))

  -- The client is the authorized party of a token for several audiences.
  abbrev pub IsForClient : OAuth2Config → j.Value → Type 0
  IsForClient config claims =
      HasOneAudience claims ⊎ (get_str j "azp" claims ≡ some config.client_id)

  -- The token has the nonce, or none where the nonce that is expected is empty.
  abbrev pub HasNonce : String → j.Value → Type 0
  HasNonce nonce claims =
      (get_str j "nonce" claims ≡ some nonce) ⊎ ((get_str j "nonce" claims ≡ none) × (nonce ≡ ""))

  module _ (J : Type 0) where
    text_beq-eq-true : (s t : Text) → text_beq s t ≡ true → s ≡ t
    unfolding text_beq
    text_beq-eq-true [] [] h = refl
    text_beq-eq-true [] (d ∷ t) h = cc
    text_beq-eq-true (ch ∷ s) [] h = cc
    text_beq-eq-true (ch ∷ s) (d ∷ t) h = ground (arith, text_beq-eq-true s t)

    is_text-eq-true :
        (s : Text) (found : _)
        → is_text j J s found ≡ true
        → (iss : String) × (found ≡ some iss) × (codes iss ≡ s)
    is_text-eq-true s none h = cc
    is_text-eq-true s (some iss) h = (iss, refl, text_beq-eq-true (codes iss) s h)

    check_issuer-eq-ok :
        (config : OAuth2Config) (oidc : OidcSettings) (header : Header) (claims : j.Value)
        → check_issuer j J oidc claims ≡ ok tt
        → IsIssued oidc (validation_of config oidc header) claims
    unfolding check_issuer validation_of is_templated issuer_of
    check_issuer-eq-ok config oidc header claims h = elim (Bool-cases (is_templated oidc)) [
      | inr fixed ↦
          inl (contains-eq-false (codes oidc.issuer) fixed, rw (validation_of, fixed) refl)
      | inl templated ↦ elim (Option-cases (get_str j "tid" claims)) [
        | inl missing ↦ (let stop = rw (templated, missing) at h in cc)
        | inr (tid, e) ↦
            elim (Bool-cases (is_text j J (issuer_of oidc tid) (get_str j "iss" claims))) [
              | inl same ↦
                  let (iss, f, g) =
                    is_text-eq-true (issuer_of oidc tid) (get_str j "iss" claims) same in
                  inr (
                    contains-HasTenant (codes oidc.issuer) templated,
                    rw (validation_of, templated) refl,
                    (
                      tid,
                      iss,
                      e,
                      f,
                      subst (IsFilled (codes tid) (codes oidc.issuer)) (sym g)
                          (replace_from-IsFilled (codes tid) (codes oidc.issuer)),
                    ),
                  )
              | inr differs ↦
                  (let stop = rw (check_issuer, check_tenant, templated, e, differs) at h in cc)
            ]
      ]
    ]

    audiences-HasOneAudience :
        (claims : j.Value) → audiences j J (j.get "aud" claims) ≤ 1 → HasOneAudience claims
    audiences-HasOneAudience claims h = elim (Option-cases (j.get "aud" claims)) [
      | inl missing ↦ inl missing
      | inr (aud, e) ↦ elim (Option-cases (j.as_array aud)) [
        | inl single ↦ inr (aud, e, inl single)
        | inr (auds, f) ↦ inr (aud, e, inr (auds, f, rw (e, audiences, f) at h))
      ]
    ]

    pub is_string-eq-true :
        (expected : String) (found : _)
        → is_string j J expected found ≡ true
        → found ≡ some expected
    is_string-eq-true expected none h = cc
    is_string-eq-true expected (some s) h = ap some ((eq_iff s expected).0 h)

    check_azp-eq-ok :
        (config : OAuth2Config) (claims : j.Value)
        → check_azp j J config claims ≡ ok tt
        → IsForClient config claims
    unfolding check_azp
    check_azp-eq-ok config claims h =
        elim (Bool-cases (is_string j J config.client_id (get_str j "azp" claims))) [
          | inl same ↦ inr (is_string-eq-true config.client_id (get_str j "azp" claims) same)
          | inr differs ↦ inl (audiences-HasOneAudience claims (ground arith))
        ]

    check_nonce-eq-ok :
        (c : Crypto) (nonce : String) (claims : j.Value)
        → check_nonce j J c nonce claims ≡ ok tt
        → HasNonce nonce claims
    unfolding check_nonce
    check_nonce-eq-ok c nonce claims h =
        let same : nonce_or_default j J (get_str j "nonce" claims) ≡ nonce =
          ground (arith, c.ct_eq_iff (nonce_or_default j J (get_str j "nonce" claims)) nonce) in
        elim (Option-cases (get_str j "nonce" claims)) [
          | inl missing ↦ inr (missing, sym (rw (missing, nonce_or_default) at same))
          | inr (found, e) ↦ inl (e ∙ ap some (rw (e, nonce_or_default) at same))
        ]

    -- The claims that pass the checks are those that were decoded.
    pub check_claims-eq-ok :
        (c : Crypto) (config : OAuth2Config) (oidc : OidcSettings) (header : Header)
        (nonce : String) (claims accepted : j.Value)
        → check_claims j J c config oidc nonce claims ≡ ok accepted
        → (claims ≡ accepted)
          × IsIssued oidc (validation_of config oidc header) claims
          × IsForClient config claims
          × HasNonce nonce claims
    unfolding check_claims
    check_claims-eq-ok c config oidc header nonce claims accepted h =
        let (_, issuer, rest) = >>=-eq-ok (check_issuer j J oidc claims) _ h in
        let (_, azp, last) = >>=-eq-ok (check_azp j J config claims) _ rest in
        let (_, same, out) = >>=-eq-ok (check_nonce j J c nonce claims) _ last in
        (
          ok-injective out,
          check_issuer-eq-ok config oidc header claims issuer,
          check_azp-eq-ok config claims azp,
          check_nonce-eq-ok c nonce claims same,
        )
