-- ===== src/Saml/Accepted.antt =====
-- src/saml.rs: what an assertion that the provider returns guarantees.
use armature_auth.Prelude.{
  String, ℤ, Bool, not, if◌then◌else◌, true, false, ◌≡◌, refl, sym, ap, ◌∙◌, ◌⊎◌, inl, inr, List,
  Option, none, some, ok, err, ok-injective, Bool-cases, Result-cases, Table,
}
use armature_auth.Error.{AuthError, AuthResult}
use armature_auth.Crypto.{Crypto}
use armature_auth.Saml.{SamlAssertion}
use armature_auth.Saml.Cache.{AssertionReplayCache}
use armature_auth.Saml.Schema.{Samael}
use armature_auth.Saml.Response.{SamlServiceProvider, validate_response_verified}
use armature_auth.Saml.Provider.{
  answer_of, check_relay_state, record_assertion, record_verified, remember_until,
  validate_response, validate_unsolicited_response,
}
use armature_auth.Saml.Verified.{IsVerified, validate_response_verified-eq-ok}

module _ (x : Samael) (J : Type 0) (t : Table (List String)) (p : SamlServiceProvider x)
    {S : Type 0} (cache : AssertionReplayCache J S) where
  -- The cache was asked at `recorded_at`, and answered that this is the first use.
  abbrev pub IsFirstUse : ℤ → SamlAssertion t.Map → ℤ → S → S → Type 0
  IsFirstUse recorded_at a expires_at s s' =
      cache.check_and_insert a.assertion_id (remember_until expires_at recorded_at) s
      ≡ (ok true, s')

  answer_of-eq-ok :
      (assertion a : SamlAssertion t.Map) (answer : AuthResult J Bool × S) (s' : S)
      → Path
          (AuthResult J (SamlAssertion t.Map) × S)
          (answer_of J cache assertion answer.0, answer.1)
          (ok a, s')
      → (assertion ≡ a) × (answer ≡ (ok true, s'))
  answer_of-eq-ok assertion a (ok true, s'') s' h =
      (ok-injective (ap (λ out. out.0) h), ap (λ out. (ok true, out.1)) h)
  answer_of-eq-ok assertion a (ok false, s'') s' h = let stop = ap (λ out. out.0) h in cc
  answer_of-eq-ok assertion a (err e, s'') s' h = let stop = ap (λ out. out.0) h in cc

  record_verified-eq-ok :
      (recorded_at : ℤ) (verified : AuthResult J (SamlAssertion t.Map × ℤ)) (s s' : S)
      (a : SamlAssertion t.Map)
      → record_verified x J t cache p recorded_at verified s ≡ (ok a, s')
      → (expires_at : ℤ) × (verified ≡ ok (a, expires_at))
        × IsFirstUse recorded_at a expires_at s s'
  unfolding record_assertion
  record_verified-eq-ok recorded_at (err e) s s' a h = let stop = ap (λ out. out.0) h in cc
  record_verified-eq-ok recorded_at (ok (assertion, expires_at)) s s' a h =
      let (same, asked) =
        answer_of-eq-ok assertion a
          (cache.check_and_insert assertion.assertion_id (remember_until expires_at recorded_at) s)
          s' h in
      (
        expires_at,
        ap (λ b. ok (b, expires_at)) same,
        ap (λ b. cache.check_and_insert b.assertion_id (remember_until expires_at recorded_at) s)
              (sym same)
            ∙ asked,
      )

  check_relay_state-eq-ok :
      (c : Crypto) (expected received : Option String)
      → check_relay_state x J c expected received ≡ ok tt
      → (expected ≡ none) ⊎ (expected ≡ received)
  unfolding check_relay_state
  check_relay_state-eq-ok c none received h = inl refl
  check_relay_state-eq-ok c (some expected) none h = cc
  check_relay_state-eq-ok c (some expected) (some received) h =
      elim (Bool-cases (c.ct_eq expected received)) [
        | inl same ↦ inr (ap some ((c.ct_eq_iff expected received).0 same))
        | inr differs ↦ (let stop = rw (check_relay_state, differs) at h in cc)
      ]

  pub validate_response-record_verified :
      (c : Crypto) (now recorded_at : ℤ) (saml_response expected_id : String)
      (expected_relay received_relay : Option String) (s s' : S) (a : SamlAssertion t.Map)
      → validate_response x J t cache p c now recorded_at saml_response expected_id expected_relay
          received_relay s
        ≡ (ok a, s')
      → ((expected_relay ≡ none) ⊎ (expected_relay ≡ received_relay))
        × ((expires_at : ℤ) × (validate_response_verified x J t p now saml_response
                (some expected_id)
              ≡ ok (a, expires_at))
            × IsFirstUse recorded_at a expires_at s s')
  unfolding validate_response
  validate_response-record_verified c now recorded_at saml_response expected_id expected_relay
        received_relay s s' a h =
      elim (Result-cases (check_relay_state x J c expected_relay received_relay)) [
        | inr (e, f) ↦ (let stop = ap (λ out. out.0) (rw (validate_response, f) at h) in cc)
        | inl (u, relayed) ↦ (
          check_relay_state-eq-ok c expected_relay received_relay relayed,
          record_verified-eq-ok recorded_at
              (validate_response_verified x J t p now saml_response (some expected_id)) s s' a
              (rw (validate_response, relayed) at h),
        )
      ]

  -- An assertion that `validate_response` returns came with the relay state that was issued, if one
  -- was; the `samael` crate accepted its response as an answer to the expected request, under the
  -- provider's settings, and reported signing certificates of the metadata unless unsigned assertions
  -- are allowed; it is the accepted assertion, with a NameID, an identifier and all required
  -- attributes; and the replay cache answered that this is its first use.
  pub validate_response-eq-ok :
      (c : Crypto) (now recorded_at : ℤ) (saml_response expected_id : String)
      (expected_relay received_relay : Option String) (s s' : S) (a : SamlAssertion t.Map)
      → validate_response x J t cache p c now recorded_at saml_response expected_id expected_relay
          received_relay s
        ≡ (ok a, s')
      → ((expected_relay ≡ none) ⊎ (expected_relay ≡ received_relay))
        × ((expires_at : ℤ) × IsVerified x J t p now saml_response (some expected_id) a expires_at
            × IsFirstUse recorded_at a expires_at s s')
  validate_response-eq-ok c now recorded_at saml_response expected_id expected_relay received_relay
        s s' a h =
      let (relayed, (expires_at, verified, first_use)) =
        validate_response-record_verified c now recorded_at saml_response expected_id expected_relay
          received_relay s s' a h in
      (
        relayed,
        (
          expires_at,
          validate_response_verified-eq-ok x J t p now saml_response (some expected_id) a expires_at
              verified,
          first_use,
        ),
      )

  guarded-eq-ok :
      (b : Bool) (e : AuthError J) (out : AuthResult J (SamlAssertion t.Map) × S) (s s' : S)
      (a : SamlAssertion t.Map)
      → (if not b then (err e, s) else out) ≡ (ok a, s')
      → (b ≡ true) × (out ≡ (ok a, s'))
  guarded-eq-ok true e out s s' a h = (refl, h)
  guarded-eq-ok false e out s s' a h = let stop = ap (λ r. r.0) h in cc

  -- An unsolicited response yields an assertion only if the settings allow it; the guarantees are
  -- those of a response that answers no request.
  pub validate_unsolicited_response-eq-ok :
      (now recorded_at : ℤ) (saml_response : String) (s s' : S) (a : SamlAssertion t.Map)
      → validate_unsolicited_response x J t cache p now recorded_at saml_response s ≡ (ok a, s')
      → (p.config.allow_idp_initiated ≡ true)
        × ((expires_at : ℤ) × IsVerified x J t p now saml_response none a expires_at
            × IsFirstUse recorded_at a expires_at s s')
  unfolding validate_unsolicited_response
  validate_unsolicited_response-eq-ok now recorded_at saml_response s s' a h =
      let (on, answered) = guarded-eq-ok p.config.allow_idp_initiated _ _ s s' a h in
      let (expires_at, verified, first_use) =
        record_verified-eq-ok recorded_at
          (validate_response_verified x J t p now saml_response none) s s' a answered in
      (
        on,
        (
          expires_at,
          validate_response_verified-eq-ok x J t p now saml_response none a expires_at verified,
          first_use,
        ),
      )
