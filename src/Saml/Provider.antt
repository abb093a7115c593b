-- ===== src/Saml/Provider.antt =====
-- `validate_response` and `validate_unsolicited_response` of src/saml.rs, over the state of the replay
-- cache. `now` is the clock in the validation, `recorded_at` in `record_assertion`.
use armature_auth.Prelude.{
  String, ℤ, ◌+ℤ◌, Bool, not, List, Option, none, some, ok, err, if◌then◌else◌, Table,
}
use armature_auth.Error.{AuthResult, concat, saml_validation}
use armature_auth.Crypto.{Crypto}
use armature_auth.Saml.{SamlAssertion}
use armature_auth.Saml.Cache.{AssertionReplayCache}
use armature_auth.Saml.Response.{
  SamlServiceProvider, min_ℤ, replay_max_ttl, replay_skew, validate_response_verified,
}
use armature_auth.Saml.Schema.{Samael}

-- How long an assertion is remembered.
unfoldable pub remember_until : ℤ → ℤ → ℤ
remember_until expires_at now = min_ℤ (expires_at +ℤ replay_skew) (now +ℤ replay_max_ttl)

module _ (J : Type 0) {S Attributes : Type 0} (cache : AssertionReplayCache J S) where
  abbrev pub answer_of :
      SamlAssertion Attributes → AuthResult J Bool → AuthResult J (SamlAssertion Attributes)
  answer_of assertion (err e) = err e
  answer_of assertion (ok first_use) =
      if first_use
      then ok assertion
      else err (
          saml_validation (
            concat "SAML assertion "
              (concat assertion.assertion_id " has already been used (replay)")))

  unfoldable pub record_assertion :
      ℤ → SamlAssertion Attributes × ℤ → S → AuthResult J (SamlAssertion Attributes) × S
  unfolding remember_until
  record_assertion now (assertion, expires_at) s =
      let out = cache.check_and_insert assertion.assertion_id (remember_until expires_at now) s in
      (answer_of assertion out.0, out.1)

module _ (x : Samael) (J : Type 0) where
  unfoldable pub check_relay_state :
      Crypto → Option String → Option String → AuthResult J (Unit {0})
  check_relay_state c none received = ok tt
  check_relay_state c (some expected) none =
      err (saml_validation "SAML response is missing the RelayState issued with the AuthnRequest")
  check_relay_state c (some expected) (some received) =
      if not (c.ct_eq expected received)
      then err
          (saml_validation "SAML RelayState does not match the value issued with the AuthnRequest")
      else ok tt

  module _ {S : Type 0} (t : Table (List String)) (cache : AssertionReplayCache J S)
      (p : SamlServiceProvider x) where
    abbrev pub record_verified :
        ℤ → AuthResult J (SamlAssertion t.Map × ℤ) → S → AuthResult J (SamlAssertion t.Map) × S
    record_verified recorded_at (err e) s = (err e, s)
    record_verified recorded_at (ok verified) s = record_assertion J cache recorded_at verified s

    unfoldable pub validate_response :
        Crypto
        → ℤ
        → ℤ
        → String
        → String
        → Option String
        → Option String
        → S
        → AuthResult J (SamlAssertion t.Map) × S
    unfolding check_relay_state record_assertion
    validate_response c now recorded_at saml_response expected_request_id expected_relay
          received_relay s =
        elim (check_relay_state c expected_relay received_relay) [
          | err e ↦ (err e, s)
          | ok _ ↦
              record_verified recorded_at
                (validate_response_verified x J t p now saml_response (some expected_request_id)) s
        ]

    unfoldable pub validate_unsolicited_response :
        ℤ → ℤ → String → S → AuthResult J (SamlAssertion t.Map) × S
    unfolding record_assertion
    validate_unsolicited_response now recorded_at saml_response s =
        if not (p.config.allow_idp_initiated)
        then (
          err (
              saml_validation
                "unsolicited (IdP-initiated) SAML responses are disabled; enable SamlConfig::allow_idp_initiated to accept them"),
          s,
        )
        else record_verified recorded_at (validate_response_verified x J t p now saml_response none)
            s
