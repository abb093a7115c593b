-- ===== src/Examples/Saml.antt =====
-- src/saml.rs: logins at one service provider.
use native.Mathlib.Omega.{arith}
use mathlib.Core.Path.{Path}
use armature_auth.Prelude.{
  codes, All, all, all_iff, Text, not, ◌&&◌, ◌==◌, ◌≢◌, String, pos, ◌+ℤ◌, ℕ, ℤ, map, ◌⊎◌, ◌↔◌,
  decimal, Bool, true, false, List, [], ◌∷◌, Option, none, some, ok, ◌≡◌, refl, trim, strip_prefix,
  trim_start, is_whitespace,
}
use armature_auth.Password.{split, starts_with}
use armature_auth.Saml.{SamlAuthRequest}
use armature_auth.Saml.Cache.{in_memory, prune_expired, remember}
use armature_auth.Saml.Schema.{Entity, http_redirect, http_post, Assertion}
use armature_auth.Saml.Response.{
  assertion_of, check_certificates, expires_at_of, extract_saml_attributes, settings,
  validate_response_verified,
}
use armature_auth.Saml.Request.{create_auth_request, pem_body, pem_line, pem_to_der}
use armature_auth.Saml.Provider.{
  check_relay_state, record_assertion, remember_until, validate_response,
  validate_unsolicited_response,
}
use armature_auth.Saml.Replay.{Call, decisions}
use armature_auth.Saml.Interleaved.{MeetsTrace, begin, run, run-MeetsTrace, step_at, step_one}
use armature_auth.Saml.Verified.{IsVerified}
use armature_auth.Saml.Accepted.{
  IsFirstUse, validate_response-eq-ok, validate_unsolicited_response-eq-ok,
}
use armature_auth.Saml.Login.{after_calls, validate_response_once}
use armature_auth.Saml.Attributes.{get-extract_saml_attributes}
use armature_auth.Saml.Pem.{IsPlain, Line, document, pem_body-document}
use armature_auth.Saml.Signed.{IsXmlOf, create_auth_request-eq-ok}
use armature_auth.Samples.{crypto}
use armature_auth.Samples.Saml.{
  ana, assertion, attributes, named, entity, instants, samael, service_provider,
}

-- The same assertion twice, another one, and the first again once it has expired.
abbrev calls : List Call
calls =
    record { assertion_id = "a1"; expires_at = pos 50; now = pos 10; ended = pos 11 }
    ∷ record { assertion_id = "a1"; expires_at = pos 60; now = pos 20; ended = pos 20 }
    ∷ record { assertion_id = "a2"; expires_at = pos 60; now = pos 20; ended = pos 21 }
    ∷ record { assertion_id = "a1"; expires_at = pos 90; now = pos 50; ended = pos 51 }
    ∷ []

-- Two calls with the same assertion at once: one is accepted.
abbrev at_once : List (ℕ × ℤ)
at_once =
    (0, pos 10)
    ∷ (1, pos 10)
    ∷ (0, pos 11)
    ∷ (1, pos 11)
    ∷ (1, pos 12)
    ∷ (0, pos 12)
    ∷ (1, pos 13)
    ∷ (0, pos 14)
    ∷ []

run-MeetsTrace_example :
    MeetsTrace
      (λ j. instants.get j [])
      (run instants at_once (begin instants (("a1", pos 50) ∷ ("a1", pos 60) ∷ [])) [])
run-MeetsTrace_example =
    run-MeetsTrace instants (pos 0) at_once (("a1", pos 50) ∷ ("a1", pos 60) ∷ []) [] (
      omega arith,
      (
        omega arith,
        (
          omega arith,
          (omega arith, (omega arith, (omega arith, (omega arith, (omega arith, tt))))),
        ),
      ),
    )

at_once_test :
    map
      (λ out. out.1)
      (run instants at_once (begin instants (("a1", pos 50) ∷ ("a1", pos 60) ∷ [])) [])
    ≡ true ∷ false ∷ []
unfolding run step_at step_one
at_once_test = refl

replay_test : decisions instants [] calls ≡ true ∷ false ∷ true ∷ true ∷ []
unfolding decisions remember prune_expired
replay_test = refl

abbrev J : Type 0
J = Unit {0}

accepted :
    validate_response samael J attributes
      (in_memory instants J (pos 110) (pos 110))
      service_provider
      crypto
      (pos 105)
      (pos 110)
      "a1"
      "q1"
      (some "relay")
      (some "relay")
      []
    ≡ (ok ana, ("a1", remember_until (pos 900) (pos 110)) ∷ [])
unfolding validate_response validate_response_verified in_memory remember prune_expired
    record_assertion check_relay_state settings check_certificates assertion_of
    extract_saml_attributes expires_at_of
accepted = refl

verified :
    validate_response_verified samael J attributes service_provider (pos 105) "a1" (some "q1")
    ≡ ok (ana, pos 900)
unfolding validate_response_verified settings check_certificates assertion_of
    extract_saml_attributes expires_at_of
verified = refl

validate_response-eq-ok_example :
    (Path (Option String) (some "relay") none ⊎ Path (Option String) (some "relay") (some "relay"))
    × ((expires_at : ℤ) × IsVerified samael J attributes service_provider
          (pos 105)
          "a1"
          (some "q1")
          ana
          expires_at
        × IsFirstUse samael J attributes service_provider
            (in_memory instants J (pos 110) (pos 110))
            (pos 110)
            ana
            expires_at
            []
            (("a1", remember_until (pos 900) (pos 110)) ∷ []))
validate_response-eq-ok_example =
    validate_response-eq-ok samael J attributes service_provider
      (in_memory instants J (pos 110) (pos 110)) crypto (pos 105) (pos 110) "a1" "q1" (some "relay")
      (some "relay") [] (("a1", remember_until (pos 900) (pos 110)) ∷ []) ana accepted

accepted_unsolicited :
    validate_unsolicited_response samael J attributes
      (in_memory instants J (pos 110) (pos 110))
      service_provider
      (pos 105)
      (pos 110)
      "a1"
      []
    ≡ (ok ana, ("a1", remember_until (pos 900) (pos 110)) ∷ [])
unfolding validate_unsolicited_response validate_response_verified in_memory remember prune_expired
    record_assertion settings check_certificates assertion_of extract_saml_attributes expires_at_of
accepted_unsolicited = refl

validate_unsolicited_response-eq-ok_example :
    Path Bool true true
    × ((expires_at : ℤ) × IsVerified samael J attributes service_provider
          (pos 105)
          "a1"
          none
          ana
          expires_at
        × IsFirstUse samael J attributes service_provider
            (in_memory instants J (pos 110) (pos 110))
            (pos 110)
            ana
            expires_at
            []
            (("a1", remember_until (pos 900) (pos 110)) ∷ []))
validate_unsolicited_response-eq-ok_example =
    validate_unsolicited_response-eq-ok samael J attributes service_provider
      (in_memory instants J (pos 110) (pos 110)) (pos 105) (pos 110) "a1" []
      (("a1", remember_until (pos 900) (pos 110)) ∷ []) ana accepted_unsolicited

-- Attributes known by their names and by their friendly names.
abbrev labelled : Assertion
labelled = record assertion {
  attribute_statements = some (
      record {
        attributes =
            named "mail" "ana@x"
            ∷ record (named "role" "user") { friendly_name = some "other" }
            ∷ record (named "" "admin") { name = none; friendly_name = some "role" }
            ∷ [];
      }
      ∷ []);
}

get-extract_saml_attributes_example :
    attributes.get "role" (extract_saml_attributes attributes labelled)
    ≡ some ("user" ∷ "admin" ∷ [])
get-extract_saml_attributes_example = get-extract_saml_attributes attributes "role" labelled

-- Another login in between, and a response with another assertion.
abbrev between : List Call
between = record { assertion_id = "a3"; expires_at = pos 500; now = pos 120; ended = pos 121 } ∷ []

accepted_later :
    validate_response samael J attributes
      (in_memory instants J (pos 130) (pos 131))
      service_provider
      crypto
      (pos 125)
      (pos 130)
      "a2"
      "q2"
      none
      none
      (after_calls instants (("a1", remember_until (pos 900) (pos 110)) ∷ []) between)
    ≡ (
      ok (record ana { assertion_id = "a2" }),
      ("a2", remember_until (pos 900) (pos 130))
          ∷ ("a3", pos 500)
          ∷ ("a1", remember_until (pos 900) (pos 110))
          ∷ [],
    )
unfolding validate_response validate_response_verified in_memory remember prune_expired
    record_assertion check_relay_state settings check_certificates assertion_of
    extract_saml_attributes expires_at_of after_calls
accepted_later = refl

validate_response_once_example : ¬ Path String "a2" "a1"
unfolding remember_until ◌+ℤ◌
validate_response_once_example =
    validate_response_once instants samael J attributes service_provider crypto (pos 105) (pos 110)
      (pos 110) "a1" "q1" (some "relay") (some "relay") []
      (("a1", remember_until (pos 900) (pos 110)) ∷ []) ana (pos 900) verified accepted between
      ((omega arith, omega arith), tt) (pos 125) (pos 130) (pos 131) (omega arith) (omega arith)
      "a2" "q2" none none (record ana { assertion_id = "a2" })
      (("a2", remember_until (pos 900) (pos 130))
        ∷ ("a3", pos 500)
        ∷ ("a1", remember_until (pos 900) (pos 110))
        ∷ [])
      accepted_later

abbrev signed_request : SamlAuthRequest
signed_request = record {
  saml_request = "signed:q1";
  request_id = "q1";
  relay_state = some "1.2.";
  redirect_url = "https://idp/sso";
}

signed : create_auth_request samael J crypto service_provider "q1" (1 ∷ 2 ∷ []) ≡ ok signed_request
unfolding create_auth_request pem_to_der pem_body pem_line trim trim_start is_whitespace split
    starts_with strip_prefix decimal
signed = refl

create_auth_request-eq-ok_example :
    (e : Entity samael) × (sp : samael.ServiceProvider) × (request : String) × (text : String)
    × (Path (Option (Entity samael)) (some entity) (some e))
    × (samael.build (record {
      entity_id = "sp";
      acs_url = "https://sp/acs";
      idp_metadata = e;
      allow_idp_initiated = true;
    })
        ≡ ok sp)
    × ((samael.sso_binding_location sp http_redirect ≡ some "https://idp/sso")
        ⊎ ((samael.sso_binding_location sp http_redirect ≡ none)
            × (samael.sso_binding_location sp http_post ≡ some "https://idp/sso")))
    × (samael.make_authentication_request "q1" sp "https://idp/sso" ≡ ok request)
    × ("q1" ≡ samael.request_id request)
    × IsXmlOf samael J (some "C") (some "K") request text
    × ("signed:q1" ≡ samael.encode text)
    × Path (Option String) (some "1.2.") (some (crypto.url_safe_no_pad (1 ∷ 2 ∷ [])))
create_auth_request-eq-ok_example =
    create_auth_request-eq-ok samael J crypto service_provider "q1" (1 ∷ 2 ∷ []) signed_request
      signed

-- A certificate over two lines, the second with a carriage return.
abbrev armoured : List Line
armoured =
    record { text = codes "-----BEGIN CERTIFICATE-----"; has_return = false }
    ∷ record { text = codes "QUJD"; has_return = false }
    ∷ record { text = codes "REVG"; has_return = true }
    ∷ record { text = codes "-----END CERTIFICATE-----"; has_return = false }
    ∷ []

abbrev is_unbroken : ℕ → Bool
is_unbroken ch = not (ch == 10) && not (ch == 13)

is_unbroken_iff : (ch : ℕ) → (is_unbroken ch ≡ true) ↔ ((ch ≢ 10) × (ch ≢ 13))
is_unbroken_iff ch = grind arith

unbroken : (s : Text) → all is_unbroken s ≡ true → All (λ ch. (ch ≢ 10) × (ch ≢ 13)) s
unbroken s h = (all_iff is_unbroken (λ ch. (ch ≢ 10) × (ch ≢ 13)) is_unbroken_iff s).0 h

armoured-IsPlain : All IsPlain armoured
unfolding is_whitespace
armoured-IsPlain = (
  ((refl, refl), unbroken (codes "-----BEGIN CERTIFICATE-----") refl),
  (
    ((refl, refl), unbroken (codes "QUJD") refl),
    (
      ((refl, refl), unbroken (codes "REVG") refl),
      (((refl, refl), unbroken (codes "-----END CERTIFICATE-----") refl), tt),
    ),
  ),
)

pem_body-document_example : pem_body (document armoured) ≡ codes "QUJDREVG"
unfolding starts_with strip_prefix
pem_body-document_example = pem_body-document armoured armoured-IsPlain
