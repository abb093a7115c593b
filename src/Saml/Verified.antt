-- ===== src/Saml/Verified.antt =====
-- src/saml.rs: what a response that passes `validate_response_verified` guarantees.
use mathlib.Core.Option
use armature_auth.Prelude.{
  String, ℤ, true, false, ◌≡◌, sym, ap, ◌∙◌, ◌⊎◌, inl, inr, List, [], ◌∷◌, Option, some, ok,
  ok-injective, Bool-cases, Option-cases, Result-cases, Table, All,
}
use armature_auth.Saml.{SamlAssertion, SamlConfig}
use armature_auth.Saml.Schema.{Assertion, Entity, NameId, Samael}
use armature_auth.Saml.Response.{
  SamlServiceProvider, assertion_of, check_certificates, check_required, expires_at_of,
  extract_saml_attributes, is_empty_text, name_id_of, settings, validate_response_verified,
}

module _ (x : Samael) (J : Type 0) where
  -- The crate reports signing certificates of the metadata, unless unsigned assertions are allowed.
  abbrev pub HasCertificate : SamlConfig → x.ServiceProvider → Type 0
  HasCertificate config sp =
      (config.allow_unsigned_assertions ≡ true)
      ⊎ ((certificates : List x.Certificate) × (x.idp_signing_certs sp ≡ ok (some certificates)))

  check_certificates-eq-ok :
      (config : SamlConfig) (sp : x.ServiceProvider)
      → check_certificates x J config sp ≡ ok tt
      → HasCertificate config sp
  unfolding check_certificates
  check_certificates-eq-ok config sp h = elim (Bool-cases config.allow_unsigned_assertions) [
    | inl on ↦ inl on
    | inr off ↦ elim (Result-cases (x.idp_signing_certs sp)) [
      | inr (e, f) ↦ (let stop = rw (check_certificates, off, f) at h in cc)
      | inl (certificates, f) ↦ elim (Option-cases certificates) [
        | inl missing ↦ (let stop = rw (check_certificates, off, f, missing) at h in cc)
        | inr (found, g) ↦ inr (found, f ∙ ap ok g)
      ]
    ]
  ]

module _ (J : Type 0) (t : Table (List String)) where
  -- The attribute is in the map.
  abbrev pub HasAttribute : t.Map → String → Type 0
  HasAttribute attributes name = (values : List String) × (t.get name attributes ≡ some values)

  check_required-eq-ok :
      (x : Samael) (required : List String) (attributes : t.Map)
      → check_required x J t required attributes ≡ ok tt
      → All (HasAttribute attributes) required
  check_required-eq-ok x [] attributes h = tt
  check_required-eq-ok x (name ∷ rest) attributes h = elim (Option-cases (t.get name attributes)) [
    | inl missing ↦ (let stop = rw (check_required, missing) at h in cc)
    | inr (values, found) ↦
        ((values, found), check_required-eq-ok x rest attributes (rw (check_required, found) at h))
  ]

  -- The returned assertion is the library's: its identifier and its subject's name, the identifier not
  -- empty, with all its attributes, among them the required ones.
  abbrev pub IsTakenFrom : SamlConfig → Assertion → SamlAssertion t.Map → Type 0
  IsTakenFrom config assertion a =
      (a.assertion_id ≡ assertion.id)
      × (is_empty_text assertion.id ≡ false)
      × ((n : NameId) × (name_id_of assertion.subject ≡ some n) × (a.name_id ≡ n.value))
      × (a.attributes ≡ extract_saml_attributes t assertion)
      × All (HasAttribute a.attributes) config.required_attributes

  assertion_of-eq-ok :
      (x : Samael) (config : SamlConfig) (now : ℤ) (assertion : Assertion) (a : SamlAssertion t.Map)
      (expires_at : ℤ)
      → assertion_of x J t config now assertion ≡ ok (a, expires_at)
      → IsTakenFrom config assertion a × (expires_at ≡ expires_at_of now assertion)
  unfolding assertion_of
  assertion_of-eq-ok x config now assertion a expires_at h =
      elim (Result-cases
        (check_required x J t config.required_attributes (extract_saml_attributes t assertion))) [
          | inr (e, f) ↦ (let stop = rw (assertion_of, f) at h in cc)
          | inl (tt, required) ↦ elim (Option-cases (name_id_of assertion.subject)) [
            | inl missing ↦ (let stop = rw (assertion_of, required, missing) at h in cc)
            | inr (n, named) ↦ elim (Bool-cases (is_empty_text assertion.id)) [
              | inl empty ↦ (let stop = rw (assertion_of, required, named, empty) at h in cc)
              | inr full ↦
                  let same = ok-injective (rw (assertion_of, required, named, full) at h) in
                  let has =
                    check_required-eq-ok x config.required_attributes
                      (extract_saml_attributes t assertion) required in
                  (
                    (
                      ap (λ out. out.0.assertion_id) (sym same),
                      full,
                      (n, named, ap (λ out. out.0.name_id) (sym same)),
                      ap (λ out. out.0.attributes) (sym same),
                      rw (ap (λ out. out.0.attributes) (sym same)) has,
                    ),
                    ap (λ out. out.1) (sym same),
                  )
            ]
          ]
        ]

module _ (x : Samael) (J : Type 0) (t : Table (List String)) (p : SamlServiceProvider x) where
  -- The library accepted the response as an answer to one of the requests, under the provider's
  -- settings and with its certificates, and the returned assertion is the library's.
  abbrev pub IsVerified : ℤ → String → Option String → SamlAssertion t.Map → ℤ → Type 0
  IsVerified now saml_response expected a expires_at =
      (entity : Entity x) × (sp : x.ServiceProvider) × (assertion : Assertion) × (p.idp_entity
        ≡ some entity)
      × (x.build (settings x J p.config entity) ≡ ok sp)
      × HasCertificate x J p.config sp
      × (x.parse_base64_response sp saml_response (Option.map (λ id. id ∷ []) expected)
          ≡ ok assertion)
      × IsTakenFrom J t p.config assertion a
      × (expires_at ≡ expires_at_of now assertion)

  pub validate_response_verified-eq-ok :
      (now : ℤ) (saml_response : String) (expected : Option String) (a : SamlAssertion t.Map)
      (expires_at : ℤ)
      → validate_response_verified x J t p now saml_response expected ≡ ok (a, expires_at)
      → IsVerified now saml_response expected a expires_at
  unfolding validate_response_verified
  validate_response_verified-eq-ok now saml_response expected a expires_at h =
      elim (Option-cases p.idp_entity) [
        | inl missing ↦ (let stop = rw (validate_response_verified, missing) at h in cc)
        | inr (entity, e) ↦ elim (Result-cases (x.build (settings x J p.config entity))) [
          | inr (error, f) ↦ (let stop = rw (validate_response_verified, e, f) at h in cc)
          | inl (sp, built) ↦ elim (Result-cases (check_certificates x J p.config sp)) [
            | inr (error, f) ↦ (let stop = rw (validate_response_verified, e, built, f) at h in cc)
            | inl (tt, signed) ↦
                elim (Result-cases (
                  x.parse_base64_response sp saml_response (Option.map (λ id. id ∷ []) expected))) [
                    | inr (error, f) ↦
                        (let stop = rw (validate_response_verified, e, built, signed, f) at h in cc)
                    | inl (assertion, parsed) ↦
                        let taken =
                          assertion_of-eq-ok J t x p.config now assertion a expires_at
                            (rw (validate_response_verified, e, built, signed, parsed) at h) in
                        (
                          entity,
                          sp,
                          assertion,
                          e,
                          built,
                          check_certificates-eq-ok x J p.config sp signed,
                          parsed,
                          taken.0,
                          taken.1,
                        )
                  ]
          ]
        ]
      ]
