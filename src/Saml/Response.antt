-- ===== src/Saml/Response.antt =====
-- The validation of a SAML response in src/saml.rs, and the provider that does it.
use armature_auth.Prelude.{
  String, ◌*◌, ℤ, pos, ◌+ℤ◌, ltb_ℤ, Bool, List, [], ◌∷◌, ◌++◌, map, Option, none, some, ok, err,
  ◌>>=◌, ◌>>◌, ok_or, map_err, if◌then◌else◌, str_eq, Table,
}
use mathlib.Core.Option
use armature_auth.Error.{AuthResult, concat, authentication_failed, saml_validation}
use armature_auth.ApiKey.{nanos}
use armature_auth.Saml.{IdpMetadata, SamlAssertion, SamlConfig, url, xml}
use armature_auth.Saml.Schema.{
  Assertion, Attribute, AttributeStatement, AttributeValue, AuthnStatement, Builder, Conditions,
  EntityDescriptor, Entity, IdpSsoDescriptor, NameId, Samael, Subject, SubjectConfirmation,
}

abbrev pub replay_skew : ℤ
replay_skew = pos (5 * (60 * nanos))

abbrev pub replay_max_ttl : ℤ
replay_max_ttl = pos (24 * (60 * (60 * nanos)))

abbrev pub is_empty_text : String → Bool
is_empty_text s = str_eq s ""

-- The cache of a provider is passed to the operations that use it.
pub record SamlServiceProvider (x : Samael) : Type 0 where
  pub name : String
  pub config : SamlConfig
  pub idp_entity : Option (Entity x)

module _ (x : Samael) (J : Type 0) where
  abbrev pub parse_metadata : IdpMetadata → AuthResult J (Option (Entity x))
  parse_metadata (url _) = ok none
  parse_metadata (xml text) =
      map_err (λ e. saml_validation (concat "Failed to parse IdP metadata XML: " e)) (x.parse text)
      >>= λ entity. ok (some entity)

  unfoldable pub new : String → SamlConfig → AuthResult J (SamlServiceProvider x)
  new name config =
      if is_empty_text config.entity_id
      then err (authentication_failed "Entity ID is required")
      else if is_empty_text config.acs_url
      then err (authentication_failed "ACS URL is required")
      else parse_metadata config.idp_metadata >>= λ entity.
          ok (record { name = name; config = config; idp_entity = entity })

-- `entry(name).or_default().extend(values)`, over the statements in their order.
abbrev pub or_default : Option (List String) → List String
or_default none = []
or_default (some values) = values

abbrev pub present : List AttributeValue → List String
present [] = []
present (v ∷ vs) = elim (v.value) [ none ↦ present vs | some s ↦ s ∷ present vs ]

abbrev pub name_of : Attribute → Option String
name_of a = elim (a.name) [ some name ↦ some name | none ↦ a.friendly_name ]

module _ (t : Table (List String)) where
  abbrev pub add_named : Option String → List String → t.Map → t.Map
  add_named none values attributes = attributes
  add_named (some name) values attributes =
      t.insert name (or_default (t.get name attributes) ++ values) attributes

  abbrev pub add_attributes : List Attribute → t.Map → t.Map
  add_attributes [] attributes = attributes
  add_attributes (a ∷ rest) attributes =
      add_attributes rest (add_named (name_of a) (present a.values) attributes)

  abbrev pub add_statements : List AttributeStatement → t.Map → t.Map
  add_statements [] attributes = attributes
  add_statements (s ∷ rest) attributes =
      add_statements rest (add_attributes s.attributes attributes)

  unfoldable pub extract_saml_attributes : Assertion → t.Map
  extract_saml_attributes assertion = elim (assertion.attribute_statements) [
    | none ↦ t.empty
    | some statements ↦ add_statements statements t.empty
  ]

-- The least of two instants, and of a list of them.
abbrev pub min_ℤ : ℤ → ℤ → ℤ
min_ℤ a b = if ltb_ℤ b a then b else a

abbrev pub least : List ℤ → Option ℤ
least [] = none
least (a ∷ rest) = elim (least rest) [ none ↦ some a | some b ↦ some (min_ℤ a b) ]

abbrev pub confirmation_expiries : List SubjectConfirmation → List ℤ
confirmation_expiries [] = []
confirmation_expiries (confirmation ∷ rest) = elim (confirmation.subject_confirmation_data) [
  | none ↦ confirmation_expiries rest
  | some expiry ↦ elim expiry [
    | none ↦ confirmation_expiries rest
    | some at ↦ at ∷ confirmation_expiries rest
  ]
]

abbrev pub as_list : Option ℤ → List ℤ
as_list none = []
as_list (some at) = at ∷ []

abbrev pub confirmations_of : Option Subject → List SubjectConfirmation
confirmations_of none = []
confirmations_of (some s) = elim (s.subject_confirmations) [
  | none ↦ []
  | some confirmations ↦ confirmations
]

abbrev pub not_on_or_after_of : Option Conditions → Option ℤ
not_on_or_after_of none = none
not_on_or_after_of (some c) = c.not_on_or_after

-- The expiry of an assertion, and `now` a day later for one that has none.
unfoldable pub expires_at_of : ℤ → Assertion → ℤ
expires_at_of now assertion =
    elim (least (
      as_list (not_on_or_after_of (assertion.conditions))
      ++ confirmation_expiries (confirmations_of (assertion.subject)))) [
        | none ↦ now +ℤ replay_max_ttl
        | some at ↦ at
      ]

abbrev pub name_id_of : Option Subject → Option NameId
name_id_of none = none
name_id_of (some s) = s.name_id

abbrev pub session_index_of : Option (List AuthnStatement) → Option String
session_index_of none = none
session_index_of (some []) = none
session_index_of (some (s ∷ rest)) = s.session_index

-- `descriptor.key_descriptors.clear()` for each descriptor.
module _ {Key Rest : Type 0} where
  abbrev pub without_keys : IdpSsoDescriptor Key Rest → IdpSsoDescriptor Key Rest
  without_keys d = record d { key_descriptors = [] }

module _ {Key Rest Others : Type 0} where
  unfoldable pub clear_keys : EntityDescriptor Key Rest Others → EntityDescriptor Key Rest Others
  clear_keys entity = record entity {
    idp_sso_descriptors = Option.map (map without_keys) entity.idp_sso_descriptors;
  }

module _ (x : Samael) (J : Type 0) where
  abbrev pub no_metadata : String
  no_metadata =
      "IdP metadata must be provided as XML for response validation; URL-based metadata fetching is not implemented here"

  unfoldable pub settings : SamlConfig → Entity x → Builder (Entity x)
  settings config entity = record {
    entity_id = config.entity_id;
    acs_url = config.acs_url;
    idp_metadata = if config.allow_unsigned_assertions then clear_keys entity else entity;
    allow_idp_initiated = config.allow_idp_initiated;
  }

  -- Unless unsigned assertions are allowed, the crate must report signing certificates.
  unfoldable pub check_certificates : SamlConfig → x.ServiceProvider → AuthResult J (Unit {0})
  check_certificates config sp =
      if config.allow_unsigned_assertions then ok tt else elim (x.idp_signing_certs sp) [
        | err e ↦ err (saml_validation (concat "Failed to read IdP signing certificates: " e))
        | ok certificates ↦ elim certificates [
          | none ↦ err (
              saml_validation
                "IdP metadata contains no signing certificate; refusing to validate a SAML response without signature verification")
          | some _ ↦ ok tt
        ]
      ]

  -- The loop over the required attributes.
  abbrev pub check_required :
      (t : Table (List String)) → List String → t.Map → AuthResult J (Unit {0})
  check_required t [] attributes = ok tt
  check_required t (required ∷ rest) attributes = elim (t.get required attributes) [
    | none ↦ err (
        saml_validation
          (concat "Required SAML attribute '" (concat required "' is missing from the assertion")))
    | some _ ↦ check_required t rest attributes
  ]

  -- From the verified assertion to the one that is returned, with its expiry.
  unfoldable pub assertion_of :
      (t : Table (List String))
      → SamlConfig
      → ℤ
      → Assertion
      → AuthResult J (SamlAssertion t.Map × ℤ)
  unfolding extract_saml_attributes expires_at_of
  assertion_of t config now assertion = do
    let attributes = extract_saml_attributes t assertion
    check_required t config.required_attributes attributes
    name_id ←
        ok_or (name_id_of assertion.subject) (saml_validation "SAML assertion is missing a NameID")
    if is_empty_text assertion.id
        then err (saml_validation "SAML assertion is missing its ID")
        else ok (
          record {
            assertion_id = assertion.id;
            name_id = name_id.value;
            name_id_format = name_id.format;
            session_index = session_index_of assertion.authn_statements;
            attributes = attributes;
            issue_instant = assertion.issue_instant;
            not_on_or_after = not_on_or_after_of assertion.conditions;
          },
          expires_at_of now assertion,
        )

  unfoldable pub validate_response_verified :
      (t : Table (List String))
      → SamlServiceProvider x
      → ℤ
      → String
      → Option String
      → AuthResult J (SamlAssertion t.Map × ℤ)
  unfolding settings check_certificates assertion_of
  validate_response_verified t p now saml_response expected_request_id = do
    entity ← ok_or p.idp_entity (saml_validation no_metadata)
    sp ←
        map_err (λ e. saml_validation (concat "Failed to build SAML service provider: " e))
          (x.build (settings p.config entity))
    check_certificates p.config sp
    assertion ←
        map_err (λ e. saml_validation (concat "SAML response signature/condition check failed: " e))
          (x.parse_base64_response sp saml_response
            (Option.map (λ id. id ∷ []) expected_request_id))
    assertion_of t p.config now assertion
