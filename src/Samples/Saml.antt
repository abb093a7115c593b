-- ===== src/Samples/Saml.antt =====
-- A concrete `samael`, for the examples: each response is the
-- identifier of the assertion that it holds.
use armature_auth.Prelude.{String, ℤ, pos, true, List, [], ◌∷◌, none, some, ok, Table, assoc}
use armature_auth.Error.{concat}
use armature_auth.Saml.{
  SamlAssertion, SamlConfig, new_config, with_keys, with_required_attributes, allow_idp_initiated,
  xml,
}
use armature_auth.Saml.Schema.{
  Assertion, Attribute, Builder, EntityDescriptor, Samael, http_redirect, http_post,
}
use armature_auth.Saml.Response.{SamlServiceProvider}

abbrev pub named : String → String → Attribute
named name value = record {
  name = some name;
  friendly_name = none;
  values = record { value = some value } ∷ record { value = none } ∷ [];
}

abbrev pub assertion : Assertion
assertion = record {
  id = "a1";
  issue_instant = pos 100;
  subject = some (record {
    name_id = some (record { value = "ana"; format = none });
    subject_confirmations =
        some (record { subject_confirmation_data = some (some (pos 900)) } ∷ []);
  });
  conditions = some (record { not_on_or_after = some (pos 1000) });
  authn_statements = some (record { session_index = some "s1" } ∷ []);
  attribute_statements = some (
      record { attributes = named "mail" "ana@x" ∷ named "role" "user" ∷ [] }
      ∷ record { attributes = named "role" "admin" ∷ [] }
      ∷ []);
}

abbrev pub entity : EntityDescriptor String (Unit {0}) (Unit {0})
entity = record { idp_sso_descriptors = some []; others = tt }

-- A request is its identifier.
abbrev pub samael : Samael
samael = record {
  Key = String;
  Rest = Unit {0};
  Others = Unit {0};
  Certificate = String;
  ServiceProvider = Builder (EntityDescriptor String (Unit {0}) (Unit {0}));
  AuthnRequest = String;
  Seed = String;
  parse = λ text. ok entity;
  build = λ b. ok b;
  idp_signing_certs = λ sp. ok (some ("certificate" ∷ []));
  parse_base64_response = λ sp response ids. ok (record assertion { id = response });
  sso_binding_location = λ sp binding. elim binding [
    | http_redirect ↦ some "https://idp/sso"
    | http_post ↦ some "https://idp/post"
  ];
  make_authentication_request = λ seed sp location. ok seed;
  request_id = λ request. request;
  with_signature_template = λ der request. request;
  to_xml = λ request. ok request;
  sign_xml = λ unsigned der. ok (concat "signed:" unsigned);
  encode = λ text. text;
  decode = λ text. ok text;
}

abbrev pub sp_config : SamlConfig
sp_config =
    allow_idp_initiated
      (with_required_attributes (with_keys (new_config "sp" "https://sp/acs" (xml "<md/>")) "C" "K")
        ("mail" ∷ []))
      true

abbrev pub service_provider : SamlServiceProvider samael
service_provider = record { name = "saml"; config = sp_config; idp_entity = some entity }

abbrev pub attributes : Table (List String)
attributes = assoc (List String)

-- The instants under which an identifier is remembered.
abbrev pub instants : Table ℤ
instants = assoc ℤ

-- What the provider returns for the assertion.
abbrev pub ana : SamlAssertion (List (String × List String))
ana = record {
  assertion_id = "a1";
  name_id = "ana";
  name_id_format = none;
  session_index = some "s1";
  attributes = ("role", "user" ∷ "admin" ∷ []) ∷ ("mail", "ana@x" ∷ []) ∷ [];
  issue_instant = pos 100;
  not_on_or_after = some (pos 1000);
}
