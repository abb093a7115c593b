-- ===== src/Saml.antt =====
-- src/saml.rs: the settings of a SAML service provider and the data that it hands out. Instants are
-- nanoseconds.
pub mod Cache
pub mod Schema
pub mod Response
pub mod Request
pub mod Metadata
pub mod Replay
pub mod Interleaved
pub mod Attributes
pub mod Verified
pub mod Accepted
pub mod Provider
pub mod Login
pub mod Signed
pub mod Pem
use armature_auth.Prelude.{String, ℤ, Bool, false, List, [], Option, none, some}

pub record SamlAuthRequest : Type 0 where
  pub saml_request : String
  pub request_id : String
  pub relay_state : Option String
  pub redirect_url : String

-- `Attributes` is the type of the map of attributes.
pub record SamlAssertion (Attributes : Type 0) : Type 0 where
  pub assertion_id : String
  pub name_id : String
  pub name_id_format : Option String
  pub session_index : Option String
  pub attributes : Attributes
  pub issue_instant : ℤ
  pub not_on_or_after : Option ℤ

pub data IdpMetadata : Type 0 where
  url xml : String → IdpMetadata

pub record ContactInfo : Type 0 where
  pub contact_type : String
  pub given_name : String
  pub surname : String
  pub email : String

pub record SamlConfig : Type 0 where
  pub entity_id : String
  pub acs_url : String
  pub sls_url : Option String
  pub idp_metadata : IdpMetadata
  pub sp_certificate : Option String
  pub sp_private_key : Option String
  pub contact_person : Option ContactInfo
  pub allow_unsigned_assertions : Bool
  pub allow_idp_initiated : Bool
  pub required_attributes : List String

abbrev pub new_config : String → String → IdpMetadata → SamlConfig
new_config entity_id acs_url idp_metadata = record {
  entity_id = entity_id;
  acs_url = acs_url;
  sls_url = none;
  idp_metadata = idp_metadata;
  sp_certificate = none;
  sp_private_key = none;
  contact_person = none;
  allow_unsigned_assertions = false;
  allow_idp_initiated = false;
  required_attributes = [];
}

abbrev pub with_sls_url : SamlConfig → String → SamlConfig
with_sls_url config sls_url = record config { sls_url = some sls_url }

abbrev pub with_keys : SamlConfig → String → String → SamlConfig
with_keys config certificate private_key = record config {
  sp_certificate = some certificate;
  sp_private_key = some private_key;
}

abbrev pub with_contact : SamlConfig → ContactInfo → SamlConfig
with_contact config contact = record config { contact_person = some contact }

abbrev pub allow_unsigned : SamlConfig → Bool → SamlConfig
allow_unsigned config allow = record config { allow_unsigned_assertions = allow }

abbrev pub allow_idp_initiated : SamlConfig → Bool → SamlConfig
allow_idp_initiated config allow = record config { allow_idp_initiated = allow }

abbrev pub with_required_attributes : SamlConfig → List String → SamlConfig
with_required_attributes config attributes = record config { required_attributes = attributes }
