-- ===== src/Saml/Schema.antt =====
-- What src/saml.rs reads of the `samael` crate (not under src/): the schema of assertions, metadata,
-- and the functions of its service provider, as an interface.
use armature_auth.Prelude.{String, ℕ, ℤ, Bool, List, Option, Result}

pub record AttributeValue : Type 0 where
  pub value : Option String

pub record Attribute : Type 0 where
  pub name : Option String
  pub friendly_name : Option String
  pub values : List AttributeValue

pub record AttributeStatement : Type 0 where
  pub attributes : List Attribute

pub record NameId : Type 0 where
  pub value : String
  pub format : Option String

-- A subject confirmation, by the expiry of its data; `none` outside is a confirmation without data.
pub record SubjectConfirmation : Type 0 where
  pub subject_confirmation_data : Option (Option ℤ)

pub record Subject : Type 0 where
  pub name_id : Option NameId
  pub subject_confirmations : Option (List SubjectConfirmation)

pub record AuthnStatement : Type 0 where
  pub session_index : Option String

pub record Conditions : Type 0 where
  pub not_on_or_after : Option ℤ

pub record Assertion : Type 0 where
  pub id : String
  pub issue_instant : ℤ
  pub subject : Option Subject
  pub conditions : Option Conditions
  pub authn_statements : Option (List AuthnStatement)
  pub attribute_statements : Option (List AttributeStatement)

-- An `IDPSSODescriptor`, and the `EntityDescriptor` around it, with what the code does not touch.
pub record IdpSsoDescriptor (Key Rest : Type 0) : Type 0 where
  pub key_descriptors : List Key
  pub rest : Rest

pub record EntityDescriptor (Key Rest Others : Type 0) : Type 0 where
  pub idp_sso_descriptors : Option (List (IdpSsoDescriptor Key Rest))
  pub others : Others

-- The settings of `ServiceProviderBuilder` that the code makes.
pub record Builder (Entity : Type 0) : Type 0 where
  pub entity_id : String
  pub acs_url : String
  pub idp_metadata : Entity
  pub allow_idp_initiated : Bool

pub data Binding : Type 0 where
  http_redirect http_post : Binding

pub record Samael : Type 1 where
  pub Key : Type 0
  pub Rest : Type 0
  pub Others : Type 0
  pub Certificate : Type 0
  pub ServiceProvider : Type 0
  pub AuthnRequest : Type 0
  -- The randomness of a request's identifier.
  pub Seed : Type 0
  pub parse : String → Result String (EntityDescriptor Key Rest Others)
  pub build : Builder (EntityDescriptor Key Rest Others) → Result String ServiceProvider
  pub idp_signing_certs : ServiceProvider → Result String (Option (List Certificate))
  -- `parse_base64_response`, with the identifiers of requests that may be answered.
  pub parse_base64_response :
      ServiceProvider → String → Option (List String) → Result String Assertion
  pub sso_binding_location : ServiceProvider → Binding → Option String
  pub make_authentication_request : Seed → ServiceProvider → String → Result String AuthnRequest
  pub request_id : AuthnRequest → String
  -- The request with a signature template for a certificate in DER form.
  pub with_signature_template : List ℕ → AuthnRequest → AuthnRequest
  pub to_xml : AuthnRequest → Result String String
  pub sign_xml : String → List ℕ → Result String String
  -- `base64`'s standard alphabet.
  pub encode : String → String
  pub decode : List ℕ → Result String (List ℕ)

module _ (x : Samael) where
  abbrev pub Entity : Type 0
  Entity = EntityDescriptor x.Key x.Rest x.Others
