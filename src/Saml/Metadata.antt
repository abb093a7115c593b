-- ===== src/Saml/Metadata.antt =====
-- `get_metadata` of src/saml.rs, as a text.
use armature_auth.Prelude.{String, Text, codes, [], ◌++◌, Option, none, some}
use armature_auth.Saml.{ContactInfo, SamlConfig}
use armature_auth.Saml.Request.{pem_body}

unfoldable pub key_descriptor : Option String → Text
unfolding pem_body
key_descriptor none = []
key_descriptor (some cert_pem) =
    codes
      "\n    <KeyDescriptor use=\"signing\">\n      <ds:KeyInfo xmlns:ds=\"http://www.w3.org/2000/09/xmldsig#\">\n        <ds:X509Data>\n          <ds:X509Certificate>"
    ++ pem_body (codes cert_pem)
    ++ codes
        "</ds:X509Certificate>\n        </ds:X509Data>\n      </ds:KeyInfo>\n    </KeyDescriptor>"

unfoldable pub single_logout_service : Option String → Text
single_logout_service none = []
single_logout_service (some sls_url) =
    codes
      "\n    <SingleLogoutService Binding=\"urn:oasis:names:tc:SAML:2.0:bindings:HTTP-Redirect\"\n                         Location=\""
    ++ codes sls_url
    ++ codes "\"/>"

unfoldable pub contact_person : Option ContactInfo → Text
contact_person none = []
contact_person (some contact) =
    codes "\n  <ContactPerson contactType=\""
    ++ codes contact.contact_type
    ++ codes "\">\n    <GivenName>"
    ++ codes contact.given_name
    ++ codes "</GivenName>\n    <SurName>"
    ++ codes contact.surname
    ++ codes "</SurName>\n    <EmailAddress>"
    ++ codes contact.email
    ++ codes "</EmailAddress>\n  </ContactPerson>"

-- The result is always `Ok`.
unfoldable pub get_metadata : SamlConfig → Text
unfolding key_descriptor single_logout_service contact_person
get_metadata config =
    codes
      "<?xml version=\"1.0\"?>\n<EntityDescriptor xmlns=\"urn:oasis:names:tc:SAML:2.0:metadata\"\n                  entityID=\""
    ++ codes config.entity_id
    ++ codes
        "\">\n  <SPSSODescriptor protocolSupportEnumeration=\"urn:oasis:names:tc:SAML:2.0:protocol\">"
    ++ key_descriptor config.sp_certificate
    ++ single_logout_service config.sls_url
    ++ codes
        "\n    <AssertionConsumerService Binding=\"urn:oasis:names:tc:SAML:2.0:bindings:HTTP-POST\"\n                              Location=\""
    ++ codes config.acs_url
    ++ codes "\"\n                              index=\"0\"/>\n  </SPSSODescriptor>"
    ++ contact_person config.contact_person
    ++ codes "\n</EntityDescriptor>"
