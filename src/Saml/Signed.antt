-- ===== src/Saml/Signed.antt =====
-- The AuthnRequest of src/saml.rs: what a request that is handed out guarantees.
use armature_auth.Prelude.{
  String, codes, true, ℕ, ◌⊎◌, ◌≡◌, refl, sym, ap, ◌∙◌, ◌↔◌, inl, inr, List, Option, none, some, ok,
  ◌>>=◌, >>=-eq-ok, map_err-eq-ok, ok-injective, some-injective, Bool-cases, Option-cases,
  Result-cases,
}
use armature_auth.Crypto.{Crypto}
use armature_auth.Saml.{SamlAuthRequest}
use armature_auth.Saml.Schema.{Entity, Samael, http_redirect, http_post}
use armature_auth.Saml.Response.{SamlServiceProvider}
use armature_auth.Saml.Request.{
  create_auth_request, generate_relay_state, pem_body, pem_to_der, request_settings, request_xml,
  serialized, sso_url,
}
use armature_auth.Saml.Provider.{check_relay_state}

module _ (x : Samael) (J : Type 0) where
  -- The XML is the signature, with the configured key, of the request with the template for the
  -- configured certificate.
  abbrev pub IsSigned : String → String → x.AuthnRequest → String → Type 0
  IsSigned certificate private_key request signed_xml =
      (cert_der : List ℕ) × (key_der : List ℕ) × (unsigned_xml : String) × (x.decode
          (pem_body (codes certificate))
        ≡ ok cert_der)
      × (x.decode (pem_body (codes private_key)) ≡ ok key_der)
      × (x.to_xml (x.with_signature_template cert_der request) ≡ ok unsigned_xml)
      × (x.sign_xml unsigned_xml key_der ≡ ok signed_xml)

  -- Signed if there are both a certificate and a key, else as it is.
  abbrev pub IsXmlOf : Option String → Option String → x.AuthnRequest → String → Type 0
  IsXmlOf (some certificate) (some private_key) request text =
      IsSigned certificate private_key request text
  IsXmlOf (some certificate) none request text = x.to_xml request ≡ ok text
  IsXmlOf none private_key request text = x.to_xml request ≡ ok text

  request_xml-eq-ok :
      (certificate private_key : Option String) (request : x.AuthnRequest) (text : String)
      → request_xml x J certificate private_key request ≡ ok text
      → IsXmlOf certificate private_key request text
  unfolding pem_to_der
  request_xml-eq-ok none private_key request text h = map_err-eq-ok _ _ h
  request_xml-eq-ok (some certificate) none request text h = map_err-eq-ok _ _ h
  request_xml-eq-ok (some certificate) (some private_key) request text h =
      let (cert_der, e, h1) = >>=-eq-ok (pem_to_der x J certificate) _ h in
      let (key_der, f, h2) = >>=-eq-ok (pem_to_der x J private_key) _ h1 in
      let (unsigned_xml, g, h3) =
        >>=-eq-ok (serialized x J (x.with_signature_template cert_der request)) _ h2 in
      (
        cert_der,
        key_der,
        unsigned_xml,
        map_err-eq-ok _ _ e,
        map_err-eq-ok _ _ f,
        map_err-eq-ok _ _ g,
        map_err-eq-ok _ _ h3,
      )

  sso_url-eq-some :
      (sp : x.ServiceProvider) (location : String)
      → sso_url x J sp ≡ some location
      → (x.sso_binding_location sp http_redirect ≡ some location)
        ⊎ ((x.sso_binding_location sp http_redirect ≡ none)
            × (x.sso_binding_location sp http_post ≡ some location))
  sso_url-eq-some sp location h = elim (Option-cases (x.sso_binding_location sp http_redirect)) [
    | inl missing ↦ inr (missing, rw (missing, sso_url) at h)
    | inr (first, e) ↦ inl (e ∙ (rw (e, sso_url) at h))
  ]

  -- What the answer takes from the library's request and from its text.
  answer-eq-ok :
      (c : Crypto) (p : SamlServiceProvider x) (bytes : List ℕ) (location : String)
      (request : x.AuthnRequest) (r : SamlAuthRequest)
      → (request_xml x J p.config.sp_certificate p.config.sp_private_key request >>= λ text.
          ok (record {
            saml_request = x.encode text;
            request_id = x.request_id request;
            relay_state = some (generate_relay_state c bytes);
            redirect_url = location;
          }))
        ≡ ok r
      → (text : String) × (location ≡ r.redirect_url)
        × (r.request_id ≡ x.request_id request)
        × IsXmlOf p.config.sp_certificate p.config.sp_private_key request text
        × (r.saml_request ≡ x.encode text)
        × (r.relay_state ≡ some (c.url_safe_no_pad bytes))
  answer-eq-ok c p bytes location request r h =
      let (text, xml, out) =
        >>=-eq-ok (request_xml x J p.config.sp_certificate p.config.sp_private_key request) _ h in
      let same = ok-injective out in
      (
        text,
        ap (λ o. o.redirect_url) same,
        ap (λ o. o.request_id) (sym same),
        request_xml-eq-ok p.config.sp_certificate p.config.sp_private_key request text xml,
        ap (λ o. o.saml_request) (sym same),
        ap (λ o. o.relay_state) (sym same),
      )

  -- A request that is handed out is made by a service provider built from the configured entity,
  -- endpoint and identity provider. It goes to that provider's endpoint for redirects, or to the one
  -- for posts if there is none for redirects; its identifier is that of the library's request; its
  -- text is the encoding of that request, which is signed with the configured key, and has the
  -- template for the configured certificate, whenever a certificate and a key are configured, both
  -- decoded from the bodies of their PEM texts; and it carries the encoding of the random bytes as its
  -- relay state.
  pub create_auth_request-eq-ok :
      (c : Crypto) (p : SamlServiceProvider x) (seed : x.Seed) (bytes : List ℕ)
      (r : SamlAuthRequest)
      → create_auth_request x J c p seed bytes ≡ ok r
      → (entity : Entity x) × (sp : x.ServiceProvider) × (request : x.AuthnRequest)
        × (text : String) × (p.idp_entity ≡ some entity)
        × (x.build (record {
          entity_id = p.config.entity_id;
          acs_url = p.config.acs_url;
          idp_metadata = entity;
          allow_idp_initiated = true;
        })
            ≡ ok sp)
        × ((x.sso_binding_location sp http_redirect ≡ some r.redirect_url)
            ⊎ ((x.sso_binding_location sp http_redirect ≡ none)
                × (x.sso_binding_location sp http_post ≡ some r.redirect_url)))
        × (x.make_authentication_request seed sp r.redirect_url ≡ ok request)
        × (r.request_id ≡ x.request_id request)
        × IsXmlOf p.config.sp_certificate p.config.sp_private_key request text
        × (r.saml_request ≡ x.encode text)
        × (r.relay_state ≡ some (c.url_safe_no_pad bytes))
  unfolding create_auth_request
  create_auth_request-eq-ok c p seed bytes r h = elim (Option-cases p.idp_entity) [
    | inl missing ↦ (let stop = rw (create_auth_request, missing) at h in cc)
    | inr (entity, e) ↦ elim (Result-cases (x.build (request_settings x J p.config entity))) [
      | inr (error, f) ↦ (let stop = rw (create_auth_request, e, f) at h in cc)
      | inl (sp, built) ↦ elim (Option-cases (sso_url x J sp)) [
        | inl missing ↦ (let stop = rw (create_auth_request, e, built, missing) at h in cc)
        | inr (location, found) ↦
            elim (Result-cases (x.make_authentication_request seed sp location)) [
              | inr (error, f) ↦
                  (let stop = rw (create_auth_request, e, built, found, f) at h in cc)
              | inl (request, made) ↦
                  let (text, to, id, xml, encoded, relay) =
                    answer-eq-ok c p bytes location request r
                      (rw (create_auth_request, e, built, found, made) at h) in
                  (
                    entity,
                    sp,
                    request,
                    text,
                    e,
                    built,
                    sso_url-eq-some sp r.redirect_url (found ∙ ap some to),
                    ap (x.make_authentication_request seed sp) (sym to) ∙ made,
                    id,
                    xml,
                    encoded,
                    relay,
                  )
            ]
      ]
    ]
  ]

  check_relay_state_iff :
      (c : Crypto) (expected : String) (received : Option String)
      → (check_relay_state x J c (some expected) received ≡ ok tt) ↔ (received ≡ some expected)
  unfolding check_relay_state
  check_relay_state_iff c expected none = ((λ h. cc), λ h. cc)
  check_relay_state_iff c expected (some received) = elim (Bool-cases (c.ct_eq expected received)) [
    | inl same ↦
        let equal = (c.ct_eq_iff expected received).0 same in
        ((λ h. ap some (sym equal)), λ h. rw (check_relay_state, same) refl)
    | inr differs ↦ (
      (λ h. let stop = rw (check_relay_state, differs) at h in cc),
      λ h.
          let same = (c.ct_eq_iff expected received).1 (sym (some-injective h)) in
          (let stop = sym same ∙ differs in cc),
    )
  ]

  -- A response that is checked with the relay state of the request passes that check exactly if it
  -- carries the encoding of the request's random bytes: a request never leaves the check out.
  pub create_auth_request-check_relay_state :
      (c : Crypto) (p : SamlServiceProvider x) (seed : x.Seed) (bytes : List ℕ)
      (r : SamlAuthRequest) (received : Option String)
      → create_auth_request x J c p seed bytes ≡ ok r
      → (check_relay_state x J c r.relay_state received ≡ ok tt)
        ↔ (received ≡ some (c.url_safe_no_pad bytes))
  create_auth_request-check_relay_state c p seed bytes r received h =
      let (entity, sp, request, text, e, built, found, made, id, xml, encoded, relay) =
        create_auth_request-eq-ok c p seed bytes r h in
      rw relay (check_relay_state_iff c (c.url_safe_no_pad bytes) received)
