-- ===== src/Saml/Request.antt =====
-- The AuthnRequest of src/saml.rs, and its PEM reader. Random values are arguments.
use armature_auth.Prelude.{
  String, Text, codes, ℕ, ◌==◌, true, ◌||◌, List, [], ◌∷◌, ◌++◌, Option, none, some, ok, ◌>>=◌,
  ok_or, map_err, if◌then◌else◌, trim, is_empty,
}
use armature_auth.Error.{AuthResult, concat, saml_validation}
use armature_auth.Crypto.{Crypto}
use armature_auth.Password.{split, starts_with}
use armature_auth.Saml.{SamlAuthRequest, SamlConfig}
use armature_auth.Saml.Response.{SamlServiceProvider}
use armature_auth.Saml.Schema.{Builder, Entity, Samael, http_post, http_redirect}

-- `str::lines`: the pieces between line feeds, without an empty one at the end and without the
-- carriage return that may end a piece.
abbrev pub drop_last_empty : List Text → List Text
drop_last_empty [] = []
drop_last_empty (s ∷ []) = if is_empty s then [] else s ∷ []
drop_last_empty (s ∷ t ∷ rest) = s ∷ drop_last_empty (t ∷ rest)

abbrev pub chomp : Text → Text
chomp [] = []
chomp (ch ∷ []) = if ch == 13 then [] else ch ∷ []
chomp (ch ∷ next ∷ s) = ch ∷ chomp (next ∷ s)

unfoldable pub pem_line : Text → Text
unfolding trim
pem_line line =
    let body = trim (chomp line) in
    if is_empty body || starts_with (codes "-----") body then [] else body

abbrev pub join_lines : List Text → Text
join_lines [] = []
join_lines (line ∷ rest) = pem_line line ++ join_lines rest

unfoldable pub pem_body : Text → Text
unfolding pem_line
pem_body pem = join_lines (drop_last_empty (split 10 pem))

-- The encoding of 32 random bytes.
abbrev pub generate_relay_state : Crypto → List ℕ → String
generate_relay_state c bytes = c.url_safe_no_pad bytes

module _ (x : Samael) (J : Type 0) where
  unfoldable pub pem_to_der : String → AuthResult J (List ℕ)
  unfolding pem_body
  pem_to_der pem =
      map_err (λ e. saml_validation (concat "Failed to decode PEM data: " e))
        (x.decode (pem_body (codes pem)))

  abbrev pub serialized : x.AuthnRequest → AuthResult J String
  serialized request =
      map_err (λ e. saml_validation (concat "Failed to serialize SAML AuthnRequest: " e))
        (x.to_xml request)

  -- The request's XML, signed if there are both a certificate and a key.
  abbrev pub request_xml : Option String → Option String → x.AuthnRequest → AuthResult J String
  request_xml (some certificate) (some private_key) request = do
    cert_der ← pem_to_der certificate
    key_der ← pem_to_der private_key
    unsigned_xml ← serialized (x.with_signature_template cert_der request)
    map_err (λ e. saml_validation (concat "Failed to sign SAML AuthnRequest: " e))
        (x.sign_xml unsigned_xml key_der)
  request_xml (some certificate) none request = serialized request
  request_xml none private_key request = serialized request

  abbrev pub sso_url : x.ServiceProvider → Option String
  sso_url sp = elim (x.sso_binding_location sp http_redirect) [
    | some location ↦ some location
    | none ↦ x.sso_binding_location sp http_post
  ]

  abbrev pub request_settings : SamlConfig → Entity x → Builder (Entity x)
  request_settings config entity = record {
    entity_id = config.entity_id;
    acs_url = config.acs_url;
    idp_metadata = entity;
    allow_idp_initiated = true;
  }

  -- `create_auth_request`, which with the `saml` feature is `create_auth_request_from_metadata`; the
  -- bytes are those of the relay state.
  unfoldable pub create_auth_request :
      Crypto → SamlServiceProvider x → x.Seed → List ℕ → AuthResult J SamlAuthRequest
  unfolding pem_to_der
  create_auth_request c p seed bytes = do
    entity ← ok_or p.idp_entity (
        saml_validation
          "IdP metadata must be provided as XML to generate an AuthnRequest; URL-based metadata fetching is not implemented here")
    sp ←
        map_err (λ e. saml_validation (concat "Failed to build SAML service provider: " e))
          (x.build (request_settings p.config entity))
    idp_sso_url ←
        ok_or (sso_url sp)
          (saml_validation "IdP metadata does not contain a SingleSignOnService endpoint")
    request ←
        map_err (λ e. saml_validation (concat "Failed to build SAML AuthnRequest: " e))
          (x.make_authentication_request seed sp idp_sso_url)
    xml ← request_xml p.config.sp_certificate p.config.sp_private_key request
    ok (record {
      saml_request = x.encode xml;
      request_id = x.request_id request;
      relay_state = some (generate_relay_state c bytes);
      redirect_url = idp_sso_url;
    })
