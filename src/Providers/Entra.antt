-- ===== src/Providers/Entra.antt =====
-- src/providers/microsoft.rs.
use armature_auth.Prelude.{
  String, Text, codes, ℕ, Bool, false, not, ◌&&◌, ◌||◌, ◌==◌, leb, List, ◌∷◌, Option, none, some,
  Result, ok, err, ◌>>=◌, ◌>>◌, ok_or, if◌then◌else◌, all, str_eq, assoc_remove,
}
use armature_auth.Error.{AuthResult, authentication_failed, concat, invalid_token}
use armature_auth.Crypto.{Crypto}
use armature_auth.Json.{Json, get_str}
use armature_auth.OAuth2
use armature_auth.OAuth2.{OAuth2Config, OAuth2Token, OAuth2UserInfo, with_oidc, with_user_info_url}
use armature_auth.OAuth2.Flow
use armature_auth.OAuth2.Flow.{GenericOAuth2Provider}
use armature_auth.OAuth2.IdToken.{JwtLibrary}
use armature_auth.OAuth2.Jwks.{Response}
use armature_auth.Providers.{OAuth2Provider, default_scopes, delegate}
use armature_auth.Providers.Hostname.{byte_len, is_ascii_digit, validate_hostname}

pub record GraphUser (j : Json) : Type 0 where
  pub id : String
  pub mail : Option String
  pub user_principal_name : Option String
  pub display_name : Option String
  pub additional : List (String × j.Value)

-- `Option::or`.
abbrev pub or : Option String → Option String → Option String
or none o = o
or (some s) o = some s

abbrev pub non_empty : Option String → Option String
non_empty none = none
non_empty (some s) = if str_eq s "" then none else some s

-- `HashMap::insert`.
abbrev pub insert : {V : Type 0} → String → V → List (String × V) → List (String × V)
insert name v m = (name, v) ∷ assoc_remove name m

module _ (j : Json) (J : Type 0) where
  -- A claim that is a text and not empty.
  unfoldable pub claim : j.Value → String → AuthResult J String
  claim claims name =
      ok_or (non_empty (get_str j name claims))
        (invalid_token (concat "id_token has no `" (concat name "` claim")))

  abbrev pub with_identity :
      String → String → String → List (String × j.Value) → List (String × j.Value)
  with_identity tid oid graph_id additional =
      insert "graph_id" (j.of_str graph_id)
        (insert "oid" (j.of_str oid) (insert "tid" (j.of_str tid) additional))

  unfoldable pub user_info_from : j.Value → GraphUser j → AuthResult J (OAuth2UserInfo j)
  unfolding claim
  user_info_from claims graph = do
    tid ← claim claims "tid"
    oid ← claim claims "oid"
    ok (record {
      sub = concat tid (concat ":" oid);
      email = or graph.mail graph.user_principal_name;
      name = graph.display_name;
      given_name = none;
      family_name = none;
      picture = none;
      email_verified = some false;
      additional = with_identity tid oid graph.id graph.additional;
    })

pub record MicrosoftEntraConfig : Type 0 where
  pub client_id : String
  pub client_secret : String
  pub redirect_url : String
  pub tenant_id : String
  pub scopes : List String

abbrev pub new_config : String → String → String → String → MicrosoftEntraConfig
new_config client_id client_secret redirect_url tenant_id = record {
  client_id = client_id;
  client_secret = client_secret;
  redirect_url = redirect_url;
  tenant_id = tenant_id;
  scopes = default_scopes;
}

abbrev pub with_scopes : MicrosoftEntraConfig → List String → MicrosoftEntraConfig
with_scopes config scopes = record config { scopes = scopes }

abbrev pub common : String → String → String → MicrosoftEntraConfig
common client_id client_secret redirect_url =
    new_config client_id client_secret redirect_url "common"

abbrev pub organizations : String → String → String → MicrosoftEntraConfig
organizations client_id client_secret redirect_url =
    new_config client_id client_secret redirect_url "organizations"

abbrev pub consumers : String → String → String → MicrosoftEntraConfig
consumers client_id client_secret redirect_url =
    new_config client_id client_secret redirect_url "consumers"

pub record MicrosoftEntraProvider : Type 0 where
  pub inner : GenericOAuth2Provider

abbrev pub is_ascii_hexdigit : ℕ → Bool
is_ascii_hexdigit ch =
    is_ascii_digit ch || (leb b'a' ch && leb ch b'f') || (leb b'A' ch && leb ch b'F')

unfoldable pub is_guid : Text → Bool
is_guid tenant_id =
    byte_len tenant_id == 36 && all (λ ch. is_ascii_hexdigit ch || ch == b'-') tenant_id

abbrev pub at_tenant : String → String → String
at_tenant tenant_id path = concat "https://login.microsoftonline.com/" (concat tenant_id path)

-- A tenant that is pinned by its GUID must match exactly.
unfoldable pub issuer_of : String → String
unfolding is_guid
issuer_of tenant_id =
    if is_guid (codes tenant_id)
    then at_tenant tenant_id "/v2.0"
    else "https://login.microsoftonline.com/{tenantid}/v2.0"

unfoldable pub oauth2_config : MicrosoftEntraConfig → OAuth2Config
unfolding issuer_of
oauth2_config config =
    with_oidc
      (with_user_info_url
        (OAuth2.with_scopes
          (OAuth2.new_config config.client_id config.client_secret
            (at_tenant config.tenant_id "/oauth2/v2.0/authorize")
            (at_tenant config.tenant_id "/oauth2/v2.0/token") config.redirect_url)
          config.scopes)
        "https://graph.microsoft.com/v1.0/me")
      (issuer_of config.tenant_id) (at_tenant config.tenant_id "/discovery/v2.0/keys")

module _ (J : Type 0) where
  unfoldable pub new :
      (String → Result String (Unit {0}))
      → (String → String)
      → MicrosoftEntraConfig
      → AuthResult J MicrosoftEntraProvider
  unfolding oauth2_config
  new parse debug config = do
    validate_hostname J debug "Microsoft tenant id" config.tenant_id
    inner ← Flow.new J parse "microsoft-entra" (oauth2_config config)
    ok (record { inner = inner })

module _ (j : Json) (J : Type 0) where
  abbrev pub read_graph_user : j.Value → Response (GraphUser j) → AuthResult J (OAuth2UserInfo j)
  read_graph_user claims response =
      if not response.is_success
      then err
          (authentication_failed (concat "User info request failed with status: " response.status))
      else elim (response.json) [
        | err e ↦ err (authentication_failed (concat "Failed to parse user info: " e))
        | ok graph_user ↦ user_info_from j J claims graph_user
      ]

  abbrev pub fetch_graph_user :
      j.Value
      → Option String
      → (String → Result String (Response (GraphUser j)))
      → AuthResult J (OAuth2UserInfo j)
  fetch_graph_user claims none get = err (authentication_failed "No user info URL configured")
  fetch_graph_user claims (some url) get = elim (get url) [
    | err e ↦ err (authentication_failed (concat "User info request failed: " e))
    | ok response ↦ read_graph_user claims response
  ]

  unfoldable pub get_user_info :
      MicrosoftEntraProvider
      → (String → String → Result String (Response (GraphUser j)))
      → OAuth2Token j
      → AuthResult J (OAuth2UserInfo j)
  unfolding user_info_from
  get_user_info p get token = elim (token.id_token_claims) [
    | none ↦ err (
        invalid_token
          "Microsoft identity requires a verified id_token (request the `openid` scope)")
    | some claims ↦
        fetch_graph_user claims p.inner.config.user_info_url (λ url. get url token.access_token)
  ]

module _ {j : Json} (J : Type 0) (c : Crypto) (x : JwtLibrary j) where
  abbrev pub provider : MicrosoftEntraProvider → OAuth2Provider J x (GraphUser j)
  provider p =
      let inner = delegate J c x p.inner in
      record {
        name = inner.name;
        authorization_url = inner.authorization_url;
        exchange_code = inner.exchange_code;
        get_user_info = get_user_info j J p;
        refresh_token = inner.refresh_token;
      }
