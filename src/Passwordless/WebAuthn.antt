-- ===== src/Passwordless/WebAuthn.antt =====
-- `WebAuthnConfig` and `WebAuthnManager` of src/passwordless.rs. What they call of `webauthn-rs`, `url`
-- and `uuid` (not under src/) is an interface; errors of the crates are their messages.
use armature_auth.Prelude.{
  String, ℕ, List, Result, ok, err, ◌>>=◌, >>=-eq-ok, map_err, map_err-eq-ok, length, ◌≡◌,
}
use armature_auth.Error.{concat}
use armature_auth.Passwordless.{PasswordlessError, feature_not_enabled, web_authn}

pub record WebauthnRs : Type 1 where
  pub Url : Type 0
  pub Uuid : Type 0
  pub WebauthnBuilder : Type 0
  pub Webauthn : Type 0
  pub CreationChallengeResponse : Type 0
  pub PasskeyRegistration : Type 0
  pub RegisterPublicKeyCredential : Type 0
  pub Passkey : Type 0
  pub RequestChallengeResponse : Type 0
  pub PasskeyAuthentication : Type 0
  pub PublicKeyCredential : Type 0
  pub AuthenticationResult : Type 0
  pub parse : String → Result String Url
  -- A UUID is made of sixteen bytes.
  pub from_slice : List ℕ → Result String Uuid
  pub from_slice-eq-ok : (bytes : List ℕ) (id : Uuid) → from_slice bytes ≡ ok id → length bytes ≡ 16
  pub new_builder : String → Url → Result String WebauthnBuilder
  pub rp_name : WebauthnBuilder → String → WebauthnBuilder
  pub build : WebauthnBuilder → Result String Webauthn
  -- The last argument, the excluded credentials, is always `None`.
  pub start_passkey_registration :
      Webauthn
      → Uuid
      → String
      → String
      → Result String (CreationChallengeResponse × PasskeyRegistration)
  pub finish_passkey_registration :
      Webauthn → RegisterPublicKeyCredential → PasskeyRegistration → Result String Passkey
  pub start_passkey_authentication :
      Webauthn → List Passkey → Result String (RequestChallengeResponse × PasskeyAuthentication)
  pub finish_passkey_authentication :
      Webauthn → PublicKeyCredential → PasskeyAuthentication → Result String AuthenticationResult

pub record WebAuthnConfig (x : WebauthnRs) : Type 0 where
  pub rp_id : String
  pub rp_name : String
  pub origin : x.Url

pub record WebAuthnManager (x : WebauthnRs) : Type 0 where
  pub webauthn : x.Webauthn

module _ (x : WebauthnRs) where
  unfoldable pub new_config : String → String → String → Result PasswordlessError (WebAuthnConfig x)
  new_config rp_id rp_name origin = map_err web_authn (x.parse origin) >>= λ url.
      ok (record { rp_id = rp_id; rp_name = rp_name; origin = url })

  unfoldable pub new : WebAuthnConfig x → Result PasswordlessError (WebAuthnManager x)
  new config = do
    builder ← map_err web_authn (x.new_builder config.rp_id config.origin)
    webauthn ← map_err web_authn (x.build (x.rp_name builder config.rp_name))
    ok (record { webauthn = webauthn })

  unfoldable pub start_registration :
      WebAuthnManager x
      → List ℕ
      → String
      → String
      → Result PasswordlessError (x.CreationChallengeResponse × x.PasskeyRegistration)
  start_registration m user_id username display_name = do
    id ← map_err (λ e. web_authn (concat "user_id must be 16 bytes: " e)) (x.from_slice user_id)
    map_err web_authn (x.start_passkey_registration m.webauthn id username display_name)

  abbrev pub finish_registration :
      WebAuthnManager x
      → x.RegisterPublicKeyCredential
      → x.PasskeyRegistration
      → Result PasswordlessError x.Passkey
  finish_registration m reg state =
      map_err web_authn (x.finish_passkey_registration m.webauthn reg state)

  abbrev pub start_authentication :
      WebAuthnManager x
      → List x.Passkey
      → Result PasswordlessError (x.RequestChallengeResponse × x.PasskeyAuthentication)
  start_authentication m passkeys =
      map_err web_authn (x.start_passkey_authentication m.webauthn passkeys)

  abbrev pub finish_authentication :
      WebAuthnManager x
      → x.PublicKeyCredential
      → x.PasskeyAuthentication
      → Result PasswordlessError x.AuthenticationResult
  finish_authentication m auth state =
      map_err web_authn (x.finish_passkey_authentication m.webauthn auth state)

  -- A registration starts only for a user identifier of sixteen bytes, and the library starts it for
  -- exactly that identifier.
  start_registration-eq-ok :
      (m : WebAuthnManager x) (user_id : List ℕ) (username display_name : String)
      (challenge : x.CreationChallengeResponse) (state : x.PasskeyRegistration)
      → start_registration m user_id username display_name ≡ ok (challenge, state)
      → (length user_id ≡ 16)
        × ((id : x.Uuid) × (x.from_slice user_id ≡ ok id)
            × (x.start_passkey_registration m.webauthn id username display_name
                ≡ ok (challenge, state)))
  unfolding start_registration
  start_registration-eq-ok m user_id username display_name challenge state h =
      let (id, parsed, started) = >>=-eq-ok (map_err _ (x.from_slice user_id)) _ h in
      let found = map_err-eq-ok _ _ parsed in
      (x.from_slice-eq-ok user_id id found, (id, found, map_err-eq-ok _ _ started))

-- Without the `webauthn` feature.
abbrev pub new_disabled : {M : Type 0} → Unit {0} → Result PasswordlessError M
new_disabled config = err (feature_not_enabled "webauthn")
