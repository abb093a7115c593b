-- ===== src/Examples/Flow.antt =====
-- src/oauth2.rs: one flow, with a provider that has OIDC.
use armature_auth.Prelude.{
  List, String, pos, ◌-ℤ◌, strip_prefix, true, false, [], ◌∷◌, none, some, Result, ok, err, ◌≡◌,
  refl,
}
use armature_auth.Error.{AuthError}
use armature_auth.OAuth2.{
  OAuth2Config, OAuth2Token, OAuth2UserInfo, PendingAuth, OidcSettings, StandardToken, check_state,
  from_standard, is_expired, new_config, with_oidc, with_scopes, with_user_info_url,
}
use armature_auth.OAuth2.Jwks.{Fetch, JwksCache, jwks}
use armature_auth.OAuth2.Cache.{IsServed, jwks-eq-ok}
use armature_auth.OAuth2.IdToken.{
  Header, JwtLibrary, rs256, check_algorithm, check_azp, check_claims, check_header, check_issuer,
  check_nonce, decode_with, find_key, is_templated, signing_key, verify_id_token,
}
use armature_auth.OAuth2.Claims.{IsKeyOf, IsProvided, IsVerified, verify_id_token-eq-ok}
use armature_auth.OAuth2.Flow.{
  Secrets, check_pending, exchange_code, get_user_info, verify_response,
}
use armature_auth.OAuth2.Exchange.{
  IsPending, exchange_code-eq-ok, exchange_code-stops, get_user_info-eq-ok,
}
use armature_auth.Json.{get_str}
use armature_auth.Samples.{claims, crypto, json}

abbrev config : OAuth2Config
config =
    with_user_info_url
      (with_oidc
        (with_scopes (new_config "client" "s" "https://a" "https://t" "https://r") ("openid" ∷ []))
        "https://i" "https://k")
      "https://u"

-- A library for which each token has one header, and the claims of Ana with a nonce.
abbrev library : JwtLibrary json
library = record {
  Jwk = String;
  Key = String;
  find = λ kid set. some kid;
  decode_header = λ raw. ok (record { alg = rs256; kid = some "k1" });
  from_jwk = λ jwk. ok jwk;
  decode = λ raw key v. ok (claims "ana" "n" []);
}

abbrev fetch : Fetch String
fetch = record {
  at_read = 70;
  at_write = 71;
  answer = λ url. ok (record { is_success = true; status = "200"; json = ok ("k1" ∷ []) });
}

abbrev offline : Fetch String
offline = record { at_read = 70; at_write = 71; answer = λ url. err "down" }

abbrev cache : JwksCache String
cache = some (10, "k1" ∷ [])

abbrev answer : StandardToken
answer = record {
  access_token = "at";
  token_type = "bearer";
  expires_in = none;
  refresh_token = none;
  scopes = none;
  extra_id_token = some "h.p.s";
}

abbrev token : OAuth2Token json
token = record {
  access_token = "at";
  token_type = "bearer";
  expires_in = none;
  refresh_token = none;
  scope = none;
  id_token = some "h.p.s";
  id_token_claims = some (claims "ana" "n" []);
}

abbrev secrets : Secrets
secrets = record { csrf = "st"; pkce_verifier = "v"; nonce = "n" }

abbrev pending : PendingAuth
pending = record { state = "st"; pkce_verifier = "v"; nonce = some "n"; created_at = pos 100 }

jwks-eq-ok_example : IsServed String config fetch none ("k1" ∷ []) (some (71, "k1" ∷ []))
unfolding jwks
jwks-eq-ok_example = jwks-eq-ok String config fetch false none ("k1" ∷ []) refl

verify_id_token-eq-ok_example :
    (oidc : OidcSettings) × (header : Header) × (set : List String) × (jwk : String)
    × (key : String) × IsProvided String crypto library config fetch fetch none set
        (some (71, "k1" ∷ []))
    × IsKeyOf String crypto library config header set jwk
    × (library.from_jwk jwk ≡ ok key)
    × IsVerified String crypto library config oidc header key "h.p.s" "n" (claims "ana" "n" [])
unfolding verify_id_token check_header check_algorithm signing_key jwks find_key decode_with
    check_claims check_issuer is_templated strip_prefix check_azp get_str check_nonce
verify_id_token-eq-ok_example =
    verify_id_token-eq-ok String crypto library config fetch fetch "h.p.s" "n" none
      (claims "ana" "n" []) refl

exchange_code-eq-ok_example : IsPending String crypto library config (pos 160) "st" pending
unfolding exchange_code check_pending check_state is_expired ◌-ℤ◌ verify_response from_standard
    verify_id_token check_header check_algorithm signing_key jwks find_key decode_with check_claims
    check_issuer is_templated strip_prefix check_azp get_str check_nonce
exchange_code-eq-ok_example =
    (exchange_code-eq-ok String crypto library config (λ code verifier. ok answer) fetch fetch
      (pos 160) "c" "st" pending none token refl).0

exchange_code-stops_example :
    (e : AuthError String) × ((endpoint : String → String → Result String StandardToken)
      → exchange_code String crypto library config endpoint fetch fetch
          (pos 160)
          "c"
          "forged"
          pending
          none
        ≡ (err e, none))
unfolding IsPending
exchange_code-stops_example =
    exchange_code-stops String crypto library config fetch fetch (pos 160) "c" "forged" pending none
      (λ p. cc (p.0))

abbrev ana : OAuth2UserInfo json
ana = record {
  sub = "ana";
  email = none;
  name = none;
  given_name = none;
  family_name = none;
  picture = none;
  email_verified = none;
  additional = [];
}

get_user_info-eq-ok_example : get_str json "sub" (claims "ana" "n" []) ≡ some "ana"
unfolding get_user_info get_str
get_user_info-eq-ok_example =
    get_user_info-eq-ok json String config
      (λ url bearer. ok (record { is_success = true; status = "200"; json = ok ana })) token
      (claims "ana" "n" []) ana refl refl
