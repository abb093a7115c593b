-- ===== src/Providers/Identity.antt =====
-- src/providers/microsoft.rs: the identity of a Microsoft user.
use armature_auth.Prelude.{
  String, ℤ, false, ◌≡◌, refl, sym, ap, ◌∙◌, inl, inr, List, Option, none, some, Result, ok,
  >>=-eq-ok, ok-injective, some-injective, Bool-cases, Option-cases, Result-cases, str_eq,
  assoc_get,
}
use armature_auth.Error.{concat}
use armature_auth.Json.{Json, get_str}
use armature_auth.OAuth2.{OAuth2Token, OAuth2UserInfo}
use armature_auth.Crypto.{Crypto}
use armature_auth.OAuth2.{OidcSettings, PendingAuth}
use armature_auth.OAuth2.IdToken.{JwtLibrary, verify_id_token}
use armature_auth.OAuth2.Jwks.{Fetch, JwksCache, Response}
use armature_auth.OAuth2.Flow.{TokenEndpoint, exchange_code}
use armature_auth.OAuth2.Exchange.{exchange_code-eq-ok}
use armature_auth.Providers.Entra.{
  GraphUser, MicrosoftEntraProvider, claim, fetch_graph_user, get_user_info, read_graph_user,
  user_info_from, with_identity,
}

module _ (j : Json) (J : Type 0) where
  -- The claim is this text, which is not empty.
  abbrev pub HasClaim : j.Value → String → String → Type 0
  HasClaim claims name s = (get_str j name claims ≡ some s) × (str_eq s "" ≡ false)

  claim-eq-ok :
      (claims : j.Value) (name s : String) → claim j J claims name ≡ ok s → HasClaim claims name s
  unfolding claim
  claim-eq-ok claims name s h = elim (Option-cases (get_str j name claims)) [
    | inl missing ↦ (let stop = rw (claim, missing) at h in cc)
    | inr (found, e) ↦ elim (Bool-cases (str_eq found "")) [
      | inl empty ↦ (let stop = rw (claim, e, empty) at h in cc)
      | inr full ↦
          let same = ok-injective (rw (claim, e, full) at h) in
          (e ∙ ap some same, ap (λ v. str_eq v "") (sym same) ∙ full)
    ]
  ]

  -- The identity that verified claims give: the subject is made of the claims `tid` and `oid`, which
  -- are not empty, the address is not verified, and the two claims stand under their names.
  abbrev pub IsIdentityOf : j.Value → OAuth2UserInfo j → Type 0
  IsIdentityOf claims info =
      (tid : String) × (oid : String) × HasClaim claims "tid" tid
      × HasClaim claims "oid" oid
      × (info.sub ≡ concat tid (concat ":" oid))
      × (info.email_verified ≡ some false)
      × (assoc_get "tid" info.additional ≡ some (j.of_str tid))
      × (assoc_get "oid" info.additional ≡ some (j.of_str oid))

  with_identity-tid :
      (tid oid graph_id : String) (additional : List (String × j.Value))
      → (assoc_get "tid" (with_identity j J tid oid graph_id additional) ≡ some (j.of_str tid))
        × (assoc_get "oid" (with_identity j J tid oid graph_id additional) ≡ some (j.of_str oid))
  with_identity-tid tid oid graph_id additional = (refl, refl)

  user_info_from-eq-ok :
      (claims : j.Value) (graph : GraphUser j) (info : OAuth2UserInfo j)
      → user_info_from j J claims graph ≡ ok info
      → IsIdentityOf claims info
  unfolding user_info_from
  user_info_from-eq-ok claims graph info h =
      let (tid, first, h1) = >>=-eq-ok (claim j J claims "tid") _ h in
      let (oid, second, out) = >>=-eq-ok (claim j J claims "oid") _ h1 in
      let same = sym (ok-injective out) in
      let stored = with_identity-tid tid oid graph.id graph.additional in
      (
        tid,
        oid,
        claim-eq-ok claims "tid" tid first,
        claim-eq-ok claims "oid" oid second,
        ap (λ i. i.sub) same,
        ap (λ i. i.email_verified) same,
        ap (λ i. assoc_get "tid" i.additional) same ∙ stored.0,
        ap (λ i. assoc_get "oid" i.additional) same ∙ stored.1,
      )

  read_graph_user-eq-ok :
      (claims : j.Value) (response : Response (GraphUser j)) (info : OAuth2UserInfo j)
      → read_graph_user j J claims response ≡ ok info
      → IsIdentityOf claims info
  read_graph_user-eq-ok claims response info h = elim (Bool-cases response.is_success) [
    | inr failed ↦ (let stop = rw (read_graph_user, failed) at h in cc)
    | inl success ↦ elim (Result-cases response.json) [
      | inr (error, e) ↦ (let stop = rw (read_graph_user, success, e) at h in cc)
      | inl (graph, e) ↦
          user_info_from-eq-ok claims graph info (rw (read_graph_user, success, e) at h)
    ]
  ]

  fetch_graph_user-eq-ok :
      (claims : j.Value) (o : Option String) (get : String → Result String (Response (GraphUser j)))
      (info : OAuth2UserInfo j)
      → fetch_graph_user j J claims o get ≡ ok info
      → IsIdentityOf claims info
  fetch_graph_user-eq-ok claims none get info h = cc
  fetch_graph_user-eq-ok claims (some url) get info h = elim (Result-cases (get url)) [
    | inr (error, e) ↦ (let stop = rw (fetch_graph_user, e) at h in cc)
    | inl (response, e) ↦ read_graph_user-eq-ok claims response info (rw (fetch_graph_user, e) at h)
  ]

  -- Without verified claims there is no identity; with them it is theirs, whatever Graph sends.
  pub get_user_info-eq-ok :
      (p : MicrosoftEntraProvider) (get : String → String → Result String (Response (GraphUser j)))
      (token : OAuth2Token j) (info : OAuth2UserInfo j)
      → get_user_info j J p get token ≡ ok info
      → (claims : j.Value) × (token.id_token_claims ≡ some claims) × IsIdentityOf claims info
  unfolding get_user_info
  get_user_info-eq-ok p get token info h = elim (Option-cases token.id_token_claims) [
    | inl missing ↦ (let stop = rw (get_user_info, missing) at h in cc)
    | inr (claims, e) ↦ (
      claims,
      e,
      fetch_graph_user-eq-ok claims p.inner.config.user_info_url (λ url. get url token.access_token)
          info (rw (get_user_info, e) at h),
    )
  ]

module _ {j : Json} (J : Type 0) (c : Crypto) (x : JwtLibrary j) (p : MicrosoftEntraProvider) where
  -- A Microsoft login from its start, when the provider has OpenID Connect and the request carried a
  -- nonce: the user that
  -- `get_user_info` returns for the token of the exchange has the identity, the tenant's `tid` and the
  -- user's `oid`, of an ID token that was verified against that nonce, whatever the userinfo endpoint
  -- sends; its address is never reported as verified.
  pub exchange_code-get_user_info :
      (endpoint : TokenEndpoint) (first second : Fetch x.Jwk) (now : ℤ)
      (code returned_state : String) (pending : PendingAuth) (cache : JwksCache x.Jwk)
      (token : OAuth2Token j) (get : String → String → Result String (Response (GraphUser j)))
      (info : OAuth2UserInfo j) (oidc : OidcSettings) (nonce : String)
      → (exchange_code J c x p.inner.config endpoint first second now code returned_state pending
          cache).0
        ≡ ok token
      → get_user_info j J p get token ≡ ok info
      → p.inner.config.oidc ≡ some oidc
      → pending.nonce ≡ some nonce
      → (raw : String) × (claims : j.Value) × ((verify_id_token J c x p.inner.config first second
            raw nonce cache).0
          ≡ ok claims)
        × IsIdentityOf j J claims info
  exchange_code-get_user_info endpoint first second now code returned_state pending cache token get
        info oidc nonce exchanged fetched configured sent =
      let (raw, claims, verified, has_raw, has_claims) =
        (exchange_code-eq-ok J c x p.inner.config endpoint first second now code returned_state
            pending cache token exchanged).1
          oidc nonce configured sent in
      let (found, e, identity) = get_user_info-eq-ok j J p get token info fetched in
      (raw, claims, verified, rw (some-injective (sym has_claims ∙ e)) identity)
