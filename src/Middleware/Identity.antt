-- ===== src/Middleware/Identity.antt =====
-- `JwtAuthMiddleware::handle` of src/middleware.rs: which requests reach the next handler, with which
-- identity, and what a role guard behind it lets through.
use armature_auth.Prelude.{
  Text, true, false, ◌≡◌, ◌≢◌, refl, ap, ◌∙◌, ◌↔◌, inl, inr, Option, none, some, Result, ok, eq_iff,
  arith, Option-cases, Result-cases,
}
use armature_auth.User.{UserContext}
use armature_auth.Http.{Core, HttpRequest}
use armature_auth.Json.{Json, get_str, string_list}
use armature_auth.Middleware.{
  Credential, absent, bearer, malformed, JwtAuthMiddleware, credential, attach, reject,
  context_of_claims, context_from_token, settle, handle_credential, handle,
}
use armature_auth.Middleware.Forwarded.{
  IsAttached, IsRejected, attach-IsAttached, credential-absent_iff, reject-IsRejected,
}

module _ {j : Json} {E : Type 0} (m : JwtAuthMiddleware j E) (core : Core j.Value) where
  -- The user that a set of claims stands for.
  pub record IsUserOf (claims : j.Value) (u : UserContext j.Value) : Type 0 where
    pub named : get_str j m.subject_claim claims ≡ some u.user_id
    pub nonempty : u.user_id ≢ ""
    pub no_email : u.email ≡ none
    pub claimed_roles : u.roles ≡ string_list j (j.get m.roles_claim claims)
    pub claimed_permissions : u.permissions ≡ string_list j (j.get m.permissions_claim claims)
    pub whole : u.metadata ≡ claims

  -- The request carries one bearer token, which is verified as an access token with these claims.
  abbrev pub Presents : HttpRequest core → j.Value → Type 0
  Presents req claims =
      (token : Text) × (credential core req ≡ bearer token) × (m.verify_access token ≡ ok claims)

  context_of_claims_iff :
      (claims : j.Value) (u : UserContext j.Value)
      → (context_of_claims m claims ≡ some u) ↔ IsUserOf claims u
  unfolding context_of_claims
  context_of_claims_iff claims u = elim (Option-cases (get_str j m.subject_claim claims)) [
    | inl missing ↦ (λ e. ground arith, λ v. let n = v.named in ground arith)
    | inr (subject, found) ↦ (
      λ e. ground (arith, eq_iff subject ""),
      λ v. ground (arith, eq_iff subject "", eq_iff u.user_id ""),
    )
  ]

  -- The token's claims, or what is wrong with the credential.
  abbrev pub identity_of : Credential → Option (UserContext j.Value)
  identity_of (bearer token) = context_from_token m token
  identity_of absent = none
  identity_of malformed = none

  pub identity_of_iff :
      (req : HttpRequest core) (cr : Credential) (u : UserContext j.Value)
      → credential core req ≡ cr
      → (identity_of cr ≡ some u) ↔ ((claims : j.Value) × Presents req claims × IsUserOf claims u)
  unfolding context_from_token
  identity_of_iff req absent u e = (λ f. absurd (cc), λ w. absurd (cc (w.1.1)))
  identity_of_iff req malformed u e = (λ f. absurd (cc), λ w. absurd (cc (w.1.1)))
  identity_of_iff req (bearer token) u e = elim (Result-cases (m.verify_access token)) [
    | inl (claims, v) ↦ (
      λ f.
          let known : context_of_claims m claims ≡ some u = ground arith in
          (claims, (token, e, v), (context_of_claims_iff claims u).0 known),
      λ (claims', (token', e', v'), w).
          let known = (context_of_claims_iff claims' u).1 w in
          let c : claims ≡ claims' = cc in rw (v, context_from_token, c) known,
    )
    | inr (x, v) ↦ (
      λ f. absurd (ground arith),
      λ (claims', (token', e', v'), w). let t : token ≡ token' = cc in absurd (cc),
    )
  ]

  module _ {Error Response : Type 0} (unauthorized : Response) where
    settled :
        (req : HttpRequest core) (next : HttpRequest core → Result Error Response) (cr : Credential)
        → cr ≢ absent
        → handle_credential m core unauthorized req next cr
          ≡ settle m core unauthorized req next (identity_of cr)
    settled req next absent present = absurd (present refl)
    settled req next (bearer token) present = refl
    settled req next malformed present = refl

    -- The three ways on, with the request that `attach` and `reject` make.
    pub handle-settled :
        (req : HttpRequest core) (next : HttpRequest core → Result Error Response)
        → ((u : UserContext j.Value) (claims : j.Value)
            → Presents req claims
            → IsUserOf claims u
            → handle m core unauthorized req next ≡ next (attach core req u))
          × (((u : UserContext j.Value) (claims : j.Value)
                → Presents req claims
                → ¬ IsUserOf claims u)
              → (m.require_auth ≡ true → handle m core unauthorized req next ≡ ok unauthorized)
                × (m.require_auth ≡ false
                    → credential core req ≡ absent
                    → handle m core unauthorized req next ≡ next req)
                × (m.require_auth ≡ false
                    → credential core req ≢ absent
                    → handle m core unauthorized req next ≡ next (reject core req)))
    unfolding handle
    handle-settled req next = go (credential core req) refl
      where
        known :
            (cr : Credential) (o : Option (UserContext j.Value))
            → cr ≢ absent
            → identity_of cr ≡ o
            → handle_credential m core unauthorized req next cr
              ≡ settle m core unauthorized req next o
        known cr o present e =
            settled req next cr present ∙ ap (settle m core unauthorized req next) e

        found : (cr : Credential) (u : UserContext j.Value) → identity_of cr ≡ some u → cr ≢ absent
        found cr u f absent_ = cc

        stopped :
            (cr : Credential)
            → identity_of cr ≡ none
            → m.require_auth ≡ true
            → handle_credential m core unauthorized req next cr ≡ ok unauthorized
        stopped absent f r = rw r
        stopped (bearer token) f r = rw (f, r)
        stopped malformed f r = rw r

        passed :
            (cr : Credential)
            → cr ≡ absent
            → m.require_auth ≡ false
            → handle_credential m core unauthorized req next cr ≡ next req
        passed absent a r = rw r
        passed (bearer token) a r = absurd (cc)
        passed malformed a r = absurd (cc)

        go :
            (cr : Credential)
            → credential core req ≡ cr
            → ((u : UserContext j.Value) (claims : j.Value)
                → Presents req claims
                → IsUserOf claims u
                → handle_credential m core unauthorized req next cr ≡ next (attach core req u))
              × (((u : UserContext j.Value) (claims : j.Value)
                    → Presents req claims
                    → ¬ IsUserOf claims u)
                  → (m.require_auth ≡ true
                      → handle_credential m core unauthorized req next cr ≡ ok unauthorized)
                    × (m.require_auth ≡ false
                        → cr ≡ absent
                        → handle_credential m core unauthorized req next cr ≡ next req)
                    × (m.require_auth ≡ false
                        → cr ≢ absent
                        → handle_credential m core unauthorized req next cr
                          ≡ next (reject core req)))
        go cr e = (
          (λ u claims p w.
              let f = (identity_of_iff req cr u e).1 (claims, p, w) in
              known cr (some u) (found cr u f) f),
          λ nobody. elim (Option-cases (identity_of cr)) [
            | inl missing ↦ (
              (λ r. stopped cr missing r),
              (λ r a. passed cr a r),
              λ r present. known cr none present missing ∙ rw r,
            )
            | inr (u, f) ↦
                let (claims, p, w) = (identity_of_iff req cr u e).0 f in
                absurd (nobody u claims p w)
          ],
        )

    -- A request whose token authenticates a user is forwarded with its headers and the rest kept, and
    -- in its extensions that user, the user's roles, the user's identifier as the verified identity,
    -- and no new mark. One that authenticates nobody is answered `unauthorized` where authentication
    -- is required. Where it is not, it is forwarded as it came, if it has no `Authorization` header;
    -- otherwise without that header, marked as rejected, and with its other extensions and the rest
    -- kept.
    pub handle_lem :
        (req : HttpRequest core) (next : HttpRequest core → Result Error Response)
        → ((u : UserContext j.Value) (claims : j.Value)
            → Presents req claims
            → IsUserOf claims u
            → (out : HttpRequest core) × IsAttached core req u out
              × (handle m core unauthorized req next ≡ next out))
          × (((u : UserContext j.Value) (claims : j.Value)
                → Presents req claims
                → ¬ IsUserOf claims u)
              → (m.require_auth ≡ true → handle m core unauthorized req next ≡ ok unauthorized)
                × (m.require_auth ≡ false
                    → core.get_unique "authorization" req.headers ≡ ok none
                    → handle m core unauthorized req next ≡ next req)
                × (m.require_auth ≡ false
                    → core.get_unique "authorization" req.headers ≢ ok none
                    → (out : HttpRequest core) × IsRejected core req out
                      × (handle m core unauthorized req next ≡ next out)))
    handle_lem req next =
        let (known, unknown) = handle-settled req next in
        (
          (λ u claims p w. (attach core req u, attach-IsAttached core req u, known u claims p w)),
          λ nobody.
              let (stopped, passed, rejected) = unknown nobody in
              (
                stopped,
                (λ r none_there. passed r ((credential-absent_iff core req).1 none_there)),
                λ r present. (
                  reject core req,
                  reject-IsRejected core req,
                  rejected r (λ a. present ((credential-absent_iff core req).0 a)),
                ),
              ),
        )
