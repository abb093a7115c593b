-- ===== src/Strategy/Jwt.antt =====
-- src/strategy.rs and src/middleware.rs: the two readings of a JWT's claims.
use armature_auth.Prelude.{
  String, Text, ◌≡◌, ◌≢◌, ok-injective, some-injective, ap, sym, ◌∙◌, ◌↔◌, ok, some, str_eq, Result,
  Result-cases, Option-cases, inl, inr, eq_iff, Bool-cases, arith,
}
use armature_auth.Json.{Json, get_str}
use armature_auth.User.{UserContext}
use armature_auth.Middleware.{create, context_from_token, context_of_claims}
use armature_auth.Strategy.{jwt_credentials, authenticate_jwt, context_of}

abbrev user_of : {V : Type 0} → UserContext V → String
user_of context = context.user_id

module _ (j : Json) {J : Type 0} (verify_access : Text → Result J j.Value) where
  -- With the default claim names, the middleware accepts a token exactly when the strategy does with
  -- a user identifier that is not empty, and then both read the same user, roles, permissions and
  -- metadata.
  pub context_from_token-authenticate_jwt :
      (token : Text) (context : UserContext j.Value)
      → (context_from_token (create {j = j} verify_access) token ≡ some context) ↔ (
          (authenticate_jwt {j = j}
              (record { verify_access = verify_access })
              (jwt_credentials (record { token = token }))
            ≡ ok context)
          × (context.user_id ≢ ""))
  unfolding context_from_token context_of_claims authenticate_jwt context_of
  context_from_token-authenticate_jwt token context = elim (Result-cases (verify_access token)) [
    | inr (e, f) ↦ rw f ((λ h. cc), (λ (h, _). cc))
    | inl (claims, f) ↦ rw f (elim (Option-cases (get_str j "sub" claims)) [
      | inl missing ↦
          rw (context_of_claims, missing)
            ((λ h. cc), (λ (h, named). elim (named (sym (ap user_of (ok-injective h)))) [ ]))
      | inr (subject, e) ↦
          rw (context_of_claims, e)
            (elim (Bool-cases (str_eq subject "")) [
              | inl nobody ↦ rw nobody (
                (λ h. cc),
                (λ (h, present).
                    elim (present
                      (sym (ap user_of (ok-injective h)) ∙ (eq_iff subject "").0 nobody)) [ ]),
              )
              | inr named ↦ rw named (
                (λ h.
                    let same = some-injective h in
                    (
                      ap ok same,
                      λ nobody. ground (arith, eq_iff subject "", ap user_of same, nobody),
                    )),
                (λ (h, present). ap some (ok-injective h)),
              )
            ])
    ])
  ]
