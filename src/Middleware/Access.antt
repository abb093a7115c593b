-- ===== src/Middleware/Access.antt =====
-- The middleware of src/middleware.rs in front of the role guard of src/guard.rs: who reaches the
-- handler behind both.
use armature_auth.Prelude.{
  true, ◌≡◌, ◌≢◌, refl, sym, ap, ◌∙◌, ◌↔◌, inl, inr, none, some, Result, ok, err, Has, Option-cases,
  Result-cases, subst,
}
use armature_auth.User.{UserContext}
use armature_auth.Http.{Core, HttpRequest, Kind}
use armature_auth.Json.{Json}
use armature_auth.Guard.{RoleGuard, role_guard}
use armature_auth.Guard.Laws.{Meets, RoleAllowed, role_guard-eq-ok_iff}
use armature_auth.Middleware.{JwtAuthMiddleware, credential, attach, handle}
use armature_auth.Middleware.Identity.{
  IsUserOf, Presents, identity_of, identity_of_iff, handle-settled,
}

-- A guard finds the user that the middleware attached, behind the roles and the identity.
pub get-attach :
    {Value : Type 0} (core : Core Value) (req : HttpRequest core) (u : UserContext Value)
    → core.get Kind.user_context (attach core req u).extensions ≡ some u
get-attach core req u =
    core.get-insert_ne Kind.user_context Kind.verified_identity _ _ (λ e. cc)
    ∙ core.get-insert_ne Kind.user_context Kind.request_roles _ _ (λ e. cc)
    ∙ core.get-insert_self Kind.user_context u req.extensions

module _ {j : Json} {E : Type 0} (m : JwtAuthMiddleware j E) (core : Core j.Value)
    {Error Response : Type 0} (J : Type 0) (unauthorized denied allowed : Response) where
  -- A handler behind a role guard.
  abbrev pub guarded : RoleGuard → HttpRequest core → Result Error Response
  guarded g req = elim (role_guard core {J = J} g req) [ ok _ ↦ ok allowed | err _ ↦ ok denied ]

  guarded_iff :
      (g : RoleGuard) (req : HttpRequest core) (u : UserContext j.Value)
      → denied ≢ allowed
      → core.get Kind.user_context req.extensions ≡ some u
      → (guarded g req ≡ ok allowed) ↔ Meets g.require_all g.required_roles (λ r. Has r u.roles)
  guarded_iff g req u differ e = (to, from)
    where
      same :
          RoleAllowed core g
            (core.get Kind.user_context req.extensions)
            (core.get Kind.request_roles req.extensions)
          ≡ RoleAllowed core g (some u) (core.get Kind.request_roles req.extensions)
      same = ap (λ o. RoleAllowed core g o (core.get Kind.request_roles req.extensions)) e

      to : guarded g req ≡ ok allowed → Meets g.require_all g.required_roles (λ r. Has r u.roles)
      to f = elim (Result-cases (role_guard core {J = J} g req)) [
        | inl (b, h) ↦ subst (λ (A : Type 0). A) same ((role_guard-eq-ok_iff core g req b).0 h).1
        | inr (x, h) ↦
            let back : guarded g req ≡ ok denied = rw (h, guarded) in absurd (differ (cc))
      ]

      from : Meets g.require_all g.required_roles (λ r. Has r u.roles) → guarded g req ≡ ok allowed
      from w = rw (
        (role_guard-eq-ok_iff core g req true).1 (refl, subst (λ (A : Type 0). A) (sym same) w),
        guarded,
      )

  -- Where authentication is required, a request reaches a handler behind a role guard exactly when it
  -- presents one bearer token that is verified as an access token, whose claims name a subject and
  -- carry the roles that the guard requires. What else the request carries does not count, its own
  -- extensions included.
  pub handle-guarded_iff :
      (g : RoleGuard) (req : HttpRequest core)
      → m.require_auth ≡ true
      → denied ≢ allowed
      → unauthorized ≢ allowed
      → (handle m core unauthorized req (guarded g) ≡ ok allowed) ↔ (
          (u : UserContext j.Value) × (claims : j.Value) × Presents m core req claims
          × IsUserOf m core claims u
          × Meets g.require_all g.required_roles (λ r. Has r u.roles))
  handle-guarded_iff g req required differ apart = (to, from)
    where
      through :
          (u : UserContext j.Value) (claims : j.Value)
          → Presents m core req claims
          → IsUserOf m core claims u
          → (handle m core unauthorized req (guarded g) ≡ ok allowed)
            ↔ Meets g.require_all g.required_roles (λ r. Has r u.roles)
      through u claims p w =
          rw ((handle-settled m core unauthorized req (guarded g)).0 u claims p w)
            (guarded_iff g (attach core req u) u differ (get-attach core req u))

      nobody :
          identity_of m core (credential core req) ≡ none
          → (u : UserContext j.Value) (claims : j.Value) → Presents m core req claims
          → ¬ IsUserOf m core claims u
      nobody missing u claims p w = cc ((identity_of_iff m core req _ u refl).1 (claims, p, w))

      to :
          handle m core unauthorized req (guarded g) ≡ ok allowed
          → (u : UserContext j.Value) × (claims : j.Value) × Presents m core req claims
            × IsUserOf m core claims u
            × Meets g.require_all g.required_roles (λ r. Has r u.roles)
      to e = elim (Option-cases (identity_of m core (credential core req))) [
        | inl missing ↦
            let stopped : handle m core unauthorized req (guarded g) ≡ ok unauthorized =
              ((handle-settled m core unauthorized req (guarded g)).1 (nobody missing)).0
                required in
            absurd (apart (cc))
        | inr (u, f) ↦
            let (claims, p, w) = (identity_of_iff m core req _ u refl).0 f in
            (u, claims, p, w, (through u claims p w).0 e)
      ]

      from :
          (u : UserContext j.Value) × (claims : j.Value) × Presents m core req claims
            × IsUserOf m core claims u
            × Meets g.require_all g.required_roles (λ r. Has r u.roles)
          → handle m core unauthorized req (guarded g) ≡ ok allowed
      from (u, claims, p, w, met) = (through u claims p w).1 met
