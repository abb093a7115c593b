-- ===== src/Examples/Guards.antt =====
-- src/guard.rs, src/middleware.rs: the guards and the middleware on concrete requests.
use native.Mathlib.Omega.{arith}
use armature_auth.Prelude.{
  String, Text, codes, ℕ, true, false, [], ◌∷◌, ◌++◌, none, some, Result, ok, err, ◌≡◌, ◌≢◌, refl,
  inl, inr, ◌⊎◌, from_utf8, split_once, trim, eq_ignore_ascii_case,
}
use armature_auth.User.{UserContext}
use armature_auth.Http.{HttpRequest}
use armature_auth.Guard.{
  RoleGuard, PermissionGuard, role_guard, permission_guard, core_can_activate,
}
use armature_auth.Guard.Laws.{
  RoleAllowed, PermissionAllowed, role_guard-eq-ok_iff, permission_guard-eq-ok_iff,
}
use armature_auth.Guard.Denials.{core_guards_decide}
use armature_auth.Middleware.{
  JwtAuthMiddleware, create, handle, bearer, credential, context_from_token, context_of_claims,
  credential_of,
}
use armature_auth.Middleware.Identity.{handle_lem, IsUserOf}
use armature_auth.Middleware.Forwarded.{IsAttached}
use armature_auth.Middleware.Access.{handle-guarded_iff, guarded}
use armature_auth.Json.{get_str, string_list}
use armature_auth.Strategy.{authenticate_jwt, jwt_credentials}
use armature_auth.Strategy.Jwt.{context_from_token-authenticate_jwt}
use armature_auth.Samples.{Value, claims, null, json, core, core_errors, with_user, anonymous}

abbrev admins : RoleGuard
admins = record { required_roles = "admin" ∷ "owner" ∷ []; require_all = false }

abbrev writers : PermissionGuard
writers = record { required_permissions = "read" ∷ "write" ∷ []; require_all = true }

role_guard-eq-ok_iff_example :
    role_guard core {J = String} admins (with_user ("user" ∷ "owner" ∷ []) []) ≡ ok true
role_guard-eq-ok_iff_example =
    (role_guard-eq-ok_iff core {J = String} admins (with_user ("user" ∷ "owner" ∷ []) []) true).1
      (refl, inr (inr (inl (inr (inl refl)))))

permission_guard-eq-ok_iff_example :
    permission_guard core {J = String} writers (with_user [] ("write" ∷ "read" ∷ [])) ≡ ok true
permission_guard-eq-ok_iff_example =
    (permission_guard-eq-ok_iff core {J = String} writers (with_user [] ("write" ∷ "read" ∷ []))
        true).1
      (refl, (inr (inl refl), (inl refl, tt)))

abbrev ana : UserContext Value
ana = record {
  user_id = "ana";
  email = none;
  roles = "user" ∷ [];
  permissions = "read" ∷ "write" ∷ [];
  metadata = null;
}

core_guards_decide_example :
    ((RoleAllowed core admins (some ana) none
        × (core_can_activate core_errors
              (λ (s : String). s)
              (role_guard core admins)
              (with_user ("user" ∷ []) ("read" ∷ "write" ∷ []))
            ≡ ok true))
      ⊎ ((¬ RoleAllowed core admins (some ana) none)
          × (core_can_activate core_errors
                (λ (s : String). s)
                (role_guard core admins)
                (with_user ("user" ∷ []) ("read" ∷ "write" ∷ []))
              ≡ err ("403", "Forbidden: Insufficient role"))))
    × ((PermissionAllowed core writers (some ana)
          × (core_can_activate core_errors
                (λ (s : String). s)
                (permission_guard core writers)
                (with_user ("user" ∷ []) ("read" ∷ "write" ∷ []))
              ≡ ok true))
        ⊎ ((¬ PermissionAllowed core writers (some ana))
            × (core_can_activate core_errors
                  (λ (s : String). s)
                  (permission_guard core writers)
                  (with_user ("user" ∷ []) ("read" ∷ "write" ∷ []))
                ≡ err ("403", "Forbidden: Insufficient permissions"))))
core_guards_decide_example =
    core_guards_decide core core_errors (λ (s : String). s) admins writers
      (with_user ("user" ∷ []) ("read" ∷ "write" ∷ [])) ana refl

-- A manager that verifies every token, as that of an owner.
abbrev verify_all : Text → Result String Value
verify_all token = ok (claims "ana" "" ("owner" ∷ []))

abbrev middleware : JwtAuthMiddleware json String
middleware = create {j = json} verify_all

abbrev with_token : HttpRequest core
with_token = record {
  headers = ("authorization", codes "Bearer" ++ b' ' ∷ codes "a.b") ∷ [];
  extensions = anonymous.extensions;
  rest = tt;
}

-- The owner of the token.
abbrev owner : UserContext Value
owner = record {
  user_id = "ana";
  email = none;
  roles = "owner" ∷ [];
  permissions = [];
  metadata = claims "ana" "" ("owner" ∷ []);
}

is_owner : IsUserOf middleware core (claims "ana" "" ("owner" ∷ [])) owner
unfolding get_str string_list
is_owner = record {
  named = refl;
  nonempty = λ e. cc;
  no_email = refl;
  claimed_roles = refl;
  claimed_permissions = refl;
  whole = refl;
}

read_bearer : credential core with_token ≡ bearer (codes "a.b")
unfolding credential credential_of eq_ignore_ascii_case from_utf8 split_once trim
read_bearer = refl

handle_lem_example :
    (out : HttpRequest core) × IsAttached core with_token owner out
    × (handle middleware core {Error = String} {Response = HttpRequest core} anonymous with_token
          (λ req. ok req)
        ≡ ok out)
handle_lem_example =
    (handle_lem middleware core {Error = String} {Response = HttpRequest core} anonymous with_token
        (λ req. ok req)).0
      owner (claims "ana" "" ("owner" ∷ [])) (codes "a.b", read_bearer, refl) is_owner

handle-guarded_iff_example :
    handle middleware core {Error = String} {Response = ℕ} 401 with_token
      (guarded middleware core String 401 403 200 admins)
    ≡ ok 200
handle-guarded_iff_example =
    (handle-guarded_iff middleware core {Error = String} {Response = ℕ} String 401 403 200 admins
        with_token refl (λ e. omega arith) (λ e. omega arith)).1
      (
        owner,
        claims "ana" "" ("owner" ∷ []),
        (codes "a.b", read_bearer, refl),
        is_owner,
        inr (inr (inl (inl refl))),
      )

context_from_token-authenticate_jwt_example :
    (authenticate_jwt {j = json}
        (record { verify_access = verify_all })
        (jwt_credentials (record { token = codes "a.b" }))
      ≡ ok owner)
    × (owner.user_id ≢ "")
unfolding context_from_token context_of_claims get_str string_list
context_from_token-authenticate_jwt_example =
    (context_from_token-authenticate_jwt json verify_all (codes "a.b") owner).0 refl
