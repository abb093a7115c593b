-- ===== src/Guard/Laws.antt =====
-- src/guard.rs: who passes the guards, and what the others are answered.
use armature_auth.Prelude.{
  String, Bool, true, false, ◌≡◌, refl, ◌↔◌, ◌⊎◌, inl, inr, List, [], ◌∷◌, Option, none, some, ok,
  err, Has, All, Any, ◌||◌, if◌then◌else◌, any_iff, all_iff, any-str_eq_iff, is_empty, any, all,
}
use armature_auth.Error.{AuthError}
use armature_auth.User.{UserContext, user_context, has_role, has_permission}
use armature_auth.Http.{Core, HttpRequest, Kind}
use armature_auth.Guard.{
  RoleGuard, PermissionGuard, check_roles, check_permissions, check_role_list, role_guard,
  permission_guard,
}

-- The names that `P` holds of meet those required: all of them, or one at least; an empty
-- requirement asks for nothing.
abbrev pub Meets : Bool → List String → (String → Type 0) → Type 0
Meets true required P = All P required
Meets false required P = (required ≡ []) ⊎ Any P required

-- The test that both kinds of guard make, over a way to look one name up.
abbrev passes : Bool → List String → (String → Bool) → Bool
passes require_all required holds =
    is_empty required || (if require_all then all holds required else any holds required)

module _ (holds : String → Bool) (P : String → Type 0)
    (h : (r : String) → (holds r ≡ true) ↔ P r) where
  passes-Meets_iff :
      (require_all : Bool) (required : List String)
      → (passes require_all required holds ≡ true) ↔ Meets require_all required P
  passes-Meets_iff true [] = (λ e. tt, λ m. refl)
  passes-Meets_iff true (r ∷ required) = all_iff holds P h (r ∷ required)
  passes-Meets_iff false [] = (λ e. inl refl, λ m. refl)
  passes-Meets_iff false (r ∷ required) =
      let (to, from) = any_iff holds P h (r ∷ required) in
      (λ e. inr (to e), λ m. elim m [ inl e ↦ cc | inr a ↦ from a ])

module _ {Value : Type 0} where
  pub roles_test :
      (g : RoleGuard) (u : UserContext Value)
      → ((is_empty g.required_roles || check_roles g u) ≡ true)
        ↔ Meets g.require_all g.required_roles (λ r. Has r u.roles)
  unfolding check_roles has_role
  roles_test g u =
      passes-Meets_iff (has_role u) (λ r. Has r u.roles) (λ r. any-str_eq_iff r u.roles)
        g.require_all g.required_roles

  pub permissions_test :
      (g : PermissionGuard) (u : UserContext Value)
      → ((is_empty g.required_permissions || check_permissions g u) ≡ true)
        ↔ Meets g.require_all g.required_permissions (λ p. Has p u.permissions)
  unfolding check_permissions has_permission
  permissions_test g u =
      passes-Meets_iff (has_permission u) (λ p. Has p u.permissions)
        (λ p. any-str_eq_iff p u.permissions) g.require_all g.required_permissions

module _ {Value : Type 0} (core : Core Value) where
  pub role_list_test :
      (g : RoleGuard) (roles : core.Roles)
      → ((is_empty g.required_roles || check_role_list core g roles) ≡ true)
        ↔ Meets g.require_all g.required_roles (λ r. core.contains roles r ≡ true)
  unfolding check_role_list
  role_list_test g roles =
      passes-Meets_iff (core.contains roles) (λ r. core.contains roles r ≡ true)
        (λ r. (λ e. e, λ e. e)) g.require_all g.required_roles

  -- A verified user whose roles meet the requirement or, where no user is attached, an attached
  -- role list that does.
  abbrev pub RoleAllowed : RoleGuard → Option (UserContext Value) → Option core.Roles → Type 0
  RoleAllowed g (some u) rs = Meets g.require_all g.required_roles (λ r. Has r u.roles)
  RoleAllowed g none (some rs) =
      Meets g.require_all g.required_roles (λ r. core.contains rs r ≡ true)
  RoleAllowed g none none = ⊥

  -- A verified user whose permissions meet the requirement.
  abbrev pub PermissionAllowed : PermissionGuard → Option (UserContext Value) → Type 0
  PermissionAllowed g (some u) =
      Meets g.require_all g.required_permissions (λ p. Has p u.permissions)
  PermissionAllowed g none = ⊥

module _ {Value : Type 0} (core : Core Value) {J : Type 0} where
  -- The answer `if t then ok true else err e`, with `t` told by `P`.
  answer_iff :
      (t : Bool) (e : AuthError J) {P : Type 0} (b : Bool)
      → (t ≡ true) ↔ P
      → ((if t then ok true else err e) ≡ ok b) ↔ ((b ≡ true) × P)
  answer_iff true e b (to, from) = (λ h. (cc, to refl), λ (q, p). cc)
  answer_iff false e b (to, from) = (λ h. cc, λ (q, p). cc (from p))

  role_cases :
      (g : RoleGuard) (request : HttpRequest core) (b : Bool) (user : Option (UserContext Value))
      (roles : Option core.Roles)
      → core.get Kind.user_context request.extensions ≡ user
      → core.get Kind.request_roles request.extensions ≡ roles
      → (role_guard core {J = J} g request ≡ ok b) ↔ ((b ≡ true) × RoleAllowed core g user roles)
  unfolding role_guard
  role_cases g request b (some u) roles e f = rw (e, role_guard) (answer_iff _ _ b (roles_test g u))
  role_cases g request b none (some rs) e f =
      rw (e, f, role_guard) (answer_iff _ _ b (role_list_test core g rs))
  role_cases g request b none none e f = rw (e, f, role_guard) (λ h. cc, λ h. absurd h.1)

  -- A role guard lets a request pass exactly when the roles that it requires, all or any of them as it
  -- is set, are among those of the user that is attached, or, without a user, in the list of roles that
  -- is attached; a guard that requires none asks for one of the two to be there. It never answers
  -- `false`.
  pub role_guard-eq-ok_iff :
      (g : RoleGuard) (request : HttpRequest core) (b : Bool)
      → (role_guard core {J = J} g request ≡ ok b) ↔ (
          (b ≡ true)
          × RoleAllowed core g
              (core.get Kind.user_context request.extensions)
              (core.get Kind.request_roles request.extensions))
  role_guard-eq-ok_iff g request b = role_cases g request b _ _ refl refl

  permission_cases :
      (g : PermissionGuard) (request : HttpRequest core) (b : Bool)
      (user : Option (UserContext Value))
      → core.get Kind.user_context request.extensions ≡ user
      → (permission_guard core {J = J} g request ≡ ok b)
        ↔ ((b ≡ true) × PermissionAllowed core g user)
  unfolding permission_guard
  permission_cases g request b (some u) e =
      rw (e, permission_guard) (answer_iff _ _ b (permissions_test g u))
  permission_cases g request b none e = rw (e, permission_guard) (λ h. cc, λ h. absurd h.1)

  -- A permission guard lets a request pass exactly when a verified user is attached whose
  -- permissions meet the requirement, and never answers `false`.
  pub permission_guard-eq-ok_iff :
      (g : PermissionGuard) (request : HttpRequest core) (b : Bool)
      → (permission_guard core {J = J} g request ≡ ok b)
        ↔ ((b ≡ true) × PermissionAllowed core g (core.get Kind.user_context request.extensions))
  permission_guard-eq-ok_iff g request b = permission_cases g request b _ refl
