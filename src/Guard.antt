-- ===== src/Guard.antt =====
-- src/guard.rs: the authentication, role and permission guards, and the map onto core errors.
pub mod Laws
pub mod Denials
use armature_auth.Prelude.{
  String, Bool, true, false, ◌||◌, List, Option, none, some, Result, ok, err, ◌>>=◌, ok_or, map_err,
  if◌then◌else◌, any, all, is_empty,
}
use armature_auth.Error.{
  AuthError, AuthResult, display, unauthorized, forbidden, invalid_token, token_expired, jwt_error,
}
use armature_auth.User.{AuthUser, UserContext, user_context, has_any_role, has_all_roles}
use armature_auth.Http.{Core, HttpRequest, Kind}

-- `armature_core::Error`, with the two constructors that the code uses.
pub record CoreErrors : Type 1 where
  pub Error : Type 0
  pub unauthorized : String → Error
  pub forbidden : String → Error

unfoldable pub to_core_error :
    {J : Type 0} → (core : CoreErrors) → (J → String) → AuthError J → core.Error
to_core_error core show unauthorized = core.unauthorized (display show unauthorized)
to_core_error core show (invalid_token m) = core.unauthorized (display show (invalid_token m))
to_core_error core show token_expired = core.unauthorized (display show token_expired)
to_core_error core show (jwt_error e) = core.unauthorized (display show (jwt_error e))
to_core_error core show other = core.forbidden (display show other)

-- What `impl_core_guard!` writes for a guard, on the request of the guard's context.
unfoldable pub core_can_activate :
    {J R : Type 0}
    → (core : CoreErrors) → (J → String)
    → (R → AuthResult J Bool)
    → R
    → Result core.Error Bool
core_can_activate core show can_activate request =
    map_err (to_core_error core show) (can_activate request)

pub record RoleGuard : Type 0 where
  pub required_roles : List String
  pub require_all : Bool

pub record PermissionGuard : Type 0 where
  pub required_permissions : List String
  pub require_all : Bool

-- `RoleGuard::any` and `RoleGuard::all`.
abbrev pub role_guard_any : List String → RoleGuard
role_guard_any roles = record { required_roles = roles; require_all = false }

abbrev pub role_guard_all : List String → RoleGuard
role_guard_all roles = record { required_roles = roles; require_all = true }

-- `PermissionGuard::any` and `PermissionGuard::all`.
abbrev pub permission_guard_any : List String → PermissionGuard
permission_guard_any permissions = record {
  required_permissions = permissions;
  require_all = false;
}

abbrev pub permission_guard_all : List String → PermissionGuard
permission_guard_all permissions = record { required_permissions = permissions; require_all = true }

module _ {T : Type 0} ⦃u : AuthUser T⦄ where
  unfoldable pub check_roles : RoleGuard → T → Bool
  unfolding has_all_roles has_any_role
  check_roles g user =
      if g.require_all
      then has_all_roles user g.required_roles
      else has_any_role user g.required_roles

  unfoldable pub check_permissions : PermissionGuard → T → Bool
  check_permissions g user =
      if g.require_all
      then all (λ perm. u.has_permission user perm) g.required_permissions
      else any (λ perm. u.has_permission user perm) g.required_permissions

module _ {Value : Type 0} (core : Core Value) where
  unfoldable pub check_role_list : RoleGuard → core.Roles → Bool
  check_role_list g roles =
      if g.require_all
      then all (λ role. core.contains roles role) g.required_roles
      else any (λ role. core.contains roles role) g.required_roles

module _ {Value : Type 0} (core : Core Value) {J : Type 0} where
  -- `AuthGuard::extract_user`, at `T = UserContext`.
  unfoldable pub extract_user : HttpRequest core → AuthResult J (UserContext Value)
  extract_user request = ok_or (core.get Kind.user_context request.extensions) unauthorized

  -- `Guard::can_activate` of `AuthGuard`.
  unfoldable pub auth_guard : HttpRequest core → AuthResult J Bool
  auth_guard request = elim (core.get Kind.user_context request.extensions) [
    | some _ ↦ ok true
    | none ↦ err unauthorized
  ]

  -- `Guard::can_activate` of `RoleGuard`.
  unfoldable pub role_guard : RoleGuard → HttpRequest core → AuthResult J Bool
  unfolding check_roles check_role_list
  role_guard g request = elim (core.get Kind.user_context request.extensions) [
    | some user ↦
        if is_empty g.required_roles || check_roles g user
        then ok true
        else err (forbidden "Insufficient role")
    | none ↦ elim (core.get Kind.request_roles request.extensions) [
      | some roles ↦
          if is_empty g.required_roles || check_role_list core g roles
          then ok true
          else err (forbidden "Insufficient role")
      | none ↦ err unauthorized
    ]
  ]

  -- `Guard::can_activate` of `PermissionGuard`.
  unfoldable pub permission_guard : PermissionGuard → HttpRequest core → AuthResult J Bool
  unfolding check_permissions
  permission_guard g request = do
    user ← ok_or (core.get Kind.user_context request.extensions) unauthorized
    if is_empty g.required_permissions || check_permissions g user
        then ok true
        else err (forbidden "Insufficient permissions")
