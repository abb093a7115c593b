-- ===== src/Guard/Denials.antt =====
-- src/guard.rs: what core routing is answered when a guard does not let a request pass.
use armature_auth.Prelude.{
  String, true, ◌≡◌, refl, ◌⊎◌, inl, inr, none, some, ok, err, ◌||◌, is_empty, Bool-cases,
}
use armature_auth.Error.{display}
use armature_auth.User.{UserContext, user_context}
use armature_auth.Http.{Core, HttpRequest, Kind}
use armature_auth.Guard.{
  RoleGuard, PermissionGuard, check_roles, check_permissions, role_guard, permission_guard,
  auth_guard, CoreErrors, core_can_activate, to_core_error,
}
use armature_auth.Guard.Laws.{RoleAllowed, PermissionAllowed, roles_test, permissions_test}

module _ {Value : Type 0} (core : Core Value) {J : Type 0} (errors : CoreErrors)
    (show : J → String) where
  -- A request with neither a verified user nor a role list is answered `Unauthorized` by the core
  -- form of all three guards, whatever its headers and whatever the guards require, an empty list
  -- included.
  pub core_guards_fail_closed :
      (roles : RoleGuard) (permissions : PermissionGuard) (request : HttpRequest core)
      → core.get Kind.user_context request.extensions ≡ none
      → core.get Kind.request_roles request.extensions ≡ none
      → (core_can_activate errors show (auth_guard core) request
          ≡ err (errors.unauthorized "Unauthorized"))
        × (core_can_activate errors show (role_guard core roles) request
            ≡ err (errors.unauthorized "Unauthorized"))
        × (core_can_activate errors show (permission_guard core permissions) request
            ≡ err (errors.unauthorized "Unauthorized"))
  unfolding core_can_activate auth_guard role_guard permission_guard to_core_error display
  core_guards_fail_closed roles permissions request e f =
      (rw (e, auth_guard), rw (e, f, role_guard), rw (e, permission_guard))

  -- A verified user is let through by the core form of the role and the permission guard, or is
  -- answered `Forbidden` with the guard's message, as the requirement is met or not.
  pub core_guards_decide :
      (roles : RoleGuard) (permissions : PermissionGuard) (request : HttpRequest core)
      (user : UserContext Value)
      → core.get Kind.user_context request.extensions ≡ some user
      → ((RoleAllowed core roles (some user) none
            × (core_can_activate errors show (role_guard core roles) request ≡ ok true))
          ⊎ ((¬ RoleAllowed core roles (some user) none)
              × (core_can_activate errors show (role_guard core roles) request
                  ≡ err (errors.forbidden "Forbidden: Insufficient role"))))
        × ((PermissionAllowed core permissions (some user)
              × (core_can_activate errors show (permission_guard core permissions) request
                  ≡ ok true))
            ⊎ ((¬ PermissionAllowed core permissions (some user))
                × (core_can_activate errors show (permission_guard core permissions) request
                    ≡ err (errors.forbidden "Forbidden: Insufficient permissions"))))
  unfolding core_can_activate role_guard permission_guard to_core_error display
  core_guards_decide roles permissions request user e = (
    rw (e, role_guard)
        (elim (Bool-cases (is_empty roles.required_roles || check_roles roles user)) [
          | inl t ↦ rw t (inl ((roles_test roles user).0 t, refl))
          | inr t ↦ rw t (inr ((λ m. cc ((roles_test roles user).1 m)), refl))
        ]),
    rw (e, permission_guard)
        (elim (Bool-cases
          (is_empty permissions.required_permissions || check_permissions permissions user)) [
            | inl t ↦ rw t (inl ((permissions_test permissions user).0 t, refl))
            | inr t ↦ rw t (inr ((λ m. cc ((permissions_test permissions user).1 m)), refl))
          ]),
  )
