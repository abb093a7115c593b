-- ===== src/Service.antt =====
-- src/lib.rs: `AuthService`, the front of the password hasher and of the JWT manager. Log lines are
-- left out.
use armature_auth.Prelude.{Text, ℕ, Bool, not, List, Option, none, some, ok, err, if◌then◌else◌}
use armature_auth.Error.{AuthResult, inactive_user}
use armature_auth.User.{AuthUser}
use armature_auth.Password.{Kdf, PasswordHasher, hash, verify, default}

-- `Manager` is `armature_jwt::JwtManager`.
pub record AuthService (Manager : Type 0) : Type 0 where
  pub manager : Option Manager
  pub password_hasher : PasswordHasher

module _ (kdf : Kdf) {Manager : Type 0} where
  unfoldable pub with_jwt : Manager → AuthService Manager
  with_jwt jwt = record { manager = some jwt; password_hasher = default kdf }

module _ (kdf : Kdf) (Manager : Type 0) where
  unfoldable pub create : AuthService Manager
  create = record { manager = none; password_hasher = default kdf }

module _ {Manager : Type 0} where
  unfoldable pub with_password_hasher : AuthService Manager → PasswordHasher → AuthService Manager
  with_password_hasher service hasher = record service { password_hasher = hasher }

  abbrev pub jwt_manager : AuthService Manager → Option Manager
  jwt_manager service = service.manager

module _ (kdf : Kdf) (J : Type 0) {Manager : Type 0} where
  unfoldable pub hash_password : AuthService Manager → kdf.Salt → List ℕ → AuthResult J Text
  hash_password service salt password = hash kdf J (service.password_hasher) salt password

  unfoldable pub verify_password : AuthService Manager → List ℕ → Text → AuthResult J Bool
  verify_password service password hash = verify kdf J password hash

module _ {T : Type 0} ⦃u : AuthUser T⦄ (J : Type 0) where
  unfoldable pub validate : T → AuthResult J (Unit {0})
  validate user = if not (u.is_active user) then err inactive_user else ok tt
