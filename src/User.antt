-- ===== src/User.antt =====
-- src/user.rs: the trait `AuthUser` as a record of methods, and `UserContext`. The JSON value type
-- of its metadata is `serde_json`'s, a parameter with its null.
use armature_auth.Prelude.{
  String, Bool, true, List, [], ◌∷◌, ◌++◌, Option, none, some, str_eq, any, all,
}

-- The methods that an implementation gives; `is_active` may be overridden, and defaults to `true`.
pub record AuthUser (T : Type 0) : Type 0 where
  pub user_id : T → String
  pub is_active : T → Bool
  pub has_role : T → String → Bool
  pub has_permission : T → String → Bool

abbrev pub is_active_default : {T : Type 0} → T → Bool
is_active_default t = true

module _ {T : Type 0} ⦃u : AuthUser T⦄ where
  unfoldable pub has_any_role : T → List String → Bool
  has_any_role t roles = any (u.has_role t) roles

  unfoldable pub has_all_roles : T → List String → Bool
  has_all_roles t roles = all (u.has_role t) roles

pub record UserContext (Value : Type 0) : Type 0 where
  pub user_id : String
  pub email : Option String
  pub roles : List String
  pub permissions : List String
  pub metadata : Value

module _ {Value : Type 0} where
  abbrev pub new : Value → String → UserContext Value
  new null user_id = record {
    user_id = user_id;
    email = none;
    roles = [];
    permissions = [];
    metadata = null;
  }

  abbrev pub with_email : UserContext Value → String → UserContext Value
  with_email c email = record c { email = some email }

  abbrev pub with_role : UserContext Value → String → UserContext Value
  with_role c role = record c { roles = c.roles ++ role ∷ [] }

  abbrev pub with_roles : UserContext Value → List String → UserContext Value
  with_roles c roles = record c { roles = roles }

  abbrev pub with_permission : UserContext Value → String → UserContext Value
  with_permission c permission = record c { permissions = c.permissions ++ permission ∷ [] }

  abbrev pub with_permissions : UserContext Value → List String → UserContext Value
  with_permissions c permissions = record c { permissions = permissions }

  abbrev pub with_metadata : UserContext Value → Value → UserContext Value
  with_metadata c metadata = record c { metadata = metadata }

  unfoldable pub has_role : UserContext Value → String → Bool
  has_role c role = any (λ r. str_eq r role) c.roles

  unfoldable pub has_permission : UserContext Value → String → Bool
  has_permission c permission = any (λ p. str_eq p permission) c.permissions

  instance abbrev pub user_context : AuthUser (UserContext Value)
  user_context = record {
    user_id = λ c. c.user_id;
    is_active = is_active_default;
    has_role = has_role;
    has_permission = has_permission;
  }
