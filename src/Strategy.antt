-- ===== src/Strategy.antt =====
-- src/strategy.rs: the local strategy (username and password) and the JWT strategy. A store's state
-- and the cell of the dummy hash are passed along; the answers of the blocking pool and the salts are
-- arguments. Warnings that are logged are left out. A downcast of `dyn Any` is a test of a sum.
pub mod Local
pub mod Jwt
use armature_auth.Prelude.{
  String, Text, codes, ℕ, Bool, not, List, [], ◌∷◌, Option, none, some, Result, ok, err, map_err,
  if◌then◌else◌, is_empty, strip_prefix, ok_or,
}
use armature_auth.Error.{
  AuthResult, authentication_failed, invalid_credentials, invalid_token, jwt_error,
}
use armature_auth.Json.{Json, get_str, string_list}
use armature_auth.User.{UserContext, new, with_roles, with_permissions, with_metadata}
use armature_auth.Password.{Kdf, PasswordHasher, default, hash_async, verify_async, needs_rehash}

pub record LocalCredentials : Type 0 where
  pub username : String
  pub password : List ℕ

pub record JwtCredentials : Type 0 where
  pub token : Text

-- The values that a caller may pass as `dyn Any`.
pub data AnyCredentials : Type 0 where
  local_credentials : LocalCredentials → AnyCredentials
  jwt_credentials : JwtCredentials → AnyCredentials
  string : Text → AnyCredentials
  other : AnyCredentials

-- The trait `LocalUserStore`, on a state `S`, for users of a type `T`.
pub record LocalUserStore (J S T : Type 0) : Type 0 where
  pub find_by_username : String → S → AuthResult J (Option (T × Text))
  pub update_password_hash : String → Text → S → AuthResult J (Unit {0}) × S

pub record LocalStrategy (J S T : Type 0) : Type 0 where
  pub store : Option (LocalUserStore J S T)
  pub hasher : PasswordHasher

-- What an `authenticate` call finds and leaves: the store, and the `OnceLock` of the dummy hash.
pub record World (S : Type 0) : Type 0 where
  pub users : S
  pub dummy_hash : Option Text

-- `codes "armature-local-strategy-dummy-password"` are the bytes of the constant.
abbrev pub dummy_password : List ℕ
dummy_password = codes "armature-local-strategy-dummy-password"

-- `update_password_hash` of a store that does not override it.
abbrev pub update_password_hash_default :
    {J S : Type 0} → String → Text → S → AuthResult J (Unit {0}) × S
update_password_hash_default username new_hash s = (ok tt, s)

module _ (kdf : Kdf) (J : Type 0) where
  -- What the calls draw: for the dummy hash, the verification and the rehash.
  pub record Draws : Type 0 where
    pub dummy_join : Option String
    pub dummy_salt : kdf.Salt
    pub verify_join : Option String
    pub rehash_join : Option String
    pub rehash_salt : kdf.Salt

module _ (kdf : Kdf) (J S T : Type 0) where
  unfoldable pub create : LocalStrategy J S T
  create = record { store = none; hasher = default kdf }

  unfoldable pub with_store : LocalUserStore J S T → LocalStrategy J S T
  with_store store = record { store = some store; hasher = default kdf }

  -- A fresh `OnceLock` comes with the new hasher.
  unfoldable pub with_password_hasher :
      LocalStrategy J S T → PasswordHasher → World S → LocalStrategy J S T × World S
  with_password_hasher l hasher w = (record l { hasher = hasher }, record w { dummy_hash = none })

  -- The hash that `equalize_timing` verifies against, which an unsuccessful hashing leaves empty.
  abbrev pub unwrap_or_default : AuthResult J Text → Text
  unwrap_or_default (ok h) = h
  unwrap_or_default (err _) = []

  -- The dummy hash, and the cell that holds it from then on.
  abbrev pub dummy_of : LocalStrategy J S T → Draws kdf J → World S → Text × World S
  dummy_of l d w = elim (w.dummy_hash) [
    | some dummy ↦ (dummy, w)
    | none ↦
        let hash =
          unwrap_or_default
            (hash_async kdf J (d.dummy_join) (l.hasher) (d.dummy_salt) dummy_password) in
        (hash, record w { dummy_hash = some hash })
  ]

  -- `let _ = …`.
  abbrev pub discard : AuthResult J Bool → World S → World S
  discard answer w = w

  unfoldable pub equalize_timing : LocalStrategy J S T → Draws kdf J → List ℕ → World S → World S
  equalize_timing l d password w =
      let (dummy, held) = dummy_of l d w in
      if not (is_empty dummy)
      then discard (verify_async kdf J d.verify_join password dummy) held
      else held

  -- `password rehash-on-login`: failures are logged only.
  unfoldable pub rehash :
      LocalStrategy J S T → Draws kdf J → LocalUserStore J S T → LocalCredentials → Text → S → S
  rehash l d store creds password_hash s =
      if needs_rehash kdf (l.hasher) password_hash
      then elim (hash_async kdf J (d.rehash_join) (l.hasher) (d.rehash_salt) (creds.password)) [
        | ok new_hash ↦ (store.update_password_hash (creds.username) new_hash s).1
        | err _ ↦ s
      ]
      else s

  abbrev pub check_user :
      LocalStrategy J S T
      → Draws kdf J
      → LocalUserStore J S T
      → LocalCredentials
      → World S
      → Option (T × Text)
      → AuthResult J T × World S
  check_user l d store creds w none =
      (err invalid_credentials, equalize_timing l d creds.password w)
  check_user l d store creds w (some (user, password_hash)) =
      elim (verify_async kdf J (d.verify_join) (creds.password) password_hash) [
        | err e ↦ (err e, w)
        | ok valid ↦
            if not valid
            then (err invalid_credentials, w)
            else (ok user, record w { users = rehash l d store creds password_hash (w.users) })
      ]

  abbrev pub check_credentials :
      LocalStrategy J S T
      → Draws kdf J
      → World S
      → LocalCredentials
      → Option (LocalUserStore J S T)
      → AuthResult J T × World S
  check_credentials l d w creds none =
      (err invalid_credentials, equalize_timing l d creds.password w)
  check_credentials l d w creds (some store) =
      elim (store.find_by_username (creds.username) (w.users)) [
        | err e ↦ (err e, w)
        | ok found ↦ check_user l d store creds w found
      ]

  abbrev pub as_local : AnyCredentials → Option LocalCredentials
  as_local (local_credentials creds) = some creds
  as_local (jwt_credentials _) = none
  as_local (string _) = none
  as_local other = none

  unfoldable pub authenticate :
      LocalStrategy J S T → Draws kdf J → World S → AnyCredentials → AuthResult J T × World S
  authenticate l d w credentials = elim (as_local credentials) [
    | none ↦ (err (authentication_failed "expected LocalCredentials for LocalStrategy"), w)
    | some creds ↦ check_credentials l d w creds (l.store)
  ]

-- `JwtStrategy`, by the function of its manager that it calls.
pub record JwtStrategy (j : Json) (J : Type 0) : Type 0 where
  pub verify_access : Text → Result J j.Value

unfoldable pub extract_token : (J : Type 0) → Text → AuthResult J Text
extract_token J header =
    ok_or (strip_prefix (codes "Bearer ") header) (invalid_token "Invalid Bearer token format")

-- The token of `JwtCredentials`, or of a bare string.
abbrev pub token_of : AnyCredentials → Option Text
token_of (local_credentials _) = none
token_of (jwt_credentials creds) = some creds.token
token_of (string token) = some token
token_of other = none

-- `unwrap_or_default`.
abbrev pub subject_or_default : Option String → String
subject_or_default none = ""
subject_or_default (some subject) = subject

module _ (j : Json) where
  unfoldable pub context_of : j.Value → UserContext j.Value
  context_of claims =
      with_metadata
        (with_permissions
          (with_roles (new j.null (subject_or_default (get_str j "sub" claims)))
            (string_list j (j.get "roles" claims)))
          (string_list j (j.get "permissions" claims)))
        claims

module _ {j : Json} {J : Type 0} where
  unfoldable pub authenticate_jwt :
      JwtStrategy j J → AnyCredentials → AuthResult J (UserContext j.Value)
  unfolding context_of
  authenticate_jwt strategy credentials = elim (token_of credentials) [
    | none ↦ err (authentication_failed "expected JwtCredentials for JwtStrategy")
    | some token ↦ elim (strategy.verify_access token) [
      | err e ↦ err (jwt_error e)
      | ok claims ↦ ok (context_of j claims)
    ]
  ]
