-- ===== src/Middleware.antt =====
-- src/middleware.rs: `JwtAuthMiddleware`. The JWT manager is its `verify_access`; the response and
-- error types, and the handler that comes next, are the application's.
pub mod Header
pub mod Forwarded
pub mod Identity
pub mod Access
use armature_auth.Prelude.{
  String, Text, codes, ℕ, Bool, true, false, List, Option, none, some, Result, ok, err,
  if◌then◌else◌, is_empty, split_once, eq_ignore_ascii_case, trim, from_utf8, str_eq,
}
use armature_auth.User.{UserContext, new, with_roles, with_permissions, with_metadata}
use armature_auth.Http.{Core, HttpRequest, Kind}
use armature_auth.Json.{Json, get_str, string_list}

pub data Credential : Type 0 where
  absent : Credential
  bearer : Text → Credential
  malformed : Credential

-- The settings, with `armature_jwt`'s `verify_access` in place of the manager that holds the keys.
pub record JwtAuthMiddleware (j : Json) (JwtError : Type 0) : Type 0 where
  pub verify_access : Text → Result JwtError j.Value
  pub require_auth : Bool
  pub subject_claim : String
  pub roles_claim : String
  pub permissions_claim : String

module _ {j : Json} {E : Type 0} where
  abbrev pub create : (Text → Result E j.Value) → JwtAuthMiddleware j E
  create verify_access = record {
    verify_access = verify_access;
    require_auth = true;
    subject_claim = "sub";
    roles_claim = "roles";
    permissions_claim = "permissions";
  }

  abbrev pub optional : (Text → Result E j.Value) → JwtAuthMiddleware j E
  optional verify_access = record (create verify_access) { require_auth = false }

  abbrev pub set_require_auth : JwtAuthMiddleware j E → Bool → JwtAuthMiddleware j E
  set_require_auth m required = record m { require_auth = required }

  abbrev pub with_subject_claim : JwtAuthMiddleware j E → String → JwtAuthMiddleware j E
  with_subject_claim m claim = record m { subject_claim = claim }

  abbrev pub with_roles_claim : JwtAuthMiddleware j E → String → JwtAuthMiddleware j E
  with_roles_claim m claim = record m { roles_claim = claim }

  abbrev pub with_permissions_claim : JwtAuthMiddleware j E → String → JwtAuthMiddleware j E
  with_permissions_claim m claim = record m { permissions_claim = claim }

-- The part of `credential` that reads the header's value.
unfoldable pub credential_of : List ℕ → Credential
credential_of value = elim (from_utf8 value) [
  | none ↦ malformed
  | some text ↦ elim (split_once b' ' text) [
    | none ↦ malformed
    | some (scheme, rest) ↦
        if eq_ignore_ascii_case scheme (codes "bearer")
        then (let token = trim rest in if is_empty token then malformed else bearer token)
        else malformed
  ]
]

module _ {Value : Type 0} (core : Core Value) where
  unfoldable pub credential : HttpRequest core → Credential
  credential req = elim (core.get_unique "authorization" req.headers) [
    | ok o ↦ elim o [ none ↦ absent | some value ↦ credential_of value ]
    | err _ ↦ malformed
  ]

  abbrev pub attach : HttpRequest core → UserContext Value → HttpRequest core
  attach req context =
      let roles = core.new_roles context.roles in
      let identity = core.new_identity context.user_id in
      record req {
        extensions = core.insert Kind.verified_identity identity (
            core.insert Kind.request_roles roles
              (core.insert Kind.user_context context req.extensions));
      }

  abbrev pub reject : HttpRequest core → HttpRequest core
  reject req = record req {
    headers = core.remove_all "authorization" req.headers;
    extensions = core.insert Kind.rejected_credentials tt req.extensions;
  }

module _ {j : Json} {E : Type 0} (m : JwtAuthMiddleware j E) where
  -- The user of verified claims, if their subject is a text that is not empty.
  unfoldable pub context_of_claims : j.Value → Option (UserContext j.Value)
  context_of_claims claims = elim (get_str j m.subject_claim claims) [
    | some subject ↦
        if str_eq subject ""
        then none
        else some (
            with_metadata
              (with_permissions
                (with_roles (new j.null subject) (string_list j (j.get m.roles_claim claims)))
                (string_list j (j.get m.permissions_claim claims)))
              claims)
    | none ↦ none
  ]

  unfoldable pub context_from_token : Text → Option (UserContext j.Value)
  context_from_token token = elim (m.verify_access token) [
    | ok claims ↦ context_of_claims claims
    | err _ ↦ none
  ]

  module _ (core : Core j.Value) {Error Response : Type 0} (unauthorized : Response) where
    -- The part of `handle` after the credential has been read: `none` is an invalid one.
    abbrev pub settle :
        HttpRequest core
        → (HttpRequest core → Result Error Response)
        → Option (UserContext j.Value)
        → Result Error Response
    settle req next (some context) = next (attach core req context)
    settle req next none = if m.require_auth then ok unauthorized else next (reject core req)

    abbrev pub handle_credential :
        HttpRequest core
        → (HttpRequest core → Result Error Response)
        → Credential
        → Result Error Response
    handle_credential req next absent = if m.require_auth then ok unauthorized else next req
    handle_credential req next (bearer token) = settle req next (context_from_token token)
    handle_credential req next malformed = settle req next none

    unfoldable pub handle :
        HttpRequest core → (HttpRequest core → Result Error Response) → Result Error Response
    handle req next = handle_credential req next (credential core req)
