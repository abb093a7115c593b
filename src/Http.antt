-- ===== src/Http.antt =====
-- What the crate uses of `armature_core` (not under src/), as an interface: request extensions,
-- which are a map keyed by type, and headers, with the documented behaviour that the code relies on.
use armature_auth.Prelude.{
  String, ℕ, Bool, List, Option, none, some, Result, ok, ◌≡◌, ◌≢◌, any, str_eq,
}
use armature_auth.User.{UserContext}

-- The extension types that src/guard.rs and src/middleware.rs read or insert.
pub data Kind : Type 0 where
  user_context request_roles verified_identity rejected_credentials : Kind

-- The value that an extension of each type holds; `RejectedCredentials` is a unit struct.
abbrev pub Slot : Type 0 → Type 0 → Type 0 → Kind → Type 0
Slot Value Roles Identity user_context = UserContext Value
Slot Value Roles Identity request_roles = Roles
Slot Value Roles Identity verified_identity = Identity
Slot Value Roles Identity rejected_credentials = Unit {0}

pub record Core (Value : Type 0) : Type 1 where
  pub Roles : Type 0
  pub new_roles : List String → Roles
  pub contains : Roles → String → Bool
  pub contains-new_roles :
      (rs : List String) (r : String) → contains (new_roles rs) r ≡ any (λ x. str_eq x r) rs
  pub Identity : Type 0
  pub new_identity : String → Identity
  pub Extensions : Type 0
  pub get : (k : Kind) → Extensions → Option (Slot Value Roles Identity k)
  pub insert : (k : Kind) → Slot Value Roles Identity k → Extensions → Extensions
  pub get-insert_self :
      (k : Kind) (v : Slot Value Roles Identity k) (x : Extensions) → get k (insert k v x) ≡ some v
  pub get-insert_ne :
      (j k : Kind) (v : Slot Value Roles Identity k) (x : Extensions)
      → j ≢ k
      → get j (insert k v x) ≡ get j x
  pub Headers : Type 0
  pub DuplicateHeader : Type 0
  pub get_unique : String → Headers → Result DuplicateHeader (Option (List ℕ))
  pub remove_all : String → Headers → Headers
  pub get_unique-remove_all :
      (name : String) (h : Headers) → get_unique name (remove_all name h) ≡ ok none
  -- The method, path and body of a request, which the code passes on unread.
  pub Rest : Type 0

-- `HttpRequest`, as far as the code looks into it.
pub record HttpRequest {Value : Type 0} (core : Core Value) : Type 0 where
  pub headers : core.Headers
  pub extensions : core.Extensions
  pub rest : core.Rest
