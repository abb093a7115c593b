-- ===== src/Samples.antt =====
-- Concrete instances of the interfaces, for the examples: JSON claims, the request types, the
-- cryptographic functions and the codecs.
pub mod Stores
pub mod Kdf
pub mod Saml
use Prim.Native.String
use native.Mathlib.Omega.{arith}
use armature_auth.Prelude.{
  String, Text, ℕ, ◌+◌, ◌*◌, ◌/◌, Bool, true, false, List, [], ◌∷◌, ◌++◌, map, Option, none, some,
  Result, ok, err, ◌≡◌, ◌≢◌, refl, ap, ◌∙◌, any, str_eq, eq_iff, eq_refl, decimal, assoc_get,
  assoc_remove, assoc_get-remove, if◌then◌else◌,
}
use armature_auth.Error.{concat}
use armature_auth.User.{UserContext}
use armature_auth.Json.{Json}
use armature_auth.Http.{Core, Kind, Slot, HttpRequest}
use armature_auth.Crypto.{Crypto}
use armature_auth.TwoFactor.{Codecs}
use armature_auth.Guard.{CoreErrors}

-- The claims of a user: a subject, a nonce and roles. All users are of one tenant.
pub data Value : Type 0 where
  null : Value
  text : String → Value
  items : List String → Value
  claims : String → String → List String → Value

abbrev pub get_claim : String → Value → Option Value
get_claim name null = none
get_claim name (text _) = none
get_claim name (items _) = none
get_claim name (claims subject nonce roles) =
    if str_eq name "sub"
    then some (text subject)
    else if str_eq name "nonce"
    then some (text nonce)
    else if str_eq name "roles"
    then some (items roles)
    else if str_eq name "tid"
    then some (text "tenant")
    else if str_eq name "oid"
    then some (text subject)
    else none

abbrev pub text_of : Value → Option String
text_of null = none
text_of (text s) = some s
text_of (items _) = none
text_of (claims _ _ _) = none

abbrev pub items_of : Value → Option (List Value)
items_of null = none
items_of (text s) = none
items_of (items vs) = some (map text vs)
items_of (claims _ _ _) = none

abbrev pub json : Json
json = record {
  Value = Value;
  null = null;
  get = get_claim;
  as_str = text_of;
  as_array = items_of;
  of_str = text;
  as_str-of_str = λ s. refl;
}

-- One slot for each type of extension.
pub record Slots : Type 0 where
  pub user : Option (UserContext Value)
  pub roles : Option (List String)
  pub identity : Option String
  pub rejected : Option (Unit {0})

abbrev pub no_slots : Slots
no_slots = record { user = none; roles = none; identity = none; rejected = none }

abbrev pub get_slot : (k : Kind) → Slots → Option (Slot Value (List String) String k)
get_slot Kind.user_context x = x.user
get_slot Kind.request_roles x = x.roles
get_slot Kind.verified_identity x = x.identity
get_slot Kind.rejected_credentials x = x.rejected

abbrev pub set_slot : (k : Kind) → Slot Value (List String) String k → Slots → Slots
set_slot Kind.user_context v x = record x { user = some v }
set_slot Kind.request_roles v x = record x { roles = some v }
set_slot Kind.verified_identity v x = record x { identity = some v }
set_slot Kind.rejected_credentials v x = record x { rejected = some v }

pub get_slot-set_self :
    (k : Kind) (v : Slot Value (List String) String k) (x : Slots)
    → get_slot k (set_slot k v x) ≡ some v
get_slot-set_self Kind.user_context v x = refl
get_slot-set_self Kind.request_roles v x = refl
get_slot-set_self Kind.verified_identity v x = refl
get_slot-set_self Kind.rejected_credentials v x = refl

pub get_slot-set_ne :
    (j k : Kind) (v : Slot Value (List String) String k) (x : Slots)
    → j ≢ k
    → get_slot j (set_slot k v x) ≡ get_slot j x
get_slot-set_ne Kind.user_context Kind.user_context v x ne = absurd (ne refl)
get_slot-set_ne Kind.user_context Kind.request_roles v x ne = refl
get_slot-set_ne Kind.user_context Kind.verified_identity v x ne = refl
get_slot-set_ne Kind.user_context Kind.rejected_credentials v x ne = refl
get_slot-set_ne Kind.request_roles Kind.user_context v x ne = refl
get_slot-set_ne Kind.request_roles Kind.request_roles v x ne = absurd (ne refl)
get_slot-set_ne Kind.request_roles Kind.verified_identity v x ne = refl
get_slot-set_ne Kind.request_roles Kind.rejected_credentials v x ne = refl
get_slot-set_ne Kind.verified_identity Kind.user_context v x ne = refl
get_slot-set_ne Kind.verified_identity Kind.request_roles v x ne = refl
get_slot-set_ne Kind.verified_identity Kind.verified_identity v x ne = absurd (ne refl)
get_slot-set_ne Kind.verified_identity Kind.rejected_credentials v x ne = refl
get_slot-set_ne Kind.rejected_credentials Kind.user_context v x ne = refl
get_slot-set_ne Kind.rejected_credentials Kind.request_roles v x ne = refl
get_slot-set_ne Kind.rejected_credentials Kind.verified_identity v x ne = refl
get_slot-set_ne Kind.rejected_credentials Kind.rejected_credentials v x ne = absurd (ne refl)

pub get_unique-removed :
    (name : String) (h : List (String × List ℕ))
    → Path
        (Result (Unit {0}) (Option (List ℕ)))
        (ok (assoc_get name (assoc_remove name h)))
        (ok none)
get_unique-removed name h = ap ok (assoc_get-remove name name h ∙ ground (arith, eq_refl name))

abbrev pub core : Core Value
core = record {
  Roles = List String;
  new_roles = λ rs. rs;
  contains = λ rs r. any (λ s. str_eq s r) rs;
  contains-new_roles = λ rs r. refl;
  Identity = String;
  new_identity = λ s. s;
  Extensions = Slots;
  get = get_slot;
  insert = set_slot;
  get-insert_self = get_slot-set_self;
  get-insert_ne = get_slot-set_ne;
  Headers = List (String × List ℕ);
  DuplicateHeader = Unit {0};
  get_unique = λ name h. ok (assoc_get name h);
  remove_all = assoc_remove;
  get_unique-remove_all =
      λ name h. ap ok (assoc_get-remove name name h ∙ ground (arith, eq_refl name));
  Rest = Unit {0};
}

abbrev pub core_errors : CoreErrors
core_errors = record {
  Error = String × String;
  unauthorized = λ m. ("401", m);
  forbidden = λ m. ("403", m);
}

abbrev pub with_user : List String → List String → HttpRequest core
with_user roles permissions = record {
  headers = [];
  extensions = record no_slots {
    user = some (record {
      user_id = "ana";
      email = none;
      roles = roles;
      permissions = permissions;
      metadata = null;
    });
  };
  rest = tt;
}

abbrev pub anonymous : HttpRequest core
anonymous = record { headers = []; extensions = no_slots; rest = tt }

-- Each byte in decimal.
abbrev pub print_bytes : List ℕ → String
print_bytes [] = ""
print_bytes (b ∷ bs) = concat (decimal b) (concat "." (print_bytes bs))

abbrev pub crypto : Crypto
crypto = record {
  hmac_sha256 = λ key s. key ++ s;
  sha256 = λ s. s;
  hex_encode = print_bytes;
  url_safe_no_pad = print_bytes;
  ct_eq = str_eq;
  ct_eq_iff = eq_iff;
}

abbrev pub sixteen : List ℕ
sixteen = 1 ∷ 2 ∷ 3 ∷ 4 ∷ 5 ∷ 6 ∷ 7 ∷ 8 ∷ 9 ∷ 10 ∷ 11 ∷ 12 ∷ 13 ∷ 14 ∷ 15 ∷ 16 ∷ []

-- A code is the number of its step.
abbrev pub codecs : Codecs
codecs = record {
  totp = λ step digits bytes time. decimal (time / step);
  base32_encode = print_bytes;
  base32_decode = λ s. some sixteen;
  url_encode = λ s. s;
  qr_svg = λ s. ok s;
}
