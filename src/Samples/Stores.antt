-- ===== src/Samples/Stores.antt =====
-- Stores for the examples: API keys in a list, and users in a list.
use native.Mathlib.Omega.{arith}
use armature_auth.Prelude.{
  String, Text, ℤ, true, List, [], ◌∷◌, map, Option, none, some, ok, ◌≡◌, refl, ap, ◌∙◌, str_eq,
  eq_iff, eq_refl, if◌then◌else◌, ok-injective, Bool-cases, inl, inr,
}
use armature_auth.ApiKey.{ApiKey, ApiKeyStore}
use armature_auth.ApiKey.Lifecycle.{LawfulStore}
use armature_auth.Strategy.{LocalUserStore}

abbrev pub find_hash : String → List ApiKey → Option ApiKey
find_hash h [] = none
find_hash h (k ∷ ks) = if str_eq k.key_hash h then some k else find_hash h ks

abbrev pub find_id : String → List ApiKey → Option ApiKey
find_id id [] = none
find_id id (k ∷ ks) = if str_eq k.id id then some k else find_id id ks

abbrev pub of_user : String → List ApiKey → List ApiKey
of_user user [] = []
of_user user (k ∷ ks) =
    let rest = of_user user ks in if str_eq k.user_id user then k ∷ rest else rest

abbrev pub revoke_one : String → ApiKey → ApiKey
revoke_one id k = if str_eq k.id id then record k { revoked = true } else k

abbrev pub use_one : String → ℤ → ApiKey → ApiKey
use_one id at k = if str_eq k.id id then record k { last_used_at = some at } else k

abbrev pub key_store : ApiKeyStore (List ApiKey)
key_store = record {
  save = λ k ks. (ok tt, k ∷ ks);
  find_by_key_hash = λ h ks. ok (find_hash h ks);
  find_by_id = λ id ks. ok (find_id id ks);
  list_by_user = λ user ks. ok (of_user user ks);
  revoke = λ id ks. (ok tt, map (revoke_one id) ks);
  update_last_used = λ id at ks. (ok tt, map (use_one id at) ks);
}

hash-revoke_one : (id : String) (k : ApiKey) → (revoke_one id k).key_hash ≡ k.key_hash
hash-revoke_one id k = elim (Bool-cases (str_eq k.id id)) [ inl e ↦ rw e refl | inr e ↦ rw e refl ]

id-revoke_one : (id : String) (k : ApiKey) → (revoke_one id k).id ≡ k.id
id-revoke_one id k = elim (Bool-cases (str_eq k.id id)) [ inl e ↦ rw e refl | inr e ↦ rw e refl ]

find_hash-revoke :
    (id h : String) (ks : List ApiKey)
    → find_hash h (map (revoke_one id) ks)
      ≡ elim (find_hash h ks) [ none ↦ none | some k ↦ some (revoke_one id k) ]
find_hash-revoke id h [] = refl
find_hash-revoke id h (k ∷ ks) = elim (Bool-cases (str_eq k.key_hash h)) [
  | inl e ↦ rw (hash-revoke_one id k, e) refl
  | inr e ↦ rw (hash-revoke_one id k, e) (find_hash-revoke id h ks)
]

find_id-revoke :
    (id i : String) (ks : List ApiKey)
    → find_id i (map (revoke_one id) ks)
      ≡ elim (find_id i ks) [ none ↦ none | some k ↦ some (revoke_one id k) ]
find_id-revoke id i [] = refl
find_id-revoke id i (k ∷ ks) = elim (Bool-cases (str_eq k.id i)) [
  | inl e ↦ rw (id-revoke_one id k, e) refl
  | inr e ↦ rw (id-revoke_one id k, e) (find_id-revoke id i ks)
]

pub key_store_lawful : LawfulStore key_store
key_store_lawful = record {
  find-save = λ k s new_id new_hash saved. rw (eq_refl k.key_hash) refl;
  find-save_other = λ k h s new_id other saved. ground (arith, eq_iff k.key_hash h);
  find-revoke = λ k s by_id by_hash done.
      ap ok (find_hash-revoke k.id k.key_hash s ∙ rw (ok-injective by_hash, eq_refl k.id) refl);
  find-revoke_absent =
      λ id h s absent. ap ok (find_hash-revoke id h s ∙ rw (ok-injective absent) refl);
  find_by_id-revoke_absent =
      λ id i s absent. ap ok (find_id-revoke id i s ∙ rw (ok-injective absent) refl);
}

-- Users with their hashes, by name.
abbrev pub look_up : String → List (String × Text) → Option (String × Text)
look_up name [] = none
look_up name ((user, hash) ∷ users) =
    if str_eq user name then some (user, hash) else look_up name users

abbrev pub user_store : LocalUserStore String (List (String × Text)) String
user_store = record {
  find_by_username = λ name users. ok (look_up name users);
  update_password_hash = λ name hash users. (ok tt, (name, hash) ∷ users);
}
