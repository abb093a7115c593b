-- ===== src/ApiKey/Scopes.antt =====
-- `has_scope` of src/api_key.rs: which scopes a key has.
use armature_auth.Prelude.{
  String, true, ◌≡◌, ◌↔◌, ◌⊎◌, List, [], ◌∷◌, Any, any, str_eq, eq_iff, ◌||◌, arith,
}
use armature_auth.ApiKey.{ApiKey, has_scope}

any_scope_iff :
    (required : String) (scopes : List String)
    → (any (λ s. str_eq s required || str_eq s "*") scopes ≡ true)
      ↔ Any (λ s. (s ≡ required) ⊎ (s ≡ "*")) scopes
any_scope_iff required [] = (λ e. cc, λ a. absurd a)
any_scope_iff required (s ∷ scopes) =
    grind (arith, any_scope_iff required scopes, eq_iff s required, eq_iff s "*")

-- A key has a scope exactly when its list has that scope or the wildcard `*`.
pub has_scope_iff :
    (k : ApiKey) (required : String)
    → (has_scope k required ≡ true) ↔ Any (λ s. (s ≡ required) ⊎ (s ≡ "*")) k.scopes
unfolding has_scope
has_scope_iff k required = any_scope_iff required k.scopes
