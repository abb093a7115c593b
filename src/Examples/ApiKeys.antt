-- ===== src/Examples/ApiKeys.antt =====
-- src/api_key.rs: a manager over a list of keys, and its rate limiter.
use native.Mathlib.Omega.{arith}
use armature_auth.Prelude.{
  String, ℕ, ℤ, pos, true, List, [], ◌∷◌, none, some, ok, err, ◌≡◌, refl, decimal, ◌+ℤ◌, ◌-ℤ◌,
  assoc,
}
use armature_auth.ApiKey.{ApiKey, ApiKeyManager, GeneratedApiKey, State, revoked, expired, secret}
use armature_auth.ApiKey.Manager.{
  Readings, Draw, generated, generate, validate, hash_key, rotate, revoke,
}
use armature_auth.ApiKey.Window.{Request, decisions, decisions-eq-unswept, unswept}
use armature_auth.ApiKey.Quota.{accepted, quota_exact}
use armature_auth.ApiKey.Validation.{validate-eq-some_iff, validate_refusals}
use armature_auth.ApiKey.Lifecycle.{generate-validate, rotate_lem}
use armature_auth.Samples.{crypto}
use armature_auth.Samples.Stores.{key_store, key_store_lawful}

abbrev manager : ApiKeyManager
manager = record {
  pepper = 7 ∷ [];
  key_prefix = "ak";
  default_expiration = some (pos 100);
  rate_limit_window = pos 60;
}

abbrev Keys : Type 0
Keys = State (List ApiKey) (List (String × (ℤ × ℕ)))

abbrev draw : Draw
draw = record { uuid = "id1"; bytes = 1 ∷ 2 ∷ []; at_expiry = pos 10; at_creation = pos 11 }

abbrev second_draw : Draw
second_draw = record { uuid = "id2"; bytes = 3 ∷ []; at_expiry = pos 20; at_creation = pos 21 }

abbrev first_key : GeneratedApiKey
first_key = generated crypto manager draw "ana" ("read" ∷ [])

abbrev second_key : GeneratedApiKey
second_key = generated crypto manager second_draw "ana" ("read" ∷ [])

abbrev empty : Keys
empty = record { store = []; rate_counters = []; last_sweep_unix = pos 0 }

abbrev one_key : Keys
one_key = record { store = first_key.api_key ∷ []; rate_counters = []; last_sweep_unix = pos 0 }

abbrev early : Readings
early = record { at_expiry = pos 30; at_limit = pos 30; at_use = pos 31 }

abbrev late : Readings
late = record { at_expiry = pos 500; at_limit = pos 500; at_use = pos 501 }

validate-eq-some_iff_example :
    (validate (assoc (ℤ × ℕ)) crypto key_store manager early (secret first_key) one_key).0
    ≡ ok (some first_key.api_key)
unfolding hash_key decimal ◌+ℤ◌
validate-eq-some_iff_example =
    (validate-eq-some_iff (assoc (ℤ × ℕ)) crypto key_store manager early (secret first_key) one_key
        first_key.api_key).1
      (record {
        found = refl;
        genuine = refl;
        active = refl;
        unexpired = omega arith;
        within_limit = refl;
        recorded = refl;
      })

validate_refusals_example :
    validate (assoc (ℤ × ℕ)) crypto key_store manager late (secret first_key) one_key
    ≡ (err expired, one_key)
unfolding hash_key decimal ◌+ℤ◌
validate_refusals_example =
    ((validate_refusals (assoc (ℤ × ℕ)) crypto key_store manager late (secret first_key) one_key
          (some first_key.api_key) refl).1
        first_key.api_key refl).2
      refl refl (λ e. omega arith)

generate-validate_example :
    ((validate (assoc (ℤ × ℕ)) crypto key_store manager early (secret first_key) one_key).0
      ≡ ok (some first_key.api_key))
    × (first_key.api_key.user_id ≡ "ana")
    × (first_key.api_key.scopes ≡ "read" ∷ [])
unfolding generate hash_key decimal ◌+ℤ◌
generate-validate_example =
    generate-validate (assoc (ℤ × ℕ)) crypto key_store_lawful manager draw "ana" ("read" ∷ []) empty
      one_key first_key early refl (record { new_id = refl; new_hash = refl }) (omega arith) refl

abbrev rotated : Keys
rotated = record {
  store = second_key.api_key ∷ record first_key.api_key { revoked = true } ∷ [];
  rate_counters = [];
  last_sweep_unix = pos 0;
}

rotate_lem_example :
    ((validate (assoc (ℤ × ℕ)) crypto key_store manager early (secret first_key) rotated).0
      ≡ err revoked)
    × ((validate (assoc (ℤ × ℕ)) crypto key_store manager early (secret second_key) rotated).0
        ≡ ok (some second_key.api_key))
    × (second_key.api_key.user_id ≡ "ana")
    × (second_key.api_key.scopes ≡ "read" ∷ [])
unfolding rotate generate revoke hash_key decimal ◌+ℤ◌
rotate_lem_example =
    rotate_lem (assoc (ℤ × ℕ)) crypto key_store_lawful manager second_draw (secret first_key)
      one_key rotated second_key first_key.api_key early refl refl refl refl
      (record { new_id = refl; new_hash = refl }) (omega arith) refl

abbrev ask : String → ℕ → Request
ask k at = record { key_id = k; limit = 2; at = pos at }

abbrev burst : List Request
burst = ask "b" 1 ∷ ask "a" 2 ∷ ask "a" 3 ∷ []

quota_exact_example :
    accepted "a" (ask "a" 0 ∷ burst) (decisions (assoc (ℤ × ℕ)) manager empty (ask "a" 0 ∷ burst))
    ≡ 2
unfolding ◌-ℤ◌
quota_exact_example =
    quota_exact (assoc (ℤ × ℕ)) manager empty (ask "a" 0) burst refl (omega arith)
      ((λ e. (refl, omega arith)), ((λ e. (refl, omega arith)), ((λ e. (refl, omega arith)), tt)))
      (omega arith)

decisions-eq-unswept_example :
    decisions (assoc (ℤ × ℕ)) manager empty (ask "a" 0 ∷ burst)
    ≡ unswept (pos 60) (λ j. none) (ask "a" 0 ∷ burst)
decisions-eq-unswept_example =
    decisions-eq-unswept (assoc (ℤ × ℕ)) manager (pos 0) empty (ask "a" 0 ∷ burst) (omega arith)
