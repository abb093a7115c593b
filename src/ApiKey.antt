-- ===== src/ApiKey.antt =====
-- src/api_key.rs: keys, the store's interface and the manager's state. Instants and durations are
-- whole nanoseconds, as in `chrono`.
pub mod Limiter
pub mod Window
pub mod Quota
pub mod Scopes
pub mod Manager
pub mod Validation
pub mod Lifecycle
use armature_auth.Prelude.{
  String, ℕ, ℤ, pos, negsuc, ◌*◌, ◌^◌, Bool, false, true, ◌||◌, List, [], Option, none, some,
  Result, ok, err, ltb, if◌then◌else◌, Table, decimal, any, str_eq, length,
}
use armature_auth.Error.{concat}

pub data ApiKeyError : Type 0 where
  invalid expired revoked : ApiKeyError
  insufficient_permissions : String → ApiKeyError
  storage : String → ApiKeyError
  rate_limit_exceeded : ApiKeyError
  configuration : String → ApiKeyError

abbrev pub min_pepper_len : ℕ
min_pepper_len = 32

abbrev pub rate_counter_sweep_threshold : ℕ
rate_counter_sweep_threshold = 1024

-- Nanoseconds in a second.
abbrev pub nanos : ℕ
nanos = 1_000_000_000

pub record ApiKey : Type 0 where
  pub id : String
  pub key_hash : String
  pub user_id : String
  pub name : Option String
  pub scopes : List String
  pub created_at : ℤ
  pub expires_at : Option ℤ
  pub last_used_at : Option ℤ
  pub revoked : Bool
  pub rate_limit : Option ℕ

pub record GeneratedApiKey : Type 0 where
  pub api_key : ApiKey
  pub plaintext : String

abbrev pub secret : GeneratedApiKey → String
secret g = g.plaintext

abbrev pub into_secret : GeneratedApiKey → String
into_secret g = g.plaintext

abbrev pub deref : GeneratedApiKey → ApiKey
deref g = g.api_key

-- The trait `ApiKeyStore`, over the store's own state; the look-ups leave it alone.
pub record ApiKeyStore (S : Type 0) : Type 0 where
  pub save : ApiKey → S → Result ApiKeyError (Unit {0}) × S
  pub find_by_key_hash : String → S → Result ApiKeyError (Option ApiKey)
  pub find_by_id : String → S → Result ApiKeyError (Option ApiKey)
  pub list_by_user : String → S → Result ApiKeyError (List ApiKey)
  pub revoke : String → S → Result ApiKeyError (Unit {0}) × S
  pub update_last_used : String → ℤ → S → Result ApiKeyError (Unit {0}) × S

-- The settings of a manager, fixed once it is built.
pub record ApiKeyManager : Type 0 where
  pub pepper : List ℕ
  pub key_prefix : String
  pub default_expiration : Option ℤ
  pub rate_limit_window : ℤ

-- What a manager's calls change: the store, the counters `(window_start, count_in_window)` and the
-- second of the last sweep.
pub record State (S : Type 0) (Counters : Type 0) : Type 0 where
  pub store : S
  pub rate_counters : Counters
  pub last_sweep_unix : ℤ

-- `Duration::days` and `Duration::minutes`.
abbrev pub days : ℕ → ℤ
days n = pos (n * (24 * 60 * 60 * nanos))

abbrev pub minutes : ℕ → ℤ
minutes n = pos (n * (60 * nanos))

unfoldable pub new : List ℕ → Result ApiKeyError ApiKeyManager
new pepper =
    if ltb (length pepper) min_pepper_len
    then err (
        configuration (
          concat "API key pepper must be at least " (
            concat (decimal min_pepper_len)
              (concat " bytes (got " (concat (decimal (length pepper)) ")")))))
    else ok (record {
      pepper = pepper;
      key_prefix = "ak";
      default_expiration = some (days 365);
      rate_limit_window = minutes 1;
    })

-- The counters and the sweep mark of a new manager, beside the store that it is given.
abbrev pub initial : {S : Type 0} → (t : Table (ℤ × ℕ)) → S → State S t.Map
initial t store = record { store = store; rate_counters = t.empty; last_sweep_unix = pos 0 }

abbrev pub with_prefix : ApiKeyManager → String → ApiKeyManager
with_prefix m prefix = record m { key_prefix = prefix }

abbrev pub with_expiration : ApiKeyManager → Option ℤ → ApiKeyManager
with_expiration m duration = record m { default_expiration = duration }

abbrev pub with_rate_limit_window : ApiKeyManager → ℤ → ApiKeyManager
with_rate_limit_window m window = record m { rate_limit_window = window }

unfoldable pub has_scope : ApiKey → String → Bool
has_scope api_key required_scope = any (λ s. str_eq s required_scope || str_eq s "*") api_key.scopes
