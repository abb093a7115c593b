-- ===== src/ApiKey/Manager.antt =====
-- The operations of `ApiKeyManager` in src/api_key.rs, as functions of its state that return an
-- error or a value with the new state. Random bytes, identifiers and clock readings are arguments.
use armature_auth.Prelude.{
  String, ℕ, ℤ, ◌+ℤ◌, ltb_ℤ, Bool, false, not, List, Option, none, some, Result, ok, err, ok_or,
  if◌then◌else◌, Table, codes,
}
use mathlib.Core.Option
use armature_auth.Error.{concat}
use armature_auth.Crypto.{Crypto}
use armature_auth.ApiKey.{
  ApiKeyError, invalid, expired, revoked, ApiKey, GeneratedApiKey, ApiKeyStore, ApiKeyManager,
  State,
}
use armature_auth.ApiKey.Limiter.{check_rate_limit}

-- The clock as `validate` reads it: for the expiry, for the rate limit, for the time of last use.
pub record Readings : Type 0 where
  pub at_expiry : ℤ
  pub at_limit : ℤ
  pub at_use : ℤ

-- What `generate` draws and reads: the UUID, 32 random bytes, and the clock, twice.
pub record Draw : Type 0 where
  pub uuid : String
  pub bytes : List ℕ
  pub at_expiry : ℤ
  pub at_creation : ℤ

-- `Utc::now() > expires_at`, for a key that has an expiry.
abbrev pub is_expired : ℤ → Option ℤ → Bool
is_expired now none = false
is_expired now (some expires_at) = ltb_ℤ expires_at now

unfoldable pub hash_key : Crypto → ApiKeyManager → String → String
hash_key c m key = c.hex_encode (c.hmac_sha256 m.pepper (codes key))

abbrev pub M : Type 0 → Type 0 → Type 0 → Type 0
M S C A = State S C → Result ApiKeyError A × State S C

module _ {S C : Type 0} where
  infixl 5 ◌>>=◌ ◌>>◌
  -- An error ends the operation, and what was written before it stays.
  abbrev pub ◌>>=◌ : {A B : Type 0} → M S C A → (A → M S C B) → M S C B
  ◌>>=◌ p f s = elim (p s).0 [ ok a ↦ f a (p s).1 | err e ↦ (err e, (p s).1) ]

  abbrev pub ◌>>◌ : {B : Type 0} → M S C (Unit {0}) → M S C B → M S C B
  p >> q = p >>= λ _. q

  abbrev pub return : {A : Type 0} → A → M S C A
  return a s = (ok a, s)

  abbrev pub fail : {A : Type 0} → ApiKeyError → M S C A
  fail e s = (err e, s)

  -- A look-up in the store, and a write to it.
  abbrev pub look : {A : Type 0} → (S → Result ApiKeyError A) → M S C A
  look f s = (f s.store, s)

  abbrev pub write : (S → Result ApiKeyError (Unit {0}) × S) → M S C (Unit {0})
  write f s = let out = f s.store in (out.0, record s { store = out.1 })

module _ (c : Crypto) (m : ApiKeyManager) where
  -- `generate_random_key`.
  abbrev pub generate_random_key : List ℕ → String
  generate_random_key bytes = c.url_safe_no_pad bytes

  abbrev pub generated : Draw → String → List String → GeneratedApiKey
  generated d user_id scopes =
      let key_string = concat m.key_prefix (concat "_" (generate_random_key d.bytes)) in
      record {
        api_key = record {
          id = d.uuid;
          key_hash = hash_key c m key_string;
          user_id = user_id;
          name = none;
          scopes = scopes;
          created_at = d.at_creation;
          expires_at = Option.map (λ duration. d.at_expiry +ℤ duration) m.default_expiration;
          last_used_at = none;
          revoked = false;
          rate_limit = none;
        };
        plaintext = key_string;
      }

module _ {S : Type 0} (t : Table (ℤ × ℕ)) (m : ApiKeyManager) where
  -- The per-key rate limit, if one is configured.
  abbrev pub enforce : ℤ → ApiKey → Option ℕ → M S t.Map (Unit {0})
  enforce now k none = return tt
  enforce now k (some rate_limit) = check_rate_limit t m now k.id rate_limit

module _ {S : Type 0} (t : Table (ℤ × ℕ)) (c : Crypto) (store : ApiKeyStore S)
    (m : ApiKeyManager) where
  unfoldable pub generate : Draw → String → List String → M S t.Map GeneratedApiKey
  generate d user_id scopes = do
    write (store.save (generated c m d user_id scopes).api_key)
    return (generated c m d user_id scopes)

  -- The checks of `validate` on the record that the store returned.
  unfoldable pub check_found : Readings → String → ApiKey → M S t.Map (Option ApiKey)
  check_found now key_hash k =
      if not (c.ct_eq k.key_hash key_hash)
      then return none
      else if k.revoked
      then fail revoked
      else if is_expired now.at_expiry k.expires_at
      then fail expired
      else do
        enforce t m now.at_limit k k.rate_limit
        write (store.update_last_used k.id now.at_use)
        return (some k)

  abbrev pub check_option : Readings → String → Option ApiKey → M S t.Map (Option ApiKey)
  check_option now key_hash none = return none
  check_option now key_hash (some k) = check_found now key_hash k

  unfoldable pub validate : Readings → String → M S t.Map (Option ApiKey)
  validate now key = do
    let key_hash = hash_key c m key
    found ← look (store.find_by_key_hash key_hash)
    check_option now key_hash found

  unfoldable pub revoke : String → M S t.Map (Unit {0})
  revoke key_id = write (store.revoke key_id)

  unfoldable pub list_user_keys : String → M S t.Map (List ApiKey)
  list_user_keys user_id = look (store.list_by_user user_id)

  unfoldable pub rotate : Draw → String → M S t.Map GeneratedApiKey
  unfolding revoke generate
  rotate d old_key_id = do
    found ← look (store.find_by_id old_key_id)
    old_key ← (λ s. (ok_or found invalid, s))
    revoke old_key_id
    generate d old_key.user_id old_key.scopes
