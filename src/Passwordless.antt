-- ===== src/Passwordless.antt =====
-- src/passwordless.rs: magic-link tokens, their store and their redemption. Instants are nanoseconds;
-- random bytes and clock readings are arguments.
pub mod Redemption
pub mod SingleUse
pub mod Progress
pub mod Kept
pub mod Served
pub mod WebAuthn
use armature_auth.Prelude.{
  String, ℕ, ℤ, ◌+ℤ◌, ltb_ℤ, Bool, false, true, not, List, Option, none, some, Result, ok, err,
  ok_or, ◌>>=◌, if◌then◌else◌, Table, codes,
}
use armature_auth.Error.{concat}
use armature_auth.Crypto.{Crypto}

pub data PasswordlessError : Type 0 where
  invalid_token token_expired token_used : PasswordlessError
  web_authn feature_not_enabled storage : String → PasswordlessError

pub record MagicLinkToken : Type 0 where
  pub token_hash : String
  pub identifier : String
  pub created_at : ℤ
  pub expires_at : ℤ
  pub used : Bool

pub record IssuedMagicLink : Type 0 where
  pub token_record : MagicLinkToken
  pub token : String

abbrev pub secret : IssuedMagicLink → String
secret issued = issued.token

abbrev pub to_url : IssuedMagicLink → String → String
to_url issued base_url = concat base_url (concat "?token=" issued.token)

unfoldable pub hash_token : Crypto → String → String
hash_token c token = c.hex_encode (c.sha256 (codes token))

-- `from_std` is `chrono::Duration::from_std`, which refuses a time span out of its range.
unfoldable pub generate :
    Crypto → (ℕ → Option ℤ) → List ℕ → ℤ → String → ℕ → Result PasswordlessError IssuedMagicLink
generate c from_std bytes now identifier ttl = do
  let token = c.hex_encode bytes
  duration ← ok_or (from_std ttl) invalid_token
  ok (record {
    token_record = record {
      token_hash = hash_token c token;
      identifier = identifier;
      created_at = now;
      expires_at = now +ℤ duration;
      used = false;
    };
    token = token;
  })

unfoldable pub is_usable : ℤ → MagicLinkToken → Result PasswordlessError Bool
is_usable now r =
    if r.used then err token_used else if ltb_ℤ r.expires_at now then err token_expired else ok true

-- `MagicLinkToken::consume`: the answer, and the record afterwards.
unfoldable pub consume :
    Crypto → ℤ → String → MagicLinkToken → Result PasswordlessError (Unit {0}) × MagicLinkToken
unfolding is_usable
consume c now candidate r =
    if not (c.ct_eq (hash_token c candidate) r.token_hash)
    then (err invalid_token, r)
    else elim (is_usable now r) [ err e ↦ (err e, r) | ok _ ↦ (ok tt, record r { used = true }) ]

-- The trait `MagicLinkStore`, over the store's own state; each operation is atomic.
pub record MagicLinkStore (S : Type 0) : Type 0 where
  pub save : MagicLinkToken → S → Result PasswordlessError (Unit {0}) × S
  pub claim : String → S → Result PasswordlessError (Option MagicLinkToken) × S

-- `InMemoryMagicLinkStore`.
module _ (t : Table MagicLinkToken) where
  abbrev pub new : t.Map
  new = t.empty

  unfoldable pub prune_expired : ℤ → t.Map → t.Map
  prune_expired now records = t.retain (λ r. not (ltb_ℤ r.expires_at now)) records

  abbrev pub in_memory : MagicLinkStore t.Map
  in_memory = record {
    save = λ r records. (ok tt, t.insert r.token_hash r records);
    claim = λ token_hash records. (ok (t.get token_hash records), t.remove token_hash records);
  }

-- What `redeem_magic_link` does with the record that it claimed.
unfoldable pub redeem_claimed :
    Crypto → ℤ → String → Option MagicLinkToken → Result PasswordlessError MagicLinkToken
unfolding consume
redeem_claimed c now presented none = err invalid_token
redeem_claimed c now presented (some r) =
    let out = consume c now presented r in elim out.0 [ ok _ ↦ ok (out.1) | err e ↦ err e ]

unfoldable pub redeem_magic_link :
    {S : Type 0}
    → Crypto
    → MagicLinkStore S
    → ℤ
    → String
    → S
    → Result PasswordlessError MagicLinkToken × S
unfolding redeem_claimed
redeem_magic_link c store now presented s =
    let claimed = store.claim (hash_token c presented) s in
    (claimed.0 >>= redeem_claimed c now presented, claimed.1)
