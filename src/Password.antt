-- ===== src/Password.antt =====
-- src/password.rs: hashing, verification and the rehash test. `bcrypt` and `argon2` are an interface;
-- salts come from the randomness argument of their hash functions. Texts that the code walks are
-- code points, and a hash is ASCII.
pub mod Laws
use armature_auth.Prelude.{
  String, Text, codes, ℕ, zero, suc, ◌+◌, ◌*◌, Bool, true, false, not, ◌||◌, ◌&&◌, ◌==◌, ltb, leb,
  List, [], ◌∷◌, ◌++◌, Option, none, some, Result, ok, err, ◌>>=◌, map_err, if◌then◌else◌,
  strip_prefix, parse_u32, decimal, length, text_beq,
}
use armature_auth.Error.{
  AuthError, AuthResult, concat, configuration, password_hash_error, password_verify_error,
}

pub data HashAlgorithm : Type 0 where
  bcrypt argon2 : HashAlgorithm

-- `argon2::Params`, by the three costs that the code reads.
pub record Params : Type 0 where
  pub m_cost : ℕ
  pub t_cost : ℕ
  pub p_cost : ℕ

-- A parsed PHC string: the algorithm's name, and the parameters if they are valid.
pub record PasswordHash : Type 0 where
  pub algorithm : Text
  pub params : Option Params

-- The foreign functions; errors are their messages. A password is the bytes of its UTF-8 form.
pub record Kdf : Type 1 where
  -- The randomness that a salt is drawn from.
  pub Salt : Type 0
  pub valid_params : ℕ → ℕ → ℕ → Result String Params
  pub default_cost : ℕ
  pub bcrypt_hash : Salt → List ℕ → ℕ → Result String Text
  pub bcrypt_verify : List ℕ → Text → Result String Bool
  pub argon2_hash : Salt → List ℕ → Params → Result String Text
  pub parse_phc : Text → Result String PasswordHash
  -- `Argon2::default().verify_password(..).is_ok()`.
  pub argon2_verify : List ℕ → Text → Bool

abbrev pub default_argon2_m_cost : ℕ
default_argon2_m_cost = 64 * 1024

abbrev pub default_argon2_t_cost : ℕ
default_argon2_t_cost = 3

abbrev pub default_argon2_p_cost : ℕ
default_argon2_p_cost = 1

abbrev pub bcrypt_max_password_bytes : ℕ
bcrypt_max_password_bytes = 72

pub record PasswordHasher : Type 0 where
  pub algorithm : HashAlgorithm
  pub argon2_params : Params
  pub bcrypt_cost : ℕ

-- `hash.starts_with(prefix)`.
unfoldable pub starts_with : Text → Text → Bool
starts_with prefix hash = elim (strip_prefix prefix hash) [ none ↦ false | some _ ↦ true ]

-- `hash.split(sep).nth(n)`.
abbrev pub glue : ℕ → List Text → List Text
glue ch [] = (ch ∷ []) ∷ []
glue ch (field ∷ fields) = (ch ∷ field) ∷ fields

unfoldable pub split : ℕ → Text → List Text
split sep [] = [] ∷ []
split sep (ch ∷ s) = let rest = split sep s in if ch == sep then [] ∷ rest else glue ch rest

abbrev pub nth : ℕ → List Text → Option Text
nth n [] = none
nth zero (x ∷ xs) = some x
nth (suc n) (x ∷ xs) = nth n xs

abbrev pub too_long : String
too_long = "bcrypt cannot hash passwords longer than 72 bytes; use Argon2"

unfoldable pub is_bcrypt_cost : ℕ → Bool
is_bcrypt_cost cost = leb 4 cost && leb cost 31

module _ (kdf : Kdf) where
  -- The parameters of `new` are valid, so its `expect` does not fail.
  unfoldable pub new : HashAlgorithm → PasswordHasher
  new algorithm = record {
    algorithm = algorithm;
    argon2_params = record {
      m_cost = default_argon2_m_cost;
      t_cost = default_argon2_t_cost;
      p_cost = default_argon2_p_cost;
    };
    bcrypt_cost = kdf.default_cost;
  }

  unfoldable pub default : PasswordHasher
  unfolding new
  default = new argon2

  -- The version is found first by the test on `$2`.
  unfoldable pub needs_rehash : PasswordHasher → Text → Bool
  needs_rehash hasher hash = elim (hasher.algorithm) [
    | bcrypt ↦
        if not (starts_with (codes "$2") hash) then true else elim (nth 2 (split b'$' hash)) [
          | none ↦ true
          | some field ↦ elim (parse_u32 field) [
            | none ↦ true
            | some cost ↦ ltb cost (hasher.bcrypt_cost)
          ]
        ]
    | argon2 ↦ elim (kdf.parse_phc hash) [
      | err _ ↦ true
      | ok parsed ↦
          if not (text_beq (parsed.algorithm) (codes "argon2id"))
          then true
          else elim (parsed.params) [
            | none ↦ true
            | some params ↦
                ltb (params.m_cost) (hasher.argon2_params.m_cost)
                || ltb (params.t_cost) (hasher.argon2_params.t_cost)
                || not (params.p_cost == hasher.argon2_params.p_cost)
          ]
    ]
  ]

module _ (kdf : Kdf) (J : Type 0) where
  unfoldable pub with_argon2_params : PasswordHasher → ℕ → ℕ → ℕ → AuthResult J PasswordHasher
  with_argon2_params hasher m t p = elim (kdf.valid_params m t p) [
    | err e ↦ err (configuration (concat "invalid Argon2 parameters: " e))
    | ok params ↦ ok (record {
      algorithm = hasher.algorithm;
      argon2_params = params;
      bcrypt_cost = hasher.bcrypt_cost;
    })
  ]

  -- `decimal` prints the cost.
  unfoldable pub with_bcrypt_cost : (ℕ → String) → PasswordHasher → ℕ → AuthResult J PasswordHasher
  unfolding is_bcrypt_cost
  with_bcrypt_cost print hasher cost =
      if not (is_bcrypt_cost cost)
      then err (
          configuration
            (concat "bcrypt cost must be within 4..=31 (got " (concat (print cost) ")")))
      else ok (record {
        algorithm = hasher.algorithm;
        argon2_params = hasher.argon2_params;
        bcrypt_cost = cost;
      })

  unfoldable pub hash_bcrypt : PasswordHasher → kdf.Salt → List ℕ → AuthResult J Text
  hash_bcrypt hasher salt password =
      if ltb bcrypt_max_password_bytes (length password)
      then err (password_hash_error too_long)
      else map_err password_hash_error (kdf.bcrypt_hash salt password hasher.bcrypt_cost)

  unfoldable pub hash_argon2 : PasswordHasher → kdf.Salt → List ℕ → AuthResult J Text
  hash_argon2 hasher salt password =
      map_err password_hash_error (kdf.argon2_hash salt password hasher.argon2_params)

  unfoldable pub hash : PasswordHasher → kdf.Salt → List ℕ → AuthResult J Text
  unfolding hash_bcrypt hash_argon2
  hash hasher salt password = elim (hasher.algorithm) [
    | bcrypt ↦ hash_bcrypt hasher salt password
    | argon2 ↦ hash_argon2 hasher salt password
  ]

  unfoldable pub verify : List ℕ → Text → AuthResult J Bool
  verify password hash =
      if starts_with (codes "$2") hash
      then if ltb bcrypt_max_password_bytes (length password)
        then ok false
        else map_err password_verify_error (kdf.bcrypt_verify password hash)
      else if starts_with (codes "$argon2") hash
      then elim (kdf.parse_phc hash) [
        | err e ↦ err (password_verify_error e)
        | ok _ ↦ ok (kdf.argon2_verify password hash)
      ]
      else err (password_verify_error "Unknown hash format")

  -- `spawn_blocking(..).await`: the task's result, or the message of the join error.
  abbrev pub joined :
      {A : Type 0} → (String → AuthError J) → Option String → AuthResult J A → AuthResult J A
  joined failed none result = result
  joined failed (some e) result = err (failed e)

  unfoldable pub hash_async : Option String → PasswordHasher → kdf.Salt → List ℕ → AuthResult J Text
  unfolding hash
  hash_async join hasher salt password =
      joined (λ e. password_hash_error (concat "hashing task failed: " e)) join
        (hash hasher salt password)

  unfoldable pub verify_async : Option String → List ℕ → Text → AuthResult J Bool
  unfolding verify
  verify_async join password hash =
      joined (λ e. password_verify_error (concat "verify task failed: " e)) join
        (verify password hash)
