-- ===== src/Password/Laws.antt =====
-- src/password.rs: what a hasher's own hashes satisfy, from the formats of the two hash functions.
use armature_auth.Prelude.{
  Text, codes, ℕ, ◌<◌, true, false, ◌≡◌, List, some, ◌⊎◌, inl, inr, Bool-cases, map_err-eq-ok, refl,
  ok, err, length, parse_u32, text_beq, arith, ltb,
}
use armature_auth.Error.{password_hash_error}
use armature_auth.Password.{
  Kdf, Params, PasswordHasher, HashAlgorithm, bcrypt, argon2, hash, hash_bcrypt, too_long,
  hash_argon2, verify, needs_rehash, split, nth, starts_with,
}

-- What the two crates document of their outputs. A bcrypt hash is `$2b$<cost>$...`.
pub record LawfulKdf (kdf : Kdf) : Type 0 where
  pub bcrypt-format :
      (salt : kdf.Salt) (password : List ℕ) (cost : ℕ) (h : Text)
      → kdf.bcrypt_hash salt password cost ≡ ok h
      → (starts_with (codes "$2") h ≡ true)
        × ((field : Text) × (nth 2 (split b'$' h) ≡ some field) × (parse_u32 field ≡ some cost))
  pub bcrypt-verifies :
      (salt : kdf.Salt) (password : List ℕ) (cost : ℕ) (h : Text)
      → kdf.bcrypt_hash salt password cost ≡ ok h
      → kdf.bcrypt_verify password h ≡ ok true
  pub argon2-format :
      (salt : kdf.Salt) (password : List ℕ) (params : Params) (h : Text)
      → kdf.argon2_hash salt password params ≡ ok h
      → ((starts_with (codes "$2") h ≡ false) × (starts_with (codes "$argon2") h ≡ true))
        × (kdf.parse_phc h ≡ ok (record { algorithm = codes "argon2id"; params = some params }))
  pub argon2-verifies :
      (salt : kdf.Salt) (password : List ℕ) (params : Params) (h : Text)
      → kdf.argon2_hash salt password params ≡ ok h
      → kdf.argon2_verify password h ≡ true

algorithm-cases : (a : HashAlgorithm) → (a ≡ bcrypt) ⊎ (a ≡ argon2)
algorithm-cases bcrypt = inl refl
algorithm-cases argon2 = inr refl

module _ (kdf : Kdf) (J : Type 0) where
  -- What a successful `hash` called: its algorithm's function, bcrypt's on at most 72 bytes.
  hash-eq-ok :
      (hasher : PasswordHasher) (salt : kdf.Salt) (password : List ℕ) (h : Text)
      → hash kdf J hasher salt password ≡ ok h
      → ((hasher.algorithm ≡ bcrypt)
          × (ltb 72 (length password) ≡ false)
          × (kdf.bcrypt_hash salt password hasher.bcrypt_cost ≡ ok h))
        ⊎ ((hasher.algorithm ≡ argon2)
            × (kdf.argon2_hash salt password hasher.argon2_params ≡ ok h))
  unfolding hash hash_bcrypt hash_argon2
  hash-eq-ok hasher salt password h made = elim (algorithm-cases hasher.algorithm) [
    | inl a ↦
        let called = rw (a, hash) at made in
        elim (Bool-cases (ltb 72 (length password))) [
          | inl long ↦ (let stop = rw (long, hash_bcrypt) at called in cc)
          | inr short ↦
              let hashed = rw (short, hash_bcrypt) at called in
              inl (a, short, map_err-eq-ok password_hash_error _ hashed)
        ]
    | inr a ↦
        (let called = rw (a, hash) at made in inr (a, map_err-eq-ok password_hash_error _ called))
  ]

  -- A password of more than 72 bytes is refused on both sides of bcrypt: a bcrypt hasher does not
  -- hash it, and no bcrypt hash accepts it, whatever the algorithm of the hasher is.
  pub bcrypt_refuses_long :
      (hasher : PasswordHasher) (salt : kdf.Salt) (password : List ℕ) (h : Text)
      → starts_with (codes "$2") h ≡ true
      → 72 < length password
      → (hasher.algorithm ≡ bcrypt
          → hash kdf J hasher salt password ≡ err (password_hash_error too_long))
        × (verify kdf J password h ≡ ok false)
  unfolding hash hash_bcrypt verify
  bcrypt_refuses_long hasher salt password h format long =
      let test : ltb 72 (length password) ≡ true = ground arith in
      ((λ a. rw (a, test) refl), rw (format, test) refl)

module _ (kdf : Kdf) (law : LawfulKdf kdf) (J : Type 0) where
  -- A hash that a hasher makes verifies against the password that it was made from.
  pub verify-hash :
      (hasher : PasswordHasher) (salt : kdf.Salt) (password : List ℕ) (h : Text)
      → hash kdf J hasher salt password ≡ ok h
      → verify kdf J password h ≡ ok true
  unfolding verify
  verify-hash hasher salt password h made = elim (hash-eq-ok kdf J hasher salt password h made) [
    | inl (a, short, call) ↦
        let (format, _) = law.bcrypt-format salt password hasher.bcrypt_cost h call in
        rw (format, short, law.bcrypt-verifies salt password hasher.bcrypt_cost h call) refl
    | inr (a, call) ↦
        let ((other, format), parsed) =
          law.argon2-format salt password hasher.argon2_params h call in
        rw (other, format, parsed, law.argon2-verifies salt password hasher.argon2_params h call)
          refl
  ]

  -- A hash that a hasher makes is not one that the same hasher wants to replace.
  pub needs_rehash-hash :
      (hasher : PasswordHasher) (salt : kdf.Salt) (password : List ℕ) (h : Text)
      → hash kdf J hasher salt password ≡ ok h
      → needs_rehash kdf hasher h ≡ false
  unfolding needs_rehash text_beq
  needs_rehash-hash hasher salt password h made =
      elim (hash-eq-ok kdf J hasher salt password h made) [
        | inl (a, short, call) ↦
            let (format, fields) = law.bcrypt-format salt password hasher.bcrypt_cost h call in
            rw (a, format, fields.1, fields.2) (ground arith)
        | inr (a, call) ↦
            let (_, parsed) = law.argon2-format salt password hasher.argon2_params h call in
            rw (needs_rehash, a, parsed) (ground arith)
      ]
