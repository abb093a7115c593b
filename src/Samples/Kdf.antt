-- ===== src/Samples/Kdf.antt =====
-- Password functions for the examples: hashes of the right shape that hold the password.
use native.Mathlib.Omega.{arith}
use armature_auth.Prelude.{
  String, Text, codes, ℕ, Bool, true, false, List, [], ◌∷◌, ◌++◌, Option, none, some, Result, ok,
  err, ◌≡◌, refl, text_beq, strip_prefix, parse_u32, ◌==◌, if◌then◌else◌, Bool-cases, inl, inr,
  ok-injective, sym, ap,
}
use armature_auth.Password.{Kdf, Params, PasswordHash, starts_with, split, nth}
use armature_auth.Password.Laws.{LawfulKdf}

abbrev pub read_params : Text → Option Params
read_params (m ∷ t ∷ p ∷ rest) = some (record { m_cost = m; t_cost = t; p_cost = p })
read_params s = none

abbrev pub parse : Option Text → Result String PasswordHash
parse none = err "no PHC string"
parse (some s) = ok (record { algorithm = codes "argon2id"; params = read_params s })

abbrev pub argon2_hash_of : List ℕ → Params → Text
argon2_hash_of password params =
    codes "$argon2id$" ++ params.m_cost ∷ params.t_cost ∷ params.p_cost ∷ password

abbrev pub same_password : List ℕ → Option Text → Bool
same_password password (some (m ∷ t ∷ p ∷ rest)) = text_beq rest password
same_password password other = false

-- The bcrypt function knows one cost.
abbrev pub bcrypt_of : Unit {0} → List ℕ → ℕ → Result String Text
bcrypt_of salt password cost = if cost == 12 then ok (codes "$2b$12$" ++ password) else err "cost"

unfoldable pub kdf : Kdf
kdf = record {
  Salt = Unit {0};
  valid_params = λ m t p. ok (record { m_cost = m; t_cost = t; p_cost = p });
  default_cost = 12;
  bcrypt_hash = bcrypt_of;
  bcrypt_verify = λ password h. ok (text_beq h (codes "$2b$12$" ++ password));
  argon2_hash = λ salt password params. ok (argon2_hash_of password params);
  parse_phc = λ h. parse (strip_prefix (codes "$argon2id$") h);
  argon2_verify = λ password h. same_password password (strip_prefix (codes "$argon2id$") h);
}

text_beq_refl : (s : Text) → text_beq s s ≡ true
unfolding text_beq
text_beq_refl [] = refl
text_beq_refl (ch ∷ s) = ground (arith, text_beq_refl s)

bcrypt_of-eq-ok :
    (salt : Unit {0}) (password : List ℕ) (cost : ℕ) (h : Text)
    → bcrypt_of salt password cost ≡ ok h
    → (cost ≡ 12) × (h ≡ codes "$2b$12$" ++ password)
bcrypt_of-eq-ok salt password cost h e = elim (Bool-cases (cost == 12)) [
  | inl same ↦ (ground (arith, same), sym (ok-injective (rw (bcrypt_of, same) at e)))
  | inr other ↦ (let stop = rw (bcrypt_of, other) at e in cc)
]

bcrypt_format :
    (password : List ℕ)
    → (starts_with (codes "$2") (codes "$2b$12$" ++ password) ≡ true)
      × ((field : Text) × (nth 2 (split b'$' (codes "$2b$12$" ++ password)) ≡ some field)
          × (parse_u32 field ≡ some 12))
unfolding starts_with strip_prefix split parse_u32
bcrypt_format password = (refl, (codes "12", refl, refl))

pub kdf_lawful : LawfulKdf kdf
unfolding kdf starts_with strip_prefix
kdf_lawful = record {
  bcrypt-format = λ salt password cost h e.
      (let (twelve, shape) = bcrypt_of-eq-ok salt password cost h e in
        rw (shape, twelve) (bcrypt_format password));
  bcrypt-verifies = λ salt password cost h e.
      (let (twelve, shape) = bcrypt_of-eq-ok salt password cost h e in
        rw shape (ap ok (text_beq_refl (codes "$2b$12$" ++ password))));
  argon2-format = λ salt password params h e. rw⁻¹ (ok-injective e) ((refl, refl), refl);
  argon2-verifies = λ salt password params h e. rw⁻¹ (ok-injective e) (text_beq_refl password);
}
