-- ===== src/Examples/Login.antt =====
-- src/password.rs, src/strategy.rs: hashing and the local strategy.
use armature_auth.Prelude.{
  String, Text, codes, ℕ, zero, suc, true, List, [], ◌∷◌, none, some, ok, err, ◌≡◌, refl, inr, inl,
  strip_prefix, text_beq,
}
use armature_auth.Error.{invalid_credentials}
use armature_auth.Password.{
  PasswordHasher, HashAlgorithm, argon2, hash, hash_argon2, starts_with, verify, verify_async,
}
use armature_auth.Password.Laws.{verify-hash}
use armature_auth.Strategy.{
  LocalStrategy, LocalCredentials, Draws, World, authenticate, local_credentials,
}
use armature_auth.Strategy.Local.{Accepts, authenticate-eq-ok_iff, refusals_agree}
use armature_auth.Samples.Kdf.{kdf, kdf_lawful, argon2_hash_of}
use armature_auth.Samples.Stores.{user_store}

abbrev hasher : HashAlgorithm → PasswordHasher
hasher algorithm = record {
  algorithm = algorithm;
  argon2_params = record { m_cost = 65536; t_cost = 3; p_cost = 1 };
  bcrypt_cost = 12;
}

abbrev current : Text
current = argon2_hash_of (codes "pw") (record { m_cost = 65536; t_cost = 3; p_cost = 1 })

abbrev old : Text
old = argon2_hash_of (codes "pw") (record { m_cost = 4096; t_cost = 3; p_cost = 1 })

verify-hash_example : verify kdf String (codes "pw") current ≡ ok true
unfolding hash hash_argon2 kdf
verify-hash_example = verify-hash kdf kdf_lawful String (hasher argon2) tt (codes "pw") current refl

abbrev repeat : ℕ → List ℕ
repeat zero = []
repeat (suc n) = 97 ∷ repeat n

abbrev strategy : LocalStrategy String (List (String × Text)) String
strategy = record { store = some user_store; hasher = hasher argon2 }

draws : Draws kdf String
unfolding kdf
draws = record {
  dummy_join = none;
  dummy_salt = tt;
  verify_join = none;
  rehash_join = none;
  rehash_salt = tt;
}

abbrev world : World (List (String × Text))
world = record { users = ("ana", old) ∷ []; dummy_hash = none }

abbrev ana : LocalCredentials
ana = record { username = "ana"; password = codes "pw" }

abbrev stranger : LocalCredentials
stranger = record { username = "bo"; password = codes "pw" }

authenticate-eq-ok_iff_example :
    (authenticate kdf String
      (List (String × Text))
      String
      strategy
      draws
      world
      (local_credentials ana)).0
    ≡ ok "ana"
unfolding Accepts verify_async verify kdf draws starts_with strip_prefix text_beq
authenticate-eq-ok_iff_example =
    (authenticate-eq-ok_iff kdf {J = String} {S = List (String × Text)} {T = String} strategy draws
        world ana "ana").1
      (user_store, old, (refl, refl, refl))

refusals_agree_example :
    ((authenticate kdf String
        (List (String × Text))
        String
        strategy
        draws
        world
        (local_credentials stranger)).0
      ≡ err invalid_credentials)
    × ((authenticate kdf String
          (List (String × Text))
          String
          strategy
          draws
          world
          (local_credentials stranger)).1.users
        ≡ ("ana", old) ∷ [])
refusals_agree_example =
    refusals_agree kdf {J = String} {S = List (String × Text)} {T = String} strategy draws world
      stranger (inr (user_store, refl, inl refl))
