-- ===== src/Crypto.antt =====
-- The primitives of `hmac`, `sha2`, `hex`, `base64` and `subtle` that the crate calls (not under
-- src/), as an interface. Texts are code points, bytes are numbers.
use armature_auth.Prelude.{String, Text, ℕ, Bool, true, List, ◌≡◌, ◌↔◌}

pub record Crypto : Type 0 where
  -- `HMAC-SHA256(key, message)`.
  pub hmac_sha256 : List ℕ → Text → List ℕ
  pub sha256 : Text → List ℕ
  pub hex_encode : List ℕ → String
  pub url_safe_no_pad : List ℕ → String
  -- Equality in constant time.
  pub ct_eq : String → String → Bool
  pub ct_eq_iff : (a b : String) → (ct_eq a b ≡ true) ↔ (a ≡ b)
