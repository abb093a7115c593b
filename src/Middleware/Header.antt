-- ===== src/Middleware/Header.antt =====
-- The `Authorization` header of src/middleware.rs, from its bytes to a bearer token.
use armature_auth.Prelude.{
  Text, codes, ℕ, ◌<◌, true, ◌≡◌, ◌≢◌, [], ◌∷◌, ◌++◌, some, ok, All, arith, split_once,
  eq_ignore_ascii_case, from_utf8_ascii, IsTrimmed, trim_of_trimmed, is_empty_plain,
}
use armature_auth.Http.{Core, HttpRequest}
use armature_auth.Middleware.{bearer, credential, credential_of}

abbrev pub IsAscii : Text → Type 0
IsAscii s = All (λ ch. ch < 0x80) s

split_once-append :
    (d : ℕ) (s u : Text) → All (λ ch. ch ≢ d) s → split_once d (s ++ d ∷ u) ≡ some (s, u)
unfolding split_once
split_once-append d [] u h = ground arith
split_once-append d (ch ∷ s) u (h, hs) = ground (arith, split_once-append d s u hs)

All-append-IsAscii : (s u : Text) → IsAscii s → IsAscii u → IsAscii (s ++ u)
All-append-IsAscii [] u h k = k
All-append-IsAscii (ch ∷ s) u (h, hs) k = (h, All-append-IsAscii s u hs k)

module _ {Value : Type 0} (core : Core Value) where
  -- A single header `scheme token`, where the scheme is `Bearer` in any case and the token is ASCII,
  -- not empty and without white space at its ends, is read as that token.
  pub credential-bearer :
      (req : HttpRequest core) (scheme token : Text)
      → core.get_unique "authorization" req.headers ≡ ok (some (scheme ++ b' ' ∷ token))
      → eq_ignore_ascii_case scheme (codes "bearer") ≡ true
      → All (λ ch. ch ≢ b' ') scheme
      → IsAscii scheme
      → IsAscii token
      → IsTrimmed token
      → credential core req ≡ bearer token
  unfolding credential credential_of
  credential-bearer req scheme token e cased plain ascii_scheme ascii trimmed =
      rw
        (
          e,
          credential,
          from_utf8_ascii _
              (All-append-IsAscii scheme (b' ' ∷ token) ascii_scheme (omega arith, ascii)),
          credential_of,
        )
        (rw (split_once-append b' ' scheme token plain)
          (rw (cased, trim_of_trimmed token trimmed, is_empty_plain token trimmed.0)))
