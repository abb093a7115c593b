-- ===== src/TwoFactor.antt =====
-- src/two_factor.rs: TOTP secrets and backup codes. The TOTP function, base32 and URL encoding, the
-- QR renderer and the hash are those of the crates that the code calls, and are arguments; `u64`
-- arithmetic wraps, as in a release build. Random bytes and clock readings are arguments.
pub mod Codes
pub mod Replay
pub mod Writings
pub mod Backup
use armature_auth.Prelude.{
  String, Text, ℕ, zero, suc, ◌+◌, ◌-◌, ◌*◌, ◌/◌, ◌%◌, ◌^◌, Bool, false, true, not, ◌&&◌, ◌==◌, ltb,
  List, [], ◌∷◌, ◌++◌, map, Option, none, some, Result, ok, err, ◌>>=◌, map_err, if◌then◌else◌,
  is_whitespace, to_ascii_lowercase, length, codes,
}
use mathlib.Core.List.{filter}
use armature_auth.Error.{concat}
use armature_auth.Crypto.{Crypto}

pub data TwoFactorError : Type 0 where
  invalid_code invalid_secret invalid_time_step : TwoFactorError
  qr_code_error feature_not_enabled : String → TwoFactorError

-- The foreign functions: `totp_custom::<Sha1>` at a step, a digit count, a secret and a time,
-- `BASE32_NOPAD`, `urlencoding::encode` and the SVG rendering of a QR code.
pub record Codecs : Type 0 where
  pub totp : ℕ → ℕ → List ℕ → ℕ → String
  pub base32_encode : List ℕ → String
  pub base32_decode : String → Option (List ℕ)
  pub url_encode : String → String
  pub qr_svg : String → Result String String

pub record TotpSecret : Type 0 where
  pub secret : String

-- `last_accepted_step.is_none_or(|last| step > last)`.
abbrev pub is_fresh : Option ℕ → ℕ → Bool
is_fresh none step = true
is_fresh (some last) step = ltb last step

-- `u64::checked_sub` and `u64::checked_add` of one, flattened with the current step between.
abbrev pub before : ℕ → List ℕ
before zero = []
before (suc n) = n ∷ []

unfoldable pub candidates : ℕ → List ℕ
candidates current =
    before current ++ current ∷ (if ltb (current + 1) (2 ^ 64) then (current + 1) ∷ [] else [])

module _ (x : Codecs) where
  unfoldable pub generate : List ℕ → TotpSecret
  generate bytes = record { secret = x.base32_encode bytes }

  unfoldable pub from_base32 : String → Result TwoFactorError TotpSecret
  from_base32 secret = elim (x.base32_decode secret) [
    | none ↦ err invalid_secret
    | some bytes ↦
        if ltb (length bytes) 16 then err invalid_secret else ok (record { secret = secret })
  ]

  abbrev pub to_base32 : TotpSecret → String
  to_base32 s = s.secret

  unfoldable pub secret_bytes : TotpSecret → Result TwoFactorError (List ℕ)
  secret_bytes s = elim (x.base32_decode s.secret) [
    | none ↦ err invalid_secret
    | some bytes ↦ ok bytes
  ]

  unfoldable pub generate_code : ℕ → TotpSecret → ℕ → Result TwoFactorError String
  generate_code now s time_step =
      if time_step == 0
      then err invalid_time_step
      else secret_bytes s >>= λ bytes. ok (x.totp time_step 6 bytes now)

  -- The loop over the candidate steps, which runs to its end.
  unfoldable pub scan : Crypto → String → ℕ → Option ℕ → List ℕ → Option ℕ → List ℕ → Option ℕ
  scan c code time_step last bytes matched [] = matched
  scan c code time_step last bytes (some found) (step ∷ steps) =
      scan c code time_step last bytes (some found) steps
  scan c code time_step last bytes none (step ∷ steps) =
      let expected = x.totp time_step 6 bytes ((step * time_step) % 2 ^ 64) in
      scan c code time_step last bytes
        (if c.ct_eq expected code && is_fresh last step then some step else none) steps

  unfoldable pub verify_at :
      Crypto → TotpSecret → String → ℕ → Option ℕ → ℕ → Result TwoFactorError (Option ℕ)
  verify_at c s code time_step last now =
      if time_step == 0
      then err invalid_time_step
      else secret_bytes s >>= λ bytes.
          ok (scan c code time_step last bytes none (candidates (now / time_step)))

  -- `verify`, which reads the clock, and `verify_and_record`: the answer, and the step to persist.
  abbrev pub verify :
      Crypto → ℕ → TotpSecret → String → ℕ → Option ℕ → Result TwoFactorError (Option ℕ)
  verify c now s code time_step last = verify_at c s code time_step last now

  unfoldable pub verify_and_record :
      Crypto → ℕ → TotpSecret → String → ℕ → Option ℕ → Result TwoFactorError Bool × Option ℕ
  verify_and_record c now s code time_step last = elim (verify c now s code time_step last) [
    | ok o ↦ elim o [ some step ↦ (ok true, some step) | none ↦ (ok false, last) ]
    | err e ↦ (err e, last)
  ]

  unfoldable pub to_qr_url : TotpSecret → String → String → Result TwoFactorError String
  to_qr_url s account issuer = ok (
      concat "otpauth://totp/" (
        concat (x.url_encode issuer) (
          concat ":" (
            concat (x.url_encode account)
              (concat "?secret=" (concat s.secret (concat "&issuer=" (x.url_encode issuer))))))))

  unfoldable pub to_qr_svg : TotpSecret → String → String → Result TwoFactorError String
  unfolding to_qr_url
  to_qr_svg s account issuer = do
    url ← to_qr_url s account issuer
    map_err qr_code_error (x.qr_svg url)

pub record BackupCodes : Type 0 where
  pub code_hashes : List String

pub record GeneratedBackupCodes : Type 0 where
  pub stored : BackupCodes
  pub plaintext : List Text

abbrev pub code_bytes : ℕ
code_bytes = 10

-- The characters of a code that count.
abbrev pub is_significant : ℕ → Bool
is_significant ch = not (ch == b'-') && not (is_whitespace ch)

abbrev pub keep : (ℕ → Bool) → Text → Text
keep p [] = []
keep p (ch ∷ s) = if p ch then ch ∷ keep p s else keep p s

unfoldable pub normalized : Text → Text
normalized code = map to_ascii_lowercase (keep is_significant code)

unfoldable pub hash_code : Crypto → Text → String
unfolding normalized
hash_code c code = c.hex_encode (c.sha256 (normalized code))

-- `chunks(4)` joined by hyphens.
abbrev pub groups : Text → Text
groups (a ∷ b ∷ d ∷ e ∷ f ∷ rest) = a ∷ b ∷ d ∷ e ∷ b'-' ∷ groups (f ∷ rest)
groups s = s

-- `BackupCodes::generate`, from the random bytes of each code.
unfoldable pub generate_codes : Crypto → List (List ℕ) → GeneratedBackupCodes
unfolding hash_code
generate_codes c draws =
    let plaintext = map (λ bytes. groups (codes (c.hex_encode bytes))) draws in
    record { stored = record { code_hashes = map (hash_code c) plaintext }; plaintext = plaintext }

-- The scan for the candidate's hash, from position `i`; it keeps the first position.
unfoldable pub find_position : Crypto → String → ℕ → Option ℕ → List String → Option ℕ
find_position c candidate i found [] = found
find_position c candidate i (some pos) (h ∷ hs) = find_position c candidate (i + 1) (some pos) hs
find_position c candidate i none (h ∷ hs) =
    find_position c candidate (i + 1) (if c.ct_eq h candidate then some i else none) hs

-- `Vec::remove`.
abbrev pub remove_at : ℕ → List String → List String
remove_at i [] = []
remove_at zero (h ∷ hs) = hs
remove_at (suc i) (h ∷ hs) = h ∷ remove_at i hs

unfoldable pub verify_and_consume : Crypto → Text → BackupCodes → Bool × BackupCodes
unfolding find_position
verify_and_consume c code stored =
    elim (find_position c (hash_code c code) 0 none stored.code_hashes) [
      | some pos ↦ (true, record { code_hashes = remove_at pos stored.code_hashes })
      | none ↦ (false, stored)
    ]

abbrev pub remaining : BackupCodes → ℕ
remaining stored = length stored.code_hashes
