-- ===== src/Examples/Tokens.antt =====
-- src/passwordless.rs, src/two_factor.rs: links, codes and backup codes.
use native.Mathlib.Omega.{arith}
use armature_auth.Prelude.{
  Any, String, codes, ℕ, zero, suc, ◌+◌, ◌≤◌, ◌<◌, ◌/◌, ◌*◌, ◌%◌, ◌^◌, pos, true, false, List, [],
  ◌∷◌, map, Option, none, some, ok, ◌≡◌, ◌⊎◌, inl, inr, refl, decimal, ◌+ℤ◌, is_whitespace,
  to_ascii_lowercase, eq_refl, assoc, if◌then◌else◌, str_eq,
}
use armature_auth.Passwordless.{MagicLinkToken, generate, hash_token, in_memory, redeem_magic_link}
use armature_auth.Passwordless.Redemption.{redeem-eq-ok_iff, generate-redeem}
use armature_auth.Passwordless.Progress.{IsComplete}
use armature_auth.Passwordless.Served.{redeemed_exactly_once}
use armature_auth.Passwordless.SingleUse.{called, redeemed, run, redeemed_once}
use armature_auth.TwoFactor.{
  TotpSecret, BackupCodes, generate_codes, hash_code, normalized, remaining, secret_bytes,
  verify_and_consume, verify_at,
}
use armature_auth.TwoFactor.Codes.{Accepts, verify_at_lem}
use armature_auth.TwoFactor.Replay.{Increasing, accepted_steps, accepted_steps-Increasing}
use armature_auth.TwoFactor.Writings.{count, without_hyphens}
use armature_auth.TwoFactor.Backup.{verify_and_consume_lem, generate_codes-verify}
use armature_auth.Samples.{crypto, codecs, sixteen}

abbrev link : MagicLinkToken
link = record {
  token_hash = hash_token crypto "5.6.";
  identifier = "ana@x";
  created_at = pos 10;
  expires_at = pos 20;
  used = false;
}

abbrev links : List (String × MagicLinkToken)
links = (hash_token crypto "5.6.", link) ∷ []

redeem-eq-ok_iff_example :
    (redeem_magic_link crypto (in_memory (assoc MagicLinkToken)) (pos 15) "5.6." links).0
    ≡ ok (record link { used = true })
redeem-eq-ok_iff_example =
    ((redeem-eq-ok_iff crypto (assoc MagicLinkToken) (pos 15) "5.6." links).0
        (record link { used = true })).1
      (
        link,
        rw (eq_refl (hash_token crypto "5.6.")) refl,
        record { genuine = refl; unused = refl; unexpired = omega arith },
        refl,
      )

generate-redeem_example :
    (redeem_magic_link crypto (in_memory (assoc MagicLinkToken)) (pos 15) "5.6." links).0
    ≡ ok (record link { used = true })
unfolding generate decimal ◌+ℤ◌
generate-redeem_example =
    (generate-redeem crypto (assoc MagicLinkToken) (λ n. some (pos n)) (5 ∷ 6 ∷ []) (pos 10)
      (pos 15) (pos 16) "ana@x" 10 (record { token_record = link; token = "5.6." }) [] refl
      (omega arith)).0

redeemed_once_example :
    redeemed crypto
      (assoc MagicLinkToken)
      (hash_token crypto "5.6.")
      (run crypto
        (assoc MagicLinkToken)
        ((0, pos 15) ∷ (1, pos 15) ∷ (1, pos 16) ∷ (0, pos 16) ∷ [])
        (map called ("5.6." ∷ "5.6." ∷ []))
        links).0
    ≤ 1
redeemed_once_example =
    (redeemed_once crypto (assoc MagicLinkToken) (hash_token crypto "5.6.") ("5.6." ∷ "5.6." ∷ [])
      links ((0, pos 15) ∷ (1, pos 15) ∷ (1, pos 16) ∷ (0, pos 16) ∷ [])).0

usable_link : (assoc MagicLinkToken).get (hash_token crypto "5.6.") links ≡ some link
unfolding hash_token decimal
usable_link = refl

both_turns :
    IsComplete ("5.6." ∷ "5.6." ∷ []) ((0, pos 15) ∷ (1, pos 15) ∷ (1, pos 16) ∷ (0, pos 16) ∷ [])
both_turns zero h = omega arith
both_turns (suc zero) h = omega arith
both_turns (suc (suc i)) h = omega arith

redeemed_exactly_once_example :
    redeemed crypto
      (assoc MagicLinkToken)
      (hash_token crypto "5.6.")
      (run crypto
        (assoc MagicLinkToken)
        ((0, pos 15) ∷ (1, pos 15) ∷ (1, pos 16) ∷ (0, pos 16) ∷ [])
        (map called ("5.6." ∷ "5.6." ∷ []))
        links).0
    ≡ 1
redeemed_exactly_once_example =
    (redeemed_exactly_once crypto (assoc MagicLinkToken) (hash_token crypto "5.6.") link
      ("5.6." ∷ "5.6." ∷ []) links ((0, pos 15) ∷ (1, pos 15) ∷ (1, pos 16) ∷ (0, pos 16) ∷ []) 1
      "5.6." usable_link refl refl refl refl (refl, (refl, (refl, (refl, tt)))) both_turns).1

abbrev secret : TotpSecret
secret = record { secret = "S" }

verify_at_lem_example :
    (o : Option ℕ) × (verify_at codecs crypto secret "3" 30 none 100 ≡ ok o)
    × ((step : ℕ) → o ≡ some step → Accepts codecs crypto secret "3" 30 none 100 sixteen step)
    × (o ≡ none
        → (step : ℕ) → step < 2 ^ 64
        → ¬ Accepts codecs crypto secret "3" 30 none 100 sixteen step)
unfolding secret_bytes
verify_at_lem_example =
    verify_at_lem codecs crypto secret "3" 30 none 100 sixteen (λ e. omega arith) refl

accepted_steps-Increasing_example : Increasing codecs crypto secret 30 (some 2) (
    accepted_steps codecs crypto secret 30 (some 2) (
      record { code = "3"; now = 100 }
      ∷ record { code = "3"; now = 101 }
      ∷ record { code = "4"; now = 110 }
      ∷ []))
accepted_steps-Increasing_example = accepted_steps-Increasing codecs crypto secret 30 (some 2) (
    record { code = "3"; now = 100 }
    ∷ record { code = "3"; now = 101 }
    ∷ record { code = "4"; now = 110 }
    ∷ [])

same_step : (time : ℕ) → time < 2 ^ 64 → (time / 30 * 30 % 2 ^ 64) / 30 ≡ time / 30
same_step time small = grind arith

abbrev backup : BackupCodes
backup = record {
  code_hashes = hash_code crypto (codes "ab-cd") ∷ hash_code crypto (codes "ef") ∷ [];
}

verify_and_consume_lem_example :
    ((verify_and_consume crypto (codes "AbCd") backup).0 ≡ true)
      × (0 < count (hash_code crypto (codes "AbCd")) backup.code_hashes)
      × ((j : String)
          → count j backup.code_hashes
            ≡ (if str_eq (hash_code crypto (codes "AbCd")) j then 1 else 0)
              + count j (verify_and_consume crypto (codes "AbCd") backup).1.code_hashes)
      × (remaining backup ≡ remaining (verify_and_consume crypto (codes "AbCd") backup).1 + 1)
    ⊎ ((verify_and_consume crypto (codes "AbCd") backup).0 ≡ false)
      × (count (hash_code crypto (codes "AbCd")) backup.code_hashes ≡ 0)
      × ((verify_and_consume crypto (codes "AbCd") backup).1 ≡ backup)
verify_and_consume_lem_example = verify_and_consume_lem crypto (codes "AbCd") backup

abbrev draws : List (List ℕ)
draws = (1 ∷ 2 ∷ []) ∷ (3 ∷ 4 ∷ 5 ∷ []) ∷ []

-- The second code, first as it is written without hyphens, then as it is shown.
generate_codes-verify_example :
    (remaining (generate_codes crypto draws).stored ≡ 2)
    × Any
        (λ drawn.
          without_hyphens (codes (crypto.hex_encode drawn)) ≡ without_hyphens (codes "3.4.-5."))
        draws
    × ((verify_and_consume crypto (codes "3.4.5.") (generate_codes crypto draws).stored).0 ≡ true)
    × ((verify_and_consume crypto
          (codes "3.4.-5.")
          (verify_and_consume crypto (codes "3.4.5.") (generate_codes crypto draws).stored).1).0
        ≡ false)
unfolding generate_codes hash_code normalized decimal is_whitespace to_ascii_lowercase
generate_codes-verify_example =
    generate_codes-verify crypto draws (codes "3.4.-5.") (codes "3.4.5.") (codes "3.4.-5.")
      (inr (inl refl)) (((λ e. cc), tt), (tt, tt)) refl refl
