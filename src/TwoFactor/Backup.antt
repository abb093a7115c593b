-- ===== src/TwoFactor/Backup.antt =====
-- Backup codes, of src/two_factor.rs: what consuming a code does to the stored hashes.
use armature_auth.Prelude.{
  Any, String, Text, ℕ, zero, suc, ◌+◌, ◌<◌, true, false, ◌≡◌, refl, sym, ap, ◌∙◌, ◌⊎◌, inl, inr,
  List, [], ◌∷◌, none, some, if◌then◌else◌, length, str_eq, codes, length-map, eq_iff, eq_refl,
  arith, Bool-cases,
}
use native.Mathlib.Nat.{zero-add}
use armature_auth.Crypto.{Crypto}
use armature_auth.TwoFactor.Writings.{
  Has-hash_code, IsDistinct, count, count-IsDistinct, hash_code-IsWriting, shown-IsWriting,
  without_hyphens,
}
use armature_auth.TwoFactor.{
  generate_codes, BackupCodes, hash_code, find_position, remove_at, verify_and_consume, remaining,
}

module _ (c : Crypto) where
  find-some :
      (h : String) (i pos : ℕ) (hs : List String) → find_position c h i (some pos) hs ≡ some pos
  unfolding find_position
  find-some h i pos [] = refl
  find-some h i pos (x ∷ hs) = find-some h (i + 1) pos hs

  -- The scan finds the first place of the hash, or none if it is not there.
  find_cases :
      (h : String) (i : ℕ) (hs : List String)
      → ((find_position c h i none hs ≡ none) × (count h hs ≡ 0))
        ⊎ ((p : ℕ) × (find_position c h i none hs ≡ some (i + p))
            × (0 < count h hs)
            × ((j : String) → count j hs ≡ (if str_eq h j then 1 else 0) + count j (remove_at p hs))
            × (length hs ≡ length (remove_at p hs) + 1))
  unfolding find_position
  find_cases h i [] = inl (refl, refl)
  find_cases h i (x ∷ hs) = elim (Bool-cases (c.ct_eq x h)) [
    | inl hit ↦
        let same = (c.ct_eq_iff x h).0 hit in
        inr (
          zero,
          rw hit (find-some h (i + 1) i hs ∙ ap some (omega arith)),
          ground (arith, eq_iff x h),
          (λ j. rw same),
          omega arith,
        )
    | inr miss ↦
        let other : str_eq x h ≡ false = ground (arith, eq_iff x h, c.ct_eq_iff x h) in
        elim (find_cases h (i + 1) hs) [
          | inl (e, z) ↦ inl (rw miss e, rw other (omega arith))
          | inr (p, e, some_left, counts, len) ↦ inr (
            suc p,
            rw miss (e ∙ ap some (omega arith)),
            omega arith,
            (λ j. omega (arith, counts j)),
            omega arith,
          )
        ]
  ]

  -- Consuming a code succeeds exactly when its hash is stored. It then takes one occurrence of that
  -- hash away, and leaves every other hash as often as it was; on failure nothing changes.
  pub verify_and_consume_lem :
      (code : Text) (stored : BackupCodes)
      → let out = verify_and_consume c code stored in
        let h = hash_code c code in
        ((out.0 ≡ true)
          × (0 < count h stored.code_hashes)
          × ((j : String)
              → count j stored.code_hashes
                ≡ (if str_eq h j then 1 else 0) + count j out.1.code_hashes)
          × (remaining stored ≡ remaining out.1 + 1))
        ⊎ ((out.0 ≡ false) × (count h stored.code_hashes ≡ 0) × (out.1 ≡ stored))
  unfolding verify_and_consume
  verify_and_consume_lem code stored = elim (find_cases (hash_code c code) 0 stored.code_hashes) [
    | inl (e, z) ↦ inr (rw (e, verify_and_consume), z, rw (e, verify_and_consume))
    | inr (p, e, some_left, counts, len) ↦
        let eq : verify_and_consume c code stored
            ≡ (true, record { code_hashes = remove_at p stored.code_hashes }) =
          rw (e ∙ ap some (zero-add p), verify_and_consume) in
        rw eq (inl (refl, some_left, counts, len))
  ]

  -- A code whose hash is stored once is accepted once: a second attempt with it, or with any other
  -- way of writing it that has the same hash, is refused.
  pub verify_and_consume_once :
      (code again : Text) (stored : BackupCodes)
      → count (hash_code c code) stored.code_hashes ≡ 1
      → hash_code c again ≡ hash_code c code
      → ((verify_and_consume c code stored).0 ≡ true)
        × ((verify_and_consume c again (verify_and_consume c code stored).1).0 ≡ false)
  verify_and_consume_once code again stored once same =
      let h = hash_code c code in
      let first = verify_and_consume_lem code stored in
      let second = verify_and_consume_lem again (verify_and_consume c code stored).1 in
      elim first [
        | inl (accepted, _, counts, _) ↦
            let left : count (hash_code c again) (verify_and_consume c code stored).1.code_hashes
                ≡ 0 =
              rw same (let n = counts h in ground (arith, eq_refl h)) in
            (
              accepted,
              elim second [
                | inl (_, some_left, _, _) ↦ absurd (omega arith)
                | inr (refused, _, _) ↦ refused
              ],
            )
        | inr (_, z, _) ↦ absurd (omega arith)
      ]

-- A code that `generate` shows is the encoding of one of the draws, up to its hyphens, and as many
-- codes are stored as were drawn. If the stored hashes are distinct, the code is accepted, as it is
-- shown, without its hyphens or with any others, and is then refused in all of these writings.
pub generate_codes-verify :
    (c : Crypto) (draws : List (List ℕ)) (shown first again : Text)
    → let g = generate_codes c draws in
      Any (λ code. code ≡ shown) g.plaintext
      → IsDistinct g.stored.code_hashes
      → without_hyphens first ≡ without_hyphens shown
      → without_hyphens again ≡ without_hyphens shown
      → (remaining g.stored ≡ length draws)
        × Any (λ drawn. without_hyphens (codes (c.hex_encode drawn)) ≡ without_hyphens shown) draws
        × ((verify_and_consume c first g.stored).0 ≡ true)
        × ((verify_and_consume c again (verify_and_consume c first g.stored).1).0 ≡ false)
unfolding generate_codes
generate_codes-verify c draws shown first again is_shown distinct f a =
    let g = generate_codes c draws in
    let h = hash_code-IsWriting c shown first f in
    let once =
      count-IsDistinct (hash_code c shown) g.stored.code_hashes distinct
        (Has-hash_code c shown g.plaintext is_shown) in
    let (accepted, refused) =
      verify_and_consume_once c first again g.stored
        (ap (λ h. count h g.stored.code_hashes) h ∙ once)
        (hash_code-IsWriting c shown again a ∙ sym h) in
    (length-map _ _ ∙ length-map _ _, shown-IsWriting c shown draws is_shown, accepted, refused)
