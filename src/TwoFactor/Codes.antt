-- ===== src/TwoFactor/Codes.antt =====
-- Verifying a TOTP code, of src/two_factor.rs: which codes are accepted, and at which step.
use armature_auth.Prelude.{
  String, ℕ, zero, suc, ◌+◌, ◌*◌, ◌/◌, ◌%◌, ◌^◌, ◌≤◌, ◌<◌, Bool, true, ◌&&◌, ◌≡◌, ◌≢◌, refl, subst,
  ap, ◌∙◌, inl, inr, ◌↔◌, List, [], ◌∷◌, Option, none, some, ok, if◌then◌else◌, All, Any, arith,
  Bool-cases, Option-cases, Result-cases,
}
use native.Mathlib.Nat.{div-le_self}
use armature_auth.Crypto.{Crypto}
use armature_auth.TwoFactor.{
  Codecs, TotpSecret, secret_bytes, generate_code, is_fresh, candidates, scan, verify_at,
}

-- Later than the last accepted step, if there is one.
abbrev pub Fresh : Option ℕ → ℕ → Type 0
Fresh none step = Unit
Fresh (some last) step = last < step

abbrev pub Among : ℕ → List ℕ → Type 0
Among step steps = Any (λ x. x ≡ step) steps

module _ (x : Codecs) (c : Crypto) (code : String) (time_step : ℕ) (last : Option ℕ)
    (bytes : List ℕ) where
  -- The code is that of a fresh step.
  abbrev pub Matches : ℕ → Type 0
  Matches step = (x.totp time_step 6 bytes ((step * time_step) % 2 ^ 64) ≡ code) × Fresh last step

  abbrev test : ℕ → Bool
  test step =
      c.ct_eq (x.totp time_step 6 bytes ((step * time_step) % 2 ^ 64)) code && is_fresh last step

  Fresh-iff : (l : Option ℕ) (step : ℕ) → (is_fresh l step ≡ true) ↔ Fresh l step
  Fresh-iff none step = (λ e. tt, λ f. refl)
  Fresh-iff (some l) step = ground arith

  test_iff : (step : ℕ) → (test step ≡ true) ↔ Matches step
  test_iff step = grind (
    arith,
    c.ct_eq_iff (x.totp time_step 6 bytes ((step * time_step) % 2 ^ 64)) code,
    Fresh-iff last step,
  )

  scan-some :
      (found : ℕ) (steps : List ℕ)
      → scan x c code time_step last bytes (some found) steps ≡ some found
  unfolding scan
  scan-some found [] = refl
  scan-some found (step ∷ steps) = scan-some found steps

  scan_step :
      (y : ℕ) (steps : List ℕ)
      → scan x c code time_step last bytes none (y ∷ steps)
        ≡ (if test y then some y else scan x c code time_step last bytes none steps)
  unfolding scan
  scan_step y steps = elim (Bool-cases (test y)) [
    | inl hit ↦ rw hit (scan-some y steps)
    | inr miss ↦ rw miss
  ]

  -- The scan ends with a candidate that matches, if there is one.
  scan_sound :
      (steps : List ℕ) (step : ℕ)
      → scan x c code time_step last bytes none steps ≡ some step
      → Among step steps × Matches step
  unfolding scan
  scan_sound [] step e = cc
  scan_sound (y ∷ steps) step e = elim (Bool-cases (test y)) [
    | inl hit ↦
        let same : y ≡ step = cc (scan_step y steps, hit) in
        (inl same, subst Matches same ((test_iff y).0 hit))
    | inr miss ↦
        let (a, b) = scan_sound steps step (ground (arith, scan_step y steps, miss)) in (inr a, b)
  ]

  scan_complete :
      (steps : List ℕ)
      → scan x c code time_step last bytes none steps ≡ none
      → All (λ step. ¬ Matches step) steps
  scan_complete [] e = tt
  scan_complete (y ∷ steps) e = elim (Bool-cases (test y)) [
    | inl hit ↦ absurd (ground (arith, scan_step y steps, hit))
    | inr miss ↦
        (λ m. cc ((test_iff y).1 m), scan_complete steps (ground (arith, scan_step y steps, miss)))
  ]

-- A candidate step is the current one, the one before, or the one after, short of `u64::MAX`.
candidates_near :
    (current step : ℕ)
    → Among step (candidates current)
    → (step ≤ current + 1) × (current ≤ step + 1)
unfolding candidates
candidates_near zero step a = ground arith
candidates_near (suc n) step a = ground arith

near_candidates :
    (current step : ℕ)
    → step ≤ current + 1
    → current ≤ step + 1
    → step < 2 ^ 64
    → Among step (candidates current)
unfolding candidates
near_candidates zero step a b small = ground arith
near_candidates (suc n) step a b small = ground arith

all_at : (P : ℕ → Type 0) (xs : List ℕ) (y : ℕ) → All P xs → Among y xs → P y
all_at P [] y h a = absurd a
all_at P (x ∷ xs) y (p, h) (inl e) = subst P e p
all_at P (x ∷ xs) y (p, h) (inr a) = all_at P xs y h a

module _ (x : Codecs) (c : Crypto) (s : TotpSecret) (code : String) (time_step : ℕ)
    (last : Option ℕ) (now : ℕ) where
  -- A step near the current one at which the code is right, and which is later than `last`.
  abbrev pub Accepts : List ℕ → ℕ → Type 0
  Accepts bytes step =
      (step ≤ now / time_step + 1)
      × (now / time_step ≤ step + 1)
      × Matches x c code time_step last bytes step

  -- The answer of `verify_at` on a secret that decodes, with a positive time step.
  verify_at-scan :
      (bytes : List ℕ)
      → time_step ≢ 0
      → secret_bytes x s ≡ ok bytes
      → verify_at x c s code time_step last now
        ≡ ok (scan x c code time_step last bytes none (candidates (now / time_step)))
  unfolding verify_at
  verify_at-scan bytes positive e = rw e (ground arith)

  -- With a positive time step and a secret that decodes, verification always answers. A step that it
  -- accepts is within one of the current step, is later than the last accepted one, and its code is
  -- the one presented. If it accepts none, then no step within one of the current, short of
  -- `u64::MAX`, is later than the last accepted one and has this code.
  pub verify_at_lem :
      (bytes : List ℕ)
      → time_step ≢ 0
      → secret_bytes x s ≡ ok bytes
      → (o : Option ℕ) × (verify_at x c s code time_step last now ≡ ok o)
        × ((step : ℕ) → o ≡ some step → Accepts bytes step)
        × (o ≡ none → (step : ℕ) → step < 2 ^ 64 → ¬ Accepts bytes step)
  verify_at_lem bytes positive e =
      let current = now / time_step in
      (
        _,
        verify_at-scan bytes positive e,
        (λ step found.
            let (among, matches) = scan_sound x c code time_step last bytes _ step found in
            let (below, above) = candidates_near current step among in (below, above, matches)),
        λ missed step small (below, above, matches).
            all_at (λ y. ¬ Matches x c code time_step last bytes y) _ step
              (scan_complete x c code time_step last bytes _ missed)
              (near_candidates current step below above small) matches,
      )

  generate_code_inversion :
      (issued : ℕ)
      → generate_code x issued s time_step ≡ ok code
      → (time_step ≢ 0)
        × ((bytes : List ℕ) × (secret_bytes x s ≡ ok bytes)
            × (x.totp time_step 6 bytes issued ≡ code))
  unfolding generate_code
  generate_code_inversion issued e = elim (Result-cases (secret_bytes x s)) [
    | inl (bytes, h) ↦ (λ z. ground arith, (bytes, h, ground arith))
    | inr (f, h) ↦ absurd (ground arith)
  ]

  -- A code generated at one time is accepted at another, if the two lie in the same or in
  -- neighbouring steps and that step is later than the last accepted one: `totp` depends on the step
  -- of its time alone.
  pub generate_code-verify_at :
      (issued : ℕ)
      → ((bytes : List ℕ) (time : ℕ)
          → time < 2 ^ 64
          → x.totp time_step 6 bytes ((time / time_step * time_step) % 2 ^ 64)
            ≡ x.totp time_step 6 bytes time)
      → generate_code x issued s time_step ≡ ok code
      → issued < 2 ^ 64
      → issued / time_step ≤ now / time_step + 1
      → now / time_step ≤ issued / time_step + 1
      → Fresh last (issued / time_step)
      → (step : ℕ) × (verify_at x c s code time_step last now ≡ ok (some step))
  generate_code-verify_at issued law e small below above fresh =
      let (positive, (bytes, decoded, right)) = generate_code_inversion issued e in
      let (o, answer, _, complete) = verify_at_lem bytes positive decoded in
      let current : issued / time_step < 2 ^ 64 = grind (arith, div-le_self issued time_step) in
      let accepts : Accepts bytes (issued / time_step) =
        (below, above, (law bytes issued small ∙ right, fresh)) in
      elim (Option-cases o) [
        | inl missed ↦ absurd (complete missed (issued / time_step) current accepts)
        | inr (step, found) ↦ (step, answer ∙ ap ok found)
      ]
