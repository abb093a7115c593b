-- ===== src/TwoFactor/Replay.antt =====
-- Replay of TOTP codes, of src/two_factor.rs: a series of `verify_and_record` calls that persist the
-- last accepted step.
use armature_auth.Prelude.{
  String, Result, Bool, ℕ, true, false, ◌≡◌, List, [], ◌∷◌, Option, none, some, ok, err, arith, ◌≢◌,
  ◌⊎◌, inl, inr, Result-cases, Option-cases, ap, ◌∙◌,
}
use armature_auth.Crypto.{Crypto}
use armature_auth.TwoFactor.{
  TwoFactorError, secret_bytes, Codecs, TotpSecret, verify_at, verify_and_record,
}
use armature_auth.TwoFactor.Codes.{Fresh, verify_at_lem}

-- One login attempt: the code presented, and the clock.
pub record Attempt : Type 0 where
  pub code : String
  pub now : ℕ

abbrev noted : Result TwoFactorError Bool → Option ℕ → List ℕ → List ℕ
noted (ok true) (some step) later = step ∷ later
noted (ok true) none later = later
noted (ok false) last later = later
noted (err e) last later = later

module _ (x : Codecs) (c : Crypto) (s : TotpSecret) (time_step : ℕ) where
  -- The step that each attempt is accepted at, with what was accepted last persisted between them.
  unfoldable pub accepted_steps : Option ℕ → List Attempt → List ℕ
  accepted_steps last [] = []
  accepted_steps last (a ∷ rest) =
      let out = verify_and_record x c a.now s a.code time_step last in
      noted out.0 out.1 (accepted_steps out.1 rest)

  -- Each step is later than the one before, the first than `last`.
  abbrev pub Increasing : Option ℕ → List ℕ → Type 0
  Increasing last [] = Unit
  Increasing last (step ∷ steps) = Fresh last step × Increasing (some step) steps

  verify_at_positive :
      (code : String) (last : Option ℕ) (now : ℕ) (o : Option ℕ)
      → verify_at x c s code time_step last now ≡ ok o
      → (time_step ≢ 0) × ((bytes : List ℕ) × (secret_bytes x s ≡ ok bytes))
  unfolding verify_at
  verify_at_positive code last now o e = elim (Result-cases (secret_bytes x s)) [
    | inl (bytes, h) ↦ (λ z. ground arith, (bytes, h))
    | inr (f, h) ↦ absurd (ground arith)
  ]

  verify_at-Fresh :
      (code : String) (last : Option ℕ) (now step : ℕ)
      → verify_at x c s code time_step last now ≡ ok (some step)
      → Fresh last step
  verify_at-Fresh code last now step e =
      let (positive, (bytes, decoded)) = verify_at_positive code last now (some step) e in
      let (o, answer, sound, _) =
        verify_at_lem x c s code time_step last now bytes positive decoded in
      let found : o ≡ some step = cc in (sound step found).2.1

  -- The answers of `verify_and_record`: an accepted step is fresh, and is what is persisted;
  -- otherwise what was persisted stays.
  record_cases :
      (code : String) (last : Option ℕ) (now : ℕ)
      → ((step : ℕ) × (verify_and_record x c now s code time_step last ≡ (ok true, some step))
          × Fresh last step)
        ⊎ (verify_and_record x c now s code time_step last ≡ (ok false, last))
        ⊎ ((e : TwoFactorError) × (verify_and_record x c now s code time_step last ≡ (err e, last)))
  unfolding verify_and_record
  record_cases code last now = elim (Result-cases (verify_at x c s code time_step last now)) [
    | inl (o, e) ↦ elim (Option-cases o) [
      | inl missed ↦ inr (inl (rw (e, verify_and_record, missed)))
      | inr (step, found) ↦
          let accepted = e ∙ ap ok found in
          inl (step, rw (accepted, verify_and_record), verify_at-Fresh code last now step accepted)
    ]
    | inr (f, e) ↦ inr (inr (f, rw (e, verify_and_record)))
  ]

  -- Over any series of attempts, each with the step persisted by those before, the accepted steps
  -- strictly increase, from past the one persisted at the start: no step is accepted twice, and no
  -- code of an earlier step after a later one.
  pub accepted_steps-Increasing :
      (last : Option ℕ) (attempts : List Attempt) → Increasing last (accepted_steps last attempts)
  unfolding accepted_steps
  accepted_steps-Increasing last [] = tt
  accepted_steps-Increasing last (a ∷ rest) = elim (record_cases a.code last a.now) [
    | inl (step, e, fresh) ↦
        rw (e, accepted_steps) (fresh, accepted_steps-Increasing (some step) rest)
    | inr (inl e) ↦ rw (e, accepted_steps) (accepted_steps-Increasing last rest)
    | inr (inr (f, e)) ↦ rw (e, accepted_steps) (accepted_steps-Increasing last rest)
  ]
